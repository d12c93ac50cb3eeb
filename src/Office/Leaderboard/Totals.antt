-- ===== src/Office/Leaderboard/Totals.antt =====
-- What the statement counts: the times at which the owner's pet is idle, the owner takes part, and the
-- office is open, each once; and the total is that of domain/scoring.ts for the merged segments.
use mathlib.Core.Path.{subst}
use workbuddy_buddy.Prelude.{
  ℕ, ◌≤◌, ◌<◌, ◌≡◌, ◌⊎◌, refl, sym, ap, ◌∙◌, inl, inr, Bool, true, false, ◌&&◌, ◌||◌, Option, none,
  some, List, [], ◌∷◌, ◌++◌, leb, ltb, any, keep, min, max, All, All-map, All-sort, AllPairs,
  Bool-cases, ltb→lt, place, sort, sort-Sorted, compare, compare-Lawful, first_difference,
  first_difference-Lawful, on_key-Lawful, not_after_trans, not_after_total, Lawful, arith,
}
use workbuddy_buddy.Office.Leaderboard.{
  ActivityRow, QualifiedRow, OccurrenceRow, MountRows, Segment, coalesce, activity_end, is_joined,
  intersection, with_occurrences, with_qualifications, raw_intersections, is_valid, segment_before,
  ordered_intersections, segments_of,
}
use workbuddy_buddy.Office.Leaderboard.Islands.{
  IsSegment, InOrder, AreApart, holds, islands_of-lem, segments-islands,
}

-- The seven comparisons of a time.
abbrev within : ℕ → ℕ → ℕ → ℕ → ℕ → ℕ → ℕ → ℕ → Bool
within as_of t started ended qualified until opens closes =
    leb started t
    && ltb t ended
    && leb qualified t
    && ltb t until
    && leb opens t
    && ltb t closes
    && ltb t as_of

-- A time counts for an activity, a qualification and an occurrence if all of them hold it, and it is
-- before the time of the query.
unfoldable pub counts : ℕ → ℕ → ActivityRow → QualifiedRow → OccurrenceRow → Bool
counts as_of t a q o =
    a.is_eligible_idle
    && within as_of t a.started_at (activity_end a as_of) q.started_at (coalesce q.ended_at as_of)
        o.starts_at o.ends_at

-- A time counts for a mount if it counts for some of its rows.
unfoldable pub counts_for : ℕ → ℕ → List OccurrenceRow → MountRows → Bool
counts_for as_of t occurrences m =
    any (λ a. any (λ q. any (counts as_of t a q) occurrences) m.qualifications) m.activities

leb-max : (a b t : ℕ) → leb (max a b) t ≡ (leb a t && leb b t)
leb-max a b t = ground arith

ltb-min : (a b t : ℕ) → ltb t (min a b) ≡ (ltb t a && ltb t b)
ltb-min a b t = ground arith

and_shuffle :
    (a b c d e f g : Bool)
    → ((a && (c && e)) && (b && (d && (f && g)))) ≡ (a && b && c && d && e && f && g)
and_shuffle true true true true true f g = refl
and_shuffle true true true true false f g = refl
and_shuffle true true true false e f g = ground arith
and_shuffle true true false d e f g = refl
and_shuffle true false c d e f g = ground arith
and_shuffle false b c d e f g = refl

holds-within :
    (as_of t started ended qualified until opens closes : ℕ)
    → holds t (record {
      start = max started (max qualified opens);
      end = min ended (min until (min closes as_of));
    })
      ≡ within as_of t started ended qualified until opens closes
holds-within as_of t started ended qualified until opens closes =
    rw
      (
        leb-max started (max qualified opens) t,
        leb-max qualified opens t,
        ltb-min ended (min until (min closes as_of)) t,
        ltb-min until (min closes as_of) t,
        ltb-min closes as_of t,
      )
      (and_shuffle (leb started t) (ltb t ended) (leb qualified t) (ltb t until) (leb opens t)
        (ltb t closes) (ltb t as_of))

-- A time that is within makes the conditions of the join hold.
within-joined :
    (as_of t started ended qualified until opens closes visible : ℕ)
    → (ended ≤ visible) ⊎ (visible ≡ as_of)
    → within as_of t started ended qualified until opens closes ≡ true
    → (ltb started closes && ltb opens visible && ltb qualified closes && ltb opens until) ≡ true
within-joined as_of t started ended qualified until opens closes visible v w =
    let first : (started ≤ t) × (t < ended) × (qualified ≤ t) × (t < until) = ground (arith, w) in
    let rest : (opens ≤ t) × (t < closes) × (t < as_of) = ground (arith, w) in
    ground (arith, first, rest, v)

visible_end :
    (as_of : ℕ) (a : ActivityRow)
    → (activity_end a as_of ≤ coalesce a.ended_at as_of) ⊎ (coalesce a.ended_at as_of ≡ as_of)
visible_end as_of a = ended_or a.ended_at
  where
    ended_or :
        (ended : Option ℕ)
        → (activity_end (record a { ended_at = ended }) as_of ≤ coalesce ended as_of)
          ⊎ (coalesce ended as_of ≡ as_of)
    ended_or none = inr refl
    ended_or (some d) = inl (omega arith)

intersection-counts :
    (as_of t : ℕ) (a : ActivityRow) (q : QualifiedRow) (o : OccurrenceRow)
    → (is_joined a q o as_of && holds t (intersection a q o as_of)) ≡ counts as_of t a q o
unfolding is_joined intersection counts
intersection-counts as_of t a q o =
    let ended = activity_end a as_of in
    let until = coalesce q.ended_at as_of in
    rw (holds-within as_of t a.started_at ended q.started_at until o.starts_at o.ends_at) (
      by_case a.is_eligible_idle _ _ (
        within-joined as_of t a.started_at ended q.started_at until o.starts_at o.ends_at
          (coalesce a.ended_at as_of) (visible_end as_of a)))
  where
    by_case :
        (idle joins inside : Bool)
        → (inside ≡ true → joins ≡ true)
        → ((idle && joins) && inside) ≡ (idle && inside)
    by_case false joins inside h = refl
    by_case true joins true h = rw (h refl) refl
    by_case true joins false h = ground arith

module _ {ℓ} {A : Type ℓ} (p : A → Bool) where
  any-append : (xs ys : List A) → any p (xs ++ ys) ≡ (any p xs || any p ys)
  any-append [] ys = refl
  any-append (x ∷ xs) ys = elim (Bool-cases (p x)) [
    | inl e ↦ rw e refl
    | inr e ↦ rw e (any-append xs ys)
  ]

  any-place : (le : A → A → Bool) (x : A) (xs : List A) → any p (place le x xs) ≡ (p x || any p xs)
  unfolding place
  any-place le x [] = refl
  any-place le x (y ∷ ys) = elim (Bool-cases (le x y)) [
    | inl e ↦ rw e refl
    | inr e ↦ rw e (ground (arith, any-place le x ys))
  ]

  any-sort : (le : A → A → Bool) (xs : List A) → any p (sort le xs) ≡ any p xs
  unfolding sort
  any-sort le [] = refl
  any-sort le (x ∷ xs) = any-place le x (sort le xs) ∙ ap (λ b. p x || b) (any-sort le xs)

any-valid : (t : ℕ) (ss : List Segment) → any (holds t) (keep is_valid ss) ≡ any (holds t) ss
any-valid t [] = refl
any-valid t (s ∷ ss) = elim (Bool-cases (is_valid s)) [
  | inl e ↦ rw e (ap (λ b. holds t s || b) (any-valid t ss))
  | inr e ↦ let empty : holds t s ≡ false = ground (arith, e) in rw (e, empty) (any-valid t ss)
]

module _ (as_of t : ℕ) (os : List OccurrenceRow) where
  occurrences-counts :
      (a : ActivityRow) (q : QualifiedRow) (os : List OccurrenceRow)
      → any (holds t) (with_occurrences a q os as_of) ≡ any (counts as_of t a q) os
  unfolding with_occurrences
  occurrences-counts a q [] = refl
  occurrences-counts a q (o ∷ os) = elim (Bool-cases (is_joined a q o as_of)) [
    | inl e ↦
        let here : holds t (intersection a q o as_of) ≡ counts as_of t a q o =
          subst (λ b. (b && holds t (intersection a q o as_of)) ≡ counts as_of t a q o) e
            (intersection-counts as_of t a q o) in
        rw (e, here) (ap (λ b. counts as_of t a q o || b) (occurrences-counts a q os))
    | inr e ↦
        let nowhere : false ≡ counts as_of t a q o =
          subst (λ b. (b && holds t (intersection a q o as_of)) ≡ counts as_of t a q o) e
            (intersection-counts as_of t a q o) in
        rw (e, sym nowhere) (occurrences-counts a q os)
  ]

  qualifications-counts :
      (a : ActivityRow) (qs : List QualifiedRow)
      → any (holds t) (with_qualifications a qs os as_of)
        ≡ any (λ q. any (counts as_of t a q) os) qs
  unfolding with_qualifications
  qualifications-counts a [] = refl
  qualifications-counts a (q ∷ qs) =
      any-append (holds t) (with_occurrences a q os as_of) (with_qualifications a qs os as_of)
      ∙ rw (occurrences-counts a q os, qualifications-counts a qs) refl

  intersections-counts :
      (activities : List ActivityRow) (qs : List QualifiedRow)
      → any (holds t) (raw_intersections activities qs os as_of)
        ≡ any (λ a. any (λ q. any (counts as_of t a q) os) qs) activities
  unfolding raw_intersections
  intersections-counts [] qs = refl
  intersections-counts (a ∷ activities) qs =
      any-append (holds t) (with_qualifications a qs os as_of)
        (raw_intersections activities qs os as_of)
      ∙ rw (qualifications-counts a qs, intersections-counts activities qs) refl

All-valid : (ss : List Segment) → All IsSegment (keep is_valid ss)
All-valid [] = tt
All-valid (s ∷ ss) = elim (Bool-cases (is_valid s)) [
  | inl e ↦ rw e (ltb→lt s.start s.end e, All-valid ss)
  | inr e ↦ rw e (All-valid ss)
]

pub ordered-IsSegment : (ss : List Segment) → All IsSegment (ordered_intersections ss)
unfolding ordered_intersections
ordered-IsSegment ss = All-sort segment_before IsSegment (keep is_valid ss) (All-valid ss)

segments-Lawful :
    Lawful (λ (a b : Segment). first_difference (compare a.start b.start) (compare a.end b.end))
segments-Lawful =
    first_difference-Lawful _ _ (on_key-Lawful compare compare-Lawful (λ (s : Segment). s.start))
      (on_key-Lawful compare compare-Lawful (λ (s : Segment). s.end))

InOrder-of : (ss : List Segment) → AllPairs (λ a b. segment_before a b ≡ true) ss → InOrder ss
InOrder-of [] h = tt
InOrder-of (s ∷ ss) (h, hs) = (All-map _ _ (λ r e. ground (arith, e)) ss h, InOrder-of ss hs)

ordered-InOrder : (ss : List Segment) → InOrder (ordered_intersections ss)
unfolding ordered_intersections
ordered-InOrder ss = InOrder-of (sort segment_before (keep is_valid ss)) (
    sort-Sorted segment_before (not_after_trans _ segments-Lawful)
      (not_after_total _ segments-Lawful) (keep is_valid ss))

-- The segments that are scored for a mount have a length and lie apart, each starting no earlier than
-- those before it end, and together they hold exactly the times that count for the mount, each once.
pub segments_of-covers :
    (occurrences : List OccurrenceRow) (as_of t : ℕ) (m : MountRows)
    → All IsSegment (segments_of occurrences as_of m)
      × AreApart (segments_of occurrences as_of m)
      × (any (holds t) (segments_of occurrences as_of m) ≡ counts_for as_of t occurrences m)
unfolding segments_of counts_for ordered_intersections
segments_of-covers occurrences as_of t m =
    let raw = raw_intersections m.activities m.qualifications occurrences as_of in
    let (long, apart, covered) =
      islands_of-lem t (ordered_intersections raw) (ordered-IsSegment raw) (ordered-InOrder raw) in
    rw (segments-islands (ordered_intersections raw) (ordered-IsSegment raw)) (
      long,
      apart,
      covered
          ∙ any-sort (holds t) segment_before (keep is_valid raw)
          ∙ any-valid t raw
          ∙ intersections-counts as_of t occurrences m.activities m.qualifications,
    )
