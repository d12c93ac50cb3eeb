-- ===== src/Office/Leaderboard/Islands.antt =====
-- The groups that the window functions number are the islands of the segments: intervals that lie
-- apart and cover the same times.
use workbuddy_buddy.Prelude.{
  ℕ, ◌+◌, ◌≤◌, ◌<◌, ◌≡◌, refl, ap, ◌∙◌, inl, inr, Bool, true, false, ◌||◌, ◌&&◌, none, some, List,
  [], ◌∷◌, map, leb, ltb, ◌==◌, if◌then◌else◌, any, update_where, min, max, All, All-map, AllPairs,
  Bool-cases, leb→le, arith,
}
use workbuddy_buddy.Office.Leaderboard.{
  Segment, starts_new_island, Islanded, islanded, widen, add_row, merged_segments,
}

abbrev pub joined : Segment → Segment → Segment
joined a b = record { start = min a.start b.start; end = max a.end b.end }

-- The islands of segments in order, from the one that is being built.
unfoldable pub islands : Segment → List Segment → List Segment
islands current [] = current ∷ []
islands current (s ∷ ss) =
    let fresh = islands s ss in
    let wider = islands (joined current s) ss in
    if leb current.end s.start then current ∷ fresh else wider

numbered : ℕ → List Segment → List Islanded
numbered id [] = []
numbered id (s ∷ ss) = record { island_id = id; segment = s } ∷ numbered (id + 1) ss

any-above :
    (id k : ℕ) (ss : List Segment) → id < k → any (λ g. g.island_id == id) (numbered k ss) ≡ false
unfolding numbered
any-above id k [] l = refl
any-above id k (s ∷ ss) l = ground (arith, any-above id (k + 1) ss (omega (arith, l)))

same_id : (id : ℕ) → (id == id) ≡ true
same_id id = ground arith

widen-joined : (a b : Segment) (g : Islanded) → widen a (widen b g) ≡ widen (joined a b) g
widen-joined a b g =
    let starts : min a.start (min b.start g.segment.start)
        ≡ min (min a.start b.start) g.segment.start =
      omega arith in
    let ends : max a.end (max b.end g.segment.end) ≡ max (max a.end b.end) g.segment.end =
      omega arith in
    rw (starts, ends) refl

module _ (id : ℕ) where
  abbrev is_in : Islanded → Bool
  is_in g = g.island_id == id

  update-none :
      (a : Segment) (gs : List Islanded)
      → any is_in gs ≡ false
      → update_where is_in (widen a) gs ≡ gs
  update-none a [] e = refl
  update-none a (g ∷ gs) e = elim (Bool-cases (is_in g)) [
    | inl f ↦ cc (rw f at e)
    | inr f ↦ rw f (ap (λ r. g ∷ r) (update-none a gs (rw f at e)))
  ]

  any-update :
      (a : Segment) (gs : List Islanded)
      → any is_in (update_where is_in (widen a) gs) ≡ any is_in gs
  any-update a [] = refl
  any-update a (g ∷ gs) = elim (Bool-cases (is_in g)) [
    | inl f ↦ rw (f) (rw f refl)
    | inr f ↦ rw (f) (rw (f, any-update a gs) refl)
  ]

  update-joined :
      (a b : Segment) (gs : List Islanded)
      → update_where is_in (widen a) (update_where is_in (widen b) gs)
        ≡ update_where is_in (widen (joined a b)) gs
  update-joined a b [] = refl
  update-joined a b (g ∷ gs) = elim (Bool-cases (is_in g)) [
    | inl f ↦ rw f (rw (f, widen-joined a b g, update-joined a b gs) refl)
    | inr f ↦ rw f (rw (f, update-joined a b gs) refl)
  ]

  -- Rows of one group can be joined before they are added.
  add_row-joined :
      (a b : Segment) (gs : List Islanded)
      → add_row
          (record { island_id = id; segment = a })
          (add_row (record { island_id = id; segment = b }) gs)
        ≡ add_row (record { island_id = id; segment = joined a b }) gs
  unfolding add_row
  add_row-joined a b gs = elim (Bool-cases (any is_in gs)) [
    | inl e ↦ rw e (rw (any-update b gs, e) (update-joined a b gs))
    | inr e ↦ rw e (rw (same_id id, update-none a gs e) refl)
  ]

-- Each segment has a length.
abbrev pub IsSegment : Segment → Type 0
IsSegment s = s.start < s.end

-- The numbered groups are the islands, numbered on.
islanded-islands :
    (id : ℕ) (current : Segment) (ss : List Segment)
    → IsSegment current
    → All IsSegment ss
    → add_row
        (record { island_id = id; segment = current })
        (merged_segments (islanded (some current.end) id ss))
      ≡ numbered id (islands current ss)
unfolding islanded merged_segments islands numbered starts_new_island add_row
islanded-islands id current [] c h = refl
islanded-islands id current (s ∷ ss) c (l, h) = elim (Bool-cases (leb current.end s.start)) [
  | inl apart ↦
      let longer : max current.end s.end ≡ s.end = ground (arith, apart, l) in
      rw (apart, longer, islanded-islands (id + 1) s ss l h)
        (rw (any-above id (id + 1) (islands s ss) (omega arith)) refl)
  | inr meets ↦ rw meets (
      add_row-joined id current s (merged_segments (islanded (some (max current.end s.end)) id ss))
      ∙ islanded-islands id (joined current s) ss (ground (arith, c, l)) h)
]

abbrev pub islands_of : List Segment → List Segment
islands_of [] = []
islands_of (s ∷ ss) = islands s ss

segments-numbered : (id : ℕ) (ss : List Segment) → map (λ g. g.segment) (numbered id ss) ≡ ss
unfolding numbered
segments-numbered id [] = refl
segments-numbered id (s ∷ ss) = ap (λ r. s ∷ r) (segments-numbered (id + 1) ss)

-- The groups of segments are their islands.
pub segments-islands :
    (ss : List Segment)
    → All IsSegment ss
    → map (λ g. g.segment) (merged_segments (islanded none 0 ss)) ≡ islands_of ss
unfolding islanded merged_segments starts_new_island
segments-islands [] h = refl
segments-islands (s ∷ ss) (l, h) =
    ap (map (λ g. g.segment)) (islanded-islands 1 s ss l h) ∙ segments-numbered 1 (islands s ss)

-- Each starts no earlier than those before it.
abbrev pub InOrder : List Segment → Type 0
InOrder = AllPairs (λ a b. a.start ≤ b.start)

-- Each starts no earlier than those before it end.
abbrev pub AreApart : List Segment → Type 0
AreApart = AllPairs (λ a b. a.end ≤ b.start)

abbrev After : ℕ → List Segment → Type 0
After start = All (λ i. (start ≤ i.start) × IsSegment i)

After-later :
    (start later : ℕ) (is : List Segment) → start ≤ later → After later is → After start is
After-later start later is l = All-map _ _ (λ i h. (omega (arith, h.0), h.1)) is

islands-AreApart :
    (current : Segment) (ss : List Segment)
    → IsSegment current
    → All IsSegment ss
    → All (λ s. current.start ≤ s.start) ss
    → InOrder ss
    → After current.start (islands current ss) × AreApart (islands current ss)
unfolding islands
islands-AreApart current [] c h l o = (((omega arith, c), tt), (tt, tt))
islands-AreApart current (s ∷ ss) c (hs, h) (ls, l) (os, o) =
    elim (Bool-cases (leb current.end s.start)) [
      | inl e ↦
          let behind : current.end ≤ s.start = leb→le current.end s.start e in
          let (after, pairs) = islands-AreApart s ss hs h os o in
          rw e (
            ((omega arith, c), After-later current.start s.start (islands s ss) ls after),
            (All-map _ _ (λ i k. omega (arith, k.0, behind)) (islands s ss) after, pairs),
          )
      | inr e ↦
          let first : min current.start s.start ≡ current.start = omega (arith, ls) in
          let (after, pairs) =
            islands-AreApart (joined current s) ss (ground (arith, c, hs)) h
              (All-map _ _ (λ x k. omega (arith, k)) ss l) o in
          rw e (
            After-later current.start (min current.start s.start) _ (omega (arith, first)) after,
            pairs,
          )
    ]

-- Whether a segment holds a time.
abbrev pub holds : ℕ → Segment → Bool
holds t s = leb s.start t && ltb t s.end

or_assoc : (a b c : Bool) → ((a || b) || c) ≡ (a || (b || c))
or_assoc true b c = refl
or_assoc false b c = refl

islands-covers :
    (t : ℕ) (current : Segment) (ss : List Segment)
    → All (λ s. current.start ≤ s.start) ss
    → InOrder ss
    → any (holds t) (islands current ss) ≡ (holds t current || any (holds t) ss)
unfolding islands
islands-covers t current [] l o = refl
islands-covers t current (s ∷ ss) (ls, l) (os, o) = elim (Bool-cases (leb current.end s.start)) [
  | inl e ↦ rw e (ap (λ b. holds t current || b) (islands-covers t s ss os o))
  | inr e ↦
      let both : holds t (joined current s) ≡ (holds t current || holds t s) =
        ground (arith, e, ls) in
      rw e (
        islands-covers t (joined current s) ss (All-map _ _ (λ x k. omega (arith, k)) ss l) o
        ∙ rw both (or_assoc (holds t current) (holds t s) (any (holds t) ss)))
]

pub islands_of-lem :
    (t : ℕ) (ss : List Segment)
    → All IsSegment ss
    → InOrder ss
    → All IsSegment (islands_of ss)
      × AreApart (islands_of ss)
      × (any (holds t) (islands_of ss) ≡ any (holds t) ss)
islands_of-lem t [] h o = (tt, tt, refl)
islands_of-lem t (s ∷ ss) (l, h) (os, o) =
    let (after, pairs) = islands-AreApart s ss l h os o in
    (All-map _ _ (λ i k. k.1) (islands s ss) after, pairs, islands-covers t s ss os o)
