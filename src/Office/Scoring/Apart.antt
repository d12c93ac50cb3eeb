-- ===== src/Office/Scoring/Apart.antt =====
-- Intervals that lie apart: the loop of assertNonOverlapping, and the times that two intervals share.
use workbuddy_buddy.Prelude.{
  ◌<◌, ◌==◌, ltb, AllPairs, All-both, ℕ, ◌≤◌, ◌≡◌, ◌⊎◌, inl, inr, refl, true, false, Option, none,
  some, List, [], ◌∷◌, arith, All, All-map, Bool-cases,
}
use workbuddy_buddy.Edge.Problem.{ok}
use workbuddy_buddy.Office.Scoring.{
  PreviousEnd, nothing, at, never, is_empty, end_of, starts_before, assert_non_overlapping,
}
use workbuddy_buddy.Office.Intervals.{EligibilityInterval}

-- `t` lies in the interval, whose end does not belong to it.
abbrev pub Holds : ℕ → EligibilityInterval → Type 0
Holds t i =
    (i.started_at_ms ≤ t) × (elim i.ended_at_ms [ none ↦ Unit {0} | some ended ↦ t < ended ])

-- No time lies in two of the intervals.
abbrev pub NeverTwice : List EligibilityInterval → Type 0
NeverTwice = AllPairs (λ i j. (t : ℕ) → ¬ (Holds t i × Holds t j))

-- `j` is empty, or does not start before an end.
abbrev pub Clears : PreviousEnd → EligibilityInterval → Type 0
Clears previous j = (is_empty j ≡ true) ⊎ (starts_before j.started_at_ms previous ≡ false)

-- Of two intervals one is empty, or the second does not start before the first has ended.
abbrev pub Apart : EligibilityInterval → EligibilityInterval → Type 0
Apart i j = (is_empty i ≡ true) ⊎ Clears (end_of i) j

-- Any two intervals, in the order of the list.
abbrev pub Disjoint : List EligibilityInterval → Type 0
Disjoint [] = Unit
Disjoint (i ∷ is) = All (Apart i) is × Disjoint is

abbrev pub IsOrdered : EligibilityInterval → Type 0
IsOrdered i = elim i.ended_at_ms [ none ↦ Unit {0} | some ended ↦ i.started_at_ms ≤ ended ]

Clears-earlier :
    (previous : PreviousEnd) (i j : EligibilityInterval)
    → IsOrdered i
    → starts_before i.started_at_ms previous ≡ false
    → Clears (end_of i) j
    → Clears previous j
Clears-earlier nothing i j v h c = ground arith
Clears-earlier (at p) i j v h c = ground arith
Clears-earlier never i j v h c = ground arith

All-earlier :
    (previous : PreviousEnd) (i : EligibilityInterval) (is : List EligibilityInterval)
    → IsOrdered i
    → starts_before i.started_at_ms previous ≡ false
    → All (Clears (end_of i)) is
    → All (Clears previous) is
All-earlier previous i is v h = All-map _ _ (λ j. Clears-earlier previous i j v h) is

All-empty :
    (i : EligibilityInterval) (is : List EligibilityInterval) → is_empty i ≡ true → All (Apart i) is
All-empty i [] e = tt
All-empty i (j ∷ js) e = (inl e, All-empty i js e)

pub non_overlapping→ :
    (previous : PreviousEnd) (is : List EligibilityInterval)
    → All IsOrdered is
    → assert_non_overlapping previous is ≡ ok tt
    → All (Clears previous) is × Disjoint is
unfolding assert_non_overlapping
non_overlapping→ previous [] v e = (tt, tt)
non_overlapping→ previous (i ∷ is) v e = elim (Bool-cases (is_empty i)) [
  | inl empty ↦
      let rest = non_overlapping→ previous is v.1 (ground (arith, e, empty)) in
      ((inl empty, rest.0), (All-empty i is empty, rest.1))
  | inr full ↦
      let clear : starts_before i.started_at_ms previous ≡ false = ground (arith, e, full) in
      let rest = non_overlapping→ (end_of i) is v.1 (ground (arith, e, full)) in
      (
        (inr clear, All-earlier previous i is v.0 clear rest.0),
        (All-map _ _ (λ j c. inr c) is rest.0, rest.1),
      )
]

pub Disjoint-clear :
    (i : EligibilityInterval) (is : List EligibilityInterval)
    → is_empty i ≡ false
    → All (Apart i) is
    → All (Clears (end_of i)) is
Disjoint-clear i is full = All-map _ _ (λ j c. ground (arith, c, full)) is

pub non_overlapping← :
    (previous : PreviousEnd) (is : List EligibilityInterval)
    → All (Clears previous) is
    → Disjoint is
    → assert_non_overlapping previous is ≡ ok tt
unfolding assert_non_overlapping
non_overlapping← previous [] c d = refl
non_overlapping← previous (i ∷ is) c d = elim (Bool-cases (is_empty i)) [
  | inl empty ↦ rw empty (non_overlapping← previous is c.1 d.1)
  | inr full ↦
      let clear : starts_before i.started_at_ms previous ≡ false = ground (arith, c.0, full) in
      rw (full, clear) (non_overlapping← (end_of i) is (Disjoint-clear i is full d.0) d.1)
]

pub Clears-nothing : (is : List EligibilityInterval) → All (Clears nothing) is
Clears-nothing [] = tt
Clears-nothing (i ∷ is) = (inr refl, Clears-nothing is)

-- Of two intervals in the order of their starts, `Apart` says that they share no time.
Apart-shares : (i j : EligibilityInterval) (t : ℕ) → Apart i j → Holds t i → Holds t j → ⊥
Apart-shares i j t a h k = shares i.started_at_ms i.ended_at_ms j.started_at_ms j.ended_at_ms a h k
  where
    shares :
        (s : ℕ) (e : Option ℕ) (s' : ℕ) (e' : Option ℕ)
        → Apart
            (record { started_at_ms = s; ended_at_ms = e })
            (record { started_at_ms = s'; ended_at_ms = e' })
        → Holds t (record { started_at_ms = s; ended_at_ms = e })
        → Holds t (record { started_at_ms = s'; ended_at_ms = e' })
        → ⊥
    shares s none s' none a h k = ground (arith, a)
    shares s none s' (some e') a h k = ground (arith, a, h, k)
    shares s (some e) s' none a h k = ground (arith, a, h, k)
    shares s (some e) s' (some e') a h k = ground (arith, a, h, k)

Apart-of :
    (i j : EligibilityInterval)
    → IsOrdered i
    → IsOrdered j
    → i.started_at_ms ≤ j.started_at_ms
    → ((t : ℕ) → ¬ (Holds t i × Holds t j))
    → Apart i j
Apart-of i j v w l h =
    of i.started_at_ms i.ended_at_ms j.started_at_ms j.ended_at_ms v w l (h j.started_at_ms)
  where
    of :
        (s : ℕ) (e : Option ℕ) (s' : ℕ) (e' : Option ℕ)
        → IsOrdered (record { started_at_ms = s; ended_at_ms = e })
        → IsOrdered (record { started_at_ms = s'; ended_at_ms = e' })
        → s ≤ s'
        → ¬ (
            Holds s' (record { started_at_ms = s; ended_at_ms = e })
            × Holds s' (record { started_at_ms = s'; ended_at_ms = e' }))
        → Apart
            (record { started_at_ms = s; ended_at_ms = e })
            (record { started_at_ms = s'; ended_at_ms = e' })
    of s none s' none v w l h = absurd (h ((l, tt), (omega arith, tt)))
    of s none s' (some e') v w l h = elim (Bool-cases (e' == s')) [
      | inl empty ↦ inr (inl empty)
      | inr full ↦ absurd (h ((l, tt), (omega arith, ground (arith, full, w))))
    ]
    of s (some e) s' none v w l h = elim (Bool-cases (ltb s' e)) [
      | inl before ↦ absurd (h ((l, ground (arith, before)), (omega arith, tt)))
      | inr after ↦ inr (inr after)
    ]
    of s (some e) s' (some e') v w l h = elim (Bool-cases (ltb s' e)) [
      | inr after ↦ inr (inr after)
      | inl before ↦ elim (Bool-cases (e' == s')) [
        | inl empty ↦ inr (inl empty)
        | inr full ↦
            absurd (h ((l, ground (arith, before)), (omega arith, ground (arith, full, w))))
      ]
    ]

pub Disjoint-NeverTwice : (is : List EligibilityInterval) → Disjoint is → NeverTwice is
Disjoint-NeverTwice [] d = tt
Disjoint-NeverTwice (i ∷ is) d = (
  All-map (Apart i) _ (λ j a t (h, k). Apart-shares i j t a h k) is d.0,
  Disjoint-NeverTwice is d.1,
)

pub NeverTwice-Disjoint :
    (is : List EligibilityInterval)
    → All IsOrdered is
    → AllPairs (λ i j. i.started_at_ms ≤ j.started_at_ms) is
    → NeverTwice is
    → Disjoint is
NeverTwice-Disjoint [] v l n = tt
NeverTwice-Disjoint (i ∷ is) v l n = (
  All-both (λ j. IsOrdered j × (i.started_at_ms ≤ j.started_at_ms)) _ (Apart i) is
      (λ j (w, le) h. Apart-of i j v.0 w le h)
      (All-both IsOrdered _ _ is (λ j w le. (w, le)) v.1 l.0) n.0,
  NeverTwice-Disjoint is v.1 l.1 n.1,
)
