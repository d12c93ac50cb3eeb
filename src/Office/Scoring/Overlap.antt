-- ===== src/Office/Scoring/Overlap.antt =====
-- No time is counted twice: the intervals of a score lie apart, and what they score fits into the time
-- up to the scoring.
use workbuddy_buddy.Prelude.{
  AllPairs, ℕ, ◌+◌, ◌*◌, ◌≤◌, ◌≡◌, ◌↔◌, inl, inr, ap, not, Option, none, some, List, [], ◌∷◌, arith,
  if◌then◌else◌, min, All, All-map, All-sort, Bool-cases,
}
use workbuddy_buddy.Edge.Problem.{Result, ok, throws, fault, >>=-eq-ok, throw_if-eq-ok}
use workbuddy_buddy.Office.Scoring.Scores.{seconds_scored, score_of}
use workbuddy_buddy.Office.Scoring.{
  PreviousEnd, nothing, at, never, is_empty, end_of, assert_non_overlapping, assert_intervals,
  add_score, add_scores, sort_intervals, score_candidate,
}
use workbuddy_buddy.Office.Intervals.{
  is_safe_integer, EligibilityInterval, LeaderboardCandidate, CandidateScore, IntervalScore,
  assert_interval, no_score, score_eligibility_interval, assert_timestamp, assert_identifier,
}
use workbuddy_buddy.Office.Scoring.Apart.{
  non_overlapping→, Disjoint-clear, non_overlapping←, Clears-nothing, Disjoint-NeverTwice,
  NeverTwice-Disjoint, NeverTwice, Clears, Disjoint, IsOrdered,
}

-- The check passes a list of intervals in the order of their starts, each of which ends no sooner than
-- it starts, exactly if no time lies in two of them.
pub assert_non_overlapping_iff :
    (is : List EligibilityInterval)
    → All IsOrdered is
    → AllPairs (λ i j. i.started_at_ms ≤ j.started_at_ms) is
    → (assert_non_overlapping nothing is ≡ ok tt) ↔ NeverTwice is
assert_non_overlapping_iff is v l = (
  λ e. Disjoint-NeverTwice is (non_overlapping→ nothing is v e).1,
  λ n. non_overlapping← nothing is (Clears-nothing is) (NeverTwice-Disjoint is v l n),
)

-- The time up to which the intervals so far have been counted.
abbrev counted : PreviousEnd → ℕ → ℕ
counted nothing as_of = 0
counted (at p) as_of = min p as_of
counted never as_of = as_of

interval_fits :
    (previous : PreviousEnd) (i : EligibilityInterval) (as_of n : ℕ)
    → n ≡ seconds_scored i as_of
    → IsOrdered i
    → Clears previous i
    → n * 1000 + counted previous as_of ≤ counted (if is_empty i then previous else end_of i) as_of
interval_fits previous i as_of n e v c = fits previous i.started_at_ms i.ended_at_ms e v c
  where
    fits :
        (previous : PreviousEnd) (started : ℕ) (ended : Option ℕ)
        → n ≡ seconds_scored (record { started_at_ms = started; ended_at_ms = ended }) as_of
        → IsOrdered (record { started_at_ms = started; ended_at_ms = ended })
        → Clears previous (record { started_at_ms = started; ended_at_ms = ended })
        → n * 1000 + counted previous as_of
          ≤ counted
              (if is_empty (record { started_at_ms = started; ended_at_ms = ended })
                then previous
                else end_of (record { started_at_ms = started; ended_at_ms = ended }))
              as_of
    fits nothing started none e v c = omega (arith, e)
    fits nothing started (some ended) e v c = ground (arith, e, v, c)
    fits (at p) started none e v c = ground (arith, e, c)
    fits (at p) started (some ended) e v c = ground (arith, e, v, c)
    fits never started none e v c = ground (arith, c)
    fits never started (some ended) e v c = ground (arith, e, v, c)

IsOrdered-of :
    (i : EligibilityInterval) (as_of : ℕ) (s : IntervalScore)
    → score_eligibility_interval i as_of ≡ ok s
    → IsOrdered i
IsOrdered-of i as_of s e = ordered i.started_at_ms i.ended_at_ms e
  where
    ordered :
        (started : ℕ) (ended : Option ℕ)
        → score_eligibility_interval (record { started_at_ms = started; ended_at_ms = ended }) as_of
          ≡ ok s
        → IsOrdered (record { started_at_ms = started; ended_at_ms = ended })
    ordered started none f = tt
    ordered started (some ended) f = unfold score_eligibility_interval in ground (arith, f)

counted-le : (previous : PreviousEnd) (as_of : ℕ) → counted previous as_of ≤ as_of
counted-le nothing as_of = omega arith
counted-le (at p) as_of = omega arith
counted-le never as_of = omega arith

add_scores-fits :
    (previous : PreviousEnd) (as_of : ℕ) (is : List EligibilityInterval)
    (total result : IntervalScore)
    → add_scores as_of is total ≡ ok result
    → All (Clears previous) is
    → Disjoint is
    → result.slacking_seconds * 1000 + counted previous as_of
      ≤ total.slacking_seconds * 1000 + as_of
unfolding add_scores
add_scores-fits previous as_of [] total result e c d =
    omega (arith, counted-le previous as_of, ap (λ (r : Result IntervalScore). slack r) e)
  where
    slack : Result IntervalScore → ℕ
    slack (ok s) = s.slacking_seconds
    slack (throws f) = 0
add_scores-fits previous as_of (i ∷ is) total result e c d =
    let (s, scored, e') = >>=-eq-ok (score_eligibility_interval i as_of) _ e in
    let (_, rest) =
      throw_if-eq-ok (not (is_safe_integer (add_score total s).slacking_seconds)) fault
        (add_scores as_of is (add_score total s)) e' in
    let here =
      interval_fits previous i as_of s.slacking_seconds (score_of i as_of s scored)
        (IsOrdered-of i as_of s scored) c.0 in
    elim (Bool-cases (is_empty i)) [
      | inl empty ↦
          let later = add_scores-fits previous as_of is (add_score total s) result rest c.1 d.1 in
          omega (arith, later, rw empty at here)
      | inr full ↦
          let later =
            add_scores-fits (end_of i) as_of is (add_score total s) result rest
              (Disjoint-clear i is full d.0) d.1 in
          omega (arith, later, rw full at here)
    ]

All-at :
    (n : ℕ) (is : List EligibilityInterval)
    → All (λ i. n ≤ i.started_at_ms) is
    → All (Clears (at n)) is
All-at n is = All-map _ _ (λ i h. inr (ground (arith, h))) is

assert_intervals-IsOrdered :
    (is : List EligibilityInterval) → assert_intervals is ≡ ok tt → All IsOrdered is
unfolding assert_intervals
assert_intervals-IsOrdered [] e = tt
assert_intervals-IsOrdered (i ∷ is) e =
    let (_, checked, rest) = >>=-eq-ok (assert_interval i) _ e in
    (
      assert_interval-IsOrdered i.started_at_ms i.ended_at_ms checked,
      assert_intervals-IsOrdered is rest,
    )
  where
    assert_interval-IsOrdered :
        (started : ℕ) (ended : Option ℕ)
        → assert_interval (record { started_at_ms = started; ended_at_ms = ended }) ≡ ok tt
        → IsOrdered (record { started_at_ms = started; ended_at_ms = ended })
    assert_interval-IsOrdered started none f = tt
    assert_interval-IsOrdered started (some ended) f = unfold assert_interval in ground (arith, f)

-- A candidate that can be scored, and whose intervals all start at `n` or later (`n` no later than the
-- time of scoring), has at most the seconds between `n` and the time of scoring.
pub score_candidate-fits :
    (as_of n : ℕ) (c : LeaderboardCandidate) (s : CandidateScore)
    → score_candidate as_of c ≡ ok s
    → All (λ i. n ≤ i.started_at_ms) c.intervals
    → n ≤ as_of
    → s.slacking_seconds * 1000 + n ≤ as_of
unfolding score_candidate sort_intervals
score_candidate-fits as_of n c s e late l =
    let (_, _, e₁) = >>=-eq-ok (assert_timestamp as_of) _ e in
    let (_, _, e₂) = >>=-eq-ok (assert_identifier c.logical_agent_id) _ e₁ in
    let (_, _, e₃) = >>=-eq-ok (assert_identifier c.mount_id) _ e₂ in
    let (_, checked, e₄) = >>=-eq-ok (assert_intervals c.intervals) _ e₃ in
    let (_, apart, e₅) =
      >>=-eq-ok (assert_non_overlapping nothing (sort_intervals c.intervals)) _ e₄ in
    let (total, added, e₆) =
      >>=-eq-ok (add_scores as_of (sort_intervals c.intervals) no_score) _ e₅ in
    let ordered =
      All-sort _ IsOrdered c.intervals (assert_intervals-IsOrdered c.intervals checked) in
    let disjoint = (non_overlapping→ nothing (sort_intervals c.intervals) ordered apart).1 in
    let clear =
      All-at n (sort_intervals c.intervals)
        (All-sort _ (λ i. n ≤ i.started_at_ms) c.intervals late) in
    let fits =
      add_scores-fits (at n) as_of (sort_intervals c.intervals) no_score total added clear
        disjoint in
    let same : s.slacking_seconds ≡ total.slacking_seconds = ground (arith, e₆) in
    omega (arith, fits, same)
