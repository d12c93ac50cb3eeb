-- ===== src/Office/Leaderboard/Scores.antt =====
-- The total of the statement is the score that domain/scoring.ts gives to the merged segments.
use workbuddy_buddy.Prelude.{
  ℕ, ◌+◌, ◌-◌, ◌≤◌, ◌≡◌, refl, ◌∙◌, inl, inr, Bool, true, false, Option, none, some, List, [], ◌∷◌,
  map, leb, ltb, keep, ◌==◌, All, All-map, All-sort, All-keep, All-append, Bool-cases, place, sort,
  not_after, compare, Ordering, arith,
}
use workbuddy_buddy.Edge.Problem.{Result, ok}
use workbuddy_buddy.Edge.Types.{max_safe_sequence}
use workbuddy_buddy.Office.Scoring.{
  assert_intervals, nothing, at, assert_non_overlapping, add_score, add_scores, later_reached,
  compare_intervals, sort_intervals, score_candidate,
}
use workbuddy_buddy.Office.Intervals.{
  is_safe_integer, EligibilityInterval, IntervalScore, assert_timestamp, assert_identifier,
  assert_interval, score_eligibility_interval, no_score,
}
use workbuddy_buddy.Office.Leaderboard.{
  ActivityRow, QualifiedRow, OccurrenceRow, MountRows, Segment, is_joined, intersection,
  with_occurrences, with_qualifications, raw_intersections, is_valid, segment_before,
  ordered_intersections, contribution, reached_at, Total, total_of, segments_of, score_row,
}
use workbuddy_buddy.Office.Leaderboard.Islands.{
  IsSegment, AreApart, joined, islands, islands_of, segments-islands,
}
use workbuddy_buddy.Office.Leaderboard.Totals.{segments_of-covers, ordered-IsSegment}

abbrev pub interval_of : Segment → EligibilityInterval
interval_of s = record { started_at_ms = s.start; ended_at_ms = some s.end }

abbrev score_of : Segment → IntervalScore
score_of s = record { slacking_seconds = contribution s; score_reached_at_ms = reached_at s }

abbrev of_total : Total → IntervalScore
of_total t = record {
  slacking_seconds = t.slacking_seconds;
  score_reached_at_ms = t.score_reached_at;
}

segment-score :
    (as_of : ℕ) (s : Segment)
    → as_of ≤ max_safe_sequence
    → IsSegment s
    → s.end ≤ as_of
    → score_eligibility_interval (interval_of s) as_of ≡ ok (score_of s)
unfolding score_eligibility_interval contribution
segment-score as_of s safe long past = ground arith

assert_intervals-returns :
    (ss : List Segment)
    → All IsSegment ss
    → All (λ s. s.end ≤ max_safe_sequence) ss
    → assert_intervals (map interval_of ss) ≡ ok tt
unfolding assert_intervals assert_interval assert_timestamp is_safe_integer
assert_intervals-returns [] l h = refl
assert_intervals-returns (s ∷ ss) (l, ls) (h, hs) =
    let started : leb s.start max_safe_sequence ≡ true = ground (arith, l, h) in
    let ended : leb s.end max_safe_sequence ≡ true = ground (arith, h) in
    let order : ltb s.end s.start ≡ false = ground (arith, l) in
    rw (started, ended, order) (assert_intervals-returns ss ls hs)

non_overlapping-returns :
    (p : ℕ) (ss : List Segment)
    → All IsSegment ss
    → All (λ s. p ≤ s.start) ss
    → AreApart ss
    → assert_non_overlapping (at p) (map interval_of ss) ≡ ok tt
unfolding assert_non_overlapping
non_overlapping-returns p [] l h a = refl
non_overlapping-returns p (s ∷ ss) (l, ls) (h, hs) (a, as') =
    let full : (s.end == s.start) ≡ false = ground (arith, l) in
    let clear : ltb s.start p ≡ false = ground (arith, h) in
    rw (full, clear) (non_overlapping-returns s.end ss ls a as')

none_before-returns :
    (ss : List Segment)
    → All IsSegment ss
    → AreApart ss
    → assert_non_overlapping nothing (map interval_of ss) ≡ ok tt
unfolding assert_non_overlapping
none_before-returns [] l a = refl
none_before-returns (s ∷ ss) (l, ls) (a, as') =
    let full : (s.end == s.start) ≡ false = ground (arith, l) in
    rw full (non_overlapping-returns s.end ss ls a as')

later_reached_assoc :
    (a b c : Option ℕ) → later_reached (later_reached a b) c ≡ later_reached a (later_reached b c)
later_reached_assoc a b none = refl
later_reached_assoc a none (some c) = refl
later_reached_assoc none (some b) (some c) = ground arith
later_reached_assoc (some a) (some b) (some c) = ground arith

-- The sum so far fits in the time so far, so it is a safe integer.
add_scores-total :
    (as_of p : ℕ) (ss : List Segment) (total : IntervalScore)
    → as_of ≤ max_safe_sequence
    → All IsSegment ss
    → All (λ s. s.end ≤ as_of) ss
    → All (λ s. p ≤ s.start) ss
    → AreApart ss
    → total.slacking_seconds ≤ p
    → add_scores as_of (map interval_of ss) total ≡ ok (add_score total (of_total (total_of ss)))
unfolding add_scores total_of
add_scores-total as_of p [] total safe l e h a fits =
    let same : total.slacking_seconds + 0 ≡ total.slacking_seconds = omega arith in rw same refl
add_scores-total as_of p (s ∷ ss) total safe (l, ls) (e, es) (h, hs) (a, as') fits =
    let sum = add_score total (score_of s) in
    let small : contribution s ≤ s.end - s.start = unfold contribution in omega arith in
    let in_time : sum.slacking_seconds ≤ s.end = omega (arith, small, fits, h, l) in
    let fine : is_safe_integer sum.slacking_seconds ≡ true =
      unfold is_safe_integer in ground (arith, in_time, e, safe) in
    rw (segment-score as_of s safe l e, fine)
      (add_scores-total as_of s.end ss sum safe ls es a as' in_time
        ∙ assoc (contribution s) (reached_at s) (total_of ss))
  where
    assoc :
        (n : ℕ) (r : Option ℕ) (rest : Total)
        → ◌≡◌ {A = Result IntervalScore}
            (ok (
              add_score
                (add_score total (record { slacking_seconds = n; score_reached_at_ms = r }))
                (of_total rest)))
            (ok (
              add_score total (record {
                slacking_seconds = n + rest.slacking_seconds;
                score_reached_at_ms = later_reached r rest.score_reached_at;
              })))
    assoc n r rest =
        let sums : total.slacking_seconds + n + rest.slacking_seconds
            ≡ total.slacking_seconds + (n + rest.slacking_seconds) =
          omega arith in
        rw (sums, later_reached_assoc total.score_reached_at_ms r rest.score_reached_at) refl

-- No segment ends after the time of the query.
abbrev pub IsPast : ℕ → Segment → Type 0
IsPast as_of s = s.end ≤ as_of

module _ (as_of : ℕ) where
  islands-IsPast :
      (current : Segment) (ss : List Segment)
      → IsPast as_of current
      → All (IsPast as_of) ss
      → All (IsPast as_of) (islands current ss)
  unfolding islands
  islands-IsPast current [] c h = (c, tt)
  islands-IsPast current (s ∷ ss) c (k, h) = elim (Bool-cases (leb current.end s.start)) [
    | inl e ↦ rw e (c, islands-IsPast s ss k h)
    | inr e ↦ rw e (islands-IsPast (joined current s) ss (omega (arith, c, k)) h)
  ]

  islands_of-IsPast :
      (ss : List Segment) → All (IsPast as_of) ss → All (IsPast as_of) (islands_of ss)
  islands_of-IsPast [] h = tt
  islands_of-IsPast (s ∷ ss) (k, h) = islands-IsPast s ss k h

  intersection-IsPast :
      (a : ActivityRow) (q : QualifiedRow) (o : OccurrenceRow)
      → IsPast as_of (intersection a q o as_of)
  unfolding intersection
  intersection-IsPast a q o = omega arith

  occurrences-IsPast :
      (a : ActivityRow) (q : QualifiedRow) (os : List OccurrenceRow)
      → All (IsPast as_of) (with_occurrences a q os as_of)
  unfolding with_occurrences
  occurrences-IsPast a q [] = tt
  occurrences-IsPast a q (o ∷ os) = elim (Bool-cases (is_joined a q o as_of)) [
    | inl e ↦ rw e (intersection-IsPast a q o, occurrences-IsPast a q os)
    | inr e ↦ rw e (occurrences-IsPast a q os)
  ]

  qualifications-IsPast :
      (a : ActivityRow) (qs : List QualifiedRow) (os : List OccurrenceRow)
      → All (IsPast as_of) (with_qualifications a qs os as_of)
  unfolding with_qualifications
  qualifications-IsPast a [] os = tt
  qualifications-IsPast a (q ∷ qs) os =
      All-append (IsPast as_of) (with_occurrences a q os as_of) (with_qualifications a qs os as_of)
        (occurrences-IsPast a q os) (qualifications-IsPast a qs os)

  raw-IsPast :
      (activities : List ActivityRow) (qs : List QualifiedRow) (os : List OccurrenceRow)
      → All (IsPast as_of) (raw_intersections activities qs os as_of)
  unfolding raw_intersections
  raw-IsPast [] qs os = tt
  raw-IsPast (a ∷ activities) qs os =
      All-append (IsPast as_of) (with_qualifications a qs os as_of)
        (raw_intersections activities qs os as_of) (qualifications-IsPast a qs os)
        (raw-IsPast activities qs os)

  pub segments-IsPast :
      (os : List OccurrenceRow) (m : MountRows) → All (IsPast as_of) (segments_of os as_of m)
  unfolding segments_of ordered_intersections
  segments-IsPast os m =
      let raw = raw_intersections m.activities m.qualifications os as_of in
      rw (segments-islands (ordered_intersections raw) (ordered-IsSegment raw)) (
        islands_of-IsPast (ordered_intersections raw) (
          All-sort segment_before (IsPast as_of) (keep is_valid raw)
            (All-keep (IsPast as_of) is_valid raw (raw-IsPast m.activities m.qualifications os))))

-- Intervals that lie apart are in the order of scoring.ts.
abbrev interval_before : EligibilityInterval → EligibilityInterval → Bool
interval_before a b = not_after (compare_intervals a b)

place-first :
    (s : Segment) (ss : List Segment)
    → IsSegment s
    → All (λ r. s.end ≤ r.start) ss
    → place interval_before (interval_of s) (map interval_of ss)
      ≡ interval_of s ∷ map interval_of ss
unfolding place compare_intervals
place-first s [] l h = refl
place-first s (r ∷ ss) l (h, hs) =
    let differ : (s.start == r.start) ≡ false = ground (arith, l, h) in
    let earlier : compare s.start r.start ≡ Ordering.lt = ground (arith, l, h) in
    rw (differ, earlier) refl

sort-apart :
    (ss : List Segment)
    → All IsSegment ss
    → AreApart ss
    → sort_intervals (map interval_of ss) ≡ map interval_of ss
unfolding sort_intervals sort
sort-apart [] l a = refl
sort-apart (s ∷ ss) (l, ls) (a, as') = rw (sort-apart ss ls as') (place-first s ss l a)

-- For a mount with trimmed ids, at a time that is a safe integer, domain/scoring.ts gives to the merged
-- segments the seconds and the time of the statement's row.
pub score_row-scores :
    (occurrences : List OccurrenceRow) (as_of : ℕ) (m : MountRows)
    → as_of ≤ max_safe_sequence
    → assert_identifier m.logical_agent_id ≡ ok tt
    → assert_identifier m.mount_id ≡ ok tt
    → score_candidate as_of (record {
      logical_agent_id = m.logical_agent_id;
      mount_id = m.mount_id;
      intervals = map interval_of (segments_of occurrences as_of m);
    })
      ≡ ok (record {
        logical_agent_id = (score_row occurrences as_of m).logical_agent_id;
        mount_id = (score_row occurrences as_of m).mount_id;
        slacking_seconds = (score_row occurrences as_of m).slacking_seconds;
        score_reached_at_ms = (score_row occurrences as_of m).score_reached_at;
      })
unfolding score_candidate score_row assert_timestamp is_safe_integer
score_row-scores occurrences as_of m safe agent mount =
    let ss = segments_of occurrences as_of m in
    let (long, apart, _) = segments_of-covers occurrences as_of 0 m in
    let past = segments-IsPast as_of occurrences m in
    let in_range : leb as_of max_safe_sequence ≡ true = ground (arith, safe) in
    rw
      (
        in_range,
        agent,
        mount,
        assert_intervals-returns ss long (
            All-map (IsPast as_of) (λ s. s.end ≤ max_safe_sequence) (λ s e. omega (arith, e, safe))
              ss past),
        sort-apart ss long apart,
        none_before-returns ss long apart,
        add_scores-total as_of 0 ss no_score safe long past
            (All-map (IsPast as_of) (λ s. 0 ≤ s.start) (λ s e. omega arith) ss past) apart
            (omega arith),
      )
      (rw (sums (total_of ss).slacking_seconds, times (total_of ss).score_reached_at) refl)
  where
    sums : (n : ℕ) → (0 + n) ≡ n
    sums n = omega arith

    times : (r : Option ℕ) → later_reached none r ≡ r
    times none = refl
    times (some r) = refl
