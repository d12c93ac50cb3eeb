-- ===== src/Office/Scoring.antt =====
-- apps/control-plane/src/modules/public-office/domain/scoring.ts: the scores of candidates and
-- their ranks, over the intervals of Intervals.
-- Times are natural numbers of milliseconds: the source refuses all others, and here the test of
-- the safe range is what is left of that. A `RangeError` is a fault. `toLowerCase` is that of ASCII
-- letters: the ids are UUIDs.
pub mod Order
pub mod Scores
pub mod Apart
pub mod Overlap
pub mod Ranking
pub mod Fairness
use workbuddy_buddy.Prelude.{
  ℕ, zero, suc, ◌+◌, ◌-◌, ◌*◌, ◌/◌, Bool, true, false, not, ◌&&◌, ◌||◌, Option, none, some, List,
  [], ◌∷◌, map, leb, ltb, ◌==◌, if◌then◌else◌, any, keep, min, sort, compare, Ordering, not_after,
  first_difference,
}
use workbuddy_buddy.Edge.Problem.{Result, ok, throws, fault, ◌>>=◌, ◌>>◌, throw_if}
use workbuddy_buddy.Edge.Idle.{IdleStage}
use workbuddy_buddy.Edge.Types.{Text, text_eq, normalize_uuid, max_safe_sequence}
use workbuddy_buddy.Office.Intervals.{
  CandidateScore, EligibilityInterval, IntervalScore, LeaderboardCandidate, RankedCandidate,
  assert_identifier, assert_interval, assert_timestamp, is_safe_integer, no_score,
  score_eligibility_interval,
}

-- intervalEndForComparison, with `none` for infinity. Two infinities have no difference (it is not a
-- number), which a sort takes for zero.
abbrev pub compare_ends : Option ℕ → Option ℕ → Ordering
compare_ends none none = Ordering.eq
compare_ends none (some b) = Ordering.gt
compare_ends (some a) none = Ordering.lt
compare_ends (some a) (some b) = compare a b

-- compareIntervals
unfoldable pub compare_intervals : EligibilityInterval → EligibilityInterval → Ordering
compare_intervals left right =
    if left.started_at_ms == right.started_at_ms
    then compare_ends left.ended_at_ms right.ended_at_ms
    else compare left.started_at_ms right.started_at_ms

abbrev pub is_empty : EligibilityInterval → Bool
is_empty i = elim i.ended_at_ms [ none ↦ false | some ended ↦ ended == i.started_at_ms ]

-- `previousEndMs`: at first there is none, and the end of an interval that goes on is infinite.
pub data PreviousEnd : Type 0 where
  nothing : PreviousEnd
  at : ℕ → PreviousEnd
  never : PreviousEnd

abbrev pub end_of : EligibilityInterval → PreviousEnd
end_of i = elim i.ended_at_ms [ none ↦ never | some ended ↦ at ended ]

abbrev pub starts_before : ℕ → PreviousEnd → Bool
starts_before started nothing = false
starts_before started (at ended) = ltb started ended
starts_before started never = true

-- assertNonOverlapping
unfoldable pub assert_non_overlapping : PreviousEnd → List EligibilityInterval → Result (Unit {0})
assert_non_overlapping previous [] = ok tt
assert_non_overlapping previous (i ∷ is) = do
  throw_if (not (is_empty i) && starts_before i.started_at_ms previous) fault
  assert_non_overlapping (if is_empty i then previous else end_of i) is

-- The `for` that asserts each interval.
unfoldable pub assert_intervals : List EligibilityInterval → Result (Unit {0})
assert_intervals [] = ok tt
assert_intervals (i ∷ is) = do assert_interval i; assert_intervals is

abbrev pub later_reached : Option ℕ → Option ℕ → Option ℕ
later_reached reached none = reached
later_reached none (some t) = some t
later_reached (some r) (some t) = if ltb r t then some t else some r

-- The sums of scoreCandidate after one more interval.
abbrev pub add_score : IntervalScore → IntervalScore → IntervalScore
add_score total score = record {
  slacking_seconds = total.slacking_seconds + score.slacking_seconds;
  score_reached_at_ms = later_reached total.score_reached_at_ms score.score_reached_at_ms;
}

-- The loop of scoreCandidate over the sorted intervals.
unfoldable pub add_scores : ℕ → List EligibilityInterval → IntervalScore → Result IntervalScore
add_scores as_of [] total = ok total
add_scores as_of (i ∷ is) total = do
  score ← score_eligibility_interval i as_of
  throw_if (not (is_safe_integer (add_score total score).slacking_seconds)) fault
  add_scores as_of is (add_score total score)

unfoldable pub sort_intervals : List EligibilityInterval → List EligibilityInterval
sort_intervals = sort (λ a b. not_after (compare_intervals a b))

-- scoreCandidate
unfoldable pub score_candidate : ℕ → LeaderboardCandidate → Result CandidateScore
score_candidate as_of candidate = do
  assert_timestamp as_of
  assert_identifier candidate.logical_agent_id
  assert_identifier candidate.mount_id
  assert_intervals candidate.intervals
  let intervals = sort_intervals candidate.intervals
  assert_non_overlapping nothing intervals
  total ← add_scores as_of intervals no_score
  ok (record {
    logical_agent_id = candidate.logical_agent_id;
    mount_id = candidate.mount_id;
    slacking_seconds = total.slacking_seconds;
    score_reached_at_ms = total.score_reached_at_ms;
  })

-- `<` and `>` on texts, by their code units.
unfoldable pub compare_texts : Text → Text → Ordering
compare_texts [] [] = Ordering.eq
compare_texts [] (d ∷ t) = Ordering.lt
compare_texts (c ∷ s) [] = Ordering.gt
compare_texts (c ∷ s) (d ∷ t) = elim (compare c d) [
  | Ordering.lt ↦ Ordering.lt
  | Ordering.eq ↦ compare_texts s t
  | Ordering.gt ↦ Ordering.gt
]

-- compareCandidateScores: three criteria, one after another.
unfoldable pub compare_candidate_scores : CandidateScore → CandidateScore → Ordering
compare_candidate_scores left right =
    first_difference (compare right.slacking_seconds left.slacking_seconds) (
      first_difference (compare_ends left.score_reached_at_ms right.score_reached_at_ms) (
        compare_texts (normalize_uuid left.logical_agent_id)
          (normalize_uuid right.logical_agent_id)))

unfoldable pub sort_scores : List CandidateScore → List CandidateScore
sort_scores = sort (λ a b. not_after (compare_candidate_scores a b))

-- The `map` over the candidates, with the set of the ids that were seen.
unfoldable pub score_all : ℕ → List Text → List LeaderboardCandidate → Result (List CandidateScore)
score_all as_of seen [] = ok []
score_all as_of seen (c ∷ cs) = do
  let id = normalize_uuid c.logical_agent_id
  throw_if (any (text_eq id) seen) fault
  score ← score_candidate as_of c
  scores ← score_all as_of (id ∷ seen) cs
  ok (score ∷ scores)

-- `.map((score, index) => ({ ...score, rank: index + 1 }))`
unfoldable pub number_from : ℕ → List CandidateScore → List RankedCandidate
number_from rank [] = []
number_from rank (s ∷ ss) = record { score = s; rank = rank } ∷ number_from (rank + 1) ss

-- rankLeaderboardCandidates
unfoldable pub rank_leaderboard_candidates :
    List LeaderboardCandidate → ℕ → Result (List RankedCandidate)
rank_leaderboard_candidates candidates as_of = do
  assert_timestamp as_of
  scores ← score_all as_of [] candidates
  ok (number_from 1 (sort_scores (keep (λ s. ltb 0 s.slacking_seconds) scores)))
