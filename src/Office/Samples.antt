-- ===== src/Office/Samples.antt =====
-- Two agents on a board, and the theorems on scoring at these inputs.
use mathlib.Core.List.{Perm}
use mathlib.Core.List.Perm
use workbuddy_buddy.Prelude.{
  map, ℕ, ◌+◌, ◌*◌, ◌≡◌, refl, ◌↔◌, none, some, List, [], ◌∷◌, arith, ◌≤◌, ◌<◌, All, AllPairs, keep,
  ltb, sort,
}
use workbuddy_buddy.Edge.Problem.{ok}
use workbuddy_buddy.Edge.Types.{text_eq, normalize_uuid}
use workbuddy_buddy.Edge.Idle
use workbuddy_buddy.Office.Scoring.{
  score_candidate, score_all, number_from, sort_intervals, rank_leaderboard_candidates,
  assert_non_overlapping, nothing, assert_intervals, add_scores, compare_intervals,
  compare_candidate_scores, compare_texts, sort_scores,
}
use workbuddy_buddy.Office.Intervals.{
  EligibilityInterval, CandidateScore, LeaderboardCandidate, RankedCandidate, derive_idle_stage,
  score_eligibility_interval, is_safe_integer, assert_timestamp, assert_identifier, assert_interval,
  score_interval, whole_seconds_between,
}
use workbuddy_buddy.Office.Scoring.Scores.{derive_idle_stage-agrees, reached_is_first}
use workbuddy_buddy.Office.Scoring.Overlap.{assert_non_overlapping_iff, score_candidate-fits}
use workbuddy_buddy.Office.Scoring.Apart.{NeverTwice}
use workbuddy_buddy.Office.Scoring.Ranking.{Beats, IsNumbered, rank_leaderboard_candidates-board}
use workbuddy_buddy.Office.Scoring.Fairness.{rank_leaderboard_candidates-perm}

abbrev first : EligibilityInterval
first = record { started_at_ms = 0; ended_at_ms = some 1000000 }

abbrev going_on : EligibilityInterval
going_on = record { started_at_ms = 2000000; ended_at_ms = none }

abbrev as_of : ℕ
as_of = 3000000

abbrev alice : LeaderboardCandidate
alice = record {
  logical_agent_id = b'a' ∷ [];
  mount_id = b'1' ∷ [];
  intervals = going_on ∷ first ∷ [];
}

abbrev bob : LeaderboardCandidate
bob = record { logical_agent_id = b'b' ∷ []; mount_id = b'2' ∷ []; intervals = going_on ∷ [] }

abbrev alice_score : CandidateScore
alice_score = record {
  logical_agent_id = b'a' ∷ [];
  mount_id = b'1' ∷ [];
  slacking_seconds = 200;
  score_reached_at_ms = some 3000000;
}

abbrev bob_score : CandidateScore
bob_score = record {
  logical_agent_id = b'b' ∷ [];
  mount_id = b'2' ∷ [];
  slacking_seconds = 100;
  score_reached_at_ms = some 3000000;
}

abbrev board : List RankedCandidate
board = record { score = alice_score; rank = 1 } ∷ record { score = bob_score; rank = 2 } ∷ []

first_scored :
    score_eligibility_interval first as_of
    ≡ ok (record { slacking_seconds = 100; score_reached_at_ms = some 1000000 })
unfolding score_eligibility_interval assert_timestamp assert_interval score_interval
    whole_seconds_between is_safe_integer
first_scored = refl

first_scored_earlier :
    score_eligibility_interval first 950000
    ≡ ok (record { slacking_seconds = 50; score_reached_at_ms = some 950000 })
unfolding score_eligibility_interval assert_timestamp assert_interval score_interval
    whole_seconds_between is_safe_integer
first_scored_earlier = refl

alice_scored : score_candidate as_of alice ≡ ok alice_score
unfolding score_candidate score_eligibility_interval assert_timestamp assert_interval score_interval
    whole_seconds_between is_safe_integer assert_identifier assert_intervals sort_intervals
    compare_intervals assert_non_overlapping add_scores sort
alice_scored = refl

ranked : rank_leaderboard_candidates (bob ∷ alice ∷ []) as_of ≡ ok board
unfolding rank_leaderboard_candidates score_all sort_scores compare_candidate_scores compare_texts
    number_from score_candidate score_eligibility_interval assert_timestamp assert_interval
    score_interval whole_seconds_between is_safe_integer assert_identifier assert_intervals
    sort_intervals compare_intervals assert_non_overlapping add_scores sort text_eq normalize_uuid
ranked = refl

derive_idle_stage-agrees_example :
    derive_idle_stage (some going_on) as_of ≡ ok (Idle.derive_idle_stage (some 2000000) as_of)
derive_idle_stage-agrees_example =
    derive_idle_stage-agrees 2000000 3000000 (omega arith) (omega arith)

reached_is_first_example :
    (1000000 ≤ 950000 → 950000 ≤ 3000000 → ◌≡◌ {A = ℕ} 50 100) × (950000 < 1000000 → 50 < 100)
reached_is_first_example =
    reached_is_first first as_of 950000 1000000
      (record { slacking_seconds = 100; score_reached_at_ms = some 1000000 })
      (record { slacking_seconds = 50; score_reached_at_ms = some 950000 }) first_scored refl
      first_scored_earlier

assert_non_overlapping_iff_example :
    (assert_non_overlapping nothing (first ∷ going_on ∷ []) ≡ ok tt)
    ↔ NeverTwice (first ∷ going_on ∷ [])
assert_non_overlapping_iff_example =
    assert_non_overlapping_iff (first ∷ going_on ∷ []) (omega arith, (tt, tt))
      ((omega arith, tt), (tt, tt))

score_candidate-fits_example : 200 * 1000 + 0 ≤ 3000000
score_candidate-fits_example =
    score_candidate-fits as_of 0 alice alice_score alice_scored (omega arith, (omega arith, tt))
      (omega arith)

rank_leaderboard_candidates-board_example :
    (scores : List CandidateScore) × (places : List CandidateScore) × (score_all as_of []
        (bob ∷ alice ∷ [])
      ≡ ok scores)
    × (map (λ r. r.score) board ≡ places)
    × IsNumbered 1 board
    × Perm places (keep (λ s. ltb 0 s.slacking_seconds) scores)
    × All (λ s. 0 < s.slacking_seconds) places
    × AllPairs Beats places
rank_leaderboard_candidates-board_example =
    rank_leaderboard_candidates-board as_of (bob ∷ alice ∷ []) board ranked

rank_leaderboard_candidates-perm_example :
    rank_leaderboard_candidates (alice ∷ bob ∷ []) as_of ≡ ok board
rank_leaderboard_candidates-perm_example =
    rank_leaderboard_candidates-perm as_of (bob ∷ alice ∷ []) (alice ∷ bob ∷ []) board
      (Perm.swap alice bob []) ranked
