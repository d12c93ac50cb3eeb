-- ===== src/Office/Scoring/Scores.antt =====
-- What a score says: when it was reached, that it counts no time twice, and which stage goes with it.
use workbuddy_buddy.Prelude.{ℕ, ◌+◌, ◌-◌, ◌*◌, ◌/◌, ◌≤◌, ◌<◌, ◌≡◌, Option, none, some, arith}
use workbuddy_buddy.Edge.Problem.{ok}
use workbuddy_buddy.Edge.Types.{max_safe_sequence}
use workbuddy_buddy.Edge.Idle.{IdleStage}
use workbuddy_buddy.Edge.Idle
use workbuddy_buddy.Office.Intervals.{
  EligibilityInterval, IntervalScore, derive_idle_stage, effective_end, score_eligibility_interval,
}

-- From an interval that goes on, the pet's ladder (idle-stage.ts) and the office's (scoring.ts) derive
-- the same stage, when the start and the time asked about are safe integers.
pub derive_idle_stage-agrees :
    (started now : ℕ)
    → started ≤ max_safe_sequence
    → now ≤ max_safe_sequence
    → derive_idle_stage (some (record { started_at_ms = started; ended_at_ms = none })) now
      ≡ ok (Idle.derive_idle_stage (some started) now)
unfolding derive_idle_stage Idle.derive_idle_stage
derive_idle_stage-agrees started now h k = ground arith

abbrev pub seconds_scored : EligibilityInterval → ℕ → ℕ
seconds_scored i t = (effective_end i t - i.started_at_ms) / 1000 - 900

pub score_of :
    (i : EligibilityInterval) (t : ℕ) (s : IntervalScore)
    → score_eligibility_interval i t ≡ ok s
    → s.slacking_seconds ≡ seconds_scored i t
unfolding score_eligibility_interval
score_of i t s e = ground arith

reached_of :
    (i : EligibilityInterval) (t : ℕ) (s : IntervalScore) (r : ℕ)
    → score_eligibility_interval i t ≡ ok s
    → s.score_reached_at_ms ≡ some r
    → (r ≡ i.started_at_ms + (900 + s.slacking_seconds) * 1000) × (0 < s.slacking_seconds)
unfolding score_eligibility_interval
reached_of i t s r e f = (ground arith, ground arith)

-- When an interval scores at `as_of`, with a time at which that score was reached, and it can be scored
-- at `t`, then from the time reached up to `as_of` the score is the same, and at an earlier `t` it is
-- less: the time reached is the first with that score.
pub reached_is_first :
    (i : EligibilityInterval) (as_of t r : ℕ) (s s' : IntervalScore)
    → score_eligibility_interval i as_of ≡ ok s
    → s.score_reached_at_ms ≡ some r
    → score_eligibility_interval i t ≡ ok s'
    → (r ≤ t → t ≤ as_of → s'.slacking_seconds ≡ s.slacking_seconds)
      × (t < r → s'.slacking_seconds < s.slacking_seconds)
reached_is_first i as_of t r s s' e f e' =
    reached_cases i.started_at_ms r s.slacking_seconds s'.slacking_seconds i.ended_at_ms
      (score_of i as_of s e) (score_of i t s' e') (reached_of i as_of s r e f).0
      (reached_of i as_of s r e f).1
  where
    reached_cases :
        (started r n n' : ℕ) (ended : Option ℕ)
        → n ≡ seconds_scored (record { started_at_ms = started; ended_at_ms = ended }) as_of
        → n' ≡ seconds_scored (record { started_at_ms = started; ended_at_ms = ended }) t
        → r ≡ started + (900 + n) * 1000
        → 0 < n
        → (r ≤ t → t ≤ as_of → n' ≡ n) × (t < r → n' < n)
    reached_cases started r n n' none p q h k = (λ x y. omega arith, λ x. omega arith)
    reached_cases started r n n' (some ended) p q h k = (λ x y. omega arith, λ x. omega arith)
