-- ===== src/Office/Intervals.antt =====
-- The score of one interval of eligibility, and the idle stage: apps/control-plane/src/modules/
-- public-office/domain/scoring.ts.
use workbuddy_buddy.Prelude.{
  ℕ, ◌+◌, ◌-◌, ◌*◌, ◌/◌, Bool, true, false, not, ◌&&◌, ◌||◌, Option, none, some, List, [], ◌∷◌, leb,
  ltb, ◌==◌, if◌then◌else◌, min,
}
use workbuddy_buddy.Edge.Problem.{Result, ok, throws, fault, ◌>>◌, throw_if}
use workbuddy_buddy.Edge.Idle.{IdleStage}
use workbuddy_buddy.Edge.Types.{Text, max_safe_sequence}

-- `Number.isSafeInteger` on a natural number.
unfoldable pub is_safe_integer : ℕ → Bool
is_safe_integer n = leb n max_safe_sequence

abbrev pub per_segment_grace_seconds : ℕ
per_segment_grace_seconds = 900

-- `ended_at_ms = none` is an interval that goes on.
pub record EligibilityInterval : Type 0 where
  pub started_at_ms : ℕ
  pub ended_at_ms : Option ℕ

pub record LeaderboardCandidate : Type 0 where
  pub logical_agent_id : Text
  pub mount_id : Text
  pub intervals : List EligibilityInterval

pub record IntervalScore : Type 0 where
  pub slacking_seconds : ℕ
  pub score_reached_at_ms : Option ℕ

pub record CandidateScore : Type 0 where
  pub logical_agent_id : Text
  pub mount_id : Text
  pub slacking_seconds : ℕ
  pub score_reached_at_ms : Option ℕ

pub record RankedCandidate : Type 0 where
  pub score : CandidateScore
  pub rank : ℕ

-- assertTimestamp
unfoldable pub assert_timestamp : ℕ → Result (Unit {0})
unfolding is_safe_integer
assert_timestamp value = throw_if (not (is_safe_integer value)) fault

-- The white space and line ends that `trim` removes.
abbrev pub is_space : ℕ → Bool
is_space c =
    leb 9 c && leb c 13
    || c == 0x20
    || c == 0xa0
    || c == 0x1680
    || leb 0x2000 c && leb c 0x200a
    || c == 0x2028
    || c == 0x2029
    || c == 0x202f
    || c == 0x205f
    || c == 0x3000
    || c == 0xfeff

abbrev ends_with_space : ℕ → Text → Bool
ends_with_space c [] = is_space c
ends_with_space c (d ∷ t) = ends_with_space d t

-- `value.length === 0 || value.trim() !== value`
abbrev pub is_untrimmed : Text → Bool
is_untrimmed [] = true
is_untrimmed (c ∷ t) = is_space c || ends_with_space c t

-- assertIdentifier
unfoldable pub assert_identifier : Text → Result (Unit {0})
assert_identifier value = throw_if (is_untrimmed value) fault

-- assertInterval
unfoldable pub assert_interval : EligibilityInterval → Result (Unit {0})
unfolding assert_timestamp
assert_interval i = do
  assert_timestamp i.started_at_ms
  elim i.ended_at_ms [
    | none ↦ ok tt
    | some ended ↦ do assert_timestamp ended; throw_if (ltb ended i.started_at_ms) fault
  ]

-- wholeSecondsBetween, of times in order.
unfoldable pub whole_seconds_between : ℕ → ℕ → ℕ
whole_seconds_between started ended = (ended - started) / 1000

abbrev pub has_ended : Option ℕ → ℕ → Bool
has_ended none as_of = false
has_ended (some ended) as_of = leb ended as_of

-- The ladder of IDLE_STAGE_THRESHOLDS_SECONDS.
unfoldable pub stage_of_seconds : ℕ → IdleStage
stage_of_seconds s =
    if leb 3600 s
    then IdleStage.fish
    else if leb 2100 s
    then IdleStage.costume
    else if leb 1500 s
    then IdleStage.salted
    else if leb 900 s
    then IdleStage.fresh
    else IdleStage.none

-- deriveIdleStage
unfoldable pub derive_idle_stage : Option EligibilityInterval → ℕ → Result IdleStage
unfolding assert_timestamp assert_interval whole_seconds_between stage_of_seconds
derive_idle_stage interval as_of = do
  assert_timestamp as_of
  elim interval [
    | none ↦ ok IdleStage.none
    | some i ↦ do
      assert_interval i
      if ltb as_of i.started_at_ms || has_ended i.ended_at_ms as_of
          then ok IdleStage.none
          else ok (stage_of_seconds (whole_seconds_between i.started_at_ms as_of))
  ]

abbrev pub effective_end : EligibilityInterval → ℕ → ℕ
effective_end i as_of = elim i.ended_at_ms [ none ↦ as_of | some ended ↦ min ended as_of ]

abbrev pub no_score : IntervalScore
no_score = record { slacking_seconds = 0; score_reached_at_ms = none }

-- scoreEligibilityInterval, once its arguments are asserted.
unfoldable pub score_interval : EligibilityInterval → ℕ → Result IntervalScore
unfolding whole_seconds_between is_safe_integer
score_interval i as_of =
    let end = effective_end i as_of in
    let slacking = whole_seconds_between i.started_at_ms end - per_segment_grace_seconds in
    let reached = i.started_at_ms + (per_segment_grace_seconds + slacking) * 1000 in
    if leb end i.started_at_ms
    then ok no_score
    else if slacking == 0
    then ok no_score
    else if is_safe_integer reached
    then ok (record { slacking_seconds = slacking; score_reached_at_ms = some reached })
    else throws fault

-- scoreEligibilityInterval
unfoldable pub score_eligibility_interval : EligibilityInterval → ℕ → Result IntervalScore
unfolding assert_timestamp assert_interval score_interval
score_eligibility_interval i as_of = do
  assert_timestamp as_of
  assert_interval i
  score_interval i as_of
