-- ===== src/Edge/Validator.antt =====
-- apps/control-plane/src/platform/contracts/edge-report-validator.ts: what `prepare` asserts of an
-- envelope once the JSON schema (a generated validator, not modelled) has accepted it.
pub mod Semantics
use Prim.Native.String.{String}
use workbuddy_buddy.Prelude.{ℕ, ◌+◌, Bool, false, not, ◌&&◌, none, some, List, [], ◌∷◌, ltb, ◌==◌}
use workbuddy_buddy.Edge.Problem.{
  Result, ok, Failure, protocol, problem, ProblemCode, ◌>>◌, throw_if, report_semantics_invalid,
  sequence_gap, sequence_overlap,
}
use workbuddy_buddy.Edge.Types.{
  max_safe_sequence, EdgeEvent, sequence, is_state_transition, EdgeReportEnvelope, EdgeEndpoint,
  is_heartbeat_endpoint,
}

abbrev pub semantics_invalid : String → Failure
semantics_invalid detail = protocol (problem report_semantics_invalid 422 detail)

abbrev pub misplaced : ProblemCode → String → ℕ → Failure
misplaced code detail expected = protocol (record {
  code = code;
  status = 409;
  detail = detail;
  expected_sequence = some expected;
  retry_after_seconds = none;
})

-- The test of the first event. `events[0]` of an empty list is undefined.
unfoldable pub starts_at : ℕ → List EdgeEvent → Bool
starts_at first [] = false
starts_at first (e ∷ es) = sequence e == first

-- The loop over the events, from the expected sequence on.
unfoldable pub assert_contiguous : ℕ → List EdgeEvent → Result (Unit {0})
assert_contiguous expected [] = ok tt
assert_contiguous expected (e ∷ es) = do
  throw_if (ltb max_safe_sequence expected)
      (semantics_invalid "The report exceeds the protocol sequence range.")
  throw_if (ltb expected (sequence e))
      (misplaced sequence_gap "Event sequences must be contiguous within a batch." expected)
  throw_if (ltb (sequence e) expected) (
      misplaced sequence_overlap "Event sequences must not repeat or move backwards within a batch."
        expected)
  assert_contiguous (expected + 1) es

-- Exactly one event, and a heartbeat.
unfoldable pub is_single_heartbeat : List EdgeEvent → Bool
is_single_heartbeat [] = false
is_single_heartbeat (e ∷ []) = not (is_state_transition e)
is_single_heartbeat (e ∷ f ∷ es) = false

unfoldable pub assert_intrinsic_semantics : EdgeReportEnvelope → EdgeEndpoint → Result (Unit {0})
unfolding starts_at assert_contiguous is_single_heartbeat
assert_intrinsic_semantics envelope endpoint = do
  throw_if (not (starts_at envelope.first_sequence envelope.events))
      (semantics_invalid "first_sequence must equal the first event sequence.")
  assert_contiguous envelope.first_sequence envelope.events
  throw_if (is_heartbeat_endpoint endpoint && not (is_single_heartbeat envelope.events))
      (semantics_invalid "The heartbeat endpoint accepts exactly one heartbeat event.")
