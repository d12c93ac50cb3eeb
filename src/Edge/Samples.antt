-- ===== src/Edge/Samples.antt =====
-- A small instance of the presence component: its rows after enrollment, a first report, its
-- repetition, and a sweep; the theorems at these inputs.
mod Due
use workbuddy_buddy.Prelude.{
  ◌≡◌, refl, ◌↔◌, ◌⊎◌, inr, true, false, none, some, List, [], ◌∷◌, map, arith,
}
use workbuddy_buddy.Edge.Problem.{Result, ok, throws}
use workbuddy_buddy.Edge.Types.{
  ActivityState, DisplayState, EdgeEvent, state_transition, heartbeat, EdgeEndpoint, EdgeReportAck,
  VerifiedEdgeContext, Verification, EdgeReportEnvelope, PreparedEdgeReport, text_eq, nullable_eq,
  normalize_uuid, normalize_nullable_uuid, activity_eq, display_eq,
}
use workbuddy_buddy.Edge.Store.{
  InstanceStatus, InstanceRow, AgentRow, HeadRow, PresenceRow, Store, Env, RevisionInput,
  parse_safe_integer, next_server_received_at, affected_offices, append_office_revisions,
}
use workbuddy_buddy.Edge.Boot.{
  BootDecision, find_boot, establish_boot, continue_boot, decide_boot, last_sequence,
  expected_sequence, check_sequence, stale_boot_problem,
}
use workbuddy_buddy.Edge.Activity.{
  open_activity_interval, apply_state_transition, apply_heartbeat, move_interval, apply_event,
  mutable_presence, apply_loop, prior_presence, apply_events,
}
use workbuddy_buddy.Edge.Commit.{
  lease_was_expired, close_expired_lease, new_receipt, new_fingerprints, saved_presence,
  advance_boot, is_refused, record_report, report_revision, publish, write_report, accept_report,
}
use workbuddy_buddy.Edge.Rollover.{
  can_roll_boot, fence_previous_boot, drop_presence, fence_previous_boot_and_presence,
  create_boot_and_advance_head, roll_boot, enter_boot,
}
use workbuddy_buddy.Edge.Invariant.{IsConsistent}
use workbuddy_buddy.Edge.Constraints.{
  violates_constraints, receipt_clashes, fingerprints_clash, is_valid_fingerprint, is_valid_event,
  fits_state,
}
use workbuddy_buddy.Edge.Invariant.Report.{IsPrepared, Numbered}
use workbuddy_buddy.Edge.Validator.{assert_intrinsic_semantics}
use workbuddy_buddy.Edge.Validator.Semantics.{FitsEndpoint, assert_intrinsic_semantics_iff}
use workbuddy_buddy.Edge.Ingest.{
  assert_verified_identity, assert_supported_pet_ids, lock_instance, lock_agent,
  lock_and_validate_credential, lock_head, answer, ingest_in_transaction, ingest,
}
use workbuddy_buddy.Edge.Ingest.Consistency.{fresh_ack}
use workbuddy_buddy.Edge.Ingest.Retry.{ingest_again}
use workbuddy_buddy.Edge.Ingest.Held.{generation_of}
use workbuddy_buddy.Edge.Ingest.Order.{GoesOn, ingest_in_order}
use workbuddy_buddy.Edge.Lease.{SweepEnv, is_due, expire_one_lease}
use workbuddy_buddy.Edge.Lease.Sweep.{closed_lease}
use workbuddy_buddy.Edge.Activity.View.{open_view}
use workbuddy_buddy.Edge.Lease.History.{
  reports, sweeps, Reach, here, next, IsEnrolled, Reach-IsConsistent,
}

abbrev pub env : Env
env = record {
  credential_clock = 10;
  clock = 1000;
  receipt_id = 1 ∷ [];
  lease_ttl_seconds = 90;
  sha256 = λ bytes. bytes;
  supported_pets = (7 ∷ []) ∷ [];
  projector_accepts = λ taken input. true;
}

abbrev later_env : Env
later_env = record env { credential_clock = 20; clock = 2000 }

abbrev pub row : InstanceRow
row = record {
  id = b'a' ∷ [];
  logical_agent_id = b'g' ∷ [];
  status = InstanceStatus.active;
  revoked_at = none;
}

abbrev pub agent : AgentRow
agent = record { id = b'g' ∷ []; pet_id = 5 ∷ []; active_reporting_instance_id = some (b'a' ∷ []) }

abbrev pub head : HeadRow
head = record {
  current_boot_id = none;
  current_boot_generation = 0;
  last_server_received_at = none;
}

-- The rows after enrollment, with one office that shows the agent.
abbrev enrolled : Store
enrolled = record {
  instance_row = some row;
  agent = some agent;
  credentials =
      record { key_id = b'k' ∷ []; public_key = 3 ∷ []; revoked_at = none; valid_until = 5000 }
      ∷ [];
  head = some head;
  boots = [];
  receipts = [];
  fingerprints = [];
  presence = none;
  intervals = [];
  mounts =
      record { office_id = b'o' ∷ []; active = true; presence_visible = true; stats_opt_in = false }
      ∷ [];
  revisions = [];
}

abbrev first_event : EdgeEvent
first_event = state_transition (record {
  sequence = 1;
  observed_at = [];
  display_state = DisplayState.idle;
  activity_state = ActivityState.eligible_idle;
  pet_id = 7 ∷ [];
})

abbrev second_event : EdgeEvent
second_event = heartbeat (record { sequence = 2; observed_at = [] })

abbrev pub envelope : EdgeReportEnvelope
envelope = record {
  instance_id = b'A' ∷ [];
  key_id = b'k' ∷ [];
  boot_id = b'B' ∷ [];
  previous_boot_id = none;
  first_sequence = 1;
  events = first_event ∷ second_event ∷ [];
  sent_at = [];
  client_version = [];
  signature = [];
}

abbrev pub report : PreparedEdgeReport
report = record {
  envelope = envelope;
  endpoint = EdgeEndpoint.batch;
  signing_payload = [];
  canonical_payload = 9 ∷ [];
  canonical_payload_hash = 9 ∷ [];
  canonical_events =
      record { event = first_event; bytes = 1 ∷ []; hash = 1 ∷ [] }
      ∷ record { event = second_event; bytes = 2 ∷ []; hash = 2 ∷ [] }
      ∷ [];
}

abbrev pub verified : VerifiedEdgeContext
verified = record {
  instance_id = b'a' ∷ [];
  key_id = b'k' ∷ [];
  verification = Verification.ed25519;
  credential_public_key_sha256 = some (3 ∷ []);
}

abbrev decision : BootDecision
decision = record { boot = none; boot_generation = 1; is_new_boot = true }

-- `ingest`, opened as far as a run at concrete rows reads it.
pub run_ingest : Env → PreparedEdgeReport → Store → Result EdgeReportAck × Store
unfolding ingest assert_verified_identity assert_supported_pet_ids ingest_in_transaction
    lock_instance lock_agent lock_and_validate_credential lock_head decide_boot parse_safe_integer
    find_boot establish_boot continue_boot expected_sequence check_sequence answer accept_report
    next_server_received_at enter_boot roll_boot can_roll_boot fence_previous_boot_and_presence
    fence_previous_boot drop_presence create_boot_and_advance_head write_report lease_was_expired
    close_expired_lease apply_events prior_presence mutable_presence apply_loop apply_event
    apply_heartbeat move_interval open_activity_interval apply_state_transition publish
    affected_offices append_office_revisions record_report new_receipt new_fingerprints
    saved_presence advance_boot is_refused violates_constraints receipt_clashes fingerprints_clash
    is_valid_fingerprint is_valid_event fits_state report_revision last_sequence normalize_uuid
    normalize_nullable_uuid text_eq nullable_eq activity_eq display_eq
run_ingest e r s = ingest e r verified s

abbrev pub left : Store
left = (ingest env report verified enrolled).1

abbrev first_ack : EdgeReportAck
first_ack = fresh_ack env report (b'a' ∷ []) head

-- The first report is taken, with its last sequence and the lease of ninety seconds.
first_ingested : ingest env report verified enrolled ≡ (ok first_ack, left)
unfolding run_ingest
first_ingested = refl

first_reaches : first_ack.lease_expires_at ≡ 91_000
unfolding run_ingest
first_reaches = refl

is_enrolled : IsEnrolled enrolled
is_enrolled = record { head = refl; boots = refl; presence = refl; intervals = refl }

prepared : IsPrepared report
prepared = omega arith

start : IsConsistent 0 enrolled
start = Reach-IsConsistent {m = record { now = 0; store = enrolled }} is_enrolled here

-- A second report of the boot, after which the first one is sent again.
abbrev next_env : Env
next_env = record env { clock = 1500; receipt_id = 2 ∷ [] }

abbrev third_event : EdgeEvent
third_event = heartbeat (record { sequence = 3; observed_at = [] })

abbrev next_report : PreparedEdgeReport
next_report = record report {
  envelope = record envelope { first_sequence = 3; events = third_event ∷ [] };
  canonical_payload = 8 ∷ [];
  canonical_payload_hash = 8 ∷ [];
  canonical_events = record { event = third_event; bytes = 3 ∷ []; hash = 3 ∷ [] } ∷ [];
}

abbrev after_next : Store
after_next = (ingest next_env next_report verified left).1

two_receipts : map (λ r. r.first_sequence) after_next.receipts ≡ 3 ∷ 1 ∷ []
unfolding run_ingest
two_receipts = refl

same_boot : generation_of after_next.head ≡ generation_of left.head
unfolding run_ingest
same_boot = refl

later_validated : lock_and_validate_credential later_env verified after_next ≡ ok tt
unfolding run_ingest
later_validated = refl

later_pets : assert_supported_pet_ids (later_env.supported_pets) report ≡ ok tt
unfolding run_ingest
later_pets = refl

ingest_again_example : ingest later_env report verified after_next ≡ (ok first_ack, after_next)
ingest_again_example =
    ingest_again env later_env report verified 0 enrolled first_ack left
      (record { now = 1500; store = after_next }) (omega arith) prepared start first_ingested
      (next here (
        reports (record { now = 1000; store = left }) next_env next_report verified (omega arith)
          (omega arith)))
      same_boot later_validated later_pets

abbrev pub sweep_env : SweepEnv
sweep_env = record {
  due_clock = 91_000;
  source_key = λ id at. id;
  projector_accepts = λ taken input. true;
}

history :
    Reach
      (record { now = 0; store = enrolled })
      (record { now = 91_000; store = (expire_one_lease sweep_env left).1 })
history =
    next
      (next here
        (reports (record { now = 0; store = enrolled }) env report verified (omega arith) prepared))
      (sweeps (record { now = 1000; store = left }) sweep_env (omega arith))

Reach-IsConsistent_example : IsConsistent 91_000 (expire_one_lease sweep_env left).1
Reach-IsConsistent_example = Reach-IsConsistent is_enrolled history

pub left-IsConsistent : IsConsistent 1000 left
left-IsConsistent = Reach-IsConsistent {m = record { now = 0; store = enrolled }} is_enrolled (
    next here
      (reports (record { now = 0; store = enrolled }) env report verified (omega arith) prepared))

ingest_in_order_example :
    ((ingest env report verified enrolled).1 ≡ enrolled) ⊎ GoesOn report enrolled
ingest_in_order_example = ingest_in_order env report verified enrolled

assert_intrinsic_semantics_iff_example :
    (assert_intrinsic_semantics envelope EdgeEndpoint.batch ≡ ok tt)
    ↔ (Numbered 1 (first_event ∷ second_event ∷ []) × FitsEndpoint envelope EdgeEndpoint.batch)
assert_intrinsic_semantics_iff_example = assert_intrinsic_semantics_iff envelope EdgeEndpoint.batch
