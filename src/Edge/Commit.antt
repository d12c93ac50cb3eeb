-- ===== src/Edge/Commit.antt =====
-- presence/application/ingest-edge-report.ts, the second half of ingestInTransaction: a report
-- whose boot and range are accepted is written.
pub mod Write
pub mod Fence
pub mod Roll
pub mod Enter
pub mod Publish
use workbuddy_buddy.Prelude.{
  ℕ, ◌+◌, ◌*◌, Bool, true, false, not, ◌&&◌, ◌||◌, Option, none, some, List, [], ◌∷◌, ◌++◌, map,
  leb, ltb, ◌==◌, if◌then◌else◌, length, any, keep, update_where,
}
use workbuddy_buddy.Edge.Problem.{Result, ok, fault, throw_if, ◌>>=◌, ◌>>◌}
use workbuddy_buddy.Edge.Types.{
  Text, text_eq, nullable_eq, activity_eq, EdgeEvent, state_transition, heartbeat, sequence,
  is_state_transition, EdgeReportAck, VerifiedEdgeContext, CanonicalEvent, PreparedEdgeReport,
  normalize_uuid, normalize_nullable_uuid,
}
use workbuddy_buddy.Edge.Store.{
  AgentRow, HeadRow, BootRow, ReceiptRow, FingerprintRow, PresenceRow, IntervalRow, Store, Env,
  RevisionInput, presence_changed, edge_receipt, lease_expired, boot_replaced, is_none, is_some,
  parse_safe_integer, next_server_received_at, affected_offices, append_office_revisions,
}
use workbuddy_buddy.Edge.Boot.{BootDecision, stale_boot_problem, internal, last_sequence}
use workbuddy_buddy.Edge.Activity.{
  MutablePresence, close_open_activity_interval, move_open_activity_interval_to_boot, apply_events,
}
use workbuddy_buddy.Edge.Rollover.{Rolled, enter_boot}
use workbuddy_buddy.Edge.Constraints.{violates_constraints}

-- `presence !== null && presence.lease_expires_at.getTime() <= serverReceivedAt.getTime()`
unfoldable pub lease_was_expired : Option PresenceRow → ℕ → Bool
lease_was_expired none received = false
lease_was_expired (some p) received = leb p.lease_expires_at received

-- The open interval of a lease that ran out and that no sweep has closed.
unfoldable pub close_expired_lease :
    Option PresenceRow → ℕ → List IntervalRow → Result (List IntervalRow)
close_expired_lease none received rows = ok rows
close_expired_lease (some p) received rows =
    if leb p.lease_expires_at received && is_none p.lease_closed_at
    then (do
      accepted ← parse_safe_integer p.last_accepted_sequence false
      close_open_activity_interval p.lease_expires_at accepted lease_expired rows)
    else ok rows

-- insertReceipt. Ids go into columns of type uuid, which the database writes in lower case.
unfoldable pub new_receipt :
    Env → PreparedEdgeReport → VerifiedEdgeContext → ℕ → ℕ → ℕ → ℕ → ReceiptRow
new_receipt env report verified generation last received lease = record {
  id = env.receipt_id;
  instance_id = normalize_uuid verified.instance_id;
  boot_generation = generation;
  boot_id = normalize_uuid report.envelope.boot_id;
  key_id = normalize_uuid verified.key_id;
  first_sequence = report.envelope.first_sequence;
  last_sequence = last;
  event_count = length report.envelope.events;
  canonical_sha256 = report.canonical_payload_hash;
  canonical_payload = report.canonical_payload;
  sent_at = report.envelope.sent_at;
  client_version = report.envelope.client_version;
  server_received_at = received;
  lease_expires_at = lease;
  current_protocol = 1;
  min_supported_protocol = 1;
}

-- insertFingerprints
unfoldable pub new_fingerprints : Text → ℕ → List CanonicalEvent → List FingerprintRow
new_fingerprints receipt_id generation = map λ c. record {
  boot_generation = generation;
  sequence = sequence c.event;
  receipt_id = receipt_id;
  event = c.event;
  canonical_sha256 = c.hash;
  canonical_event = c.bytes;
}

-- savePresence
unfoldable pub saved_presence : ℕ → Text → MutablePresence → ℕ → ℕ → PresenceRow
saved_presence generation boot_id c received lease = record {
  boot_generation = generation;
  boot_id = boot_id;
  last_accepted_sequence = c.last_accepted_sequence;
  last_state_sequence = c.last_state_sequence;
  display_state = c.display_state;
  activity_state = c.activity_state;
  pet_id = c.pet_id;
  display_since = c.display_since;
  activity_since = c.activity_since;
  eligible_since = c.eligible_since;
  last_report_received_at = received;
  lease_expires_at = lease;
  lease_closed_at = none;
}

-- The UPDATE of `next_sequence` and `last_accepted_at`.
unfoldable pub advance_boot : ℕ → ℕ → ℕ → List BootRow → List BootRow
advance_boot generation next received =
    update_where (λ b. b.generation == generation)
      (λ b. record b { next_sequence = next; last_accepted_at = received })

abbrev pub set_received : ℕ → Option HeadRow → Option HeadRow
set_received received none = none
set_received received (some h) = some (record h { last_server_received_at = some received })

abbrev pub set_pet : Bool → Text → Option AgentRow → Option AgentRow
set_pet changed pet none = none
set_pet changed pet (some a) = if changed then some (record a { pet_id = pet }) else some a

-- The writes of the receipt, of what applyEvents returned, and of the pet, the boot and the head.
unfoldable pub record_report :
    Env
    → PreparedEdgeReport
    → VerifiedEdgeContext
    → ℕ
    → ℕ
    → ℕ
    → MutablePresence × List IntervalRow
    → Store
    → Store
record_report env report verified generation received lease applied s = record s {
  receipts =
      new_receipt env report verified generation (last_sequence report) received lease ∷ s.receipts;
  fingerprints =
      new_fingerprints env.receipt_id generation report.canonical_events ++ s.fingerprints;
  intervals = applied.1;
  presence =
      some (
        saved_presence generation (normalize_uuid report.envelope.boot_id) applied.0 received
          lease);
  agent = set_pet (any is_state_transition report.envelope.events) applied.0.pet_id s.agent;
  boots = advance_boot generation (last_sequence report + 1) received s.boots;
  head = set_received received s.head;
}

-- The argument of `recordRevision` in appendOfficeRevisionEvents.
unfoldable pub report_revision : Text → ℕ → Text → RevisionInput
report_revision receipt_id received office = record {
  office_id = office;
  event_type = presence_changed;
  source_kind = edge_receipt;
  source_key = receipt_id;
  source_receipt_id = some receipt_id;
  at = received;
}

-- The calls of the projector, made only if something public may have changed.
unfoldable pub publish : Env → Bool → List Text → ℕ → Store → Result Store
publish env changed offices received s =
    if changed
    then (do
      taken ←
          append_office_revisions env.projector_accepts (report_revision env.receipt_id received)
            offices s.revisions
      ok (record s { revisions = taken }))
    else ok s

-- Whether the INSERTs of the receipt and the fingerprints are refused.
unfoldable pub is_refused :
    Env → PreparedEdgeReport → VerifiedEdgeContext → ℕ → ℕ → ℕ → Store → Bool
is_refused env report verified generation received lease s =
    violates_constraints
      (new_receipt env report verified generation (last_sequence report) received lease)
      (new_fingerprints env.receipt_id generation report.canonical_events) s

-- From the expired lease on: `rolled` is what the boot left. An INSERT that the constraints of a
-- table refuse ends the transaction.
unfoldable pub write_report :
    Env → PreparedEdgeReport → VerifiedEdgeContext → BootDecision → ℕ → ℕ → Rolled → Result Store
write_report env report verified decision received lease rolled = do
  let s = rolled.store
  let generation = decision.boot_generation
  let expired = lease_was_expired rolled.presence received
  rows ← close_expired_lease rolled.presence received s.intervals
  throw_if (is_refused env report verified generation received lease s) fault
  applied ←
      apply_events generation received (decision.is_new_boot && not rolled.seamless || expired)
        report.envelope.events rolled.presence rows
  publish env (decision.is_new_boot || expired || any is_state_transition report.envelope.events)
      (affected_offices s.mounts) received
      (record_report env report verified generation received lease applied s)

-- All from the lock of the offices to the acknowledgement.
unfoldable pub accept_report :
    Env
    → PreparedEdgeReport
    → VerifiedEdgeContext
    → Text
    → HeadRow
    → BootDecision
    → Store
    → Result (EdgeReportAck × Store)
accept_report env report verified instance_id head decision s = do
  let received = next_server_received_at env.clock head
  let lease = received + env.lease_ttl_seconds * 1000
  rolled ← enter_boot head decision report received s
  s' ← write_report env report verified decision received lease rolled
  ok (
    record {
      current_protocol = 1;
      min_supported_protocol = 1;
      instance_id = instance_id;
      boot_id = normalize_uuid report.envelope.boot_id;
      accepted_through_sequence = last_sequence report;
      server_received_at = received;
      lease_expires_at = lease;
    },
    s',
  )
