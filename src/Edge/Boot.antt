-- ===== src/Edge/Boot.antt =====
-- presence/application/ingest-edge-report.ts, the first half of ingestInTransaction: which boot a
-- report belongs to, and whether its sequence range is new, a replay or out of place.
pub mod Decision
use Prim.Native.String.{String}
use workbuddy_buddy.Prelude.{
  ℕ, ◌+◌, ◌-◌, Bool, true, false, not, ◌&&◌, Option, none, some, List, [], ◌∷◌, ltb, leb, ◌==◌,
  if◌then◌else◌, length, keep, find,
}
use workbuddy_buddy.Edge.Problem.{
  Result, ok, throws, Failure, protocol, problem, ProblemCode, ◌>>=◌, ◌>>◌, throw_if,
  report_semantics_invalid, sequence_gap, sequence_overlap, sequence_conflict, stale_boot,
  internal_error,
}
use workbuddy_buddy.Edge.Types.{
  Text, Bytes, text_eq, nullable_eq, max_safe_sequence, EdgeEvent, sequence, is_state_transition,
  EdgeReportAck, is_heartbeat_endpoint, CanonicalEvent, PreparedEdgeReport, normalize_uuid,
  normalize_nullable_uuid,
}
use workbuddy_buddy.Edge.Store.{
  HeadRow, BootRow, ReceiptRow, FingerprintRow, Store, is_some, parse_safe_integer,
}

-- staleBoot
abbrev pub stale_boot_problem : Failure
stale_boot_problem =
    protocol
      (problem stale_boot 409 "The report boot is not the instance's current CAS-linked boot.")

abbrev pub internal : String → Failure
internal detail = protocol (problem internal_error 500 detail)

-- sequenceProblem
abbrev pub sequence_problem : ProblemCode → ℕ → String → Failure
sequence_problem code expected_sequence detail = protocol (record {
  code = code;
  status = 409;
  detail = detail;
  expected_sequence =
      if leb expected_sequence max_safe_sequence then some expected_sequence else none;
  retry_after_seconds = none;
})

-- The variables `boot`, `bootGeneration` and `isNewBoot` after the first test.
pub record BootDecision : Type 0 where
  pub boot : Option BootRow
  pub boot_generation : ℕ
  pub is_new_boot : Bool

-- findBoot
unfoldable pub find_boot : Text → List BootRow → Option BootRow
find_boot boot_id = find λ b. text_eq b.boot_id boot_id

abbrev pub starts_with_state_transition : List EdgeEvent → Bool
starts_with_state_transition [] = false
starts_with_state_transition (e ∷ es) = is_state_transition e

-- The branch of a boot that is not the current one.
unfoldable pub establish_boot :
    HeadRow → ℕ → Option BootRow → Option Text → PreparedEdgeReport → Result BootDecision
establish_boot head current_generation requested_boot requested_previous report = do
  throw_if (is_some requested_boot) stale_boot_problem
  throw_if (not (nullable_eq requested_previous head.current_boot_id)) stale_boot_problem
  throw_if (is_heartbeat_endpoint report.endpoint)
      (protocol (problem report_semantics_invalid 422 "A heartbeat cannot establish a new boot."))
  throw_if (not (report.envelope.first_sequence == 1))
      (sequence_problem sequence_gap 1 "A new boot must start at sequence 1.")
  throw_if (not (starts_with_state_transition report.envelope.events)) (
      protocol (
        problem report_semantics_invalid 422
          "A new boot must start with a complete state transition snapshot."))
  throw_if (leb max_safe_sequence current_generation) (
      protocol (
        problem report_semantics_invalid 422
          "The instance has exhausted its boot generation range."))
  ok (record {
    boot = requested_boot;
    boot_generation = current_generation + 1;
    is_new_boot = true;
  })

-- The branch of the current boot.
unfoldable pub continue_boot : Option BootRow → Option Text → Result BootDecision
continue_boot none requested_previous = throws (internal "The current boot head is inconsistent.")
continue_boot (some boot) requested_previous = do
  throw_if (not (nullable_eq requested_previous boot.previous_boot_id)) stale_boot_problem
  generation ← parse_safe_integer boot.generation false
  ok (record { boot = some boot; boot_generation = generation; is_new_boot = false })

unfoldable pub decide_boot : HeadRow → List BootRow → PreparedEdgeReport → Result BootDecision
decide_boot head boots report = do
  current_generation ← parse_safe_integer head.current_boot_generation true
  let requested = normalize_uuid report.envelope.boot_id
  let requested_previous = normalize_nullable_uuid report.envelope.previous_boot_id
  let requested_boot = find_boot requested boots
  if nullable_eq head.current_boot_id (some requested)
      then continue_boot requested_boot requested_previous
      else establish_boot head current_generation requested_boot requested_previous report

-- `envelope.first_sequence + envelope.events.length - 1`; the schema asks for one event or more.
unfoldable pub last_sequence : PreparedEdgeReport → ℕ
last_sequence report = report.envelope.first_sequence + length report.envelope.events - 1

unfoldable pub expected_sequence : BootDecision → Result ℕ
expected_sequence decision = elim decision.boot [
  | none ↦ ok 1
  | some b ↦ parse_safe_integer b.next_sequence true
]

-- findReceipt
unfoldable pub find_receipt : ℕ → ℕ → ℕ → List ReceiptRow → Option ReceiptRow
find_receipt generation first last =
    find
      λ r. r.boot_generation == generation && r.first_sequence == first && r.last_sequence == last

-- findFingerprints
unfoldable pub find_fingerprints : ℕ → ℕ → ℕ → List FingerprintRow → List FingerprintRow
find_fingerprints generation first last =
    keep λ f. f.boot_generation == generation && leb first f.sequence && leb f.sequence last

-- `submittedBySequence.get`: the last entry of a sequence counts.
unfoldable pub submitted_by_sequence : List CanonicalEvent → ℕ → Option Bytes
submitted_by_sequence [] s = none
submitted_by_sequence (c ∷ cs) s = elim (submitted_by_sequence cs s) [
  | some bytes ↦ some bytes
  | none ↦ if sequence c.event == s then some c.bytes else none
]

abbrev differs : Option Bytes → Bytes → Bool
differs none stored = false
differs (some submitted) stored = not (text_eq stored submitted)

-- `fingerprints.some(…)`: does an accepted event have other content?
unfoldable pub some_differs : List CanonicalEvent → List FingerprintRow → Result Bool
some_differs submitted [] = ok false
some_differs submitted (f ∷ fs) =
    let rest = some_differs submitted fs in
    parse_safe_integer f.sequence false >>= λ s.
    if differs (submitted_by_sequence submitted s) f.canonical_event then ok true else rest

-- ackFromReceipt
unfoldable pub ack_from_receipt : ReceiptRow → Result EdgeReportAck
ack_from_receipt r = do
  current_protocol ← parse_safe_integer r.current_protocol false
  min_supported_protocol ← parse_safe_integer r.min_supported_protocol false
  accepted_through_sequence ← parse_safe_integer r.last_sequence false
  ok (record {
    current_protocol = current_protocol;
    min_supported_protocol = min_supported_protocol;
    instance_id = r.instance_id;
    boot_id = r.boot_id;
    accepted_through_sequence = accepted_through_sequence;
    server_received_at = r.server_received_at;
    lease_expires_at = r.lease_expires_at;
  })

-- The branch of a range that starts below the expected sequence and has no receipt.
unfoldable pub refuse_overlap : ℕ → List CanonicalEvent → List FingerprintRow → Result EdgeReportAck
refuse_overlap expected submitted fingerprints = do
  throw_if (length fingerprints == 0)
      (internal "Accepted sequence state is internally inconsistent.")
  conflicting ← some_differs submitted fingerprints
  throw_if conflicting (
      sequence_problem sequence_conflict expected
        "At least one accepted sequence has different canonical content.")
  throws (
      sequence_problem sequence_overlap expected "The batch partially overlaps accepted sequences.")

unfoldable pub replay : ℕ → ℕ → Store → PreparedEdgeReport → Result EdgeReportAck
replay generation expected s report =
    let first = report.envelope.first_sequence in
    let last = last_sequence report in
    elim (find_receipt generation first last s.receipts) [
      | some r ↦
          if text_eq r.canonical_sha256 report.canonical_payload_hash
            && text_eq r.canonical_payload report.canonical_payload
          then ack_from_receipt r
          else throws (
              sequence_problem sequence_conflict expected
                "The accepted sequence range has different canonical content.")
      | none ↦
          refuse_overlap expected report.canonical_events
            (find_fingerprints generation first last s.fingerprints)
    ]

-- `some ack` is the early return of a replay; `none` goes on to accept the report.
unfoldable pub check_sequence :
    BootDecision → Store → PreparedEdgeReport → Result (Option EdgeReportAck)
check_sequence decision s report = do
  expected ← expected_sequence decision
  let first = report.envelope.first_sequence
  if not decision.is_new_boot && ltb first expected
      then (do ack ← replay decision.boot_generation expected s report; ok (some ack))
      else (do
        throw_if (ltb expected first) (
            sequence_problem sequence_gap expected
              "The batch starts after the next expected sequence.")
        ok none)
