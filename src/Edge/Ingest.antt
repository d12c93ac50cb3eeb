-- ===== src/Edge/Ingest.antt =====
-- presence/application/ingest-edge-report.ts: the locks and the transaction as a whole.
pub mod Consistency
pub mod Expected
pub mod Clear
pub mod Safety
pub mod Replay
pub mod Replays
pub mod Left
pub mod Memory
pub mod Remembered
pub mod Held
pub mod Replayed
pub mod Retry
pub mod Order
use workbuddy_buddy.Prelude.{
  ℕ, Bool, true, false, not, ◌&&◌, ◌||◌, Option, none, some, List, ltb, if◌then◌else◌, any, find,
}
use workbuddy_buddy.Edge.Problem.{
  Result, ok, throws, protocol, fault, problem, ◌>>=◌, ◌>>◌, throw_if, invalid_signature,
  report_semantics_invalid, instance_not_found, device_revoked,
}
use workbuddy_buddy.Edge.Types.{
  Text, Bytes, text_eq, nullable_eq, EdgeEvent, state_transition, heartbeat, EdgeReportAck,
  VerifiedEdgeContext, PreparedEdgeReport, normalize_uuid,
}
use workbuddy_buddy.Edge.Store.{
  InstanceStatus, InstanceRow, AgentRow, CredentialRow, HeadRow, Store, Env, is_none,
}
use workbuddy_buddy.Edge.Boot.{internal, decide_boot, check_sequence}
use workbuddy_buddy.Edge.Commit.{accept_report}

-- assertVerifiedIdentity
unfoldable pub assert_verified_identity :
    PreparedEdgeReport → VerifiedEdgeContext → Result (Unit {0})
assert_verified_identity report verified =
    throw_if
      (not (
          text_eq (normalize_uuid verified.instance_id)
            (normalize_uuid report.envelope.instance_id))
        || not (text_eq (normalize_uuid verified.key_id) (normalize_uuid report.envelope.key_id)))
      (protocol (
        problem invalid_signature 401
          "The verified device identity does not match the report envelope."))

abbrev unsupported : List Text → EdgeEvent → Bool
unsupported pets (state_transition e) = not (any (text_eq e.pet_id) pets)
unsupported pets (heartbeat e) = false

-- assertSupportedPetIds
unfoldable pub assert_supported_pet_ids : List Text → PreparedEdgeReport → Result (Unit {0})
assert_supported_pet_ids pets report = throw_if (any (unsupported pets) report.envelope.events) (
    protocol (
      problem report_semantics_invalid 422
        "The selected pet is not supported by this Control Plane."))

abbrev is_active : InstanceStatus → Bool
is_active InstanceStatus.active = true
is_active InstanceStatus.revoked = false

-- lockInstance
unfoldable pub lock_instance : Text → Store → Result InstanceRow
lock_instance instance_id s =
    let missing =
      protocol (
        problem instance_not_found 401 "The Agent instance or device credential is unavailable.") in
    elim s.instance_row [
      | none ↦ throws missing
      | some row ↦
          if not (text_eq row.id (normalize_uuid instance_id))
          then throws missing
          else if not (is_active row.status) || not (is_none row.revoked_at)
          then throws (
              protocol (
                problem device_revoked 401
                  "The Agent instance or device credential is unavailable."))
          else ok row
    ]

-- lockAgent
unfoldable pub lock_agent : InstanceRow → Store → Result AgentRow
lock_agent row s =
    let revoked =
      protocol
        (problem device_revoked 401 "The Agent instance is not the active reporting instance.") in
    elim s.agent [
      | none ↦ throws revoked
      | some agent ↦
          if nullable_eq agent.active_reporting_instance_id (some row.id)
          then ok agent
          else throws revoked
    ]

-- The credential that the statement of lockAndValidateCredential selects.
abbrev is_usable : Text → ℕ → CredentialRow → Bool
is_usable key_id clock c =
    text_eq c.key_id key_id && is_none c.revoked_at && ltb clock c.valid_until

abbrev changed_key : Env → Option Bytes → CredentialRow → Bool
changed_key env none c = false
changed_key env (some fingerprint) c = not (text_eq (env.sha256 c.public_key) fingerprint)

-- lockAndValidateCredential
unfoldable pub lock_and_validate_credential : Env → VerifiedEdgeContext → Store → Result (Unit {0})
lock_and_validate_credential env verified s =
    elim (find (is_usable (normalize_uuid verified.key_id) env.credential_clock) s.credentials) [
      | none ↦ throws (
          protocol
            (problem device_revoked 401 "The Agent instance or device credential is unavailable."))
      | some c ↦ throw_if (changed_key env verified.credential_public_key_sha256 c) (
          protocol (
            problem invalid_signature 401
              "The verified public key changed before the report was committed."))
    ]

-- lockHead
unfoldable pub lock_head : Store → Result HeadRow
lock_head s = elim s.head [
  | none ↦ throws (internal "The Agent instance has no ingestion head.")
  | some head ↦ ok head
]

-- A replay answers with the stored acknowledgement and writes nothing.
unfoldable pub answer :
    Option EdgeReportAck → Result (EdgeReportAck × Store) → Store → Result (EdgeReportAck × Store)
answer none accepted s = accepted
answer (some ack) accepted s = ok (ack, s)

-- ingestInTransaction
unfoldable pub ingest_in_transaction :
    Env → PreparedEdgeReport → VerifiedEdgeContext → Store → Result (EdgeReportAck × Store)
ingest_in_transaction env report verified s = do
  row ← lock_instance verified.instance_id s
  agent ← lock_agent row s
  lock_and_validate_credential env verified s
  head ← lock_head s
  decision ← decide_boot head s.boots report
  replayed ← check_sequence decision s report
  answer replayed (accept_report env report verified row.id head decision s) s

-- The `catch` of `ingest`: a failed transaction is rolled back, and an unforeseen error is hidden.
abbrev pub settle : Store → Result (EdgeReportAck × Store) → Result EdgeReportAck × Store
settle before (ok (ack, after)) = (ok ack, after)
settle before (throws (protocol p)) = (throws (protocol p), before)
settle before (throws fault) =
    (throws (internal "The report could not be committed atomically."), before)

-- The two assertions stand before the transaction.
abbrev pub checked :
    Result (Unit {0}) → Store → Result EdgeReportAck × Store → Result EdgeReportAck × Store
checked (ok _) before outcome = outcome
checked (throws e) before outcome = (throws e, before)

-- EdgeReportIngestor.ingest
unfoldable pub ingest :
    Env → PreparedEdgeReport → VerifiedEdgeContext → Store → Result EdgeReportAck × Store
ingest env report verified s =
    checked
      (assert_verified_identity report verified
        >> assert_supported_pet_ids env.supported_pets report)
      s (settle s (ingest_in_transaction env report verified s))
