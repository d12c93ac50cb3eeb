-- ===== src/Edge/Store.antt =====
-- The rows that the ingestion transaction of presence/application/ingest-edge-report.ts reads and
-- writes. Each of its statements selects by the instance's id (by the agent's for the agent and
-- its mounts), so a store holds the rows of one instance. Newer rows stand first.
use workbuddy_buddy.Prelude.{
  ℕ, ◌+◌, Bool, true, false, ◌&&◌, ◌||◌, Option, none, some, List, [], ◌∷◌, leb, max, if◌then◌else◌,
}
use workbuddy_buddy.Edge.Problem.{Result, ok, throws, fault}
use workbuddy_buddy.Edge.Types.{
  Text, Bytes, max_safe_sequence, DisplayState, ActivityState, EdgeEvent,
}

pub data InstanceStatus : Type 0 where
  active revoked : InstanceStatus

pub record InstanceRow : Type 0 where
  pub id : Text
  pub logical_agent_id : Text
  pub status : InstanceStatus
  pub revoked_at : Option ℕ

pub record AgentRow : Type 0 where
  pub id : Text
  pub pet_id : Text
  pub active_reporting_instance_id : Option Text

pub record CredentialRow : Type 0 where
  pub key_id : Text
  pub public_key : Bytes
  pub revoked_at : Option ℕ
  pub valid_until : ℕ

pub record HeadRow : Type 0 where
  pub current_boot_id : Option Text
  pub current_boot_generation : ℕ
  pub last_server_received_at : Option ℕ

pub record BootRow : Type 0 where
  pub boot_id : Text
  pub previous_boot_id : Option Text
  pub generation : ℕ
  pub next_sequence : ℕ
  pub first_accepted_at : ℕ
  pub last_accepted_at : ℕ
  pub fenced_at : Option ℕ

pub record ReceiptRow : Type 0 where
  pub id : Text
  pub instance_id : Text
  pub boot_generation : ℕ
  pub boot_id : Text
  pub key_id : Text
  pub first_sequence : ℕ
  pub last_sequence : ℕ
  pub event_count : ℕ
  pub canonical_sha256 : Bytes
  pub canonical_payload : Bytes
  pub sent_at : Text
  pub client_version : Text
  pub server_received_at : ℕ
  pub lease_expires_at : ℕ
  pub current_protocol : ℕ
  pub min_supported_protocol : ℕ

-- The columns `kind`, `observed_at`, `display_state`, `activity_state` and `pet_id` are those of
-- the event.
pub record FingerprintRow : Type 0 where
  pub boot_generation : ℕ
  pub sequence : ℕ
  pub receipt_id : Text
  pub event : EdgeEvent
  pub canonical_sha256 : Bytes
  pub canonical_event : Bytes

pub record PresenceRow : Type 0 where
  pub boot_generation : ℕ
  pub boot_id : Text
  pub last_accepted_sequence : ℕ
  pub last_state_sequence : ℕ
  pub display_state : DisplayState
  pub activity_state : ActivityState
  pub pet_id : Text
  pub display_since : ℕ
  pub activity_since : ℕ
  pub eligible_since : Option ℕ
  pub last_report_received_at : ℕ
  pub lease_expires_at : ℕ
  pub lease_closed_at : Option ℕ

pub data CloseReason : Type 0 where
  state_changed lease_expired boot_replaced instance_revoked retention : CloseReason

pub record IntervalRow : Type 0 where
  pub boot_generation : ℕ
  pub activity_state : ActivityState
  pub started_at : ℕ
  pub start_sequence : ℕ
  pub ended_at : Option ℕ
  pub end_sequence : Option ℕ
  pub close_reason : Option CloseReason

-- The mounts of the instance's agent, in the order of their offices' ids.
pub record MountRow : Type 0 where
  pub office_id : Text
  pub active : Bool
  pub presence_visible : Bool
  pub stats_opt_in : Bool

pub data RevisionEventType : Type 0 where
  presence_changed presence_removed : RevisionEventType

pub data RevisionSourceKind : Type 0 where
  edge_receipt lease_expiry : RevisionSourceKind

-- What `recordRevision` of the projector is called with.
pub record RevisionInput : Type 0 where
  pub office_id : Text
  pub event_type : RevisionEventType
  pub source_kind : RevisionSourceKind
  pub source_key : Text
  pub source_receipt_id : Option Text
  pub at : ℕ

pub record Store : Type 0 where
  pub instance_row : Option InstanceRow
  pub agent : Option AgentRow
  pub credentials : List CredentialRow
  pub head : Option HeadRow
  pub boots : List BootRow
  pub receipts : List ReceiptRow
  pub fingerprints : List FingerprintRow
  pub presence : Option PresenceRow
  pub intervals : List IntervalRow
  pub mounts : List MountRow
  -- The calls that the projector has taken, newest first.
  pub revisions : List RevisionInput

-- What a transaction takes from outside: the two readings of the database's clock, the receipt's
-- random id, the hash function, the pets on offer, and whether the projector, given the calls that
-- it has taken, takes one more or throws.
pub record Env : Type 0 where
  pub credential_clock : ℕ
  pub clock : ℕ
  pub receipt_id : Text
  pub lease_ttl_seconds : ℕ
  pub sha256 : Bytes → Bytes
  pub supported_pets : List Text
  pub projector_accepts : List RevisionInput → RevisionInput → Bool

abbrev pub is_none {ℓ} : {A : Type ℓ} → Option A → Bool
is_none none = true
is_none (some a) = false

abbrev pub is_some {ℓ} : {A : Type ℓ} → Option A → Bool
is_some none = false
is_some (some a) = true

-- ingest-edge-report.ts: parseSafeInteger of a column that holds a whole number.
unfoldable pub parse_safe_integer : ℕ → Bool → Result ℕ
parse_safe_integer value allow_one_past_maximum =
    let maximum = if allow_one_past_maximum then max_safe_sequence + 1 else max_safe_sequence in
    if leb value maximum then ok value else throws fault

-- nextServerReceivedAt: GREATEST of the clock and the last time given out.
unfoldable pub next_server_received_at : ℕ → HeadRow → ℕ
next_server_received_at clock head = elim head.last_server_received_at [
  | none ↦ clock
  | some last ↦ max clock last
]

-- lockAffectedOffices: the offices that show the agent or count its time.
unfoldable pub affected_offices : List MountRow → List Text
affected_offices [] = []
affected_offices (m ∷ ms) =
    let rest = affected_offices ms in
    if m.active && (m.presence_visible || m.stats_opt_in) then m.office_id ∷ rest else rest

-- appendOfficeRevisionEvents: one call of the projector for each office.
unfoldable pub append_office_revisions :
    (List RevisionInput → RevisionInput → Bool)
    → (Text → RevisionInput)
    → List Text
    → List RevisionInput
    → Result (List RevisionInput)
append_office_revisions accepts input [] taken = ok taken
append_office_revisions accepts input (office ∷ offices) taken =
    let rest = append_office_revisions accepts input offices (input office ∷ taken) in
    if accepts taken (input office) then rest else throws fault
