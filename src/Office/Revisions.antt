-- ===== src/Office/Revisions.antt =====
-- apps/control-plane/src/modules/public-office/application: recordPublicRevision and its three callers
-- (public-office-projector.ts), and retainOneOffice (retain-office-revisions.ts).
-- An `Office` holds the rows of one office that these statements read and write; the office's row
-- exists. The constraints of the tables that a statement can violate are checked where it is run.
pub mod Log
pub mod Invariant
pub mod Record
pub mod Retain
pub mod Sweep
pub mod History
use workbuddy_buddy.Prelude.{
  ℕ, ◌+◌, ◌-◌, Bool, not, ◌&&◌, ◌||◌, Option, none, some, List, [], ◌∷◌, ◌++◌, leb, ltb, ◌==◌,
  if◌then◌else◌, any, keep, update_where, min, max,
}
use workbuddy_buddy.Edge.Problem.{Result, ok, throws, fault, ◌>>=◌, ◌>>◌, throw_if}
use workbuddy_buddy.Edge.Types.{Text, text_eq, max_safe_sequence}
use workbuddy_buddy.Edge.Store.{is_none}
use workbuddy_buddy.Office.Intervals.{is_safe_integer}
use workbuddy_buddy.Office.Snapshot.{
  PublicOfficeSnapshot, View, build_public_office_snapshot, parse_positive,
}

pub data PublicRevisionEventType : Type 0 where
  projection_initialized projection_ticked presence_changed presence_removed schedule_changed :
      PublicRevisionEventType
  office_day_settled consent_changed : PublicRevisionEventType

pub data PublicRevisionSourceKind : Type 0 where
  projection_seed edge_receipt lease_expiry schedule_change projection_tick :
      PublicRevisionSourceKind
  office_day_settlement consent_change : PublicRevisionSourceKind

-- The number of a source kind in the list of its type.
abbrev kind_number : PublicRevisionSourceKind → ℕ
kind_number projection_seed = 0
kind_number edge_receipt = 1
kind_number lease_expiry = 2
kind_number schedule_change = 3
kind_number projection_tick = 4
kind_number office_day_settlement = 5
kind_number consent_change = 6

abbrev is_consent_changed : PublicRevisionEventType → Bool
is_consent_changed consent_changed = Bool.true
is_consent_changed _ = Bool.false

-- The office's id is that of the rows.
pub record RecordPublicRevisionInput : Type 0 where
  pub event_type : PublicRevisionEventType
  pub source_kind : PublicRevisionSourceKind
  pub source_key : Text
  pub source_receipt_id : Option Text
  pub at : ℕ

-- A row of office_revision_events. Rows of format 0 have no payloads.
pub record RevisionEvent : Type 0 where
  pub revision : ℕ
  pub event_type : PublicRevisionEventType
  pub public_payload : Option PublicOfficeSnapshot
  pub canonical_payload : Option Text
  pub created_at : ℕ
  pub projection_format_version : ℕ

-- The row of office_current_public_projections.
pub record CurrentProjection : Type 0 where
  pub revision : ℕ
  pub snapshot_payload : PublicOfficeSnapshot
  pub canonical_payload : Text
  pub generated_at : ℕ

-- A row of domain_outbox.
pub record OutboxRow : Type 0 where
  pub office_revision : ℕ
  pub source_kind : PublicRevisionSourceKind
  pub source_key : Text
  pub source_receipt_id : Option Text
  pub created_at : ℕ
  pub published_at : Option ℕ

-- A row of office_public_view_tokens.
pub record TokenRow : Type 0 where
  pub token_hash : Text
  pub created_at : ℕ
  pub expires_at : Option ℕ
  pub revoked_at : Option ℕ

-- `notified` holds the revisions that pg_notify has sent, newest first.
pub record Office : Type 0 where
  pub revision : ℕ
  pub minimum_replay_revision : ℕ
  pub deletion_requested : Bool
  pub events : List RevisionEvent
  pub projection : Option CurrentProjection
  pub outbox : List OutboxRow
  pub tokens : List TokenRow
  pub notified : List ℕ

-- What a projection takes from outside: the clock, the materialisation of the schedule (which
-- writes rows that only the SELECTs of the view read), the view, the validator that the projector was
-- created with, and the canonical JSON of a snapshot.
pub record ProjectorEnv : Type 0 where
  pub clock : ℕ
  pub ensure_schedule : ℕ → Result (Unit {0})
  pub view : ℕ → View
  pub validator : Option (PublicOfficeSnapshot → Bool)
  pub canonical_bytes : PublicOfficeSnapshot → Text

abbrev pub rejects : Option (PublicOfficeSnapshot → Bool) → PublicOfficeSnapshot → Bool
rejects none snapshot = Bool.false
rejects (some accepts) snapshot = not (accepts snapshot)

-- The `projection_at` of the first statement.
unfoldable pub projection_time : ℕ → ℕ → Option CurrentProjection → ℕ
projection_time clock at none = max clock at
projection_time clock at (some p) = max clock (max at p.generated_at)

-- DELETE of the events whose revision meets a condition, with the outbox rows that refer to them
-- (ON DELETE CASCADE).
unfoldable pub delete_events : (ℕ → Bool) → Office → Office
delete_events p s = record s {
  events = keep (λ e. not (p e.revision)) s.events;
  outbox =
      keep (λ r. not (any (λ e. p e.revision && e.revision == r.office_revision) s.events))
        s.outbox;
}

-- The rows after the INSERT statements, the publication of the outbox row and the UPDATE of the
-- office's revision.
unfoldable pub with_revision :
    RecordPublicRevisionInput → ℕ → ℕ → PublicOfficeSnapshot → Text → Office → Office
with_revision input revision at snapshot payload s = record s {
  revision = revision;
  events =
      s.events
      ++ (record {
        revision = revision;
        event_type = input.event_type;
        public_payload = some snapshot;
        canonical_payload = some payload;
        created_at = at;
        projection_format_version = 1;
      }
          ∷ []);
  projection = some (record {
    revision = revision;
    snapshot_payload = snapshot;
    canonical_payload = payload;
    generated_at = at;
  });
  outbox =
      update_where (λ r. r.office_revision == revision && is_none r.published_at)
        (λ r. record r { published_at = some at })
        (record {
          office_revision = revision;
          source_kind = input.source_kind;
          source_key = input.source_key;
          source_receipt_id = input.source_receipt_id;
          created_at = at;
          published_at = none;
        }
          ∷ s.outbox);
}

-- `if (invalidateReplayHistory)`
unfoldable pub invalidate_replay_history : Bool → ℕ → Office → Office
invalidate_replay_history invalidate revision s =
    if invalidate
    then record (delete_events (λ r. ltb r revision) s) { minimum_replay_revision = revision - 1 }
    else s

-- The UNIQUE constraint of domain_outbox.
abbrev pub has_source : RecordPublicRevisionInput → OutboxRow → Bool
has_source input r =
    kind_number r.source_kind == kind_number input.source_kind
    && text_eq r.source_key input.source_key

-- The rows after all writes.
abbrev pub recorded :
    ProjectorEnv → RecordPublicRevisionInput → Bool → ℕ → ℕ → PublicOfficeSnapshot → Office → Office
recorded env input invalidate revision at snapshot s =
    let written = with_revision input revision at snapshot (env.canonical_bytes snapshot) s in
    record (invalidate_replay_history invalidate revision written) {
      notified = revision ∷ s.notified;
    }

-- From the validator on.
unfoldable pub write_revision :
    ProjectorEnv
    → RecordPublicRevisionInput
    → Bool
    → ℕ
    → ℕ
    → PublicOfficeSnapshot
    → Office
    → Result (PublicOfficeSnapshot × Office)
write_revision env input invalidate revision at snapshot s = do
  throw_if (rejects env.validator snapshot) fault
  throw_if (any (λ e. e.revision == revision) s.events) fault
  throw_if (any (has_source input) s.outbox) fault
  ok (snapshot, recorded env input invalidate revision at snapshot s)

-- recordPublicRevision: an error rolls back to the savepoint, which leaves the rows as they were.
unfoldable pub record_public_revision :
    ProjectorEnv
    → RecordPublicRevisionInput
    → Bool
    → Office
    → Result (PublicOfficeSnapshot × Office)
record_public_revision env input invalidate s = do
  throw_if (not (ltb s.revision max_safe_sequence)) fault
  let at = projection_time env.clock input.at s.projection
  revision ← parse_positive (s.revision + 1)
  env.ensure_schedule at
  snapshot ← build_public_office_snapshot (env.view at) (s.revision + 1) revision at
  write_revision env input invalidate revision at snapshot s

-- PublicOfficeProjector.recordRevision
unfoldable pub record_revision :
    ProjectorEnv → RecordPublicRevisionInput → Office → Result (PublicOfficeSnapshot × Office)
record_revision env input s = do
  throw_if (is_consent_changed input.event_type || kind_number input.source_kind == 6) fault
  record_public_revision env input Bool.false s

-- PublicOfficeProjector.recordConsentExpansionRevision
unfoldable pub record_consent_expansion_revision :
    ProjectorEnv → RecordPublicRevisionInput → Office → Result (PublicOfficeSnapshot × Office)
record_consent_expansion_revision env input s = record_public_revision env input Bool.false s

-- PublicOfficeProjector.recordPrivacyLoweringRevision
unfoldable pub record_privacy_lowering_revision :
    ProjectorEnv → RecordPublicRevisionInput → Office → Result (PublicOfficeSnapshot × Office)
record_privacy_lowering_revision env input s = record_public_revision env input Bool.true s

-- parseRevision of retain-office-revisions.ts.
unfoldable pub parse_revision : ℕ → Result ℕ
unfolding is_safe_integer
parse_revision value = if is_safe_integer value then ok value else throws fault

-- The SELECT of the first unpublished revision up to a cutoff.
unfoldable pub first_pending : ℕ → List OutboxRow → Option ℕ
first_pending cutoff [] = none
first_pending cutoff (r ∷ rs) =
    let rest = first_pending cutoff rs in
    if is_none r.published_at && leb r.office_revision cutoff
    then some (elim rest [ none ↦ r.office_revision | some first ↦ min r.office_revision first ])
    else rest

-- `safeCutoff`
unfoldable pub safe_cutoff : ℕ → Option ℕ → Result ℕ
safe_cutoff desired none = ok desired
safe_cutoff desired (some pending) = do first ← parse_revision pending; ok (min desired (first - 1))

-- retainOneOffice
unfoldable pub retain_one_office : ℕ → Office → Result (Bool × Office)
retain_one_office max_replay_revisions s = do
  current ← parse_revision s.revision
  minimum ← parse_revision s.minimum_replay_revision
  let desired = current - max_replay_revisions
  if leb desired minimum then ok (Bool.false, s) else (do
    cutoff ← safe_cutoff desired (first_pending desired s.outbox)
    if leb cutoff minimum
        then ok (Bool.false, s)
        else ok (
          Bool.true,
          record (delete_events (λ r. leb r cutoff) s) { minimum_replay_revision = cutoff },
        ))
