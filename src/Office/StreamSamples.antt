-- ===== src/Office/StreamSamples.antt =====
-- An office with one agent: its first revisions, the stream of a viewer, a token that is revoked; the
-- theorems on revisions, pages and streams at these inputs.
mod Consent
mod Tokens
mod Pages
use workbuddy_buddy.Prelude.{
  count_where, min, ℕ, ◌+◌, ◌≤◌, ◌<◌, ◌≡◌, refl, Bool, true, false, Option, none, some, List, [],
  ◌∷◌, arith, All, sort,
}
use workbuddy_buddy.Edge.Problem.{ok}
use workbuddy_buddy.Edge.Types.{Text, text_eq}
use workbuddy_buddy.Office.Intervals.{
  derive_idle_stage, is_safe_integer, assert_timestamp, assert_interval, whole_seconds_between,
  stage_of_seconds,
}
use workbuddy_buddy.Edge.Idle.{IdleStage}
use workbuddy_buddy.Office.Snapshot.{
  LeaderboardStatus, PublicOfficeSnapshot, PublicAgentRow, View, build_public_office_snapshot,
  parse_positive, public_agents, public_agent, public_idle_stage, daily_award_of,
  leaderboard_status_of,
}
use workbuddy_buddy.Office.Revisions.{
  Office, ProjectorEnv, RecordPublicRevisionInput, PublicRevisionEventType,
  PublicRevisionSourceKind, record_revision, record_privacy_lowering_revision,
  record_public_revision, retain_one_office, first_pending, safe_cutoff, write_revision,
  with_revision, recorded, invalidate_replay_history, delete_events, projection_time,
  parse_revision,
}
use workbuddy_buddy.Office.Revisions.Invariant.{IsReplayable}
use workbuddy_buddy.Office.Revisions.Retain.{retained, retain_one_office-IsReplayable}
use workbuddy_buddy.Office.Revisions.Sweep.{
  needs_retention, retain_candidates, retain_office_revisions, retain_office_revisions-shrinks,
}
use workbuddy_buddy.Office.Revisions.History.{
  IsFresh, Reach, here, next, records, Reach-IsReplayable,
}
use workbuddy_buddy.Office.Reader.{
  PublicCapability, PublicReplayEvent, PublicStreamPage, page, acquire_locked_stream_page,
  stream_page, replay_page, replay_events, within_bytes, revoke_public_view_token,
  rotate_public_view_token, revoke_tokens, assert_token_dates, get_snapshot,
}
use workbuddy_buddy.Office.Reader.Page.{Served, acquire_locked_stream_page-serves}
use workbuddy_buddy.Office.Reader.Privacy.{record_privacy_lowering_revision-hides}
use workbuddy_buddy.Office.Reader.Tokens.{
  revoke_public_view_token-closes, rotate_public_view_token-replaces,
}
use workbuddy_buddy.Office.Consent.{
  MountConsentRow, ChangeMountConsentInput, ChangeMountConsentResult, ConsentStore,
  change_mount_consent, change_mount, next_consent, has_changed, privacy_lowering, write_consent,
  change_qualification, record_consent,
}
use workbuddy_buddy.Office.Consent.Withdrawal.{
  AreQualified, change_mount_consent-IsQualified, change_mount_consent-withdraws,
}
use workbuddy_buddy.Office.Stream.{
  World, Stream, Frame, DrainWaitResult, pump, pump_round, after_page, after_events, queue_events,
  queue_event,
}
use workbuddy_buddy.Office.Stream.Delivery.{IsDelivered, pump-IsDelivered}
use workbuddy_buddy.Office.Stream.Arrival.{IsReady, pump-arrives}

-- The bytes of a snapshot are its revision, which a payload begins with.
abbrev pub bytes : PublicOfficeSnapshot → Text
bytes s = s.office_revision ∷ []

abbrev pub stated : Text → Option ℕ
stated [] = none
stated (n ∷ t) = some n

abbrev agent : PublicAgentRow
agent = record {
  mount_id = b'm' ∷ [];
  room_id = b'r' ∷ [];
  alias = b'x' ∷ [];
  pet_id = b'p' ∷ [];
  online = true;
  display_state = none;
  eligible_since = some 0;
  scene_slot = none;
}

abbrev view : View
view = record {
  office = record {
    name = b'o' ∷ [];
    timezone = b'z' ∷ [];
    demo_data = false;
    local_date = b'd' ∷ [];
  };
  rooms = record { room_id = b'r' ∷ []; name = b'r' ∷ []; scene_capacity = 4 } ∷ [];
  agents = agent ∷ [];
  scores = [];
  award = none;
}

abbrev pub env : ProjectorEnv
env = record {
  clock = 1000;
  ensure_schedule = λ at. ok tt;
  view = λ at. view;
  validator = none;
  canonical_bytes = bytes;
}

abbrev seed : RecordPublicRevisionInput
seed = record {
  event_type = PublicRevisionEventType.projection_initialized;
  source_kind = PublicRevisionSourceKind.projection_seed;
  source_key = b's' ∷ [];
  source_receipt_id = none;
  at = 900;
}

abbrev tick : RecordPublicRevisionInput
tick = record {
  event_type = PublicRevisionEventType.projection_ticked;
  source_kind = PublicRevisionSourceKind.projection_tick;
  source_key = b't' ∷ [];
  source_receipt_id = none;
  at = 1000;
}

abbrev pub lowering : RecordPublicRevisionInput
lowering = record {
  event_type = PublicRevisionEventType.consent_changed;
  source_kind = PublicRevisionSourceKind.consent_change;
  source_key = b'c' ∷ [];
  source_receipt_id = none;
  at = 1000;
}

abbrev empty : Office
empty = record {
  revision = 0;
  minimum_replay_revision = 0;
  deletion_requested = false;
  events = [];
  projection = none;
  outbox = [];
  tokens =
      record { token_hash = b'h' ∷ []; created_at = 0; expires_at = none; revoked_at = none } ∷ [];
  notified = [];
}

abbrev pub shown : ℕ → PublicOfficeSnapshot
shown revision = record {
  office_revision = revision;
  generated_at = 1000;
  office_name = b'o' ∷ [];
  office_local_date = b'd' ∷ [];
  office_timezone = b'z' ∷ [];
  rooms = view.rooms;
  agents =
      record {
        mount_id = b'm' ∷ [];
        room_id = b'r' ∷ [];
        alias = b'x' ∷ [];
        pet_id = b'p' ∷ [];
        online = true;
        display_state = none;
        idle_stage = IdleStage.none;
        scene_slot = none;
      }
      ∷ [];
  leaderboard_local_date = b'd' ∷ [];
  leaderboard_status = LeaderboardStatus.provisional;
  leaderboard_as_of = 1000;
  leaderboard_entries = [];
  daily_award = none;
  demo_data = false;
}

abbrev seeded : Office
seeded = recorded env seed false 1 1000 (shown 1) empty

abbrev pub ticked : Office
ticked = recorded env tick false 2 1000 (shown 2) seeded

seed_recorded : record_revision env seed empty ≡ ok (shown 1, seeded)
unfolding record_revision record_public_revision write_revision build_public_office_snapshot
    parse_positive is_safe_integer public_agents public_agent public_idle_stage derive_idle_stage
    assert_timestamp assert_interval whole_seconds_between stage_of_seconds daily_award_of
    leaderboard_status_of projection_time with_revision invalidate_replay_history delete_events
seed_recorded = refl

tick_recorded : record_revision env tick seeded ≡ ok (shown 2, ticked)
unfolding record_revision record_public_revision write_revision build_public_office_snapshot
    parse_positive is_safe_integer public_agents public_agent public_idle_stage derive_idle_stage
    assert_timestamp assert_interval whole_seconds_between stage_of_seconds daily_award_of
    leaderboard_status_of projection_time with_revision invalidate_replay_history delete_events
    text_eq
tick_recorded = refl

empty-IsFresh : IsFresh empty
empty-IsFresh = record {
  at_minimum = refl;
  safe = omega arith;
  older = tt;
  no_projection = refl;
  no_outbox = refl;
}

Reach-IsReplayable_example : IsReplayable stated ticked
Reach-IsReplayable_example = Reach-IsReplayable stated empty ticked empty-IsFresh (
    next seeded ticked
      (next empty seeded here (records empty seeded env seed (shown 1) (λ s. refl) seed_recorded))
      (records seeded ticked env tick (shown 2) (λ s. refl) tick_recorded))

empty-Reach : Reach stated empty ticked
empty-Reach =
    next seeded ticked
      (next empty seeded here (records empty seeded env seed (shown 1) (λ s. refl) seed_recorded))
      (records seeded ticked env tick (shown 2) (λ s. refl) tick_recorded)

pub ticked-IsReplayable : IsReplayable stated ticked
ticked-IsReplayable = Reach-IsReplayable stated empty ticked empty-IsFresh empty-Reach

abbrev pub hidden : Office
hidden = recorded env lowering true 3 1000 (shown 3) ticked

pub lowering_recorded : record_privacy_lowering_revision env lowering ticked ≡ ok (shown 3, hidden)
unfolding record_privacy_lowering_revision record_public_revision write_revision
    build_public_office_snapshot parse_positive is_safe_integer public_agents public_agent
    public_idle_stage derive_idle_stage assert_timestamp assert_interval whole_seconds_between
    stage_of_seconds daily_award_of leaderboard_status_of projection_time with_revision
    invalidate_replay_history delete_events text_eq
lowering_recorded = refl

retain_one_office-IsReplayable_example :
    (cut_any : Bool) × (after : Office) × (retain_one_office 1 ticked ≡ ok (cut_any, after))
    × IsReplayable stated after
    × (after.revision ≡ ticked.revision)
    × (after.projection ≡ ticked.projection)
    × (ticked.revision ≤ after.minimum_replay_revision + 1)
    × (cut_any ≡ true → after.minimum_replay_revision + 1 ≡ ticked.revision)
    × (cut_any ≡ false → after ≡ ticked)
retain_one_office-IsReplayable_example =
    retain_one_office-IsReplayable stated 1 ticked ticked-IsReplayable (omega arith)

abbrev pub viewer : PublicCapability
viewer = record { raw_digest = b'h' ∷ []; format_valid = true }

-- The second office does not exceed the limit, and is left as it was.
swept :
    retain_office_revisions 1 10 (ticked ∷ seeded ∷ [])
    ≡ (ok 1, (retained 1 ticked).1 ∷ seeded ∷ [])
unfolding retain_office_revisions retain_candidates needs_retention retain_one_office first_pending
    safe_cutoff parse_revision is_safe_integer delete_events invalidate_replay_history with_revision
swept = refl

retain_office_revisions-shrinks_example :
    (count : ℕ) × (after : List Office) × (retain_office_revisions 1 10 (ticked ∷ [])
      ≡ (ok count, after))
    × (count ≡ min 10 (count_where (needs_retention 1) (ticked ∷ [])))
    × All (IsReplayable stated) after
    × (count_where (needs_retention 1) after + count
        ≡ count_where (needs_retention 1) (ticked ∷ []))
retain_office_revisions-shrinks_example =
    retain_office_revisions-shrinks stated 1 (omega arith) 10 (ticked ∷ [])
      (ticked-IsReplayable, tt) (omega arith) (omega arith) (omega arith)
