-- ===== src/Office/Snapshot.antt =====
-- apps/control-plane/src/modules/public-office: domain/types.ts, the public snapshot of an office, and
-- buildPublicOfficeSnapshot of application/public-office-projector.ts, which assembles it.
-- What the SELECT statements return is a `View`. Times stay numbers where the source prints them with
-- `toISOString`; the fixed `schema_version`, `final` and `disclaimer` of a snapshot are left out.
use workbuddy_buddy.Prelude.{
  ℕ, Bool, not, ◌&&◌, Option, none, some, List, [], ◌∷◌, ltb, ◌==◌, if◌then◌else◌,
}
use workbuddy_buddy.Edge.Problem.{Result, ok, throws, fault, ◌>>=◌, ◌>>◌, throw_if}
use workbuddy_buddy.Edge.Types.{Text, text_eq, DisplayState}
use workbuddy_buddy.Edge.Idle.{IdleStage}
use workbuddy_buddy.Office.Intervals.{derive_idle_stage, is_safe_integer}

pub record PublicRoom : Type 0 where
  pub room_id : Text
  pub name : Text
  pub scene_capacity : ℕ

pub record PublicAgent : Type 0 where
  pub mount_id : Text
  pub room_id : Text
  pub alias : Text
  pub pet_id : Text
  pub online : Bool
  pub display_state : Option DisplayState
  pub idle_stage : IdleStage
  pub scene_slot : Option ℕ

pub record PublicLeaderboardEntry : Type 0 where
  pub rank : ℕ
  pub mount_id : Text
  pub alias : Text
  pub pet_id : Text
  pub slacking_seconds : ℕ

pub record PublicDailyAward : Type 0 where
  pub office_local_date : Text
  pub awarded_at : ℕ
  pub winner_mount_id : Text
  pub winner_alias : Text
  pub winner_pet_id : Text
  pub winner_slacking_seconds : ℕ

pub data LeaderboardStatus : Type 0 where
  provisional final : LeaderboardStatus

pub record PublicOfficeSnapshot : Type 0 where
  pub office_revision : ℕ
  pub generated_at : ℕ
  pub office_name : Text
  pub office_local_date : Text
  pub office_timezone : Text
  pub rooms : List PublicRoom
  pub agents : List PublicAgent
  pub leaderboard_local_date : Text
  pub leaderboard_status : LeaderboardStatus
  pub leaderboard_as_of : ℕ
  pub leaderboard_entries : List PublicLeaderboardEntry
  pub daily_award : Option PublicDailyAward
  pub demo_data : Bool

-- The row of the SELECT on the office, but for its revision.
pub record OfficeView : Type 0 where
  pub name : Text
  pub timezone : Text
  pub demo_data : Bool
  pub local_date : Text

-- The rows of the SELECT on the mounts.
pub record PublicAgentRow : Type 0 where
  pub mount_id : Text
  pub room_id : Text
  pub alias : Text
  pub pet_id : Text
  pub online : Bool
  pub display_state : Option DisplayState
  pub eligible_since : Option ℕ
  pub scene_slot : Option ℕ

pub record AwardRow : Type 0 where
  pub award : PublicDailyAward
  pub publicly_visible : Bool

-- What the statements of buildPublicOfficeSnapshot return.
pub record View : Type 0 where
  pub office : OfficeView
  pub rooms : List PublicRoom
  pub agents : List PublicAgentRow
  pub scores : List PublicLeaderboardEntry
  pub award : Option AwardRow

-- parseSafeInteger of public-office-projector.ts, without `allowZero`.
unfoldable pub parse_positive : ℕ → Result ℕ
unfolding is_safe_integer
parse_positive value = if is_safe_integer value && ltb 0 value then ok value else throws fault

-- The stage of an agent that is online and eligible, which `deriveIdleStage` may refuse.
unfoldable pub public_idle_stage : ℕ → PublicAgentRow → Result IdleStage
public_idle_stage at row = elim row.eligible_since [
  | none ↦ ok IdleStage.none
  | some since ↦
      if row.online
      then derive_idle_stage (some (record { started_at_ms = since; ended_at_ms = none })) at
      else ok IdleStage.none
]

unfoldable pub public_agent : ℕ → PublicAgentRow → Result PublicAgent
public_agent at row = do
  stage ← public_idle_stage at row
  ok (record {
    mount_id = row.mount_id;
    room_id = row.room_id;
    alias = row.alias;
    pet_id = row.pet_id;
    online = row.online;
    display_state = if row.online then row.display_state else none;
    idle_stage = stage;
    scene_slot = row.scene_slot;
  })

-- `agentsResult.rows.map(…)`
unfoldable pub public_agents : ℕ → List PublicAgentRow → Result (List PublicAgent)
public_agents at [] = ok []
public_agents at (row ∷ rows) = do
  agent ← public_agent at row
  agents ← public_agents at rows
  ok (agent ∷ agents)

-- `dailyAward`: the newest result of the office, if it may be shown.
unfoldable pub daily_award_of : Option AwardRow → Result (Option PublicDailyAward)
daily_award_of none = ok none
daily_award_of (some row) =
    if row.publicly_visible
    then (do
      seconds ← parse_positive row.award.winner_slacking_seconds
      ok (some (record row.award { winner_slacking_seconds = seconds })))
    else ok none

unfoldable pub leaderboard_status_of : Option AwardRow → Text → LeaderboardStatus
leaderboard_status_of none local_date = provisional
leaderboard_status_of (some row) local_date =
    if text_eq row.award.office_local_date local_date then final else provisional

-- buildPublicOfficeSnapshot, of an office whose row has the given revision.
unfoldable pub build_public_office_snapshot : View → ℕ → ℕ → ℕ → Result PublicOfficeSnapshot
build_public_office_snapshot view stored_revision revision at = do
  stored ← parse_positive stored_revision
  throw_if (not (stored == revision)) fault
  agents ← public_agents at view.agents
  award ← daily_award_of view.award
  ok (record {
    office_revision = revision;
    generated_at = at;
    office_name = view.office.name;
    office_local_date = view.office.local_date;
    office_timezone = view.office.timezone;
    rooms = view.rooms;
    agents = agents;
    leaderboard_local_date = view.office.local_date;
    leaderboard_status = leaderboard_status_of view.award view.office.local_date;
    leaderboard_as_of = at;
    leaderboard_entries = view.scores;
    daily_award = award;
    demo_data = view.office.demo_data;
  })
