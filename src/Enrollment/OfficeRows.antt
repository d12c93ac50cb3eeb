-- ===== src/Enrollment/OfficeRows.antt =====
-- The rows of an office that its creation writes (apps/control-plane/src/modules/onboarding/application/
-- onboarding-service.ts), beside those of its pairing.
use Prim.Native.String.{String}
use workbuddy_buddy.Prelude.{ℕ, Bool, List}
use workbuddy_buddy.Edge.Types.{Text, Bytes}

pub record OfficeRow : Type 0 where
  pub id : Text
  pub owner_account_id : Text
  pub name : Text
  pub timezone : String
  pub locale : String
  pub discoverability : String
  pub demo_data : Bool
  pub created_at : ℕ

pub record RoomRow : Type 0 where
  pub id : Text
  pub office_id : Text
  pub name : String
  pub scene_capacity : ℕ
  pub created_at : ℕ

pub record MembershipRow : Type 0 where
  pub id : Text
  pub office_id : Text
  pub account_id : Text
  pub created_at : ℕ

pub record OfficeMountRow : Type 0 where
  pub id : Text
  pub office_id : Text
  pub logical_agent_id : Text
  pub owner_account_id : Text
  pub room_id : Text
  pub active : Bool
  pub scene_slot : ℕ
  pub presence_visible : Bool
  pub stats_opt_in : Bool
  pub poster_opt_in : Bool
  pub activated_at : ℕ
  pub updated_at : ℕ

pub record EligibilityRow : Type 0 where
  pub id : Text
  pub office_id : Text
  pub mount_id : Text
  pub started_at : ℕ

pub record ViewTokenRow : Type 0 where
  pub id : Text
  pub office_id : Text
  pub token_hash : Bytes
  pub created_at : ℕ

pub record ScheduleVersionRow : Type 0 where
  pub id : Text
  pub office_id : Text
  pub version : ℕ
  pub timezone : String
  pub effective_from_local_date : Text
  pub created_at : ℕ

-- Local times are minutes of the day.
pub record ScheduleRuleRow : Type 0 where
  pub id : Text
  pub office_id : Text
  pub schedule_version_id : Text
  pub iso_weekday : ℕ
  pub start_local_time : ℕ
  pub end_local_time : ℕ
  pub end_day_offset : ℕ

-- The rows of an office beside those of its pairing. `revisions` lists the source keys of the calls of
-- the projector, `agent_alias` is the alias of the row of logical_agents.
pub record OfficeRows : Type 0 where
  pub agent_alias : Text
  pub accounts : List Text
  pub offices : List OfficeRow
  pub rooms : List RoomRow
  pub memberships : List MembershipRow
  pub mounts : List OfficeMountRow
  pub eligibility : List EligibilityRow
  pub tokens : List ViewTokenRow
  pub schedules : List ScheduleVersionRow
  pub rules : List ScheduleRuleRow
  pub revisions : List Text
