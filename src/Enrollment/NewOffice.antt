-- ===== src/Enrollment/NewOffice.antt =====
-- What createOfficeOnboarding takes from outside and writes: apps/control-plane/src/modules/onboarding/
-- application/onboarding-service.ts. Ids and capabilities are random; `local_date` is the date in the
-- office's time zone.
use workbuddy_buddy.Prelude.{
  ℕ, ◌+◌, suc, zero, Bool, true, false, Option, none, some, List, [], ◌∷◌, if◌then◌else◌,
}
use workbuddy_buddy.Edge.Types.{Text, Bytes}
use workbuddy_buddy.Enrollment.Rows.{PairingStatus, Tables}
use workbuddy_buddy.Enrollment.OfficeRows.{OfficeRows, ScheduleRuleRow}

-- PAIRING_LIFETIME_MINUTES, in milliseconds.
abbrev pub pairing_lifetime : ℕ
pairing_lifetime = 300_000

pub record CreateOfficeOnboardingInput : Type 0 where
  pub office_name : Text
  pub alias : Text
  pub pet_id : Text
  pub presence_visible : Bool
  pub stats_opt_in : Bool
  pub poster_opt_in : Bool

pub record CreateOfficeOnboardingResult : Type 0 where
  pub pairing_code : Text
  pub status_token : Text
  pub expires_at : ℕ
  pub office_url : Text

-- IssuedCapability of modules/identity/domain/capability.ts.
pub record IssuedCapability : Type 0 where
  pub raw : Text
  pub digest : Bytes

-- `ids`
pub record OnboardingIds : Type 0 where
  pub account : Text
  pub office : Text
  pub room : Text
  pub membership : Text
  pub agent : Text
  pub mount : Text
  pub pairing : Text
  pub public_view : Text
  pub schedule : Text
  pub qualification : Text

pub record OnboardingEnv : Type 0 where
  pub now : ℕ
  pub later : ℕ
  pub ids : OnboardingIds
  pub pairing_code : Text
  pub status_token : Text
  pub public_view : Text
  pub digest_capability : Text → Bytes
  pub rule_id : ℕ → Text
  pub local_date : ℕ → Text
  pub conflicts : Bool
  pub projector_accepts : Text → Bool

-- issueCapability, of a random text.
abbrev pub issue_capability : OnboardingEnv → Text → IssuedCapability
issue_capability env raw = record { raw = raw; digest = env.digest_capability raw }

-- onboardingClock
abbrev pub expires_at : OnboardingEnv → ℕ
expires_at env = env.later + pairing_lifetime

-- The loop over the weekdays: `count` of them, from `iso_weekday` on.
unfoldable pub weekday_rules : OnboardingEnv → ℕ → ℕ → List ScheduleRuleRow
weekday_rules env iso_weekday zero = []
weekday_rules env iso_weekday (suc count) =
    record {
      id = env.rule_id iso_weekday;
      office_id = env.ids.office;
      schedule_version_id = env.ids.schedule;
      iso_weekday = iso_weekday;
      start_local_time = 540;
      end_local_time = 1_080;
      end_day_offset = 0;
    }
    ∷ weekday_rules env (iso_weekday + 1) count

unfoldable pub office_rows : OnboardingEnv → CreateOfficeOnboardingInput → OfficeRows
office_rows env input = record {
  agent_alias = input.alias;
  accounts = env.ids.account ∷ [];
  offices =
      record {
        id = env.ids.office;
        owner_account_id = env.ids.account;
        name = input.office_name;
        timezone = "Asia/Shanghai";
        locale = "zh-CN";
        discoverability = "unlisted";
        demo_data = false;
        created_at = env.now;
      }
      ∷ [];
  rooms =
      record {
        id = env.ids.room;
        office_id = env.ids.office;
        name = "Lobby";
        scene_capacity = 24;
        created_at = env.now;
      }
      ∷ [];
  memberships =
      record {
        id = env.ids.membership;
        office_id = env.ids.office;
        account_id = env.ids.account;
        created_at = env.now;
      }
      ∷ [];
  mounts =
      record {
        id = env.ids.mount;
        office_id = env.ids.office;
        logical_agent_id = env.ids.agent;
        owner_account_id = env.ids.account;
        room_id = env.ids.room;
        active = true;
        scene_slot = 0;
        presence_visible = input.presence_visible;
        stats_opt_in = input.stats_opt_in;
        poster_opt_in = input.poster_opt_in;
        activated_at = env.now;
        updated_at = env.now;
      }
      ∷ [];
  eligibility =
      if input.stats_opt_in
      then record {
        id = env.ids.qualification;
        office_id = env.ids.office;
        mount_id = env.ids.mount;
        started_at = env.now;
      }
        ∷ []
      else [];
  tokens =
      record {
        id = env.ids.public_view;
        office_id = env.ids.office;
        token_hash = (issue_capability env env.public_view).digest;
        created_at = env.now;
      }
      ∷ [];
  schedules =
      record {
        id = env.ids.schedule;
        office_id = env.ids.office;
        version = 1;
        timezone = "Asia/Shanghai";
        effective_from_local_date = env.local_date env.now;
        created_at = env.now;
      }
      ∷ [];
  rules = weekday_rules env 1 5;
  revisions = [];
}

-- The rows of the pairing and of the agent.
unfoldable pub pairing_rows : OnboardingEnv → CreateOfficeOnboardingInput → Option Text → Tables
pairing_rows env input server_id = record {
  pairing = some (record {
    id = env.ids.pairing;
    logical_agent_id = env.ids.agent;
    pairing_code_hash = (issue_capability env env.pairing_code).digest;
    status_secret_hash = (issue_capability env env.status_token).digest;
    status = PairingStatus.pending;
    failed_claim_attempts = 0;
    expires_at = expires_at env;
    claimed_public_key_hash = none;
    claimed_instance_id = none;
    claimed_key_id = none;
    claimed_client_version = none;
    claimed_at = none;
  });
  agent =
      some
        (record { id = env.ids.agent; pet_id = input.pet_id; active_reporting_instance_id = none });
  instances = [];
  credentials = [];
  heads = [];
  server_id = server_id;
}

-- The source key of the revision that initialises the projection.
abbrev pub seed_key : OnboardingEnv → Text
seed_key env =
    b'o' ∷ b'n' ∷ b'b' ∷ b'o' ∷ b'a' ∷ b'r' ∷ b'd' ∷ b'i' ∷ b'n' ∷ b'g' ∷ b':' ∷ env.ids.pairing

unfoldable pub onboarding_result : OnboardingEnv → CreateOfficeOnboardingResult
onboarding_result env = record {
  pairing_code = env.pairing_code;
  status_token = env.status_token;
  expires_at = expires_at env;
  office_url = b'/' ∷ b'o' ∷ b'/' ∷ env.public_view;
}
