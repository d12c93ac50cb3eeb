-- ===== src/Enrollment/Issue.antt =====
-- The statements by which a claim issues an instance and its credential: apps/control-plane/src/modules/
-- enrollment/application/claim-pairing.ts.
use workbuddy_buddy.Prelude.{◌||◌, Bool, Option, none, some, ◌∷◌, if◌then◌else◌, any}
use workbuddy_buddy.Edge.Types.{Bytes, Text, text_eq}
use workbuddy_buddy.Edge.Store.{InstanceStatus, AgentRow}
use workbuddy_buddy.Enrollment.Problem.{Outcome, returns, refuses, fails}
use workbuddy_buddy.Enrollment.Rows.{claimed, PairingRow, DeviceCredential, Tables}
use workbuddy_buddy.Enrollment.Request.{
  claim_result, ClaimEnv, ClaimPairingInput, ClaimPairingResult, conflict_problem, valid_until,
}

abbrev pub new_credential : ClaimEnv → ClaimPairingInput → DeviceCredential
new_credential env input = record {
  instance_id = env.instance_id;
  credential = record {
    key_id = env.key_id;
    public_key = input.public_key;
    revoked_at = none;
    valid_until = valid_until env;
  };
}

-- The rows that a fresh claim writes: the instance, its credential and its head, the agent's active
-- instance, and the pairing.
unfoldable pub write_claim : ClaimEnv → ClaimPairingInput → PairingRow → AgentRow → Tables → Tables
write_claim env input p agent s = record s {
  instances =
      record {
        id = env.instance_id;
        logical_agent_id = p.logical_agent_id;
        status = InstanceStatus.active;
        revoked_at = none;
      }
      ∷ s.instances;
  credentials = new_credential env input ∷ s.credentials;
  heads =
      record {
        instance_id = env.instance_id;
        head = record {
          current_boot_id = none;
          current_boot_generation = 0;
          last_server_received_at = none;
        };
      }
      ∷ s.heads;
  agent = some (record agent { active_reporting_instance_id = some env.instance_id });
  pairing = some (record p {
    status = claimed;
    claimed_public_key_hash = some (env.sha256 input.public_key);
    claimed_instance_id = some env.instance_id;
    claimed_key_id = some env.key_id;
    claimed_client_version = some input.client_version;
    claimed_at = some env.now;
  });
}

-- A violation of the primary key of each of the three tables.
abbrev pub has_instance : Text → Tables → Bool
has_instance id s = any (λ row. text_eq row.id id) s.instances

-- Of device_credentials also a violation of `UNIQUE (public_key)` (migrations/
-- 0003_onboarding_enrollment.sql), by one of these credentials or that of another instance.
abbrev pub has_key : ClaimEnv → Bytes → Tables → Bool
has_key env public_key s =
    any (λ c. text_eq c.credential.key_id env.key_id || text_eq c.credential.public_key public_key)
      s.credentials
    || env.is_enrolled public_key

abbrev pub has_head : Text → Tables → Bool
has_head instance_id s = any (λ h. text_eq h.instance_id instance_id) s.heads

-- The end of a fresh claim: without the server's id it is rolled back.
abbrev pub issued :
    ClaimEnv
    → ClaimPairingInput
    → PairingRow
    → AgentRow
    → Tables
    → Option Text
    → Outcome ClaimPairingResult × Tables
issued env input p agent s none = (fails, s)
issued env input p agent s (some server_id) = (
  returns
      (claim_result env server_id env.instance_id env.key_id p.logical_agent_id (valid_until env)),
  write_claim env input p agent s,
)

-- The statements of a fresh claim. That a key exists is a conflict, any other error is passed on.
unfoldable pub issue :
    ClaimEnv
    → ClaimPairingInput
    → PairingRow
    → AgentRow
    → Tables
    → Outcome ClaimPairingResult × Tables
issue env input p agent s =
    if has_instance env.instance_id s
    then (fails, s)
    else if has_key env input.public_key s
    then (refuses conflict_problem, s)
    else if has_head env.instance_id s
    then (fails, s)
    else issued env input p agent s s.server_id
