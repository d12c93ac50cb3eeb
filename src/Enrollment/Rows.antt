-- ===== src/Enrollment/Rows.antt =====
-- The rows of the tables that onboarding and enrollment write (apps/control-plane/migrations), for
-- one pairing: the statements select the pairing by a hash, and its agent by id. Newer rows stand
-- first. A text is the list of its code units, a time the number of milliseconds since the epoch.
use workbuddy_buddy.Prelude.{ℕ, Option, List}
use workbuddy_buddy.Edge.Types.{Text, Bytes}
use workbuddy_buddy.Edge.Store.{InstanceRow, AgentRow, CredentialRow, HeadRow}

pub data PairingStatus : Type 0 where
  pending claimed : PairingStatus

pub record PairingRow : Type 0 where
  pub id : Text
  pub logical_agent_id : Text
  pub pairing_code_hash : Bytes
  pub status_secret_hash : Bytes
  pub status : PairingStatus
  pub failed_claim_attempts : ℕ
  pub expires_at : ℕ
  pub claimed_public_key_hash : Option Bytes
  pub claimed_instance_id : Option Text
  pub claimed_key_id : Option Text
  pub claimed_client_version : Option Text
  pub claimed_at : Option ℕ

-- A row of device_credentials, with its instance.
pub record DeviceCredential : Type 0 where
  pub instance_id : Text
  pub credential : CredentialRow

-- A row of edge_instance_heads, with its instance.
pub record InstanceHead : Type 0 where
  pub instance_id : Text
  pub head : HeadRow

pub record Tables : Type 0 where
  pub pairing : Option PairingRow
  pub agent : Option AgentRow
  pub instances : List InstanceRow
  pub credentials : List DeviceCredential
  pub heads : List InstanceHead
  pub server_id : Option Text
