-- ===== src/Enrollment/Claim.antt =====
-- apps/control-plane/src/modules/enrollment/application/claim-pairing.ts: a device claims a pairing
-- with its code and its public key. A transaction that is rolled back leaves the rows as they were;
-- a refusal that is committed leaves what was written before it.
pub mod Claimed
pub mod Fresh
pub mod Once
pub mod Attempts
use workbuddy_buddy.Prelude.{
  ℕ, ◌+◌, Bool, true, false, ◌&&◌, Option, none, some, List, [], ◌∷◌, leb, min, if◌then◌else◌, any,
  find,
}
use workbuddy_buddy.Edge.Types.{Text, Bytes, text_eq}
use workbuddy_buddy.Edge.Store.{
  InstanceStatus, InstanceRow, AgentRow, CredentialRow, is_none, is_some,
}
use workbuddy_buddy.Enrollment.Problem.{
  OnboardingProblem, OnboardingProblemCode, onboarding_problem, pairing_not_found, pairing_expired,
  pairing_conflict, Outcome, returns, refuses, fails,
}
use workbuddy_buddy.Enrollment.Rows.{
  PairingStatus, pending, claimed, PairingRow, DeviceCredential, InstanceHead, Tables,
}
use workbuddy_buddy.Limits.Table.{Table}
use workbuddy_buddy.Limits.Onboarding.{RateRow, IpRequest, RateKind, consume_onboarding_rate_limit}
use workbuddy_buddy.Limits.Onboarding
use workbuddy_buddy.Enrollment.Request.{
  claim_result, ClaimEnv, ClaimPairingInput, ClaimPairingResult, conflict_problem, expired_problem,
  max_failed_pairing_attempts, not_found_problem, too_many_attempts_problem, valid_until,
}
use workbuddy_buddy.Enrollment.Issue.{issue}

-- The row that the SELECT by pairing_code_hash returns.
unfoldable pub select_pairing : Bytes → Option PairingRow → Option PairingRow
select_pairing hash none = none
select_pairing hash (some p) = if text_eq p.pairing_code_hash hash then some p else none

-- recordFailedAttempt
unfoldable pub record_failed_attempt : PairingRow → Tables → Tables
record_failed_attempt p s = record s {
  pairing = some (record p { failed_claim_attempts = min 32 (p.failed_claim_attempts + 1) });
}

-- loadClaimedCredential
abbrev pub is_claimed_credential : Text → Text → DeviceCredential → Bool
is_claimed_credential instance_id key_id c =
    text_eq c.credential.key_id key_id
    && text_eq c.instance_id instance_id
    && is_none c.credential.revoked_at

-- The ids that a claimed pairing answers to its own key.
abbrev pub ids_of : Bytes → Option Bytes → Option Text → Option Text → Option (Text × Text)
ids_of hash (some h) (some i) (some k) = if text_eq h hash then some (i, k) else none
ids_of hash (some h) (some i) none = none
ids_of hash (some h) none k = none
ids_of hash none i k = none

unfoldable pub claimed_ids : Bytes → PairingRow → Option (Text × Text)
claimed_ids hash p = ids_of hash p.claimed_public_key_hash p.claimed_instance_id p.claimed_key_id

-- What is answered to the same key, from its credential and the server's id.
abbrev pub answer_again :
    ClaimEnv
    → PairingRow
    → Text
    → Text
    → Option DeviceCredential
    → Option Text
    → Outcome ClaimPairingResult
answer_again env p instance_id key_id none server_id = fails
answer_again env p instance_id key_id (some c) none = fails
answer_again env p instance_id key_id (some c) (some server_id) =
    returns
      (claim_result env server_id instance_id key_id p.logical_agent_id c.credential.valid_until)

-- A pairing that is claimed: the same key is answered again, any other is refused.
unfoldable pub claim_again :
    ClaimEnv → PairingRow → Tables → Option (Text × Text) → Outcome ClaimPairingResult × Tables
claim_again env p s none = (refuses conflict_problem, record_failed_attempt p s)
claim_again env p s (some (instance_id, key_id)) = (
  answer_again env p instance_id key_id
      (find (is_claimed_credential instance_id key_id) s.credentials) s.server_id,
  s,
)

-- The row of the pairing's agent.
unfoldable pub select_agent : Text → Option AgentRow → Option AgentRow
select_agent id none = none
select_agent id (some agent) = if text_eq agent.id id then some agent else none

-- An agent that has an active instance is not given another.
unfoldable pub claim_agent :
    ClaimEnv
    → ClaimPairingInput
    → PairingRow
    → Tables
    → Option AgentRow
    → Outcome ClaimPairingResult × Tables
claim_agent env input p s none = (fails, s)
claim_agent env input p s (some agent) =
    if is_some agent.active_reporting_instance_id
    then (refuses conflict_problem, s)
    else issue env input p agent s

-- A pairing that is pending.
unfoldable pub claim_pending :
    ClaimEnv → ClaimPairingInput → PairingRow → Tables → Outcome ClaimPairingResult × Tables
claim_pending env input p s =
    if leb p.expires_at env.now
    then (refuses expired_problem, record_failed_attempt p s)
    else if leb max_failed_pairing_attempts p.failed_claim_attempts
    then (refuses too_many_attempts_problem, s)
    else claim_agent env input p s (select_agent p.logical_agent_id s.agent)

abbrev pub claim_by_status :
    ClaimEnv
    → ClaimPairingInput
    → PairingRow
    → Tables
    → PairingStatus
    → Outcome ClaimPairingResult × Tables
claim_by_status env input p s claimed =
    claim_again env p s (claimed_ids (env.sha256 input.public_key) p)
claim_by_status env input p s pending = claim_pending env input p s

unfoldable pub claim_found :
    ClaimEnv → ClaimPairingInput → Tables → Option PairingRow → Outcome ClaimPairingResult × Tables
claim_found env input s none = (refuses not_found_problem, s)
claim_found env input s (some p) = claim_by_status env input p s p.status

-- The transaction of claimPairing.
unfoldable pub claim_in_transaction :
    ClaimEnv → ClaimPairingInput → Tables → Outcome ClaimPairingResult × Tables
claim_in_transaction env input s =
    claim_found env input s (select_pairing (env.digest_capability input.pairing_code) s.pairing)

-- What follows the consumption of the rate limit.
unfoldable pub claim_limited :
    ClaimEnv → ClaimPairingInput → Tables → Outcome (Unit {0}) → Outcome ClaimPairingResult × Tables
claim_limited env input s (returns _) = claim_in_transaction env input s
claim_limited env input s (refuses p) = (refuses p, s)
claim_limited env input s fails = (fails, s)

-- claimPairing
unfoldable pub claim_pairing :
    ClaimEnv
    → ClaimPairingInput
    → IpRequest
    → Table RateRow × Tables
    → Outcome ClaimPairingResult × (Table RateRow × Tables)
claim_pairing env input request (rates, s) =
    let (limited, rates') =
      consume_onboarding_rate_limit (record request { kind = RateKind.claim }) rates in
    let (outcome, s') = claim_limited env input s limited in (outcome, (rates', s'))
