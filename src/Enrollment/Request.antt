-- ===== src/Enrollment/Request.antt =====
-- A claim and its answers: the types and the problems of apps/control-plane/src/modules/enrollment/
-- application/claim-pairing.ts.
use workbuddy_buddy.Prelude.{Bool, ℕ, ◌+◌, some}
use workbuddy_buddy.Edge.Types.{Text, Bytes}
use workbuddy_buddy.Enrollment.Problem.{
  OnboardingProblem, OnboardingProblemCode, onboarding_problem, pairing_not_found, pairing_expired,
  pairing_conflict,
}

-- CREDENTIAL_LIFETIME_DAYS, in milliseconds.
abbrev pub credential_lifetime : ℕ
credential_lifetime = 15_552_000_000

abbrev pub max_failed_pairing_attempts : ℕ
max_failed_pairing_attempts = 8

pub record ClaimPairingInput : Type 0 where
  pub pairing_code : Text
  pub public_key : Bytes
  pub client_version : Text

pub record ClaimPairingResult : Type 0 where
  pub server_id : Text
  pub instance_id : Text
  pub key_id : Text
  pub logical_agent_id : Text
  pub heartbeat_interval_seconds : ℕ
  pub credential_valid_until : ℕ

-- What a claim takes from outside: the two readings of the clock, the random ids, the hash
-- functions of a text (digestCapability) and of bytes, and whether the credential of another
-- instance holds a public key.
pub record ClaimEnv : Type 0 where
  pub now : ℕ
  pub later : ℕ
  pub instance_id : Text
  pub key_id : Text
  pub heartbeat_interval_seconds : ℕ
  pub digest_capability : Text → Bytes
  pub sha256 : Bytes → Bytes
  pub is_enrolled : Bytes → Bool

-- claimClock
abbrev pub valid_until : ClaimEnv → ℕ
valid_until env = env.later + credential_lifetime

abbrev pub not_found_problem : OnboardingProblem
not_found_problem = onboarding_problem pairing_not_found 404 "The pairing is unavailable."

abbrev pub expired_problem : OnboardingProblem
expired_problem = onboarding_problem pairing_expired 410 "The pairing has expired."

abbrev pub too_many_attempts_problem : OnboardingProblem
too_many_attempts_problem = record {
  code = OnboardingProblemCode.rate_limited;
  status = 429;
  detail = "Too many attempts for this pairing.";
  retry_after_seconds = some 300;
}

-- pairingConflict
abbrev pub conflict_problem : OnboardingProblem
conflict_problem =
    onboarding_problem pairing_conflict 409 "The pairing was claimed by another device key."

unfoldable pub claim_result : ClaimEnv → Text → Text → Text → Text → ℕ → ClaimPairingResult
claim_result env server_id instance_id key_id logical_agent_id until = record {
  server_id = server_id;
  instance_id = instance_id;
  key_id = key_id;
  logical_agent_id = logical_agent_id;
  heartbeat_interval_seconds = env.heartbeat_interval_seconds;
  credential_valid_until = until;
}
