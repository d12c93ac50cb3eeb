-- ===== src/Edge/Problem.antt =====
-- apps/control-plane/src/modules/presence/domain/problem.ts: the problems that the edge protocol
-- reports, and the results of fallible code.
use Prim.Native.String.{String}
use workbuddy_buddy.Prelude.{◌≡◌, refl, ℕ, Bool, true, false, Option, none, some, if◌then◌else◌}

pub data ProblemCode : Type 0 where
  invalid_request protocol_version_unsupported invalid_signature : ProblemCode
  instance_not_found device_revoked stale_boot : ProblemCode
  sequence_gap sequence_overlap sequence_conflict : ProblemCode
  report_semantics_invalid payload_too_large rate_limited : ProblemCode
  temporarily_unavailable internal_error : ProblemCode

-- The class `ProtocolProblem`; `detail` is the message that it passes to `Error`.
pub record ProtocolProblem : Type 0 where
  pub code : ProblemCode
  pub status : ℕ
  pub detail : String
  pub expected_sequence : Option ℕ
  pub retry_after_seconds : Option ℕ

-- The constructor's call with its two optional arguments left out.
abbrev pub problem : ProblemCode → ℕ → String → ProtocolProblem
problem code status detail = record {
  code = code;
  status = status;
  detail = detail;
  expected_sequence = none;
  retry_after_seconds = none;
}

-- What a `throw` raises: a problem of the protocol, or any other `Error`.
pub data Failure : Type 0 where
  protocol : ProtocolProblem → Failure
  fault : Failure

pub data Result {ℓ} (A : Type ℓ) : Type ℓ where
  ok : A → Result A
  throws : Failure → Result A

-- `if (condition) throw failure`
abbrev pub throw_if : Bool → Failure → Result (Unit {0})
throw_if true e = throws e
throw_if false e = ok tt

-- What follows a call is skipped by a `throw`.
infixl 5 ◌>>◌ ◌>>=◌
abbrev pub ◌>>=◌ {ℓ κ} : {A : Type ℓ} {B : Type κ} → Result A → (A → Result B) → Result B
throws failure >>= rest = throws failure
ok value >>= rest = rest value

-- What was called has returned, if the whole has.
pub >>=-eq-ok {ℓ κ} :
    {A : Type ℓ} {B : Type κ} (call : Result A) (rest : A → Result B) {result : B}
    → (call >>= rest) ≡ ok result
    → (value : A) × (call ≡ ok value) × (rest value ≡ ok result)
>>=-eq-ok (throws failure) rest e = cc
>>=-eq-ok (ok value) rest e = (value, refl, e)

abbrev pub ◌>>◌ {ℓ} : {B : Type ℓ} → Result (Unit {0}) → Result B → Result B
check >> rest = check >>= λ _. rest

-- A check that is passed.
pub throw_if-eq-ok {ℓ} :
    {B : Type ℓ} (test : Bool) (failure : Failure) (rest : Result B) {result : B}
    → (throw_if test failure >> rest) ≡ ok result
    → (test ≡ false) × (rest ≡ ok result)
throw_if-eq-ok true failure rest e = cc
throw_if-eq-ok false failure rest e = (refl, e)

-- The body that is sent for a problem; its `type` is a fixed prefix before the code.
pub record ProblemBody : Type 0 where
  pub title : String
  pub status : ℕ
  pub code : ProblemCode
  pub detail : String
  pub expected_sequence : Option ℕ
  pub current_protocol : Option ℕ
  pub min_supported_protocol : Option ℕ
  pub retry_after_seconds : Option ℕ

title_for : ProblemCode → String
title_for invalid_request = "Invalid request"
title_for protocol_version_unsupported = "Protocol upgrade required"
title_for invalid_signature = "Invalid device signature"
title_for instance_not_found = "Agent instance not found"
title_for device_revoked = "Device credential is unavailable"
title_for stale_boot = "Agent boot has been fenced"
title_for sequence_gap = "Sequence gap"
title_for sequence_overlap = "Sequence overlap"
title_for sequence_conflict = "Sequence conflict"
title_for report_semantics_invalid = "Report semantics are invalid"
title_for payload_too_large = "Payload too large"
title_for rate_limited = "Rate limit exceeded"
title_for temporarily_unavailable = "Temporarily unavailable"
title_for internal_error = "Internal server error"

is_version_problem : ProblemCode → Bool
is_version_problem protocol_version_unsupported = true
is_version_problem _ = false

unfoldable pub to_body : ProtocolProblem → ProblemBody
unfolding title_for is_version_problem
to_body p = record {
  title = title_for p.code;
  status = p.status;
  code = p.code;
  detail = p.detail;
  expected_sequence = p.expected_sequence;
  current_protocol = if is_version_problem p.code then some 1 else none;
  min_supported_protocol = if is_version_problem p.code then some 1 else none;
  retry_after_seconds = p.retry_after_seconds;
}
