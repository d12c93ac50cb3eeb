-- ===== src/Enrollment/Problem.antt =====
-- apps/control-plane/src/modules/onboarding/domain/problem.ts: the problems of onboarding, and the
-- results of its operations.
use Prim.Native.String.{String}
use workbuddy_buddy.Prelude.{ℕ, ◌≡◌, refl, Option, none, Bool, true, false}

pub data OnboardingProblemCode : Type 0 where
  invalid_request pairing_not_found pairing_expired pairing_conflict rate_limited :
      OnboardingProblemCode

-- The class `OnboardingProblem`; `detail` is the message that it passes to `Error`.
pub record OnboardingProblem : Type 0 where
  pub code : OnboardingProblemCode
  pub status : ℕ
  pub detail : String
  pub retry_after_seconds : Option ℕ

abbrev pub onboarding_problem : OnboardingProblemCode → ℕ → String → OnboardingProblem
onboarding_problem code status detail = record {
  code = code;
  status = status;
  detail = detail;
  retry_after_seconds = none;
}

-- An operation returns, throws a problem, or throws any other `Error`.
pub data Outcome {ℓ} (A : Type ℓ) : Type ℓ where
  returns : A → Outcome A
  refuses : OnboardingProblem → Outcome A
  fails : Outcome A

abbrev pub is_returned {ℓ} : {A : Type ℓ} → Outcome A → Bool
is_returned (returns a) = true
is_returned (refuses p) = false
is_returned fails = false

-- What follows a call is skipped by a `throw`.
infixl 5 ◌>>◌ ◌>>=◌
abbrev pub ◌>>=◌ {ℓ κ} : {A : Type ℓ} {B : Type κ} → Outcome A → (A → Outcome B) → Outcome B
returns value >>= rest = rest value
refuses problem >>= rest = refuses problem
fails >>= rest = fails

abbrev pub ◌>>◌ {ℓ κ} : {A : Type ℓ} {B : Type κ} → Outcome A → Outcome B → Outcome B
check >> rest = check >>= λ _. rest

pub >>=-eq-returns {ℓ κ} :
    {A : Type ℓ} {B : Type κ} (call : Outcome A) (rest : A → Outcome B) {result : B}
    → (call >>= rest) ≡ returns result
    → (value : A) × (call ≡ returns value) × (rest value ≡ returns result)
>>=-eq-returns (returns value) rest e = (value, refl, e)
>>=-eq-returns (refuses problem) rest e = cc
>>=-eq-returns fails rest e = cc
