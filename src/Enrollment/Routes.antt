-- ===== src/Enrollment/Routes.antt =====
-- apps/control-plane/src/modules/onboarding/application/onboarding-routes.ts: what a request for an
-- office and a request for a status do. The headers of an answer are left out.
use workbuddy_buddy.Prelude.{ℕ, ◌≡◌, refl, ◌⊎◌, inl, inr, Option, none}
use workbuddy_buddy.Edge.Types.{Text, Bytes}
use workbuddy_buddy.Enrollment.Problem.{Outcome, returns, refuses, fails}
use workbuddy_buddy.Enrollment.Rows.{Tables}
use workbuddy_buddy.Enrollment.OfficeRows.{OfficeRows}
use workbuddy_buddy.Enrollment.Service.{create_office, ShownStatus, get_pairing_status}
use workbuddy_buddy.Enrollment.NewOffice.{
  CreateOfficeOnboardingInput, CreateOfficeOnboardingResult, OnboardingEnv,
}
use workbuddy_buddy.Enrollment.Input.{
  Value, Body, invalid_request_problem, parse_create_office_onboarding_input,
  parse_status_capability,
}
use workbuddy_buddy.Enrollment.Input.Accepted.{
  IsOfficeBody, read, refused, parse_create_office_onboarding_input-IsOfficeBody,
  parse_create_office_onboarding_input-returns, parse_create_office_onboarding_input-IsRead,
}
use workbuddy_buddy.Limits.Table.{Table}
use workbuddy_buddy.Limits.Onboarding.{RateRow, IpRequest}

-- POST /api/v1/onboarding/offices
unfoldable pub post_office :
    OnboardingEnv
    → Body
    → IpRequest
    → Option Text
    → Table RateRow
    → Outcome CreateOfficeOnboardingResult × Table RateRow × Option (OfficeRows × Tables)
post_office env body request server_id rates = elim (parse_create_office_onboarding_input body) [
  | returns input ↦ create_office env input request server_id rates
  | refuses p ↦ (refuses p, rates, none)
  | fails ↦ (fails, rates, none)
]

-- GET /api/v1/onboarding/pairings/:status_token
unfoldable pub get_pairing :
    (Text → Bytes)
    → ℕ
    → Value
    → IpRequest
    → Table RateRow × Tables
    → Outcome ShownStatus × Table RateRow
get_pairing digest_capability now status_token request (rates, s) =
    elim (parse_status_capability status_token) [
      | returns capability ↦ get_pairing_status digest_capability now capability request (rates, s)
      | refuses p ↦ (refuses p, rates)
      | fails ↦ (fails, rates)
    ]

-- A request either carries the creation of an office, which the service is then asked for, or is
-- refused as invalid before a rate limit or a row is touched.
pub post_office-decides :
    (env : OnboardingEnv) (body : Body) (request : IpRequest) (server_id : Option Text)
    (rates : Table RateRow)
    → ((input : CreateOfficeOnboardingInput) × IsOfficeBody body input
        × (post_office env body request server_id rates
            ≡ create_office env input request server_id rates))
      ⊎ (((input : CreateOfficeOnboardingInput) → ¬ IsOfficeBody body input)
          × (post_office env body request server_id rates
              ≡ (refuses invalid_request_problem, rates, none)))
unfolding post_office
post_office-decides env body request server_id rates =
    elim (parse_create_office_onboarding_input-IsRead body) [
      | read input e ↦ inl (
        input,
        parse_create_office_onboarding_input-IsOfficeBody body input e,
        rw (e, post_office) refl,
      )
      | refused e ↦ inr (
        λ input fits. clash (parse_create_office_onboarding_input-returns body input fits) e,
        rw (e, post_office) refl,
      )
    ]
  where
    clash :
        {o : Outcome CreateOfficeOnboardingInput} {input : CreateOfficeOnboardingInput}
        → o ≡ returns input
        → o ≡ refuses invalid_request_problem
        → ⊥
    clash e f = cc
