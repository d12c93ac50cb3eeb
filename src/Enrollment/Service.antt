-- ===== src/Enrollment/Service.antt =====
-- apps/control-plane/src/modules/onboarding/application/onboarding-service.ts: the creation of an
-- office with its pairing, and the status of a pairing. The rows are those of one office;
-- `conflicts` says that a statement violates a constraint on rows of other offices.
pub mod Created
use Prim.Native.String.{String}
use workbuddy_buddy.Prelude.{
  ℕ, ◌+◌, suc, zero, Bool, true, false, Option, none, some, List, [], ◌∷◌, ◌++◌, leb, if◌then◌else◌,
}
use workbuddy_buddy.Edge.Types.{Text, Bytes, text_eq}
use workbuddy_buddy.Edge.Store.{AgentRow}
use workbuddy_buddy.Enrollment.Problem.{Outcome, returns, refuses, fails}
use workbuddy_buddy.Enrollment.Rows.{PairingStatus, PairingRow, Tables}
use workbuddy_buddy.Enrollment.Request.{not_found_problem}
use workbuddy_buddy.Limits.Table.{Table}
use workbuddy_buddy.Limits.Onboarding.{RateRow, IpRequest, RateKind, consume_onboarding_rate_limit}
use workbuddy_buddy.Enrollment.OfficeRows.{OfficeRows, ScheduleRuleRow}
use workbuddy_buddy.Enrollment.NewOffice.{
  CreateOfficeOnboardingInput, CreateOfficeOnboardingResult, OnboardingEnv, expires_at, office_rows,
  onboarding_result, pairing_rows, seed_key,
}

-- createOfficeOnboarding: `none` stands for a database without the office.
unfoldable pub create_office_onboarding :
    OnboardingEnv
    → CreateOfficeOnboardingInput
    → Option Text
    → Outcome CreateOfficeOnboardingResult × Option (OfficeRows × Tables)
create_office_onboarding env input server_id =
    if env.conflicts
    then (fails, none)
    else if env.projector_accepts (seed_key env)
    then (
      returns (onboarding_result env),
      some (
        record (office_rows env input) { revisions = seed_key env ∷ [] },
        pairing_rows env input server_id,
      ),
    )
    else (fails, none)

-- OnboardingService.createOffice
unfoldable pub create_office :
    OnboardingEnv
    → CreateOfficeOnboardingInput
    → IpRequest
    → Option Text
    → Table RateRow
    → Outcome CreateOfficeOnboardingResult × Table RateRow × Option (OfficeRows × Tables)
create_office env input request server_id rates =
    let (limited, rates') =
      consume_onboarding_rate_limit (record request { kind = RateKind.create }) rates in
    created limited rates'
  where
    created :
        Outcome (Unit {0})
        → Table RateRow
        → Outcome CreateOfficeOnboardingResult × Table RateRow × Option (OfficeRows × Tables)
    created (returns _) rates' =
        let (outcome, written) = create_office_onboarding env input server_id in
        (outcome, rates', written)
    created (refuses p) rates' = (refuses p, rates', none)
    created fails rates' = (fails, rates', none)

pub data ShownStatus : Type 0 where
  pending claimed expired : ShownStatus

abbrev shown_status : ℕ → PairingRow → PairingStatus → ShownStatus
shown_status now p PairingStatus.claimed = ShownStatus.claimed
shown_status now p PairingStatus.pending =
    if leb p.expires_at now then ShownStatus.expired else ShownStatus.pending

-- The row that the SELECT by status_secret_hash returns, and what is shown of it.
unfoldable pub show_status : Bytes → ℕ → Option PairingRow → Outcome ShownStatus
show_status hash now none = refuses not_found_problem
show_status hash now (some p) =
    if text_eq p.status_secret_hash hash
    then returns (shown_status now p p.status)
    else refuses not_found_problem

-- OnboardingService.getPairingStatus
unfoldable pub get_pairing_status :
    (Text → Bytes)
    → ℕ
    → Text
    → IpRequest
    → Table RateRow × Tables
    → Outcome ShownStatus × Table RateRow
get_pairing_status digest_capability now status_capability request (rates, s) =
    let (limited, rates') =
      consume_onboarding_rate_limit (record request { kind = RateKind.poll }) rates in
    (polled limited, rates')
  where
    polled : Outcome (Unit {0}) → Outcome ShownStatus
    polled (returns _) = show_status (digest_capability status_capability) now s.pairing
    polled (refuses p) = refuses p
    polled fails = fails
