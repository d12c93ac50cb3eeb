-- ===== src/Enrollment/Service/Created.antt =====
-- What the creation of an office promises about its pairing.
use workbuddy_buddy.Prelude.{
  ℕ, ◌≤◌, ◌≡◌, refl, sym, ap, ◌∙◌, inl, inr, true, false, Option, some, leb, if◌then◌else◌,
  Bool-cases, if-cases, arith,
}
use workbuddy_buddy.Edge.Types.{Text, text_eq_same}
use workbuddy_buddy.Enrollment.Problem.{Outcome, returns, refuses}
use workbuddy_buddy.Enrollment.Rows.{Tables}
use workbuddy_buddy.Enrollment.Claim.{
  select_pairing, record_failed_attempt, select_agent, claim_agent, claim_pending, claim_found,
  claim_in_transaction,
}
use workbuddy_buddy.Enrollment.Request.{
  claim_result, ClaimPairingInput, ClaimPairingResult, ClaimEnv, valid_until, expired_problem,
  conflict_problem,
}
use workbuddy_buddy.Enrollment.Issue.{write_claim, issue}
use workbuddy_buddy.Enrollment.Service.{create_office_onboarding, ShownStatus, show_status}
use workbuddy_buddy.Enrollment.NewOffice.{
  CreateOfficeOnboardingInput, CreateOfficeOnboardingResult, OnboardingEnv, expires_at,
  pairing_rows, onboarding_result, seed_key,
}
use workbuddy_buddy.Enrollment.OfficeRows.{OfficeRows}

-- A creation that returns has written the rows of the pairing.
created_rows :
    (env : OnboardingEnv) (input : CreateOfficeOnboardingInput) (server_id : Option Text)
    (res : CreateOfficeOnboardingResult) (rows : OfficeRows) (t : Tables)
    → create_office_onboarding env input server_id ≡ (returns res, some (rows, t))
    → (onboarding_result env ≡ res) × (pairing_rows env input server_id ≡ t)
unfolding create_office_onboarding
created_rows env input server_id res rows t e = elim (if-cases env.conflicts _ _ e) [
  | inl (_, gone) ↦ cc gone
  | inr (_, e) ↦ elim (if-cases (env.projector_accepts (seed_key env)) _ _ e) [
    | inl (_, here) ↦ (result_of _ _ (ap (λ x. x.0) here), tables_of _ _ (ap (λ x. x.1) here))
    | inr (_, gone) ↦ cc gone
  ]
]
  where
    result_of : (a b : CreateOfficeOnboardingResult) → returns a ≡ returns b → a ≡ b
    result_of a b e = cc e

    tables_of : (a b : OfficeRows × Tables) → some a ≡ some b → a.1 ≡ b.1
    tables_of a b e = let same : a ≡ b = cc e in ap (λ x. x.1) same

module _ (env : OnboardingEnv) (input : CreateOfficeOnboardingInput) (server_id : Text)
    (claim_env : ClaimEnv) (claim_input : ClaimPairingInput)
    (same_digest : claim_env.digest_capability ≡ env.digest_capability)
    (same_code : claim_input.pairing_code ≡ env.pairing_code) where
  rows : Tables
  rows = pairing_rows env input (some server_id)

  claim_created : Outcome ClaimPairingResult × Tables
  claim_created = claim_in_transaction claim_env claim_input rows

  expired_claim :
      leb (expires_at env) claim_env.now ≡ true
      → (claim_created.0 ≡ refuses expired_problem)
        × ((later : ℕ)
            → claim_env.now ≤ later
            → show_status (env.digest_capability env.status_token) later claim_created.1.pairing
              ≡ returns ShownStatus.expired)
  unfolding rows claim_created pairing_rows claim_in_transaction select_pairing claim_found
      claim_pending record_failed_attempt show_status
  expired_claim over =
      rw (same_digest, same_code, text_eq_same (env.digest_capability env.pairing_code), over)
        (
          refl,
          λ later after.
              rw (text_eq_same (env.digest_capability env.status_token), still later after) refl,
        )
    where
      still : (later : ℕ) → claim_env.now ≤ later → leb (expires_at env) later ≡ true
      still later after = ground (arith, over, after)

  conflicting_claim :
      leb (expires_at env) claim_env.now ≡ false
      → claim_env.is_enrolled claim_input.public_key ≡ true
      → (claim_created.0 ≡ refuses conflict_problem)
        × ((later : ℕ)
            → show_status (env.digest_capability env.status_token) later claim_created.1.pairing
              ≡ returns
                  (if leb (expires_at env) later then ShownStatus.expired else ShownStatus.pending))
  unfolding rows claim_created pairing_rows claim_in_transaction select_pairing claim_found
      claim_pending select_agent claim_agent issue show_status
  conflicting_claim early enrolled =
      rw
        (
          same_digest,
          same_code,
          text_eq_same (env.digest_capability env.pairing_code),
          early,
          text_eq_same env.ids.agent,
          enrolled,
        )
        (refl, λ later. rw (text_eq_same (env.digest_capability env.status_token)) refl)

  claim_in_time :
      leb (expires_at env) claim_env.now ≡ false
      → claim_env.is_enrolled claim_input.public_key ≡ false
      → (claim_created.0
          ≡ returns (
              claim_result claim_env server_id claim_env.instance_id claim_env.key_id env.ids.agent
                (valid_until claim_env)))
        × ((later : ℕ)
            → show_status (env.digest_capability env.status_token) later claim_created.1.pairing
              ≡ returns ShownStatus.claimed)
  unfolding rows claim_created pairing_rows claim_in_transaction select_pairing claim_found
      claim_pending select_agent claim_agent issue write_claim show_status
  claim_in_time early fresh =
      rw
        (
          same_digest,
          same_code,
          text_eq_same (env.digest_capability env.pairing_code),
          early,
          text_eq_same env.ids.agent,
          fresh,
        )
        (refl, λ later. rw (text_eq_same (env.digest_capability env.status_token)) refl)

-- The code that a creation returns claims the pairing until `expires_at` with any key that no instance
-- has enrolled, and is refused as expired from then on; before, a key that is enrolled is a conflict.
-- The status token then shows the pairing as claimed, as expired, or, after a conflict, as pending
-- until it expires.
pub claim_of_created :
    (env : OnboardingEnv) (input : CreateOfficeOnboardingInput) (server_id : Text)
    (res : CreateOfficeOnboardingResult) (office : OfficeRows) (t : Tables) (claim_env : ClaimEnv)
    (claim_input : ClaimPairingInput) (later : ℕ)
    → create_office_onboarding env input (some server_id) ≡ (returns res, some (office, t))
    → claim_env.digest_capability ≡ env.digest_capability
    → claim_input.pairing_code ≡ res.pairing_code
    → claim_env.now ≤ later
    → ((claim_in_transaction claim_env claim_input t).0 ≡ (
        if leb res.expires_at claim_env.now
        then refuses expired_problem
        else if claim_env.is_enrolled claim_input.public_key
        then refuses conflict_problem
        else returns (
            claim_result claim_env server_id claim_env.instance_id claim_env.key_id env.ids.agent
              (valid_until claim_env))))
      × (show_status
            (env.digest_capability res.status_token)
            later
            (claim_in_transaction claim_env claim_input t).1.pairing
          ≡ returns (
              if leb res.expires_at claim_env.now
              then ShownStatus.expired
              else if claim_env.is_enrolled claim_input.public_key
              then (if leb res.expires_at later then ShownStatus.expired else ShownStatus.pending)
              else ShownStatus.claimed))
unfolding claim_created rows onboarding_result
claim_of_created env input server_id res office t claim_env claim_input later e digest code after =
    let (same, written) = created_rows env input (some server_id) res office t e in
    let own_code : claim_input.pairing_code ≡ env.pairing_code =
      code ∙ sym (ap (λ x. x.pairing_code) same) in
    rw (sym same, sym written)
      (elim (Bool-cases (leb (expires_at env) claim_env.now)) [
        | inl over ↦
            let (refused, shown) =
              expired_claim env input server_id claim_env claim_input digest own_code over in
            rw over (refused, shown later after)
        | inr early ↦ elim (Bool-cases (claim_env.is_enrolled claim_input.public_key)) [
          | inl enrolled ↦
              let (refused, shown) =
                conflicting_claim env input server_id claim_env claim_input digest own_code early
                  enrolled in
              rw (early, enrolled) (refused, shown later)
          | inr fresh ↦
              let (answered, shown) =
                claim_in_time env input server_id claim_env claim_input digest own_code early
                  fresh in
              rw (early, fresh) (answered, shown later)
        ]
      ])
