-- ===== src/Enrollment/Claim/Attempts.antt =====
-- The count of failed attempts: it grows only once a pairing is claimed or has expired, when it is not
-- read any more.
use mathlib.Core.Path.{subst}
use workbuddy_buddy.Prelude.{
  ℕ, ◌≤◌, ◌≡◌, refl, ◌⊎◌, inl, inr, Bool, true, false, Option, none, some, leb, Bool-cases, leb→le,
  arith,
}
use workbuddy_buddy.Edge.Types.{Text, Bytes}
use workbuddy_buddy.Edge.Store.{AgentRow, is_some}
use workbuddy_buddy.Enrollment.Problem.{
  OnboardingProblemCode, rate_limited, Outcome, returns, refuses, fails,
}
use workbuddy_buddy.Enrollment.Rows.{
  pending, claimed, PairingStatus, PairingRow, DeviceCredential, Tables,
}
use workbuddy_buddy.Enrollment.Claim.{
  select_pairing, record_failed_attempt, claimed_ids, answer_again, claim_again, select_agent,
  claim_agent, claim_pending, claim_by_status, claim_found, claim_in_transaction,
}
use workbuddy_buddy.Enrollment.Issue.{write_claim, issued, issue, has_instance, has_key, has_head}
use workbuddy_buddy.Enrollment.Request.{
  ClaimPairingInput, ClaimPairingResult, ClaimEnv, expired_problem, max_failed_pairing_attempts,
}
use workbuddy_buddy.Enrollment.Claim.Claimed.{select_pairing-some}

-- What a claim at a time makes of the pairing.
data Change (now : ℕ) : Option PairingRow → Option PairingRow → Type 0 where
  unchanged : (o : Option PairingRow) → Change now o o
  is_taken : (o : Option PairingRow) (p : PairingRow) → p.status ≡ claimed → Change now o (some p)
  has_expired :
      (p : PairingRow) (failed : ℕ)
      → p.expires_at ≤ now
      → Change now (some p) (some (record p { failed_claim_attempts = failed }))

abbrev is_limit : OnboardingProblemCode → Bool
is_limit rate_limited = true
is_limit _ = false

-- Is the answer a refusal for too many attempts?
abbrev pub is_limited : Outcome ClaimPairingResult → Bool
is_limited (returns r) = false
is_limited (refuses p) = is_limit p.code
is_limited fails = false

-- A pairing that can be claimed has no failed attempt.
abbrev IsUntried : ℕ → Option PairingRow → Type 0
IsUntried since none = Unit
IsUntried since (some p) =
    (p.status ≡ claimed) ⊎ ((p.failed_claim_attempts ≡ 0) ⊎ (p.expires_at ≤ since))

abbrev Fine : ClaimEnv → Tables → Outcome ClaimPairingResult × Tables → Type 0
Fine env s o = Change env.now s.pairing o.1.pairing × (is_limited o.0 ≡ false)

answer_again-unlimited :
    (env : ClaimEnv) (p : PairingRow) (i k : Text) (c : Option DeviceCredential)
    (server_id : Option Text)
    → is_limited (answer_again env p i k c server_id) ≡ false
answer_again-unlimited env p i k none server_id = refl
answer_again-unlimited env p i k (some c) none = refl
answer_again-unlimited env p i k (some c) (some v) = refl

module _ (env : ClaimEnv) (input : ClaimPairingInput) (p : PairingRow) (s : Tables)
    (found : s.pairing ≡ some p) where
  again-Fine : (o : Option (Text × Text)) → p.status ≡ claimed → Fine env s (claim_again env p s o)
  unfolding claim_again record_failed_attempt
  again-Fine none status = (is_taken s.pairing _ status, refl)
  again-Fine (some (i, k)) status =
      (unchanged s.pairing, answer_again-unlimited env p i k _ s.server_id)

  issued-Fine : (a : AgentRow) (v : Option Text) → Fine env s (issued env input p a s v)
  unfolding write_claim
  issued-Fine a none = (unchanged s.pairing, refl)
  issued-Fine a (some v) = (is_taken s.pairing _ refl, refl)

  agent-Fine : (o : Option AgentRow) → Fine env s (claim_agent env input p s o)
  unfolding claim_agent issue
  agent-Fine none = (unchanged s.pairing, refl)
  agent-Fine (some a) = elim (Bool-cases (is_some a.active_reporting_instance_id)) [
    | inl e ↦ rw e (unchanged s.pairing, refl)
    | inr e ↦ elim (Bool-cases (has_instance env.instance_id s)) [
      | inl f ↦ rw (e, f) (unchanged s.pairing, refl)
      | inr f ↦ elim (Bool-cases (has_key env input.public_key s)) [
        | inl g ↦ rw (e, f, g) (unchanged s.pairing, refl)
        | inr g ↦ elim (Bool-cases (has_head env.instance_id s)) [
          | inl h ↦ rw (e, f, g, h) (unchanged s.pairing, refl)
          | inr h ↦ rw (e, f, g, h) (issued-Fine a s.server_id)
        ]
      ]
    ]
  ]

  expired-Fine :
      p.expires_at ≤ env.now → Fine env s (refuses expired_problem, record_failed_attempt p s)
  unfolding record_failed_attempt
  expired-Fine over = (rw found (has_expired p _ over), refl)

  pending-Fine :
      (since : ℕ)
      → since ≤ env.now
      → p.status ≡ pending
      → (p.status ≡ claimed) ⊎ ((p.failed_claim_attempts ≡ 0) ⊎ (p.expires_at ≤ since))
      → Fine env s (claim_pending env input p s)
  unfolding claim_pending
  pending-Fine since l status untried = elim (Bool-cases (leb p.expires_at env.now)) [
    | inl e ↦ rw e (expired-Fine (leb→le p.expires_at env.now e))
    | inr e ↦
        let few : leb max_failed_pairing_attempts p.failed_claim_attempts ≡ false = elim untried [
          | inl taken ↦ cc
          | inr (inl zero_attempts) ↦ rw zero_attempts refl
          | inr (inr over) ↦ ground (arith, e, over, l)
        ] in
        rw (e, few) (agent-Fine (select_agent p.logical_agent_id s.agent))
  ]

  by_status-Fine :
      (since : ℕ) (status : PairingStatus)
      → since ≤ env.now
      → p.status ≡ status
      → (p.status ≡ claimed) ⊎ ((p.failed_claim_attempts ≡ 0) ⊎ (p.expires_at ≤ since))
      → Fine env s (claim_by_status env input p s status)
  by_status-Fine since pending l status untried = pending-Fine since l status untried
  by_status-Fine since claimed l status untried =
      again-Fine (claimed_ids (env.sha256 input.public_key) p) status

module _ (env : ClaimEnv) (input : ClaimPairingInput) (since : ℕ) (s : Tables)
    (later : since ≤ env.now) (untried : IsUntried since s.pairing) where
  claim-Fine : Fine env s (claim_in_transaction env input s)
  unfolding claim_in_transaction claim_found
  claim-Fine = selected (env.digest_capability input.pairing_code) _ refl
    where
      selected :
          (hash : Bytes) (o : Option PairingRow)
          → select_pairing hash s.pairing ≡ o
          → Fine env s (claim_found env input s o)
      selected hash none e = (unchanged s.pairing, refl)
      selected hash (some p) e =
          let (found, _) = select_pairing-some hash s.pairing p e in
          by_status-Fine env input p s found since p.status later refl
            (subst (IsUntried since) found untried)

Change-IsUntried :
    (since now : ℕ) {o o' : Option PairingRow}
    → since ≤ now
    → IsUntried since o
    → Change now o o'
    → IsUntried now o'
Change-IsUntried since now l untried (unchanged none) = tt
Change-IsUntried since now l untried (unchanged (some p)) = elim untried [
  | inl taken ↦ inl taken
  | inr (inl zero_attempts) ↦ inr (inl zero_attempts)
  | inr (inr over) ↦ inr (inr (omega (arith, over, l)))
]
Change-IsUntried since now l untried (is_taken o p status) = inl status
Change-IsUntried since now l untried (has_expired p failed over) = inr (inr over)

-- The attempts at a pairing, one after the other, while the clock does not go back.
pub data Attempts : ℕ → Tables → ℕ → Tables → Type 0 where
  nothing : (since : ℕ) (s : Tables) → Attempts since s since s
  attempt :
      {since : ℕ} {s : Tables} {now : ℕ} {t : Tables}
      → Attempts since s now t
      → (env : ClaimEnv) (input : ClaimPairingInput) → now ≤ env.now
      → Attempts since s env.now (claim_in_transaction env input t).1

Attempts-IsUntried :
    {since now : ℕ} {s t : Tables}
    → Attempts since s now t
    → IsUntried since s.pairing
    → IsUntried now t.pairing
Attempts-IsUntried (nothing since s) untried = untried
Attempts-IsUntried (attempt {now = now} {t = t} before env input later) untried =
    let before_it = Attempts-IsUntried before untried in
    Change-IsUntried now env.now later before_it (claim-Fine env input now t later before_it).0

-- From a pairing without failed attempts, as onboarding creates it, and while the clock does not go
-- back, no claim is ever refused for too many attempts.
pub claim_unlimited :
    (since now : ℕ) (s t : Tables) (p : PairingRow) (env : ClaimEnv) (input : ClaimPairingInput)
    → s.pairing ≡ some p
    → p.failed_claim_attempts ≡ 0
    → Attempts since s now t
    → now ≤ env.now
    → is_limited (claim_in_transaction env input t).0 ≡ false
claim_unlimited since now s t p env input found untouched attempts later =
    (claim-Fine env input now t later
      (Attempts-IsUntried attempts (rw found (inr (inl untouched))))).1
