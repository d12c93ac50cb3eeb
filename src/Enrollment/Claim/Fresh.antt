-- ===== src/Enrollment/Claim/Fresh.antt =====
-- A claim of a pending pairing, when it returns, writes the rows of a new instance.
use mathlib.Core.Path.{subst}
use workbuddy_buddy.Prelude.{◌≡◌, refl, sym, ◌∙◌, inl, inr, Option, none, some, if-cases, leb}
use workbuddy_buddy.Edge.Types.{Text, Bytes}
use workbuddy_buddy.Edge.Store.{AgentRow, is_some}
use workbuddy_buddy.Enrollment.Problem.{returns}
use workbuddy_buddy.Enrollment.Rows.{pending, PairingRow, Tables}
use workbuddy_buddy.Enrollment.Claim.{
  claim_agent, claim_pending, claim_by_status, claim_found, select_pairing, select_agent,
  claim_in_transaction,
}
use workbuddy_buddy.Enrollment.Request.{
  claim_result, ClaimPairingInput, ClaimPairingResult, ClaimEnv, valid_until,
  max_failed_pairing_attempts,
}
use workbuddy_buddy.Enrollment.Issue.{write_claim, issued, issue, has_instance, has_key, has_head}
use workbuddy_buddy.Enrollment.Claim.Claimed.{answered, select_pairing-some}

some-injective : {A : Type 0} (a b : A) → some a ≡ some b → a ≡ b
some-injective a b e = cc e

-- What a fresh claim does: it answers the new ids, and writes their rows.
pub record IsFresh (env : ClaimEnv) (input : ClaimPairingInput) (r : ClaimPairingResult)
    (s t : Tables) : Type 0 where
  pub row : PairingRow
  pub agent : AgentRow
  pub instance_id : r.instance_id ≡ env.instance_id
  pub key_id : r.key_id ≡ env.key_id
  pub until : r.credential_valid_until ≡ valid_until env
  pub written : t ≡ write_claim env input row agent s

module _ (env : ClaimEnv) (input : ClaimPairingInput) (r : ClaimPairingResult) (s t : Tables) where
  issued-IsFresh :
      (p : PairingRow) (a : AgentRow) (server_id : Option Text)
      → issued env input p a s server_id ≡ (returns r, t)
      → IsFresh env input r s t
  unfolding claim_result
  issued-IsFresh p a none e = cc e
  issued-IsFresh p a (some v) e =
      answered (λ r t. IsFresh env input r s t) _ r _ t e
        (record {
          row = p;
          agent = a;
          instance_id = refl;
          key_id = refl;
          until = refl;
          written = refl;
        })

  pending-IsFresh :
      (p : PairingRow) → claim_pending env input p s ≡ (returns r, t) → IsFresh env input r s t
  unfolding claim_pending claim_agent issue
  pending-IsFresh p e = elim (if-cases (leb p.expires_at env.now) _ _ e) [
    | inl (_, e) ↦ cc e
    | inr (_, e) ↦ elim (if-cases (leb max_failed_pairing_attempts p.failed_claim_attempts) _ _ e) [
      | inl (_, e) ↦ cc e
      | inr (_, e) ↦ by_agent (select_agent p.logical_agent_id s.agent) e
    ]
  ]
    where
      by_agent :
          (o : Option AgentRow)
          → claim_agent env input p s o ≡ (returns r, t)
          → IsFresh env input r s t
      by_agent none e = cc e
      by_agent (some a) e = elim (if-cases (is_some a.active_reporting_instance_id) _ _ e) [
        | inl (_, e) ↦ cc e
        | inr (_, e) ↦ elim (if-cases (has_instance env.instance_id s) _ _ e) [
          | inl (_, e) ↦ cc e
          | inr (_, e) ↦ elim (if-cases (has_key env input.public_key s) _ _ e) [
            | inl (_, e) ↦ cc e
            | inr (_, e) ↦ elim (if-cases (has_head env.instance_id s) _ _ e) [
              | inl (_, e) ↦ cc e
              | inr (_, e) ↦ issued-IsFresh p a s.server_id e
            ]
          ]
        ]
      ]

  by_status-IsFresh :
      (p : PairingRow)
      → p.status ≡ pending
      → claim_by_status env input p s p.status ≡ (returns r, t)
      → IsFresh env input r s t
  by_status-IsFresh p status e =
      pending-IsFresh p (subst (λ x. claim_by_status env input p s x ≡ (returns r, t)) status e)

  -- A claim of a pending pairing that returns is a fresh one.
  pub claim-IsFresh :
      (p : PairingRow)
      → s.pairing ≡ some p
      → p.status ≡ pending
      → claim_in_transaction env input s ≡ (returns r, t)
      → IsFresh env input r s t
  unfolding claim_in_transaction claim_found
  claim-IsFresh p found status e = selected (env.digest_capability input.pairing_code) _ refl e
    where
      selected :
          (hash : Bytes) (o : Option PairingRow)
          → select_pairing hash s.pairing ≡ o
          → claim_found env input s o ≡ (returns r, t)
          → IsFresh env input r s t
      selected hash none select e = cc e
      selected hash (some q) select e =
          let same : p ≡ q =
            some-injective p q (sym found ∙ (select_pairing-some hash s.pairing q select).0) in
          by_status-IsFresh q (subst (λ x. x.status ≡ pending) same status) e
