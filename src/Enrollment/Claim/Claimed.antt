-- ===== src/Enrollment/Claim/Claimed.antt =====
-- What a successful claim leaves: the pairing holds the key and the ids that were answered.
use mathlib.Core.Path.{subst}
use workbuddy_buddy.Prelude.{
  ◌≡◌, refl, sym, ap, ◌∙◌, inl, inr, Option, none, some, find, leb, Option-cases, if-cases, arith,
}
use workbuddy_buddy.Edge.Types.{Text, Bytes, text_eq, text_eq_iff, text_eq_same}
use workbuddy_buddy.Edge.Store.{AgentRow, is_some}
use workbuddy_buddy.Enrollment.Problem.{Outcome, returns}
use workbuddy_buddy.Enrollment.Rows.{
  PairingStatus, pending, claimed, PairingRow, DeviceCredential, Tables,
}
use workbuddy_buddy.Enrollment.Claim.{
  select_pairing, ids_of, answer_again, claim_by_status, is_claimed_credential, claimed_ids,
  claim_again, select_agent, claim_agent, claim_pending, claim_found, claim_in_transaction,
}
use workbuddy_buddy.Enrollment.Request.{
  claim_result, ClaimPairingInput, ClaimPairingResult, ClaimEnv, max_failed_pairing_attempts,
}
use workbuddy_buddy.Enrollment.Issue.{
  issued, new_credential, write_claim, has_instance, has_key, has_head, issue,
}

-- The rows of a pairing with the hash `code`, claimed by the key with the hash `key`.
pub record IsClaimed (code key : Bytes) (r : ClaimPairingResult) (s : Tables) : Type 0 where
  pub row : PairingRow
  pub credential : DeviceCredential
  pub pairing : s.pairing ≡ some row
  pub code_hash : row.pairing_code_hash ≡ code
  pub status : row.status ≡ claimed
  pub key_hash : row.claimed_public_key_hash ≡ some key
  pub instance_id : row.claimed_instance_id ≡ some r.instance_id
  pub key_id : row.claimed_key_id ≡ some r.key_id
  pub agent : row.logical_agent_id ≡ r.logical_agent_id
  pub server : s.server_id ≡ some r.server_id
  pub found : find (is_claimed_credential r.instance_id r.key_id) s.credentials ≡ some credential
  pub until : credential.credential.valid_until ≡ r.credential_valid_until

pub select_pairing-some :
    (hash : Bytes) (o : Option PairingRow) (p : PairingRow)
    → select_pairing hash o ≡ some p
    → (o ≡ some p) × (p.pairing_code_hash ≡ hash)
unfolding select_pairing
select_pairing-some hash none p e = cc
select_pairing-some hash (some q) p e = elim (if-cases (text_eq q.pairing_code_hash hash) _ _ e) [
  | inl (same, here) ↦ (here, of_row here ((text_eq_iff q.pairing_code_hash hash).0 same))
  | inr (_, gone) ↦ cc gone
]
  where
    of_row : some q ≡ some p → q.pairing_code_hash ≡ hash → p.pairing_code_hash ≡ hash
    of_row here same =
        let equal : q ≡ p = ground (arith, here) in sym (ap (λ x. x.pairing_code_hash) equal) ∙ same

ids_of-some :
    (hash : Bytes) (h : Option Bytes) (i k : Option Text) (i' k' : Text)
    → ids_of hash h i k ≡ some (i', k')
    → (h ≡ some hash) × (i ≡ some i') × (k ≡ some k')
ids_of-some hash none i k i' k' e = cc e
ids_of-some hash (some h) none k i' k' e = cc e
ids_of-some hash (some h) (some i) none i' k' e = cc e
ids_of-some hash (some h) (some i) (some k) i' k' e = elim (if-cases (text_eq h hash) _ _ e) [
  | inl (same, here) ↦ (ap some ((text_eq_iff h hash).0 same), cc here, cc here)
  | inr (_, gone) ↦ cc gone
]

returns-injective : {A : Type 0} (a b : A) → returns a ≡ returns b → a ≡ b
returns-injective a b e = cc e

-- The ids are answered to the key that claimed only.
pub claimed_ids-some :
    (hash : Bytes) (p : PairingRow) (i k : Text)
    → claimed_ids hash p ≡ some (i, k)
    → (p.claimed_public_key_hash ≡ some hash)
      × (p.claimed_instance_id ≡ some i)
      × (p.claimed_key_id ≡ some k)
unfolding claimed_ids
claimed_ids-some hash p i k e =
    ids_of-some hash p.claimed_public_key_hash p.claimed_instance_id p.claimed_key_id i k e

-- An answer determines the rows and the result.
pub answered :
    (P : ClaimPairingResult → Tables → Type 0) (r r' : ClaimPairingResult) (t t' : Tables)
    → ◌≡◌ {A = Outcome ClaimPairingResult × Tables} (returns r, t) (returns r', t')
    → P r t
    → P r' t'
answered P r r' t t' e h =
    let same : r ≡ r' = returns-injective r r' (ap (λ x. x.0) e) in
    subst (λ x. P x t') same (subst (λ x. P r x) (ap (λ x. x.1) e) h)

module _ (env : ClaimEnv) (input : ClaimPairingInput) where
  answer_again-Claimed :
      (p : PairingRow) (s t : Tables) (r : ClaimPairingResult) (i k : Text)
      (c : Option DeviceCredential) (server_id : Option Text)
      → s.pairing ≡ some p
      → p.pairing_code_hash ≡ env.digest_capability input.pairing_code
      → p.status ≡ claimed
      → claimed_ids (env.sha256 input.public_key) p ≡ some (i, k)
      → find (is_claimed_credential i k) s.credentials ≡ c
      → s.server_id ≡ server_id
      → ◌≡◌ {A = Outcome ClaimPairingResult × Tables}
          (answer_again env p i k c server_id, s)
          (returns r, t)
      → IsClaimed (env.digest_capability input.pairing_code) (env.sha256 input.public_key) r t
  unfolding claim_result
  answer_again-Claimed p s t r i k none server_id here code status ids found server e = cc e
  answer_again-Claimed p s t r i k (some c) none here code status ids found server e = cc e
  answer_again-Claimed p s t r i k (some c) (some v) here code status ids found server e =
      let (h, hi, hk) = claimed_ids-some (env.sha256 input.public_key) p i k ids in
      answered (IsClaimed (env.digest_capability input.pairing_code) (env.sha256 input.public_key))
        _ r s t e
        (record {
          row = p;
          credential = c;
          pairing = here;
          code_hash = code;
          status = status;
          key_hash = h;
          instance_id = hi;
          key_id = hk;
          agent = refl;
          server = server;
          found = found;
          until = refl;
        })

  issued-Claimed :
      (p : PairingRow) (a : AgentRow) (s t : Tables) (r : ClaimPairingResult)
      (server_id : Option Text)
      → p.pairing_code_hash ≡ env.digest_capability input.pairing_code
      → s.server_id ≡ server_id
      → issued env input p a s server_id ≡ (returns r, t)
      → IsClaimed (env.digest_capability input.pairing_code) (env.sha256 input.public_key) r t
  unfolding claim_result write_claim
  issued-Claimed p a s t r none code server e = cc e
  issued-Claimed p a s t r (some v) code server e =
      answered (IsClaimed (env.digest_capability input.pairing_code) (env.sha256 input.public_key))
        _ r _ t e
        (record {
          row = _;
          credential = new_credential env input;
          pairing = refl;
          code_hash = code;
          status = refl;
          key_hash = refl;
          instance_id = refl;
          key_id = refl;
          agent = refl;
          server = server;
          found = rw (text_eq_same env.key_id, text_eq_same env.instance_id) refl;
          until = refl;
        })

  issue-Claimed :
      (p : PairingRow) (a : AgentRow) (s t : Tables) (r : ClaimPairingResult)
      → p.pairing_code_hash ≡ env.digest_capability input.pairing_code
      → issue env input p a s ≡ (returns r, t)
      → IsClaimed (env.digest_capability input.pairing_code) (env.sha256 input.public_key) r t
  unfolding issue
  issue-Claimed p a s t r code e = elim (if-cases (has_instance env.instance_id s) _ _ e) [
    | inl (_, e) ↦ cc e
    | inr (_, e) ↦ elim (if-cases (has_key env input.public_key s) _ _ e) [
      | inl (_, e) ↦ cc e
      | inr (_, e) ↦ elim (if-cases (has_head env.instance_id s) _ _ e) [
        | inl (_, e) ↦ cc e
        | inr (_, e) ↦ issued-Claimed p a s t r s.server_id code refl e
      ]
    ]
  ]

  claim_pending-Claimed :
      (p : PairingRow) (s t : Tables) (r : ClaimPairingResult)
      → p.pairing_code_hash ≡ env.digest_capability input.pairing_code
      → claim_pending env input p s ≡ (returns r, t)
      → IsClaimed (env.digest_capability input.pairing_code) (env.sha256 input.public_key) r t
  unfolding claim_pending claim_agent
  claim_pending-Claimed p s t r code e = elim (if-cases (leb p.expires_at env.now) _ _ e) [
    | inl (_, e) ↦ cc e
    | inr (_, e) ↦ elim (if-cases (leb max_failed_pairing_attempts p.failed_claim_attempts) _ _ e) [
      | inl (_, e) ↦ cc e
      | inr (_, e) ↦ by_agent (select_agent p.logical_agent_id s.agent) e
    ]
  ]
    where
      by_agent :
          (o : Option AgentRow)
          → claim_agent env input p s o ≡ (returns r, t)
          → IsClaimed (env.digest_capability input.pairing_code) (env.sha256 input.public_key) r t
      by_agent none e = cc e
      by_agent (some a) e = elim (if-cases (is_some a.active_reporting_instance_id) _ _ e) [
        | inl (_, e) ↦ cc e
        | inr (_, e) ↦ issue-Claimed p a s t r code e
      ]

  by_status-Claimed :
      (p : PairingRow) (s t : Tables) (r : ClaimPairingResult) (status : PairingStatus)
      → s.pairing ≡ some p
      → p.status ≡ status
      → p.pairing_code_hash ≡ env.digest_capability input.pairing_code
      → claim_by_status env input p s status ≡ (returns r, t)
      → IsClaimed (env.digest_capability input.pairing_code) (env.sha256 input.public_key) r t
  unfolding claim_again
  by_status-Claimed p s t r pending here status code e = claim_pending-Claimed p s t r code e
  by_status-Claimed p s t r claimed here status code e =
      elim (Option-cases (claimed_ids (env.sha256 input.public_key) p)) [
        | inl nobody ↦ cc (rw nobody at e)
        | inr ((i, k), ids) ↦
            answer_again-Claimed p s t r i k _ s.server_id here code status ids refl refl
              (rw ids at e)
      ]

  found-Claimed :
      (s t : Tables) (r : ClaimPairingResult) (o : Option PairingRow)
      → select_pairing (env.digest_capability input.pairing_code) s.pairing ≡ o
      → claim_found env input s o ≡ (returns r, t)
      → IsClaimed (env.digest_capability input.pairing_code) (env.sha256 input.public_key) r t
  unfolding claim_found
  found-Claimed s t r none selected e = cc e
  found-Claimed s t r (some p) selected e =
      let (here, code) =
        select_pairing-some (env.digest_capability input.pairing_code) s.pairing p selected in
      by_status-Claimed p s t r p.status here refl code e

  -- A claim that returns has claimed the pairing of its code for its key.
  pub claim-Claimed :
      (s t : Tables) (r : ClaimPairingResult)
      → claim_in_transaction env input s ≡ (returns r, t)
      → IsClaimed (env.digest_capability input.pairing_code) (env.sha256 input.public_key) r t
  unfolding claim_in_transaction
  claim-Claimed s t r e = found-Claimed s t r _ refl e
