-- ===== src/Enrollment/Claim/Once.antt =====
-- A pairing is claimed once: from then on its own key is answered the same, every other key is
-- refused.
use workbuddy_buddy.Prelude.{
  ◌≡◌, ◌≢◌, refl, sym, inl, inr, true, false, List, if◌then◌else◌, Bool-cases, arith,
}
use workbuddy_buddy.Edge.Types.{Bytes, text_eq, text_eq_iff, text_eq_same, text_eq_other}
use workbuddy_buddy.Enrollment.Problem.{returns, refuses}
use workbuddy_buddy.Enrollment.Rows.{InstanceHead, Tables}
use workbuddy_buddy.Enrollment.Claim.{
  select_pairing, record_failed_attempt, claimed_ids, claim_again, claim_found,
  claim_in_transaction,
}
use workbuddy_buddy.Enrollment.Request.{
  claim_result, ClaimPairingInput, ClaimPairingResult, ClaimEnv, conflict_problem,
  not_found_problem,
}
use workbuddy_buddy.Enrollment.Claim.Claimed.{IsClaimed, claim-Claimed}

module _ (code key : Bytes) (r : ClaimPairingResult) (s : Tables) (c : IsClaimed code key r s)
    (env : ClaimEnv) (input : ClaimPairingInput) where
  -- The pairing's own key is answered the same again.
  pub same_key :
      env.digest_capability input.pairing_code ≡ code
      → env.sha256 input.public_key ≡ key
      → claim_in_transaction env input s
        ≡ (returns (record r { heartbeat_interval_seconds = env.heartbeat_interval_seconds }), s)
  unfolding claim_in_transaction claim_found claim_again select_pairing claimed_ids claim_result
  same_key same_code same =
      rw
        (
          same_code,
          c.pairing,
          c.code_hash,
          text_eq_same code,
          c.status,
          same,
          c.key_hash,
          c.instance_id,
          c.key_id,
          text_eq_same key,
          c.found,
          c.server,
          c.agent,
          c.until,
        )
        refl

  -- Any other key is refused, and counted.
  pub other_key :
      env.digest_capability input.pairing_code ≡ code
      → env.sha256 input.public_key ≢ key
      → claim_in_transaction env input s ≡ (refuses conflict_problem, record_failed_attempt c.row s)
  unfolding claim_in_transaction claim_found claim_again select_pairing claimed_ids
  other_key same_code other =
      rw
        (
          same_code,
          c.pairing,
          c.code_hash,
          text_eq_same code,
          c.status,
          c.key_hash,
          c.instance_id,
          c.key_id,
          text_eq_other key (env.sha256 input.public_key) (λ e. other (sym e)),
        )
        refl

  other_code :
      env.digest_capability input.pairing_code ≢ code
      → claim_in_transaction env input s ≡ (refuses not_found_problem, s)
  unfolding claim_in_transaction claim_found select_pairing
  other_code other =
      rw
        (
          c.pairing,
          c.code_hash,
          text_eq_other code (env.digest_capability input.pairing_code) (λ e. other (sym e)),
        )
        refl

  failed-IsClaimed : IsClaimed code key r (record_failed_attempt c.row s)
  unfolding record_failed_attempt
  failed-IsClaimed = record {
    row = _;
    credential = c.credential;
    pairing = refl;
    code_hash = c.code_hash;
    status = c.status;
    key_hash = c.key_hash;
    instance_id = c.instance_id;
    key_id = c.key_id;
    agent = c.agent;
    server = c.server;
    found = c.found;
    until = c.until;
  }

  claim-keeps : IsClaimed code key r (claim_in_transaction env input s).1
  claim-keeps = elim (Bool-cases (text_eq (env.digest_capability input.pairing_code) code)) [
    | inr e ↦ rw (other_code (differ e)) c
    | inl e ↦ elim (Bool-cases (text_eq (env.sha256 input.public_key) key)) [
      | inl f ↦ rw (same_key (agree e) (agree f)) c
      | inr f ↦ rw (other_key (agree e) (differ f)) failed-IsClaimed
    ]
  ]
    where
      agree : {a b : Bytes} → text_eq a b ≡ true → a ≡ b
      agree {a} {b} e = (text_eq_iff a b).0 e

      differ : {a b : Bytes} → text_eq a b ≡ false → a ≢ b
      differ {a} {b} e = ground (arith, text_eq_iff a b, e)

-- What happens to the rows of a pairing: claims of any kind, and reports, which change heads.
pub data Step : Tables → Tables → Type 0 where
  claims :
      (s : Tables) (env : ClaimEnv) (input : ClaimPairingInput)
      → Step s (claim_in_transaction env input s).1
  reports : (s : Tables) (heads : List InstanceHead) → Step s (record s { heads = heads })

pub data Reach (s : Tables) : Tables → Type 0 where
  here : Reach s s
  next : {t u : Tables} → Reach s t → Step t u → Reach s u

module _ (code key : Bytes) (r : ClaimPairingResult) where
  Step-IsClaimed : {s t : Tables} → Step s t → IsClaimed code key r s → IsClaimed code key r t
  Step-IsClaimed (claims s env input) c = claim-keeps code key r s c env input
  Step-IsClaimed (reports s heads) c = record {
    row = c.row;
    credential = c.credential;
    pairing = c.pairing;
    code_hash = c.code_hash;
    status = c.status;
    key_hash = c.key_hash;
    instance_id = c.instance_id;
    key_id = c.key_id;
    agent = c.agent;
    server = c.server;
    found = c.found;
    until = c.until;
  }

  pub Reach-IsClaimed : {s t : Tables} → Reach s t → IsClaimed code key r s → IsClaimed code key r t
  Reach-IsClaimed here c = c
  Reach-IsClaimed (next before step) c = Step-IsClaimed step (Reach-IsClaimed before c)

-- After a claim has returned, and whatever claims and reports come between, a claim with the same
-- code returns the same ids to a key of the same hash, and is refused as a conflict to any other; it
-- writes no instance, credential, head or agent.
pub claim_once :
    (env env' : ClaimEnv) (input input' : ClaimPairingInput) (s t u : Tables)
    (r : ClaimPairingResult)
    → claim_in_transaction env input s ≡ (returns r, t)
    → Reach t u
    → env'.digest_capability input'.pairing_code ≡ env.digest_capability input.pairing_code
    → ((claim_in_transaction env' input' u).0 ≡ (
        if text_eq (env'.sha256 input'.public_key) (env.sha256 input.public_key)
        then returns (record r { heartbeat_interval_seconds = env'.heartbeat_interval_seconds })
        else refuses conflict_problem))
      × ((claim_in_transaction env' input' u).1
          ≡ record u { pairing = (claim_in_transaction env' input' u).1.pairing })
unfolding record_failed_attempt
claim_once env env' input input' s t u r e history same_code =
    let key = env.sha256 input.public_key in
    let key' = env'.sha256 input'.public_key in
    let c = Reach-IsClaimed _ key r history (claim-Claimed env input s t r e) in
    elim (Bool-cases (text_eq key' key)) [
      | inl f ↦
          rw (f, same_key _ key r u c env' input' same_code ((text_eq_iff key' key).0 f))
            (refl, refl)
      | inr f ↦ rw (f, other_key _ key r u c env' input' same_code (differ f)) (refl, refl)
    ]
  where
    differ : {a b : Bytes} → text_eq a b ≡ false → a ≢ b
    differ {a} {b} e = ground (arith, text_eq_iff a b, e)
