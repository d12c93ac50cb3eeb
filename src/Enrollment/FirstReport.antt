-- ===== src/Enrollment/FirstReport.antt =====
-- From a claim to the presence component: the rows that a claim leaves for its instance, and the
-- first report that is signed with the claimed key.
use mathlib.Core.Path.{subst}
use workbuddy_buddy.Prelude.{
  ◌<◌, ◌≡◌, refl, sym, true, Option, none, some, List, [], ◌∷◌, map, find, keep, lt→ltb, arith,
}
use workbuddy_buddy.Edge.Problem.{ok}
use workbuddy_buddy.Edge.Types.{
  Text, Bytes, text_eq, text_eq_iff, nullable_eq, EdgeEndpoint, VerifiedEdgeContext, Verification,
  PreparedEdgeReport, normalize_uuid, normalize_nullable_uuid, text_eq_same,
}
use workbuddy_buddy.Edge.Store.{
  InstanceStatus, InstanceRow, AgentRow, CredentialRow, HeadRow, MountRow, RevisionInput, Store,
  Env, parse_safe_integer,
}
use workbuddy_buddy.Edge.Boot.{
  BootDecision, find_boot, starts_with_state_transition, establish_boot, decide_boot,
  expected_sequence, check_sequence,
}
use workbuddy_buddy.Edge.Commit.Publish.{IsAccepting}
use workbuddy_buddy.Edge.Invariant.{IsConsistent}
use workbuddy_buddy.Edge.Invariant.Report.{IsPrepared}
use workbuddy_buddy.Edge.Invariant.Log.{IsCanonical, IsLogged, IsNewId}
use workbuddy_buddy.Edge.Ingest.{
  assert_verified_identity, assert_supported_pet_ids, lock_instance, lock_agent,
  lock_and_validate_credential, lock_head, ingest,
}
use workbuddy_buddy.Edge.Ingest.Consistency.{fresh_ack}
use workbuddy_buddy.Edge.Ingest.Safety.{IsAdmitted, ingest_commits}
use workbuddy_buddy.Edge.Lease.History.{IsEnrolled, Reach-IsConsistent, here}
use workbuddy_buddy.Enrollment.Problem.{returns}
use workbuddy_buddy.Enrollment.Rows.{pending, PairingRow, InstanceHead, Tables}
use workbuddy_buddy.Enrollment.Claim.{claim_in_transaction}
use workbuddy_buddy.Enrollment.Issue.{write_claim, new_credential}
use workbuddy_buddy.Enrollment.Request.{
  ClaimPairingInput, ClaimPairingResult, ClaimEnv, valid_until,
}
use workbuddy_buddy.Enrollment.Claim.Fresh.{IsFresh, claim-IsFresh}

-- The rows that the presence component reads for an instance that has not reported: the keys of the
-- other tables refer to boots, and it has none.
unfoldable pub rows_of : Text → List MountRow → List RevisionInput → Tables → Store
rows_of instance_id mounts revisions s = record {
  instance_row = find (λ row. text_eq row.id instance_id) s.instances;
  agent = s.agent;
  credentials =
      map (λ c. c.credential) (keep (λ c. text_eq c.instance_id instance_id) s.credentials);
  head = head_of (find (λ h. text_eq h.instance_id instance_id) s.heads);
  boots = [];
  receipts = [];
  fingerprints = [];
  presence = none;
  intervals = [];
  mounts = mounts;
  revisions = revisions;
}
  where
    head_of : Option InstanceHead → Option HeadRow
    head_of none = none
    head_of (some h) = some h.head

-- A report that opens the first boot of the instance, in time, and of a supported pet, whose canonical
-- events are its events with states that fit the columns.
pub record IsFirstReport (env : Env) (report : PreparedEdgeReport) (r : ClaimPairingResult)
    : Type 0 where
  pub prepared : IsPrepared report
  pub canonical : IsCanonical report
  pub first : report.envelope.first_sequence ≡ 1
  pub endpoint : report.endpoint ≡ EdgeEndpoint.batch
  pub previous : report.envelope.previous_boot_id ≡ none
  pub snapshot : starts_with_state_transition report.envelope.events ≡ true
  pub instance_id : normalize_uuid report.envelope.instance_id ≡ r.instance_id
  pub key_id : normalize_uuid report.envelope.key_id ≡ r.key_id
  pub pets : assert_supported_pet_ids env.supported_pets report ≡ ok tt
  pub in_time : env.credential_clock < r.credential_valid_until

-- What the verifier of signatures says of a report signed with the key.
abbrev pub verified_by : Env → PreparedEdgeReport → Bytes → VerifiedEdgeContext
verified_by env report public_key = record {
  instance_id = report.envelope.instance_id;
  key_id = report.envelope.key_id;
  verification = Verification.ed25519;
  credential_public_key_sha256 = some (env.sha256 public_key);
}

abbrev new_row : ClaimPairingResult → Text → InstanceRow
new_row r agent_id = record {
  id = r.instance_id;
  logical_agent_id = agent_id;
  status = InstanceStatus.active;
  revoked_at = none;
}

abbrev pub new_head : HeadRow
new_head = record {
  current_boot_id = none;
  current_boot_generation = 0;
  last_server_received_at = none;
}

abbrev first_decision : BootDecision
first_decision = record { boot = none; boot_generation = 1; is_new_boot = true }

module _ (claim_env : ClaimEnv) (input : ClaimPairingInput) (r : ClaimPairingResult) (s t : Tables)
    (fresh : IsFresh claim_env input r s t) (mounts : List MountRow)
    (revisions : List RevisionInput) where
  fresh_rows : Store
  fresh_rows = rows_of r.instance_id mounts revisions t

  fresh-IsEnrolled : IsEnrolled fresh_rows
  unfolding fresh_rows rows_of write_claim
  fresh-IsEnrolled = record {
    head = rw (fresh.written, fresh.instance_id, text_eq_same claim_env.instance_id) refl;
    boots = refl;
    presence = refl;
    intervals = refl;
  }

  -- An instance that has not reported has neither receipts nor fingerprints.
  fresh-IsLogged : IsLogged new_head fresh_rows
  unfolding fresh_rows rows_of
  fresh-IsLogged = record { receipts = tt; fingerprints = tt }

  fresh-IsNewId : (id : Text) → IsNewId id fresh_rows
  unfolding fresh_rows rows_of
  fresh-IsNewId id = tt

  fresh_instance : fresh_rows.instance_row ≡ some (new_row r fresh.row.logical_agent_id)
  unfolding fresh_rows rows_of write_claim
  fresh_instance = rw (fresh.written, fresh.instance_id, text_eq_same claim_env.instance_id) refl

  fresh_agent : AgentRow
  fresh_agent = record fresh.agent { active_reporting_instance_id = some r.instance_id }

  fresh_agent_lem : fresh_rows.agent ≡ some fresh_agent
  unfolding fresh_rows rows_of write_claim fresh_agent
  fresh_agent_lem = rw (fresh.written, fresh.instance_id) refl

  fresh_credentials :
      (rest : List CredentialRow) × (fresh_rows.credentials
        ≡ (new_credential claim_env input).credential ∷ rest)
  unfolding fresh_rows rows_of write_claim
  fresh_credentials = (
    map (λ c. c.credential) (keep (λ c. text_eq c.instance_id r.instance_id) s.credentials),
    rw (fresh.written, (text_eq_iff claim_env.instance_id r.instance_id).1 (sym fresh.instance_id))
        refl,
  )

  fresh-IsAdmitted :
      (env : Env) (report : PreparedEdgeReport)
      → IsFirstReport env report r
      → IsAdmitted env report
          (verified_by env report input.public_key)
          fresh_rows
          (new_row r fresh.row.logical_agent_id)
          new_head
          first_decision
  unfolding assert_verified_identity lock_instance lock_agent lock_and_validate_credential lock_head
      nullable_eq decide_boot establish_boot find_boot parse_safe_integer normalize_nullable_uuid
      check_sequence expected_sequence fresh_agent text_eq
  fresh-IsAdmitted env report f = record {
    agent = fresh_agent;
    identity =
        rw
          (
            text_eq_same (normalize_uuid report.envelope.instance_id),
            text_eq_same (normalize_uuid report.envelope.key_id),
          )
          refl;
    pets = f.pets;
    locked_instance = rw (fresh_instance, f.instance_id, text_eq_same r.instance_id) refl;
    locked_agent = rw (fresh_agent_lem, text_eq_same r.instance_id) refl;
    validated =
        let (rest, held) = fresh_credentials in
        rw
          (
            held,
            f.key_id,
            fresh.key_id,
            text_eq_same claim_env.key_id,
            lt→ltb env.credential_clock (valid_until claim_env)
                (subst (λ u. env.credential_clock < u) fresh.until f.in_time),
            text_eq_same (env.sha256 input.public_key),
          )
          refl;
    locked_head = rw (fresh-IsEnrolled.head) refl;
    decided = rw (fresh-IsEnrolled.boots, f.previous, f.endpoint, f.first, f.snapshot) refl;
    in_sequence = rw (f.first) refl;
  }

-- After a claim of a pending pairing has returned, the instance that it answers can report at once: a
-- first report that is signed with the claimed key, while the credential is valid and the projector
-- takes its calls, is committed and leaves consistent rows.
pub claim_then_report :
    (claim_env : ClaimEnv) (input : ClaimPairingInput) (r : ClaimPairingResult) (s t : Tables)
    (p : PairingRow) (mounts : List MountRow) (revisions : List RevisionInput) (env : Env)
    (report : PreparedEdgeReport)
    → s.pairing ≡ some p
    → p.status ≡ pending
    → claim_in_transaction claim_env input s ≡ (returns r, t)
    → IsFirstReport env report r
    → IsAccepting env
    → (after : Store) × (ingest env report
          (verified_by env report input.public_key)
          (rows_of r.instance_id mounts revisions t)
        ≡ (ok (fresh_ack env report r.instance_id new_head), after))
      × IsConsistent env.clock after
unfolding fresh_rows
claim_then_report claim_env input r s t p mounts revisions env report found status claim first
      accepting =
    let fresh = claim-IsFresh claim_env input r s t p found status claim in
    let rows = rows_of r.instance_id mounts revisions t in
    let (after, committed, head, consistent, _) =
      ingest_commits env report (verified_by env report input.public_key) 0 rows
        (new_row r fresh.row.logical_agent_id) new_head first_decision (omega arith) first.prepared
        (Reach-IsConsistent {m = record { now = 0; store = rows }}
          (fresh-IsEnrolled claim_env input r s t fresh mounts revisions) here)
        (fresh-IsLogged claim_env input r s t fresh mounts revisions) first.canonical
        (fresh-IsNewId claim_env input r s t fresh mounts revisions env.receipt_id) accepting
        (fresh-IsAdmitted claim_env input r s t fresh mounts revisions env report first) in
    (after, committed, (head, consistent))
