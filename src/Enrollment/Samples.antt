-- ===== src/Enrollment/Samples.antt =====
-- A pairing from its creation to the first report.
mod Bodies
use workbuddy_buddy.Prelude.{◌≡◌, refl, true, false, none, some, [], ◌∷◌, if◌then◌else◌, leb, arith}
use workbuddy_buddy.Edge.Problem.{ok}
use workbuddy_buddy.Edge.Types.{
  Text, text_eq, ActivityState, DisplayState, state_transition, EdgeEvent, EdgeEndpoint,
  PreparedEdgeReport, normalize_uuid, activity_eq,
}
use workbuddy_buddy.Edge.Store.{Store, Env}
use workbuddy_buddy.Edge.Constraints.{is_valid_event, fits_state}
use workbuddy_buddy.Edge.Invariant.{IsConsistent}
use workbuddy_buddy.Edge.Ingest.{assert_supported_pet_ids, ingest}
use workbuddy_buddy.Edge.Ingest.Consistency.{fresh_ack}
use workbuddy_buddy.Enrollment.Problem.{returns, refuses}
use workbuddy_buddy.Enrollment.Rows.{pending, PairingRow, Tables}
use workbuddy_buddy.Enrollment.Claim.{
  select_pairing, claimed_ids, claim_again, select_agent, claim_agent, claim_pending, claim_found,
  claim_in_transaction, record_failed_attempt,
}
use workbuddy_buddy.Enrollment.Request.{
  claim_result, ClaimPairingInput, ClaimPairingResult, ClaimEnv, valid_until, expired_problem,
  conflict_problem,
}
use workbuddy_buddy.Enrollment.Issue.{write_claim, issue}
use workbuddy_buddy.Enrollment.Claim.Once.{here, claim_once}
use workbuddy_buddy.Enrollment.Claim.Attempts.{
  is_limited, Attempts, nothing, attempt, claim_unlimited,
}
use workbuddy_buddy.Enrollment.FirstReport.{
  rows_of, IsFirstReport, verified_by, new_head, claim_then_report,
}
use workbuddy_buddy.Enrollment.Service.{create_office_onboarding, ShownStatus, show_status}
use workbuddy_buddy.Enrollment.NewOffice.{
  OnboardingEnv, CreateOfficeOnboardingInput, CreateOfficeOnboardingResult, office_rows,
  pairing_rows, onboarding_result, seed_key,
}
use workbuddy_buddy.Enrollment.OfficeRows.{OfficeRows}
use workbuddy_buddy.Enrollment.Service.Created.{claim_of_created}

abbrev pub onboarding : OnboardingEnv
onboarding = record {
  now = 100;
  later = 100;
  ids = record {
    account = 1 ∷ [];
    office = 2 ∷ [];
    room = 3 ∷ [];
    membership = 4 ∷ [];
    agent = 5 ∷ [];
    mount = 6 ∷ [];
    pairing = 7 ∷ [];
    public_view = 8 ∷ [];
    schedule = 9 ∷ [];
    qualification = 10 ∷ [];
  };
  pairing_code = b'c' ∷ [];
  status_token = b's' ∷ [];
  public_view = b'v' ∷ [];
  digest_capability = λ raw. raw;
  rule_id = λ day. day ∷ [];
  local_date = λ at. [];
  conflicts = false;
  projector_accepts = λ key. true;
}

abbrev wish : CreateOfficeOnboardingInput
wish = record {
  office_name = b'o' ∷ [];
  alias = b'a' ∷ [];
  pet_id = b'p' ∷ [];
  presence_visible = true;
  stats_opt_in = true;
  poster_opt_in = false;
}

abbrev server : Text
server = b'S' ∷ []

create_once : OnboardingEnv → CreateOfficeOnboardingResult × Tables
unfolding onboarding_result pairing_rows
create_once env = (onboarding_result env, pairing_rows env wish (some server))

abbrev office : OfficeRows
office = record (office_rows onboarding wish) { revisions = seed_key onboarding ∷ [] }

abbrev created : Tables
created = (create_once onboarding).1

abbrev device : ClaimEnv
device = record {
  now = 200;
  later = 200;
  instance_id = b'i' ∷ [];
  key_id = b'k' ∷ [];
  heartbeat_interval_seconds = 30;
  digest_capability = λ raw. raw;
  sha256 = λ bytes. bytes;
  is_enrolled = λ key. false;
}

abbrev other_device : ClaimEnv
other_device = record device { now = 300; instance_id = b'j' ∷ []; key_id = b'l' ∷ [] }

abbrev own_key : ClaimPairingInput
own_key = record { pairing_code = b'c' ∷ []; public_key = b'K' ∷ []; client_version = [] }

abbrev other_key : ClaimPairingInput
other_key = record own_key { public_key = b'L' ∷ [] }

create_returns :
    create_office_onboarding onboarding wish (some server)
    ≡ (returns (create_once onboarding).0, some (office, created))
unfolding create_office_onboarding create_once
create_returns = refl

abbrev row : PairingRow
row = record {
  id = 7 ∷ [];
  logical_agent_id = 5 ∷ [];
  pairing_code_hash = b'c' ∷ [];
  status_secret_hash = b's' ∷ [];
  status = pending;
  failed_claim_attempts = 0;
  expires_at = 300_100;
  claimed_public_key_hash = none;
  claimed_instance_id = none;
  claimed_key_id = none;
  claimed_client_version = none;
  claimed_at = none;
}

row_created : created.pairing ≡ some row
unfolding create_once
row_created = refl

run_claim : ClaimEnv → ClaimPairingInput → Tables → Tables
unfolding claim_in_transaction select_pairing claim_found claim_pending select_agent claim_agent
    issue write_claim claim_again claimed_ids claim_result record_failed_attempt text_eq create_once
    pairing_rows
run_claim env input s = (claim_in_transaction env input s).1

abbrev answered : ClaimPairingResult
answered = record {
  server_id = server;
  instance_id = b'i' ∷ [];
  key_id = b'k' ∷ [];
  logical_agent_id = 5 ∷ [];
  heartbeat_interval_seconds = 30;
  credential_valid_until = 15_552_000_200;
}

abbrev taken : Tables
taken = run_claim device own_key created

claim_returns : claim_in_transaction device own_key created ≡ (returns answered, taken)
unfolding run_claim
claim_returns = refl

code_is : own_key.pairing_code ≡ (create_once onboarding).0.pairing_code
unfolding create_once
code_is = refl

claim_of_created_example :
    ((claim_in_transaction device own_key created).0 ≡ (
      if leb (create_once onboarding).0.expires_at 200
      then refuses expired_problem
      else if device.is_enrolled (b'K' ∷ [])
      then refuses conflict_problem
      else returns
          (claim_result device server (b'i' ∷ []) (b'k' ∷ []) (5 ∷ []) (valid_until device))))
    × (show_status
          (create_once onboarding).0.status_token
          400
          (claim_in_transaction device own_key created).1.pairing
        ≡ returns (
            if leb (create_once onboarding).0.expires_at 200
            then ShownStatus.expired
            else if device.is_enrolled (b'K' ∷ [])
            then (if leb (create_once onboarding).0.expires_at 400
                then ShownStatus.expired
                else ShownStatus.pending)
            else ShownStatus.claimed))
claim_of_created_example =
    claim_of_created onboarding wish server (create_once onboarding).0 office created device own_key
      400 create_returns refl code_is (omega arith)

claim_once_example :
    ((claim_in_transaction other_device other_key taken).0
      ≡ (if text_eq (b'L' ∷ []) (b'K' ∷ []) then returns answered else refuses conflict_problem))
    × ((claim_in_transaction other_device other_key taken).1
        ≡ record taken { pairing = (claim_in_transaction other_device other_key taken).1.pairing })
claim_once_example =
    claim_once device other_device own_key other_key created taken taken answered claim_returns here
      refl

one_claim : Attempts 0 created 200 taken
unfolding run_claim
one_claim = attempt (nothing 0 created) device own_key (omega arith)

-- A second key fails, and its attempt is counted.
claim_unlimited_example : is_limited (claim_in_transaction other_device other_key taken).0 ≡ false
claim_unlimited_example =
    claim_unlimited 0 200 created taken row other_device other_key row_created refl one_claim
      (omega arith)

abbrev opening : EdgeEvent
opening = state_transition (record {
  sequence = 1;
  observed_at = [];
  display_state = DisplayState.idle;
  activity_state = ActivityState.eligible_idle;
  pet_id = b'p' ∷ [];
})

abbrev report : PreparedEdgeReport
report = record {
  envelope = record {
    instance_id = b'i' ∷ [];
    key_id = b'k' ∷ [];
    boot_id = b'b' ∷ [];
    previous_boot_id = none;
    first_sequence = 1;
    events = opening ∷ [];
    sent_at = [];
    client_version = [];
    signature = [];
  };
  endpoint = EdgeEndpoint.batch;
  signing_payload = [];
  canonical_payload = 9 ∷ [];
  canonical_payload_hash = 9 ∷ [];
  canonical_events = record { event = opening; bytes = 1 ∷ []; hash = 1 ∷ [] } ∷ [];
}

abbrev env : Env
env = record {
  credential_clock = 300;
  clock = 300;
  receipt_id = 1 ∷ [];
  lease_ttl_seconds = 90;
  sha256 = λ bytes. bytes;
  supported_pets = (b'p' ∷ []) ∷ [];
  projector_accepts = λ revisions input. true;
}

is_first : IsFirstReport env report answered
unfolding is_valid_event fits_state activity_eq normalize_uuid assert_supported_pet_ids text_eq
is_first = record {
  prepared = omega arith;
  canonical = record { events = refl; valid = (refl, tt) };
  first = refl;
  endpoint = refl;
  previous = refl;
  snapshot = refl;
  instance_id = refl;
  key_id = refl;
  pets = refl;
  in_time = omega arith;
}

claim_then_report_example :
    (after : Store) × (ingest env report
        (verified_by env report (b'K' ∷ []))
        (rows_of (b'i' ∷ []) [] [] taken)
      ≡ (ok (fresh_ack env report (b'i' ∷ []) new_head), after))
    × IsConsistent 300 after
claim_then_report_example =
    claim_then_report device own_key answered created taken row [] [] env report row_created refl
      claim_returns is_first (λ revisions input. refl)
