-- ===== src/Limits/Onboarding.antt =====
-- apps/control-plane/src/modules/onboarding/application/ip-rate-limit.ts: the limits of one address on
-- the creation of offices, on claims and on polls, in rows of the database. The statement commits
-- before the count is compared. `now` and `later` are its two readings of the clock; a row whose
-- count exceeds what its column allows is not written.
pub mod Bounds
use workbuddy_buddy.Prelude.{
  ℕ, ◌+◌, ◌-◌, ◌/◌, max, Bool, true, false, ◌&&◌, Option, none, some, leb, ltb, if◌then◌else◌,
}
use workbuddy_buddy.Edge.Types.{Text, Bytes}
use workbuddy_buddy.Enrollment.Problem.{
  OnboardingProblem, rate_limited, Outcome, returns, refuses, fails,
}
use workbuddy_buddy.Limits.Table.{Table, get, set}

pub data RateKind : Type 0 where
  create claim poll : RateKind

-- `LIMITS`
abbrev pub limit_of : RateKind → ℕ
limit_of create = 6
limit_of claim = 30
limit_of poll = 1_200

-- Five minutes.
abbrev pub window : ℕ
window = 300_000

pub record RateRow : Type 0 where
  pub window_started_at : ℕ
  pub office_create_count : ℕ
  pub claim_count : ℕ
  pub poll_count : ℕ
  pub updated_at : ℕ

-- `increments[of]` for a request of the given kind.
abbrev pub increment : RateKind → RateKind → ℕ
increment create create = 1
increment claim claim = 1
increment poll poll = 1
increment of kind = 0

-- The row that the INSERT … ON CONFLICT writes.
unfoldable pub upserted : ℕ → RateKind → Option RateRow → RateRow
upserted now kind none = record {
  window_started_at = now;
  office_create_count = increment create kind;
  claim_count = increment claim kind;
  poll_count = increment poll kind;
  updated_at = now;
}
upserted now kind (some rate) =
    if leb (rate.window_started_at + window) now
    then record {
      window_started_at = now;
      office_create_count = increment create kind;
      claim_count = increment claim kind;
      poll_count = increment poll kind;
      updated_at = now;
    }
    else record {
      window_started_at = rate.window_started_at;
      office_create_count = rate.office_create_count + increment create kind;
      claim_count = rate.claim_count + increment claim kind;
      poll_count = rate.poll_count + increment poll kind;
      updated_at = now;
    }

-- The CHECK constraints of the three columns.
unfoldable pub is_storable : RateRow → Bool
is_storable row =
    leb row.office_create_count 1_000_000
    && leb row.claim_count 1_000_000
    && leb row.poll_count 1_000_000

-- `count`
abbrev pub count_of : RateKind → RateRow → ℕ
count_of create row = row.office_create_count
count_of claim row = row.claim_count
count_of poll row = row.poll_count

-- `retry_after_seconds` of the statement, rounded up.
unfoldable pub seconds_left : RateRow → ℕ → ℕ
seconds_left row later = (row.window_started_at + window - later + 999) / 1_000

limited_problem : RateRow → ℕ → OnboardingProblem
limited_problem row later = record {
  code = rate_limited;
  status = 429;
  detail = "Too many onboarding requests.";
  retry_after_seconds = some (max 1 (seconds_left row later));
}

pub record IpRequest : Type 0 where
  pub ip_hash : Bytes
  pub kind : RateKind
  pub now : ℕ
  pub later : ℕ

-- The comparison with `LIMITS[kind]`.
unfoldable pub compare_count : RateKind → RateRow → ℕ → Outcome (Unit {0})
unfolding limited_problem
compare_count kind row later =
    if ltb (limit_of kind) (count_of kind row)
    then refuses (limited_problem row later)
    else returns tt

-- consumeOnboardingRateLimit
unfoldable pub consume_onboarding_rate_limit :
    IpRequest → Table RateRow → Outcome (Unit {0}) × Table RateRow
consume_onboarding_rate_limit r rows =
    let row = upserted r.now r.kind (get r.ip_hash rows) in
    if is_storable row
    then (compare_count r.kind row r.later, set r.ip_hash row rows)
    else (fails, rows)
