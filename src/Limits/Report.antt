-- ===== src/Limits/Report.antt =====
-- apps/control-plane/src/modules/presence/application/edge-report-rate-limit.ts: the limit on the
-- reports and events of one instance, in rows of the database. The statement commits before the
-- counts are compared. `now` and `later` are its two readings of the clock, the later one for the
-- answer; a row whose count exceeds what its column allows is not written.
pub mod Bounds
use workbuddy_buddy.Prelude.{
  ℕ, ◌+◌, ◌-◌, ◌/◌, max, Bool, ◌&&◌, ◌||◌, Option, none, some, leb, ltb, if◌then◌else◌,
}
use workbuddy_buddy.Edge.Problem.{
  Result, ok, throws, fault, protocol, ProtocolProblem, rate_limited,
}
use workbuddy_buddy.Edge.Types.{Text}
use workbuddy_buddy.Limits.Table.{Table, get, set}

-- WINDOW_SECONDS, in milliseconds.
abbrev pub window : ℕ
window = 300_000

abbrev pub max_reports_per_window : ℕ
max_reports_per_window = 360

abbrev pub max_events_per_window : ℕ
max_events_per_window = 2_048

pub record RateRow : Type 0 where
  pub window_started_at : ℕ
  pub report_count : ℕ
  pub event_count : ℕ
  pub updated_at : ℕ

-- The row that the INSERT … ON CONFLICT writes.
unfoldable pub upserted : ℕ → ℕ → Option RateRow → RateRow
upserted now event_count none = record {
  window_started_at = now;
  report_count = 1;
  event_count = event_count;
  updated_at = now;
}
upserted now event_count (some rate) =
    if leb (rate.window_started_at + window) now
    then record {
      window_started_at = now;
      report_count = 1;
      event_count = event_count;
      updated_at = now;
    }
    else record {
      window_started_at = rate.window_started_at;
      report_count = rate.report_count + 1;
      event_count = rate.event_count + event_count;
      updated_at = now;
    }

-- The CHECK constraints of the two columns.
unfoldable pub is_storable : RateRow → Bool
is_storable row = leb row.report_count 1_000_000 && leb row.event_count 1_000_000

-- `retry_after_seconds` of the statement, rounded up.
unfoldable pub seconds_left : RateRow → ℕ → ℕ
seconds_left row later = (row.window_started_at + window - later + 999) / 1_000

unfoldable pub is_exceeded : RateRow → Bool
is_exceeded row =
    ltb max_reports_per_window row.report_count || ltb max_events_per_window row.event_count

limited_problem : RateRow → ℕ → ProtocolProblem
limited_problem row later = record {
  code = rate_limited;
  status = 429;
  detail = "The device report rate is temporarily limited.";
  expected_sequence = none;
  retry_after_seconds = some (max 1 (seconds_left row later));
}

pub record ReportRequest : Type 0 where
  pub instance_id : Text
  pub event_count : ℕ
  pub now : ℕ
  pub later : ℕ

-- The comparison of the counts.
unfoldable pub compare_counts : RateRow → ℕ → Result (Unit {0})
unfolding limited_problem
compare_counts row later =
    if is_exceeded row then throws (protocol (limited_problem row later)) else ok tt

-- EdgeReportRateLimiter.consume
unfoldable pub consume : ReportRequest → Table RateRow → Result (Unit {0}) × Table RateRow
consume r rows =
    let row = upserted r.now r.event_count (get r.instance_id rows) in
    if is_storable row
    then (compare_counts row r.later, set r.instance_id row rows)
    else (throws fault, rows)
