-- ===== src/Limits/Report/Bounds.antt =====
-- The bounds of the limit on reports, for reports and for events.
use workbuddy_buddy.Prelude.{
  ℕ, ◌+◌, ◌≤◌, ◌≡◌, ◌⊎◌, refl, sym, inl, inr, Bool, true, false, Option, none, some, List, [], ◌∷◌,
  Bool-cases, arith,
}
use workbuddy_buddy.Edge.Problem.{Result, ok, throws}
use workbuddy_buddy.Edge.Types.{Text, text_eq, text_eq_iff}
use workbuddy_buddy.Limits.Table.{Table, get, get-set_same, get-set_other}
use workbuddy_buddy.Limits.Window.Single.{in_force, add_to, add_to-Turn}
use workbuddy_buddy.Limits.Window.Trace.{passed_between}
use workbuddy_buddy.Limits.Counter.{
  Counter, IsCounter, view_of, IsTimely, own_passed, own_passed-fits,
}
use workbuddy_buddy.Limits.Report.{
  window, max_reports_per_window, max_events_per_window, RateRow, upserted, is_storable,
  is_exceeded, compare_counts, ReportRequest, consume,
}

abbrev pub is_ok {ℓ} : {A : Type ℓ} → Result A → Bool
is_ok (ok a) = true
is_ok (throws e) = false

abbrev answer : ReportRequest → Table RateRow → Bool × Table RateRow
answer r rows = (is_ok (consume r rows).0, (consume r rows).1)

-- The limiter, seen through the number of reports.
abbrev pub report_counter : Counter RateRow ReportRequest
report_counter = record {
  width = window;
  limit = max_reports_per_window;
  caller = λ r. r.instance_id;
  now = λ r. r.now;
  weight = λ r. 1;
  consume = answer;
  view = λ row. record { started_at = row.window_started_at; used = row.report_count };
}

-- The limiter, seen through the number of events.
abbrev pub event_counter : Counter RateRow ReportRequest
event_counter = record {
  width = window;
  limit = max_events_per_window;
  caller = λ r. r.instance_id;
  now = λ r. r.now;
  weight = λ r. r.event_count;
  consume = answer;
  view = λ row. record { started_at = row.window_started_at; used = row.event_count };
}

-- Both counts are within their limits when the comparison passes.
compare-fits :
    (row : RateRow) (later : ℕ)
    → (is_ok (compare_counts row later) ≡ false)
      ⊎ ((row.report_count ≤ max_reports_per_window) × (row.event_count ≤ max_events_per_window))
unfolding compare_counts is_exceeded
compare-fits row later = ground arith

consume-other :
    (r : ReportRequest) (rows : Table RateRow) (key : Text)
    → text_eq r.instance_id key ≡ false
    → get key (consume r rows).1 ≡ get key rows
unfolding consume
consume-other r rows key differs =
    let row = upserted r.now r.event_count (get r.instance_id rows) in
    elim (Bool-cases (is_storable row)) [
      | inl e ↦ rw e (
          get-set_other key r.instance_id row rows
            (λ same. ground (arith, text_eq_iff r.instance_id key, differs, same)))
      | inr e ↦ rw e refl
    ]

upserted-reports :
    (now event_count : ℕ) (o : Option RateRow)
    → report_counter.view (upserted now event_count o)
      ≡ add_to window now 1 (view_of report_counter o)
unfolding upserted add_to in_force
upserted-reports now event_count none = ground arith
upserted-reports now event_count (some rate) = ground arith

upserted-events :
    (now event_count : ℕ) (o : Option RateRow)
    → event_counter.view (upserted now event_count o)
      ≡ add_to window now event_count (view_of event_counter o)
unfolding upserted add_to in_force
upserted-events now event_count none = ground arith
upserted-events now event_count (some rate) = ground arith

report_counter-IsCounter : IsCounter report_counter
unfolding consume
report_counter-IsCounter = record {
  own = λ r rows.
      let o = get r.instance_id rows in
      let row = upserted r.now r.event_count o in
      elim (Bool-cases (is_storable row)) [
        | inr e ↦ rw e (inr (refl, refl))
        | inl e ↦ rw e (
            inl (
              report_counter.view row,
              rw (upserted-reports r.now r.event_count o) (
                  add_to-Turn window max_reports_per_window r.now 1 _ (view_of report_counter o)
                    (elim (compare-fits row r.later) [
                      | inl no_answer ↦ inl (rw no_answer refl)
                      | inr (few, _) ↦ inr (rw (sym (upserted-reports r.now r.event_count o)) few)
                    ])),
              rw (get-set_same r.instance_id row rows) refl,
            ))
      ];
  other = consume-other;
}

event_counter-IsCounter : IsCounter event_counter
unfolding consume
event_counter-IsCounter = record {
  own = λ r rows.
      let o = get r.instance_id rows in
      let row = upserted r.now r.event_count o in
      elim (Bool-cases (is_storable row)) [
        | inr e ↦ rw e (inr (refl, refl))
        | inl e ↦ rw e (
            inl (
              event_counter.view row,
              rw (upserted-events r.now r.event_count o) (
                  add_to-Turn window max_events_per_window r.now r.event_count _
                    (view_of event_counter o)
                    (elim (compare-fits row r.later) [
                      | inl no_answer ↦ inl (rw no_answer refl)
                      | inr (_, few) ↦ inr (rw (sym (upserted-events r.now r.event_count o)) few)
                    ])),
              rw (get-set_same r.instance_id row rows) refl,
            ))
      ];
  other = consume-other;
}

-- Between a time and five minutes later, while the clock does not go back, the limiter admits at most
-- 720 reports and 4096 events of an instance, whatever the rows were before and whatever other
-- instances send.
pub consume-fits :
    (instance_id : Text) (from until : ℕ) (requests : List ReportRequest) (rows : Table RateRow)
    → until ≤ from + window
    → IsTimely report_counter 0 requests
    → (passed_between from until (own_passed report_counter instance_id requests rows) ≤ 720)
      × (passed_between from until (own_passed event_counter instance_id requests rows) ≤ 4_096)
consume-fits instance_id from until requests rows span i = (
  own_passed-fits report_counter report_counter-IsCounter instance_id from until requests rows span
      i,
  own_passed-fits event_counter event_counter-IsCounter instance_id from until requests rows span
      (events_timely 0 requests i),
)
  where
    events_timely :
        (since : ℕ) (requests : List ReportRequest)
        → IsTimely report_counter since requests
        → IsTimely event_counter since requests
    events_timely since [] i = i
    events_timely since (r ∷ rs) i = (i.0, events_timely r.now rs i.1)
