-- ===== src/Limits/Onboarding/Bounds.antt =====
-- The bounds of the limits on onboarding.
use workbuddy_buddy.Prelude.{
  ℕ, ◌+◌, ◌*◌, ◌≤◌, ◌≡◌, ◌⊎◌, refl, sym, inl, inr, Option, none, some, List, Bool-cases, arith,
}
use workbuddy_buddy.Edge.Types.{Bytes, text_eq_iff}
use workbuddy_buddy.Enrollment.Problem.{is_returned}
use workbuddy_buddy.Limits.Table.{Table, get, get-set_same, get-set_other}
use workbuddy_buddy.Limits.Window.Single.{in_force, add_to, add_to-Turn}
use workbuddy_buddy.Limits.Window.Trace.{units_if, passed_between}
use workbuddy_buddy.Limits.Counter.{
  Counter, IsCounter, view_of, IsTimely, own_passed, own_passed-fits,
}
use workbuddy_buddy.Limits.Onboarding.{
  RateKind, create, claim, poll, limit_of, window, RateRow, increment, upserted, is_storable,
  count_of, compare_count, IpRequest, consume_onboarding_rate_limit,
}

-- The limiter, seen through the count of one kind.
abbrev pub kind_counter : RateKind → Counter RateRow IpRequest
kind_counter kind = record {
  width = window;
  limit = limit_of kind;
  caller = λ r. r.ip_hash;
  now = λ r. r.now;
  weight = λ r. increment kind r.kind;
  consume = λ r rows. (
    is_returned (consume_onboarding_rate_limit r rows).0,
    (consume_onboarding_rate_limit r rows).1,
  );
  view = λ row. record { started_at = row.window_started_at; used = count_of kind row };
}

upserted-count :
    (kind : RateKind) (now : ℕ) (request : RateKind) (o : Option RateRow)
    → (kind_counter kind).view (upserted now request o)
      ≡ add_to window now (increment kind request) (view_of (kind_counter kind) o)
unfolding upserted add_to in_force
upserted-count create now request none = ground arith
upserted-count create now request (some rate) = ground arith
upserted-count claim now request none = ground arith
upserted-count claim now request (some rate) = ground arith
upserted-count poll now request none = ground arith
upserted-count poll now request (some rate) = ground arith

-- What passes is within the limit of its kind.
compare-fits :
    (kind request : RateKind) (row : RateRow) (later : ℕ)
    → (units_if (is_returned (compare_count request row later)) (increment kind request) ≡ 0)
      ⊎ (count_of kind row ≤ limit_of kind)
unfolding compare_count
compare-fits create create row later = ground arith
compare-fits create claim row later = ground arith
compare-fits create poll row later = ground arith
compare-fits claim create row later = ground arith
compare-fits claim claim row later = ground arith
compare-fits claim poll row later = ground arith
compare-fits poll create row later = ground arith
compare-fits poll claim row later = ground arith
compare-fits poll poll row later = ground arith

kind_counter-IsCounter : (kind : RateKind) → IsCounter (kind_counter kind)
unfolding consume_onboarding_rate_limit
kind_counter-IsCounter kind = record {
  own = λ r rows.
      let o = get r.ip_hash rows in
      let row = upserted r.now r.kind o in
      elim (Bool-cases (is_storable row)) [
        | inr e ↦ rw e (inr (refl, refl))
        | inl e ↦ rw e (
            inl (
              (kind_counter kind).view row,
              rw (upserted-count kind r.now r.kind o) (
                  add_to-Turn window (limit_of kind) r.now (increment kind r.kind) _
                    (view_of (kind_counter kind) o)
                    (elim (compare-fits kind r.kind row r.later) [
                      | inl none_passes ↦ inl none_passes
                      | inr few ↦ inr (rw (sym (upserted-count kind r.now r.kind o)) few)
                    ])),
              rw (get-set_same r.ip_hash row rows) refl,
            ))
      ];
  other = λ r rows key differs.
      let row = upserted r.now r.kind (get r.ip_hash rows) in
      elim (Bool-cases (is_storable row)) [
        | inl e ↦ rw e (
            get-set_other key r.ip_hash row rows
              (λ same. ground (arith, text_eq_iff r.ip_hash key, differs, same)))
        | inr e ↦ rw e refl
      ];
}

-- Between a time and five minutes later, while the clock does not go back, an address creates at most
-- twice the six offices of a window, and likewise for its claims and its polls, whatever the rows
-- were before and whatever other addresses and requests of other kinds do.
pub consume_onboarding-fits :
    (kind : RateKind) (ip_hash : Bytes) (from until : ℕ) (requests : List IpRequest)
    (rows : Table RateRow)
    → until ≤ from + window
    → IsTimely (kind_counter kind) 0 requests
    → passed_between from until (own_passed (kind_counter kind) ip_hash requests rows)
      ≤ 2 * limit_of kind
consume_onboarding-fits kind ip_hash from until requests rows =
    own_passed-fits (kind_counter kind) (kind_counter-IsCounter kind) ip_hash from until requests
      rows
