-- ===== src/Limits/Samples.antt =====
-- The limiters at small histories.
use workbuddy_buddy.Prelude.{◌≡◌, ◌≤◌, ◌*◌, refl, true, none, List, [], ◌∷◌, arith}
use workbuddy_buddy.Edge.Types.{Text, text_eq}
use workbuddy_buddy.Limits.Table.{get, set, delete}
use workbuddy_buddy.Limits.Window.Single.{admit_all, passed}
use workbuddy_buddy.Limits.Window.Trace.{passed_between}
use workbuddy_buddy.Limits.Counter.{own_passed}
use workbuddy_buddy.Limits.Ingress.{
  window_ms, max_attempts_per_ip_window, create_edge_ingress_rate_limiter, count_call,
  current_bucket, take_from, take, Call, take_all,
}
use workbuddy_buddy.Limits.Ingress.History.{own_times, own_answers, take_all-refines, take_all-fits}
use workbuddy_buddy.Limits.Report.{
  ReportRequest, consume, upserted, is_storable, is_exceeded, compare_counts,
}
use workbuddy_buddy.Limits.Report.Bounds.{report_counter, event_counter, consume-fits}
use workbuddy_buddy.Limits.Onboarding.{create, IpRequest}
use workbuddy_buddy.Limits.Onboarding.Bounds.{kind_counter, consume_onboarding-fits}

abbrev home : Text
home = b'1' ∷ []

-- Calls of two addresses, and one of the first in the next minute.
abbrev calls : List Call
calls =
    record { ip = home; now = 10 }
    ∷ record { ip = b'2' ∷ []; now = 20 }
    ∷ record { ip = home; now = 70_000 }
    ∷ []

calls_pass :
    own_answers home calls (take_all calls create_edge_ingress_rate_limiter).0 ≡ true ∷ true ∷ []
unfolding own_answers take_all take take_from current_bucket count_call get set delete text_eq
calls_pass = refl

take_all-refines_example :
    own_answers home calls (take_all calls create_edge_ingress_rate_limiter).0
    ≡ admit_all window_ms max_attempts_per_ip_window (own_times home calls) none
take_all-refines_example = take_all-refines home calls (omega arith)

take_all-fits_example :
    passed_between 0 60_000 (
      passed
        (own_times home calls)
        (own_answers home calls (take_all calls create_edge_ingress_rate_limiter).0))
    ≤ 1_800
take_all-fits_example = take_all-fits home calls 0 60_000 (omega arith) (omega arith)

abbrev requests : List ReportRequest
requests =
    record { instance_id = home; event_count = 2_000; now = 10; later = 10 }
    ∷ record { instance_id = home; event_count = 60; now = 20; later = 20 }
    ∷ []

consume-fits_example :
    (passed_between 0 300_000 (own_passed report_counter home requests []) ≤ 720)
    × (passed_between 0 300_000 (own_passed event_counter home requests []) ≤ 4_096)
consume-fits_example = consume-fits home 0 300_000 requests [] (omega arith) (omega arith)

-- The second report exceeds the number of events.
second_refused : passed_between 0 300_000 (own_passed event_counter home requests []) ≡ 2_000
unfolding passed_between own_passed consume upserted is_storable is_exceeded compare_counts get set
    delete text_eq
second_refused = refl

abbrev creations : List IpRequest
creations =
    record { ip_hash = home; kind = create; now = 10; later = 10 }
    ∷ record { ip_hash = home; kind = create; now = 20; later = 20 }
    ∷ []

consume_onboarding-fits_example :
    passed_between 0 300_000 (own_passed (kind_counter create) home creations []) ≤ 2 * 6
consume_onboarding-fits_example =
    consume_onboarding-fits create home 0 300_000 creations [] (omega arith) (omega arith)
