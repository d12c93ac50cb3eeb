-- ===== src/Limits/Ingress/History.antt =====
-- A history of calls at the limiter of addresses: what an address passes depends on its own calls only.
use workbuddy_buddy.Prelude.{
  ℕ, ◌+◌, ◌≤◌, ◌≡◌, refl, sym, ap, inl, inr, Bool, Option, none, some, List, [], ◌∷◌, if◌then◌else◌,
  Bool-cases,
}
use workbuddy_buddy.Edge.Types.{Text, text_eq, text_eq_iff}
use workbuddy_buddy.Limits.Table.{get}
use workbuddy_buddy.Limits.Window.{Window}
use workbuddy_buddy.Limits.Window.Single.{admit, admit_all, passed, passed-none, admit_all-Trace}
use workbuddy_buddy.Limits.Window.Trace.{passed_between, IsOrdered, IsOrdered-earlier, Trace-fits}
use workbuddy_buddy.Limits.Ingress.{
  EdgeIngressRateLimiter, window_ms, max_attempts_per_ip_window, create_edge_ingress_rate_limiter,
  take, Call, take_all,
}
use workbuddy_buddy.Limits.Ingress.Refinement.{Shows, IsSound, take-IsSound, take-own, take-other}

-- The times and the answers of an address's own calls.
unfoldable pub own_times : Text → List Call → List ℕ
own_times ip [] = []
own_times ip (c ∷ cs) = let rest = own_times ip cs in if text_eq c.ip ip then c.now ∷ rest else rest

unfoldable pub own_answers : Text → List Call → List Bool → List Bool
own_answers ip [] answers = []
own_answers ip (c ∷ cs) [] = []
own_answers ip (c ∷ cs) (answer ∷ answers) =
    let rest = own_answers ip cs answers in if text_eq c.ip ip then answer ∷ rest else rest

-- The clock does not go back.
abbrev pub IsTimely : ℕ → List Call → Type 0
IsTimely since [] = Unit
IsTimely since (c ∷ cs) = (since ≤ c.now) × IsTimely c.now cs

take_all-own :
    (since : ℕ) (ip : Text) (calls : List Call) (s : EdgeIngressRateLimiter) (o : Option Window)
    → IsTimely since calls
    → IsSound since s
    → Shows ip since s o
    → own_answers ip calls (take_all calls s).0
      ≡ admit_all window_ms max_attempts_per_ip_window (own_times ip calls) o
unfolding own_answers own_times take_all admit_all
take_all-own since ip [] s o i sound shows = refl
take_all-own since ip (c ∷ cs) s o (l, i) sound shows =
    let after = (take c.ip c.now s).1 in
    let sound' = take-IsSound since c.now c.ip s l sound in
    elim (Bool-cases (text_eq c.ip ip)) [
      | inl own ↦
          let same : c.ip ≡ ip = (text_eq_iff c.ip ip).0 own in
          let (answer, shows') = take-own since c.now c.ip s l sound o (rw same shows) in
          rw (own, answer)
            (ap (λ rest. (admit window_ms max_attempts_per_ip_window o c.now).0 ∷ rest)
              (take_all-own c.now ip cs after
                (some (admit window_ms max_attempts_per_ip_window o c.now).1) i sound'
                (rw (sym same) shows')))
      | inr other ↦ rw other (
          take_all-own c.now ip cs after o i sound'
            (take-other since c.now c.ip s l sound ip o other shows))
    ]

-- Times do not go back for a single address either.
own-IsOrdered :
    (since : ℕ) (ip : Text) (calls : List Call) (answers : List Bool)
    → IsTimely since calls
    → IsOrdered since (passed (own_times ip calls) (own_answers ip calls answers))
unfolding own_times own_answers passed
own-IsOrdered since ip [] answers i = tt
own-IsOrdered since ip (c ∷ cs) [] i = rw (passed-none (own_times ip (c ∷ cs))) tt
own-IsOrdered since ip (c ∷ cs) (answer ∷ answers) (l, i) =
    let rest = own-IsOrdered c.now ip cs answers i in
    elim (Bool-cases (text_eq c.ip ip)) [
      | inl own ↦ rw own (l, rest)
      | inr other ↦ rw other (IsOrdered-earlier since c.now _ l rest)
    ]

-- From a new limiter, while the clock does not go back, the answers to the calls of an address are
-- those of a limiter that sees only that address's calls and never cleans up.
pub take_all-refines :
    (ip : Text) (calls : List Call)
    → IsTimely 0 calls
    → own_answers ip calls (take_all calls create_edge_ingress_rate_limiter).0
      ≡ admit_all window_ms max_attempts_per_ip_window (own_times ip calls) none
unfolding get
take_all-refines ip calls i =
    take_all-own 0 ip calls create_edge_ingress_rate_limiter none i (tt, tt) (λ now l. refl)

-- Whatever other addresses do, no address passes more than 1800 calls between a time and one minute
-- later, while the clock does not go back.
pub take_all-fits :
    (ip : Text) (calls : List Call) (from until : ℕ)
    → until ≤ from + window_ms
    → IsTimely 0 calls
    → passed_between from until (
        passed
          (own_times ip calls)
          (own_answers ip calls (take_all calls create_edge_ingress_rate_limiter).0))
      ≤ 1_800
take_all-fits ip calls from until span i =
    let ordered = own-IsOrdered 0 ip calls (take_all calls create_edge_ingress_rate_limiter).0 i in
    Trace-fits window_ms max_attempts_per_ip_window from until {o = none} 0 span
      (rw (take_all-refines ip calls i)
        (admit_all-Trace window_ms max_attempts_per_ip_window (own_times ip calls) none))
      ordered
