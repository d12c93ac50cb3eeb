-- ===== src/Limits/Ingress.antt =====
-- apps/control-plane/src/modules/presence/application/edge-ingress-rate-limiter.ts: the limit on
-- requests of one address, in memory. `now` is `Date.now()`.
pub mod Refinement
pub mod History
use workbuddy_buddy.Prelude.{
  ℕ, ◌+◌, ◌-◌, ◌/◌, max, suc, Bool, true, false, not, Option, none, some, List, [], ◌∷◌, leb, ltb,
  if◌then◌else◌, keep,
}
use workbuddy_buddy.Edge.Types.{Text}
use workbuddy_buddy.Limits.Table.{Entry, Table, get, set}

pub record Bucket : Type 0 where
  pub window_started_at : ℕ
  pub attempts : ℕ
  pub touched_at : ℕ

pub record EdgeIngressRateLimitDecision : Type 0 where
  pub allowed : Bool
  pub retry_after_seconds : ℕ

-- The two variables of the closure.
pub record EdgeIngressRateLimiter : Type 0 where
  pub buckets : Table Bucket
  pub calls_since_cleanup : ℕ

abbrev pub window_ms : ℕ
window_ms = 60_000

abbrev pub max_attempts_per_ip_window : ℕ
max_attempts_per_ip_window = 900

-- createEdgeIngressRateLimiter
abbrev pub create_edge_ingress_rate_limiter : EdgeIngressRateLimiter
create_edge_ingress_rate_limiter = record { buckets = []; calls_since_cleanup = 0 }

-- Whether the cleanup leaves a bucket.
abbrev pub is_recent : ℕ → Entry Bucket → Bool
is_recent now e = not (ltb (window_ms + window_ms) (now - e.value.touched_at))

-- The counter and the cleanup.
unfoldable pub count_call : ℕ → EdgeIngressRateLimiter → EdgeIngressRateLimiter
count_call now s =
    if leb 512 (s.calls_since_cleanup + 1)
    then record { buckets = keep (is_recent now) s.buckets; calls_since_cleanup = 0 }
    else record { buckets = s.buckets; calls_since_cleanup = s.calls_since_cleanup + 1 }

-- `bucket`
unfoldable pub current_bucket : Option Bucket → ℕ → Bucket
current_bucket none now = record { window_started_at = now; attempts = 0; touched_at = now }
current_bucket (some prior) now =
    if leb window_ms (now - prior.window_started_at)
    then record { window_started_at = now; attempts = 0; touched_at = now }
    else prior

-- The seconds up to the end of the window, rounded up.
unfoldable pub retry_after : Bucket → ℕ → ℕ
retry_after bucket now = max 1 ((bucket.window_started_at + window_ms - now + 999) / 1_000)

abbrev is_exhausted : Bucket → Bool
is_exhausted bucket = leb max_attempts_per_ip_window bucket.attempts

-- What `take` answers, and the bucket that it puts back.
unfoldable pub take_from : Bucket → ℕ → EdgeIngressRateLimitDecision × Bucket
take_from bucket now =
    if is_exhausted bucket
    then (
      record { allowed = false; retry_after_seconds = retry_after bucket now },
      record bucket { touched_at = now },
    )
    else (
      record { allowed = true; retry_after_seconds = retry_after bucket now },
      record bucket { attempts = bucket.attempts + 1; touched_at = now },
    )

-- EdgeIngressRateLimiter.take
unfoldable pub take :
    Text → ℕ → EdgeIngressRateLimiter → EdgeIngressRateLimitDecision × EdgeIngressRateLimiter
take ip now s =
    let counted = count_call now s in
    let taken = take_from (current_bucket (get ip counted.buckets) now) now in
    (taken.0, record counted { buckets = set ip taken.1 counted.buckets })

pub record Call : Type 0 where
  pub ip : Text
  pub now : ℕ

-- The calls of a history, one after the other.
unfoldable pub take_all : List Call → EdgeIngressRateLimiter → List Bool × EdgeIngressRateLimiter
take_all [] s = ([], s)
take_all (c ∷ cs) s =
    let taken = take c.ip c.now s in
    let rest = take_all cs taken.1 in (taken.0.allowed ∷ rest.0, rest.1)
