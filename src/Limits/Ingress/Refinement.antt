-- ===== src/Limits/Ingress/Refinement.antt =====
-- The limiter of addresses is, for each address, the limiter of a single caller: other addresses and
-- the cleanup make no difference.
use workbuddy_buddy.Prelude.{
  ℕ, ◌+◌, ◌≤◌, ◌≡◌, refl, sym, ap, ◌∙◌, inl, inr, false, Option, none, some, All, All-keep, All-map,
  Bool-cases, arith, leb, keep,
}
use workbuddy_buddy.Edge.Types.{Text, text_eq, text_eq_iff}
use workbuddy_buddy.Limits.Table.{
  Entry, get, IsDistinct, keep-IsDistinct, set-IsDistinct, get-keep-cases, get-set_same, get-All,
  set-All, get-set_other,
}
use workbuddy_buddy.Limits.Window.{Window}
use workbuddy_buddy.Limits.Window.Single.{in_force, admit}
use workbuddy_buddy.Limits.Ingress.{
  Bucket, EdgeIngressRateLimiter, window_ms, max_attempts_per_ip_window, is_recent, count_call,
  current_bucket, take_from, take,
}

abbrev window_of : Bucket → Window
window_of b = record { started_at = b.window_started_at; used = b.attempts }

abbrev view_of : Option Bucket → Option Window
view_of none = none
view_of (some b) = some (window_of b)

-- From `since` on the limiter treats the address as the window `o` says.
abbrev pub Shows : Text → ℕ → EdgeIngressRateLimiter → Option Window → Type 0
Shows ip since s o =
    (now : ℕ)
    → since ≤ now
    → in_force window_ms (view_of (get ip s.buckets)) now ≡ in_force window_ms o now

abbrev IsTimed : ℕ → Entry Bucket → Type 0
IsTimed since e = (e.value.window_started_at ≤ e.value.touched_at) × (e.value.touched_at ≤ since)

-- Buckets of different addresses, none from the future.
abbrev pub IsSound : ℕ → EdgeIngressRateLimiter → Type 0
IsSound since s = IsDistinct s.buckets × All (IsTimed since) s.buckets

current_bucket-in_force :
    (o : Option Bucket) (now : ℕ)
    → window_of (current_bucket o now) ≡ in_force window_ms (view_of o) now
unfolding current_bucket in_force
current_bucket-in_force none now = refl
current_bucket-in_force (some b) now = ground arith

take_from-admit :
    (b : Bucket) (o : Option Window) (now : ℕ)
    → in_force window_ms o now ≡ window_of b
    → admit window_ms max_attempts_per_ip_window o now
      ≡ ((take_from b now).0.allowed, window_of (take_from b now).1)
unfolding take_from admit
take_from-admit b o now e = rw e (ground arith)

-- A bucket that the cleanup drops has no window any more.
dropped-over :
    (since now : ℕ) (e : Entry Bucket)
    → IsTimed since e
    → is_recent now e ≡ false
    → (later : ℕ) → now ≤ later
    → in_force window_ms none later ≡ in_force window_ms (some (window_of e.value)) later
unfolding in_force
dropped-over since now e t d later l = ground arith

IsTimed-later : (since now : ℕ) (e : Entry Bucket) → since ≤ now → IsTimed since e → IsTimed now e
IsTimed-later since now e l t = (t.0, omega (arith, t.1))

count_call-IsSound :
    (since now : ℕ) (s : EdgeIngressRateLimiter)
    → since ≤ now
    → IsSound since s
    → IsSound now (count_call now s)
unfolding count_call
count_call-IsSound since now s l (distinct, timed) =
    let aged =
      All-map (IsTimed since) (IsTimed now) (λ e t. IsTimed-later since now e l t) s.buckets
        timed in
    elim (Bool-cases (leb 512 (s.calls_since_cleanup + 1))) [
      | inl e ↦ rw e (
        keep-IsDistinct (is_recent now) s.buckets distinct,
        All-keep (IsTimed now) (is_recent now) s.buckets aged,
      )
      | inr e ↦ rw e (distinct, aged)
    ]

cleanup-Shows :
    (since now : ℕ) (ip : Text) (s : EdgeIngressRateLimiter) (o : Option Window)
    → since ≤ now
    → IsSound since s
    → Shows ip since s o
    → Shows ip now (record { buckets = keep (is_recent now) s.buckets; calls_since_cleanup = 0 }) o
cleanup-Shows since now ip s o l (distinct, timed) shows later after =
    elim (get-keep-cases (IsTimed since) ip (is_recent now) s.buckets distinct timed) [
      | inl same ↦ rw same (shows later (omega (arith, l)))
      | inr (gone, (e, found, dropped, t)) ↦ rw gone (
          dropped-over since now e t dropped later after
          ∙ ap (λ g. in_force window_ms (view_of g) later) (sym found)
          ∙ shows later (omega (arith, l)))
    ]

count_call-Shows :
    (since now : ℕ) (ip : Text) (s : EdgeIngressRateLimiter) (o : Option Window)
    → since ≤ now
    → IsSound since s
    → Shows ip since s o
    → Shows ip now (count_call now s) o
unfolding count_call
count_call-Shows since now ip s o l sound shows =
    elim (Bool-cases (leb 512 (s.calls_since_cleanup + 1))) [
      | inl e ↦ rw e (cleanup-Shows since now ip s o l sound shows)
      | inr e ↦ rw e (λ later after. shows later (omega (arith, l)))
    ]

-- The bucket that is put back is not from the future either.
taken-IsTimed :
    (now : ℕ) (o : Option Bucket) (ip : Text)
    → ((b : Bucket) → o ≡ some b → (b.window_started_at ≤ b.touched_at) × (b.touched_at ≤ now))
    → IsTimed now (record { key = ip; value = (take_from (current_bucket o now) now).1 })
unfolding take_from current_bucket
taken-IsTimed now none ip h = ground arith
taken-IsTimed now (some b) ip h = let timed = h b refl in ground (arith, timed)

module _ (since now : ℕ) (ip : Text) (s : EdgeIngressRateLimiter) (later : since ≤ now)
    (sound : IsSound since s) where
  counted : EdgeIngressRateLimiter
  counted = count_call now s

  pub take-IsSound : IsSound now (take ip now s).1
  unfolding take counted
  take-IsSound =
      let (distinct, timed) = count_call-IsSound since now s later sound in
      (
        set-IsDistinct ip _ counted.buckets distinct,
        set-All (IsTimed now) ip _ counted.buckets
            (taken-IsTimed now (get ip counted.buckets) ip λ b found.
              let (e, same, t) = get-All (IsTimed now) ip counted.buckets b timed found in
              of_entry e b same t)
            timed,
      )
    where
      of_entry :
          (e : Entry Bucket) (b : Bucket)
          → e.value ≡ b
          → IsTimed now e
          → (b.window_started_at ≤ b.touched_at) × (b.touched_at ≤ now)
      of_entry e b same t = rw (sym same) t

  -- To its own address the limiter answers as the window says.
  pub take-own :
      (o : Option Window)
      → Shows ip since s o
      → ((take ip now s).0.allowed ≡ (admit window_ms max_attempts_per_ip_window o now).0)
        × Shows ip now (take ip now s).1 (some (admit window_ms max_attempts_per_ip_window o now).1)
  unfolding take counted
  take-own o shows =
      let b = current_bucket (get ip counted.buckets) now in
      let same : in_force window_ms o now ≡ window_of b =
        sym (count_call-Shows since now ip s o later sound shows now (omega arith))
        ∙ sym (current_bucket-in_force (get ip counted.buckets) now) in
      let answer = take_from-admit b o now same in
      rw answer
        (refl, rw (get-set_same ip (take_from b now).1 counted.buckets) (λ later after. refl))

  -- To others it makes no difference.
  pub take-other :
      (other : Text) (o : Option Window)
      → text_eq ip other ≡ false
      → Shows other since s o
      → Shows other now (take ip now s).1 o
  unfolding take counted
  take-other other o differs shows =
      rw
        (get-set_other other ip (take_from (current_bucket (get ip counted.buckets) now) now).1
          counted.buckets (λ e. absurd_same e))
        (count_call-Shows since now other s o later sound shows)
    where
      absurd_same : ip ≡ other → ⊥
      absurd_same e = ground (arith, text_eq_iff ip other, differs)
