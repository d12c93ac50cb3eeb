-- ===== src/Edge/Lease/Sweep.antt =====
-- The sweep keeps the rows of every instance consistent, and closes every lease that is due.
use mathlib.Core.Path.{subst}
use workbuddy_buddy.Prelude.{
  ℕ, ◌≤◌, ◌<◌, ◌≡◌, refl, sym, ap, ◌∙◌, ◌⊎◌, inl, inr, Bool, true, false, none, some, List, [], ◌∷◌,
  arith, if◌then◌else◌, Option-cases,
}
use workbuddy_buddy.Edge.Problem.{Result, ok, throws, ◌>>=◌, >>=-eq-ok}
use workbuddy_buddy.Edge.Types.{max_safe_sequence}
use workbuddy_buddy.Edge.Store.{
  HeadRow, BootRow, PresenceRow, IntervalRow, InstanceRow, Store, lease_expired,
}
use workbuddy_buddy.Edge.Activity.View.{open_view, presence_view, close-returns, presence_view-live}
use workbuddy_buddy.Edge.Invariant.{CurrentHolds, Consistent, IsConsistent}
use workbuddy_buddy.Edge.Ingest.Safety.{Consistent-later}
use workbuddy_buddy.Edge.Lease.{
  SweepEnv, parse_safe_sequence, is_due, append_offline_office_revisions, close_lease,
  expire_in_transaction, rolled_back, expire_one_lease,
}

abbrev pub closed_lease : PresenceRow → PresenceRow
closed_lease p = record p { lease_closed_at = some p.lease_expires_at }

parse-sequence : (n : ℕ) → 0 < n → n ≤ max_safe_sequence → parse_safe_sequence n false ≡ ok n
unfolding parse_safe_sequence
parse-sequence n p h = ground arith

closed-current :
    (now : ℕ) (h : HeadRow) (bs : List BootRow) (p : PresenceRow)
    → p.lease_expires_at ≤ now
    → CurrentHolds now h bs (some p)
    → CurrentHolds now h bs (some (closed_lease p))
closed-current now h [] p over c = c
closed-current now h (b ∷ bs) p over c = record {
  boot_id = c.boot_id;
  generation = c.generation;
  older = c.older;
  range = c.range;
  sound = record {
    eligible = c.sound.eligible;
    accepted = c.sound.accepted;
    state = c.sound.state;
  };
  presence_generation = c.presence_generation;
  presence_boot = c.presence_boot;
  positive = c.positive;
  next = c.next;
  lease = inr over;
}

closed-view : (p : PresenceRow) → presence_view (some (closed_lease p)) ≡ []
unfolding presence_view
closed-view p = refl

-- Closing a lease, on consistent rows: all but the projector's log is determined.
record Closed (env : SweepEnv) (row : InstanceRow) (p : PresenceRow) (s : Store) : Type 0 where
  rows : List IntervalRow
  shown : open_view rows ≡ []
  returned :
      close_lease env row p s
      ≡ append_offline_office_revisions env row p.lease_expires_at
          (record s { intervals = rows; presence = some (closed_lease p) })

open_facts :
    (now : ℕ) (h : HeadRow) (bs : List BootRow) (p : PresenceRow)
    → CurrentHolds now h bs (some p)
    → (0 < p.last_accepted_sequence) × (p.last_accepted_sequence ≤ max_safe_sequence)
open_facts now h [] p c = absurd c
open_facts now h (b ∷ bs) p c = (c.positive, c.sound.accepted)

close_lease-Closed :
    (env : SweepEnv) (row : InstanceRow) (p : PresenceRow) (now : ℕ) (h : HeadRow) (s : Store)
    → Consistent now h s
    → s.presence ≡ some p
    → p.lease_closed_at ≡ none
    → Closed env row p s
unfolding close_lease
close_lease-Closed env row p now h s c e live =
    let facts = open_facts now h s.boots p (subst (CurrentHolds now h s.boots) e c.current) in
    let shown = c.shown ∙ ap presence_view e ∙ presence_view-live p live in
    let (rows, closed, none_open) =
      close-returns p.lease_expires_at p.last_accepted_sequence lease_expired s.intervals shown in
    record {
      rows = rows;
      shown = none_open;
      returned = rw (parse-sequence p.last_accepted_sequence facts.0 facts.1, closed) refl;
    }

pub append-eq :
    (env : SweepEnv) (row : InstanceRow) (t : ℕ) (s u : Store)
    → append_offline_office_revisions env row t s ≡ ok u
    → u ≡ record s { revisions = u.revisions }
unfolding append_offline_office_revisions
append-eq env row t s u e = ground arith

closed-Consistent :
    (env : SweepEnv) (row : InstanceRow) (p : PresenceRow) (now : ℕ) (h : HeadRow) (s t : Store)
    → Consistent now h s
    → s.presence ≡ some p
    → p.lease_closed_at ≡ none
    → p.lease_expires_at ≤ now
    → close_lease env row p s ≡ ok t
    → Consistent now h t
closed-Consistent env row p now h s t c e live over closed =
    let k = close_lease-Closed env row p now h s c e live in
    rw (append-eq env row p.lease_expires_at _ t (sym k.returned ∙ closed)) (record {
      head = c.head;
      current =
          closed-current now h s.boots p over (subst (CurrentHolds now h s.boots) e c.current);
      shown = k.shown ∙ sym (closed-view p);
    })

pub rolled_back_rule {ℓ} :
    (P : Store → Type ℓ) (s : Store) (r : Result (Bool × Store))
    → P s
    → ((done : Bool) (t : Store) → r ≡ ok (done, t) → P t)
    → P (rolled_back s r).1
rolled_back_rule P s (ok (done, t)) p q = q done t refl
rolled_back_rule P s (throws e) p q = p

abbrev finish : Result Store → Result (Bool × Store)
finish m = m >>= λ s'. ok (true, s')

expire-of_rows :
    (env : SweepEnv) (s : Store) (row : InstanceRow) (p : PresenceRow)
    → s.instance_row ≡ some row
    → s.presence ≡ some p
    → expire_in_transaction env s
      ≡ (if is_due env.due_clock p then finish (close_lease env row p s) else ok (false, s))
unfolding expire_in_transaction
expire-of_rows env s row p e f = ground arith

expire-missing :
    (env : SweepEnv) (s : Store)
    → (s.instance_row ≡ none) ⊎ (s.presence ≡ none)
    → expire_in_transaction env s ≡ ok (false, s)
unfolding expire_in_transaction
expire-missing env s m = ground arith

is_due-facts :
    (clock : ℕ) (p : PresenceRow)
    → is_due clock p ≡ true
    → (p.lease_closed_at ≡ none) × (p.lease_expires_at ≤ clock)
unfolding is_due
is_due-facts clock p e = ground arith

-- A transaction that succeeds leaves the rows alone, or closes a lease that is due.
abbrev pub Expires : SweepEnv → Store → Bool → Store → Type 0
Expires env s done t =
    ((done ≡ false) × (t ≡ s))
    ⊎ ((row : InstanceRow) × (p : PresenceRow) × (s.presence ≡ some p)
        × (p.lease_closed_at ≡ none)
        × (p.lease_expires_at ≤ env.due_clock)
        × (close_lease env row p s ≡ ok t))

pub expire_cases :
    (env : SweepEnv) (s : Store) (done : Bool) (t : Store)
    → expire_in_transaction env s ≡ ok (done, t)
    → Expires env s done t
expire_cases env s done t e = elim (Option-cases s.instance_row) [
  | inl missing ↦ inl (unchanged (sym (expire-missing env s (inl missing)) ∙ e))
  | inr (row, found) ↦ elim (Option-cases s.presence) [
    | inl missing ↦ inl (unchanged (sym (expire-missing env s (inr missing)) ∙ e))
    | inr (p, present) ↦
        due_cases row p present (is_due env.due_clock p) refl
          (sym (expire-of_rows env s row p found present) ∙ e)
  ]
]
  where
    unchanged :
        ◌≡◌ {A = Result (Bool × Store)} (ok (false, s)) (ok (done, t)) → (done ≡ false) × (t ≡ s)
    unchanged f = ground (arith, f)

    due_cases :
        (row : InstanceRow) (p : PresenceRow)
        → s.presence ≡ some p
        → (b : Bool) → is_due env.due_clock p ≡ b
        → (if b then finish (close_lease env row p s) else ok (false, s)) ≡ ok (done, t)
        → Expires env s done t
    due_cases row p present false d f = inl (unchanged f)
    due_cases row p present true d f =
        let (u, closed, g) = >>=-eq-ok (close_lease env row p s) _ f in
        let facts = is_due-facts env.due_clock p d in
        inr (row, p, present, facts.0, facts.1, closed ∙ ground (arith, g))

module _ (env : SweepEnv) (now : ℕ) (s : Store) (later : now ≤ env.due_clock) where
  pub expire_one_lease-IsConsistent :
      IsConsistent now s → IsConsistent env.due_clock (expire_one_lease env s).1
  unfolding expire_one_lease
  expire_one_lease-IsConsistent (h, c) =
      rolled_back_rule (IsConsistent env.due_clock) s _ (h, c')
        λ done t e. elim (expire_cases env s done t e) [
          | inl (_, same) ↦ (h, subst (Consistent env.due_clock h) (sym same) c')
          | inr (row, p, present, live, over, closed) ↦
              (h, closed-Consistent env row p env.due_clock h s t c' present live over closed)
        ]
    where
      c' : Consistent env.due_clock h s
      c' = Consistent-later now env.due_clock h s later c
