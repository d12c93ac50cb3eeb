-- ===== src/Edge/Lease.antt =====
-- apps/control-plane/src/modules/presence/application/expire-leases.ts: the sweep that ends the
-- presence of an agent whose lease has run out. A store holds the rows of one instance, so the
-- sweep goes over a list of stores.
pub mod Sweep
pub mod History
use workbuddy_buddy.Prelude.{
  ℕ, ◌+◌, ◌-◌, Bool, true, false, not, ◌&&◌, ◌||◌, Option, none, some, List, [], ◌∷◌, map, leb,
  if◌then◌else◌,
}
use workbuddy_buddy.Edge.Problem.{Result, ok, throws, fault, Failure, ◌>>=◌}
use workbuddy_buddy.Edge.Types.{Text, max_safe_sequence}
use workbuddy_buddy.Edge.Store.{
  PresenceRow, InstanceRow, Store, RevisionInput, presence_removed, lease_expiry, lease_expired,
  is_none, affected_offices, append_office_revisions,
}
use workbuddy_buddy.Edge.Activity.{close_open_activity_interval}

-- parseSafeSequence of a column that holds a whole number.
unfoldable pub parse_safe_sequence : ℕ → Bool → Result ℕ
parse_safe_sequence value allow_zero =
    let least : ℕ = if allow_zero then 0 else 1 in
    if leb least value && leb value max_safe_sequence then ok value else throws fault

-- What the transaction of one instance takes from outside: the clock of leaseIsDue, the key that
-- names a lease in the projector's log, and the projector.
pub record SweepEnv : Type 0 where
  pub due_clock : ℕ
  pub source_key : Text → ℕ → Text
  pub projector_accepts : List RevisionInput → RevisionInput → Bool

-- The argument of `recordRevision` in appendOfflineOfficeRevisions.
unfoldable pub offline_revision : Text → ℕ → Text → RevisionInput
offline_revision source_key lease_expires_at office = record {
  office_id = office;
  event_type = presence_removed;
  source_kind = lease_expiry;
  source_key = source_key;
  source_receipt_id = none;
  at = lease_expires_at;
}

-- appendOfflineOfficeRevisions
unfoldable pub append_offline_office_revisions : SweepEnv → InstanceRow → ℕ → Store → Result Store
append_offline_office_revisions env row lease_expires_at s = do
  taken ←
      append_office_revisions env.projector_accepts
        (offline_revision (env.source_key row.id lease_expires_at) lease_expires_at)
        (affected_offices s.mounts) s.revisions
  ok (record s { revisions = taken })

-- `presence === undefined || presence.lease_closed_at !== null || !leaseIsDue(…)`, negated.
unfoldable pub is_due : ℕ → PresenceRow → Bool
is_due clock p = is_none p.lease_closed_at && leb p.lease_expires_at clock

-- The statements on a lease that is due.
unfoldable pub close_lease : SweepEnv → InstanceRow → PresenceRow → Store → Result Store
close_lease env row p s = do
  accepted ← parse_safe_sequence p.last_accepted_sequence false
  rows ← close_open_activity_interval p.lease_expires_at accepted lease_expired s.intervals
  append_offline_office_revisions env row p.lease_expires_at (record s {
    intervals = rows;
    presence = some (record p { lease_closed_at = some p.lease_expires_at });
  })

-- The body of the transaction of expireOneLease: whether the lease was closed, and the rows.
unfoldable pub expire_in_transaction : SweepEnv → Store → Result (Bool × Store)
expire_in_transaction env s = elim s.instance_row [
  | none ↦ ok (false, s)
  | some row ↦ elim s.presence [
    | none ↦ ok (false, s)
    | some p ↦
        if is_due env.due_clock p
        then (do s' ← close_lease env row p s; ok (true, s'))
        else ok (false, s)
  ]
]

-- A failed transaction is rolled back and its error is thrown on.
abbrev pub rolled_back : Store → Result (Bool × Store) → Result Bool × Store
rolled_back before (ok (done, after)) = (ok done, after)
rolled_back before (throws e) = (throws e, before)

-- expireOneLease
unfoldable pub expire_one_lease : SweepEnv → Store → Result Bool × Store
expire_one_lease env s = rolled_back s (expire_in_transaction env s)

-- The WHERE clause of the search for candidates.
unfoldable pub is_candidate : ℕ → Store → Bool
is_candidate clock s = elim s.presence [ none ↦ false | some p ↦ is_due clock p ]

-- The loop of expireDueLeases. The instances stand in the order of the search, each with what its
-- own transaction takes from outside; the first `limit` candidates are taken, and an error ends the
-- loop.
unfoldable pub sweep : ℕ → ℕ → ℕ → List (SweepEnv × Store) → Result ℕ × List Store
sweep clock limit expired [] = (ok expired, [])
sweep clock limit expired ((env, s) ∷ ss) = elim (is_candidate clock s && leb 1 limit) [
  | false ↦ let rest = sweep clock limit expired ss in (rest.0, s ∷ rest.1)
  | true ↦ elim (expire_one_lease env s).0 [
    | throws e ↦ (throws e, s ∷ map (λ x. x.1) ss)
    | ok done ↦
        let rest = sweep clock (limit - 1) (if done then expired + 1 else expired) ss in
        (rest.0, (expire_one_lease env s).1 ∷ rest.1)
  ]
]

-- expireDueLeases
unfoldable pub expire_due_leases : ℕ → ℕ → List (SweepEnv × Store) → Result ℕ × List Store
expire_due_leases clock limit ss =
    if not (leb 1 limit) || not (leb limit 1000)
    then (throws fault, map (λ x. x.1) ss)
    else sweep clock limit 0 ss
