-- ===== src/Edge/Commit/Write.antt =====
-- The writes of an accepted report end in consistent rows; only a constraint of the tables or
-- the projector can refuse them.
use workbuddy_buddy.Prelude.{
  ℕ, ◌+◌, ◌≤◌, ◌<◌, ◌≡◌, refl, sym, ap, ◌∙◌, ◌⊎◌, inl, inr, Bool, true, false, not, ◌&&◌, ◌||◌,
  Option, none, some, List, [], ◌∷◌, arith, ◌==◌, leb, if◌then◌else◌, All, All-update_where, any,
  Bool-cases, Option-cases, ==_iff, le→leb,
}
use workbuddy_buddy.Edge.Problem.{Result, ok, fault, >>=-eq-ok, throw_if-eq-ok}
use workbuddy_buddy.Edge.Types.{
  EdgeEvent, is_state_transition, PreparedEdgeReport, VerifiedEdgeContext, max_safe_sequence,
  normalize_uuid, normalize_nullable_uuid,
}
use workbuddy_buddy.Edge.Store.{
  HeadRow, BootRow, PresenceRow, IntervalRow, Store, Env, is_none, is_some, affected_offices,
  lease_expired,
}
use workbuddy_buddy.Edge.Boot.{BootDecision, last_sequence, starts_with_state_transition}
use workbuddy_buddy.Edge.Activity.{MutablePresence, apply_events}
use workbuddy_buddy.Edge.Activity.View.{OpenActivity, open_view, presence_view, close-returns}
use workbuddy_buddy.Edge.Activity.Step.{IsSound, current_open}
use workbuddy_buddy.Edge.Activity.Events.{
  IsSoundRow, of_row, PriorHolds, parse-returns, Applied, apply_events-Applied,
}
use workbuddy_buddy.Edge.Commit.{
  lease_was_expired, close_expired_lease, saved_presence, advance_boot, record_report, publish,
  is_refused, write_report,
}
use workbuddy_buddy.Edge.Rollover.{Rolled}
use workbuddy_buddy.Edge.Invariant.{Consistent}
use workbuddy_buddy.Edge.Invariant.Report.{
  IsPrepared, Numbered-cons, Contiguous-bounded, last_sequence-reached,
}

-- What the table shows under a presence that may be closed.
abbrev pub shown_open : ℕ → PresenceRow → List OpenActivity
shown_open generation p =
    if is_none p.lease_closed_at then current_open generation (of_row p) else []

-- A lease that has run out ends with its interval; any other goes on.
pub expired-returns :
    (generation received : ℕ) (p : PresenceRow) (rows : List IntervalRow)
    → IsSoundRow p
    → open_view rows ≡ shown_open generation p
    → (p.lease_closed_at ≡ none) ⊎ (p.lease_expires_at ≤ received)
    → (rows' : List IntervalRow) × (close_expired_lease (some p) received rows ≡ ok rows')
      × PriorHolds generation (leb p.lease_expires_at received) rows' (some p)
unfolding close_expired_lease
expired-returns generation received p rows s h lease =
    elim (Bool-cases (leb p.lease_expires_at received)) [
      | inl over ↦ elim (Option-cases p.lease_closed_at) [
        | inl live ↦
            let (rows', returned, shown) =
              close-returns p.lease_expires_at p.last_accepted_sequence lease_expired rows
                (rw live at h) in
            (
              rows',
              rw (over, live, parse-returns p.last_accepted_sequence false s.accepted) returned,
              rw over (s, shown),
            )
        | inr (t, done) ↦ (rows, rw (over, done) refl, rw over (s, rw done at h))
      ]
      | inr running ↦ elim lease [
        | inl live ↦ (rows, rw running refl, rw running (s, rw live at h))
        | inr over ↦ absurd (ground (arith, le→leb p.lease_expires_at received over))
      ]
    ]

-- What the boot leaves for the events: no presence, and an agent whose snapshot comes first, or the
-- presence of the boot.
abbrev pub PriorShown :
    ℕ → ℕ → Bool → List EdgeEvent → Option PresenceRow → List IntervalRow → Type 0
PriorShown generation received broken events none rows =
    (broken ≡ true) × (open_view rows ≡ []) × (starts_with_state_transition events ≡ true)
PriorShown generation received broken events (some p) rows =
    (broken ≡ false)
    × IsSoundRow p
    × (open_view rows ≡ shown_open generation p)
    × ((p.lease_closed_at ≡ none) ⊎ (p.lease_expires_at ≤ received))

-- The boot of the report stands at the head of the boots, and the head points to it.
pub record IsRolled (received : ℕ) (decision : BootDecision) (report : PreparedEdgeReport)
    (r : Rolled) : Type 0 where
  pub head : HeadRow
  pub boot : BootRow
  pub others : List BootRow
  pub store_head : r.store.head ≡ some head
  pub store_boots : r.store.boots ≡ boot ∷ others
  pub current : head.current_boot_id ≡ some boot.boot_id
  pub boot_id : boot.boot_id ≡ normalize_uuid report.envelope.boot_id
  pub previous : boot.previous_boot_id ≡ normalize_nullable_uuid report.envelope.previous_boot_id
  pub head_generation : head.current_boot_generation ≡ boot.generation
  pub generation : boot.generation ≡ decision.boot_generation
  pub range : boot.generation ≤ max_safe_sequence
  pub older : All (λ o. o.generation < boot.generation) others
  pub prior :
      PriorShown decision.boot_generation received
        (decision.is_new_boot && not r.seamless)
        report.envelope.events
        r.presence
        r.store.intervals

-- The rows that the events find, once an expired lease is closed.
prior-returns :
    (generation received : ℕ) (broken : Bool) (events : List EdgeEvent) (prior : Option PresenceRow)
    (rows : List IntervalRow)
    → PriorShown generation received broken events prior rows
    → (rows' : List IntervalRow) × (close_expired_lease prior received rows ≡ ok rows')
      × PriorHolds generation (broken || lease_was_expired prior received) rows' prior
      × ((is_some prior || starts_with_state_transition events) ≡ true)
unfolding close_expired_lease lease_was_expired
prior-returns generation received broken events none rows (b, h, k) =
    (rows, refl, (rw b refl, h), k)
prior-returns generation received broken events (some p) rows (b, s, h, l) =
    let (rows', returned, holds) = expired-returns generation received p rows s h l in
    (rows', unfold close_expired_lease in returned, rw b holds, refl)

-- The events of a prepared report are applied up to its last sequence.
numbered-Applied :
    (report : PreparedEdgeReport) (generation at : ℕ) (broken : Bool) (prior : Option PresenceRow)
    (rows : List IntervalRow)
    → IsPrepared report
    → (is_some prior || starts_with_state_transition report.envelope.events) ≡ true
    → PriorHolds generation broken rows prior
    → Applied generation
        (last_sequence report)
        (apply_events generation at broken report.envelope.events prior rows)
numbered-Applied report generation at broken prior rows prepared starts holds =
    let (e, es, shape, numbered) =
      Numbered-cons report.envelope.first_sequence report.envelope.events prepared.1 in
    let a =
      apply_events-Applied generation at e es
        (Contiguous-bounded report.envelope.first_sequence (e ∷ es) numbered) broken prior rows
        (rw shape at starts) holds in
    record {
      presence = a.presence;
      rows = a.rows;
      returned = rw shape a.returned;
      reached = a.reached ∙ (last_sequence-reached report e es shape numbered).0;
      sound = a.sound;
      shown = a.shown;
    }

pub prepared_sequences :
    (report : PreparedEdgeReport)
    → IsPrepared report
    → (last_sequence report ≤ max_safe_sequence)
      × (report.envelope.first_sequence ≤ last_sequence report)
prepared_sequences report prepared =
    let (e, es, shape, numbered) =
      Numbered-cons report.envelope.first_sequence report.envelope.events prepared.1 in
    let reached = last_sequence-reached report e es shape numbered in (reached.1, reached.2)

-- The writes keep the rows consistent.
module _ (env : Env) (report : PreparedEdgeReport) (verified : VerifiedEdgeContext)
    (decision : BootDecision) (received lease : ℕ) (r : Rolled) where
  record_report-Consistent :
      (now : ℕ) (rolled : IsRolled received decision report r)
      (applied : MutablePresence × List IntervalRow)
      → IsSound applied.0
      → applied.0.last_accepted_sequence ≡ last_sequence report
      → open_view applied.1 ≡ current_open decision.boot_generation applied.0
      → 0 < last_sequence report
      → Consistent now
          (record rolled.head { last_server_received_at = some received })
          (record_report env report verified decision.boot_generation received lease applied
            r.store)
  unfolding record_report saved_presence presence_view advance_boot
  record_report-Consistent now rolled applied sound reached shown positive = record {
    head = rw rolled.store_head refl;
    current =
        rw (rolled.store_boots, advance_boot)
          (rw ((==_iff boot.generation decision.boot_generation).1 rolled.generation) (record {
            boot_id = rolled.current;
            generation = rolled.head_generation;
            older =
                All-update_where (λ o. o.generation < boot.generation)
                  (λ o. o.generation == decision.boot_generation)
                  (λ o. record o {
                    next_sequence = last_sequence report + 1;
                    last_accepted_at = received;
                  })
                  others (λ o k. k) rolled.older;
            range = rolled.range;
            sound = record {
              eligible = sound.eligible;
              accepted = sound.accepted;
              state = sound.state;
            };
            presence_generation = sym rolled.generation;
            presence_boot = sym rolled.boot_id;
            positive = rw reached positive;
            next = ap (λ n. n + 1) (sym reached);
            lease = inl refl;
          }));
    shown = shown;
  }
    where
      open rolled use {boot, others}

  -- A report on a rolled boot is written: what is left is the call of the projector.
  pub record IsWritten (result : Result Store) (rolled : IsRolled received decision report r)
      : Type 0 where
    pub applied : MutablePresence × List IntervalRow
    pub in_range : last_sequence report ≤ max_safe_sequence
    pub in_order : report.envelope.first_sequence ≤ last_sequence report
    pub changed : Bool
    pub returned :
        result
        ≡ publish env changed (affected_offices r.store.mounts) received (
            record_report env report verified decision.boot_generation received lease applied
              r.store)
    pub consistent :
        (now : ℕ)
        → Consistent now
            (record rolled.head { last_server_received_at = some received })
            (record_report env report verified decision.boot_generation received lease applied
              r.store)

  -- What is written has passed the constraints of the tables.
  pub write_report-clear :
      (t : Store)
      → write_report env report verified decision received lease r ≡ ok t
      → is_refused env report verified decision.boot_generation received lease r.store ≡ false
  unfolding write_report
  write_report-clear t e =
      let (rows, _, e') =
        >>=-eq-ok (close_expired_lease r.presence received r.store.intervals) _ e in
      (throw_if-eq-ok
        (is_refused env report verified decision.boot_generation received lease r.store) fault _
        e').0

  pub write_report-IsWritten :
      IsPrepared report
      → (rolled : IsRolled received decision report r)
      → is_refused env report verified decision.boot_generation received lease r.store ≡ false
      → IsWritten (write_report env report verified decision received lease r) rolled
  unfolding write_report
  write_report-IsWritten prepared rolled clear =
      let (rows, closed, holds, starts) =
        prior-returns decision.boot_generation received (decision.is_new_boot && not r.seamless)
          report.envelope.events r.presence r.store.intervals rolled.prior in
      let a =
        numbered-Applied report decision.boot_generation received
          (decision.is_new_boot && not r.seamless || lease_was_expired r.presence received)
          r.presence rows prepared starts holds in
      record {
        applied = (a.presence, a.rows);
        in_range = (prepared_sequences report prepared).0;
        in_order = (prepared_sequences report prepared).1;
        changed =
            decision.is_new_boot
            || lease_was_expired r.presence received
            || any is_state_transition report.envelope.events;
        returned = rw (closed, clear, a.returned) refl;
        consistent = λ now.
            record_report-Consistent now rolled (a.presence, a.rows) a.sound a.reached a.shown
              (omega (arith, prepared.0, (prepared_sequences report prepared).1));
      }
