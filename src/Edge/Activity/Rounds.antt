-- ===== src/Edge/Activity/Rounds.antt =====
-- The loop of applyEvents never faults: whatever the events, it keeps exactly one open interval,
-- that of the current presence.
use workbuddy_buddy.Prelude.{
  or_true, or_false, ℕ, ◌≤◌, ◌≡◌, refl, ap, ◌∙◌, Bool, true, false, not, ◌||◌, Option, none, some,
  List, [], ◌∷◌, arith, if◌then◌else◌, All, Bool-cases, inl, inr,
}
use workbuddy_buddy.Edge.Problem.{ok}
use workbuddy_buddy.Edge.Types.{
  eligible_idle, activity_eq, activity_eq_iff, EdgeEvent, StateTransitionEvent, HeartbeatEvent,
  state_transition, heartbeat, sequence, is_state_transition, max_safe_sequence,
}
use workbuddy_buddy.Edge.Store.{IntervalRow, state_changed, is_some}
use workbuddy_buddy.Edge.Activity.{
  MutablePresence, same_activity, apply_state_transition, apply_heartbeat, move_interval,
  apply_event, apply_loop, open_activity_interval,
}
use workbuddy_buddy.Edge.Activity.View.{eligible_start, open_view, close-returns, open-returns}
use workbuddy_buddy.Edge.Activity.Step.{
  IsFresh, IsFresh-intro, IsFresh-transfer, LoopHolds, Stepped, eligible_start-reopened,
  final_sequence, kept_eligible_lem, loop,
}

module _ (generation : ℕ) (broken : Bool) (at : ℕ) where
  -- A heartbeat reopens the interval after a break, and else only moves the sequence.
  heartbeat-Stepped :
      (e : HeartbeatEvent) (rows : List IntervalRow) (c : MutablePresence) (needs : Bool)
      → e.sequence ≤ max_safe_sequence
      → LoopHolds generation broken at rows (some c) needs
      → Stepped generation broken at e.sequence
          (apply_event generation at broken (heartbeat e) (loop rows (some c) needs))
  unfolding apply_event apply_heartbeat
  heartbeat-Stepped e rows c true b h =
      let (rows', returned, shown) =
        open-returns generation c.activity_state e.sequence at rows h.2 in
      let since = eligible_start-reopened c at h.0 in
      record {
        rows = rows';
        presence = c';
        returned = rw returned;
        reached = refl;
        holds = (
          record { eligible = ground (arith, h.0.eligible); accepted = b; state = h.0.state },
          rw since shown,
          rw (h.1, since) refl,
        );
      }
    where
      c' : MutablePresence
      c' = record c {
        last_accepted_sequence = e.sequence;
        eligible_since =
            if activity_eq c.activity_state eligible_idle then some at else c.eligible_since;
      }
  heartbeat-Stepped e rows c false b h = record {
    rows = rows;
    presence = record c { last_accepted_sequence = e.sequence };
    returned = refl;
    reached = refl;
    holds = (
      record { eligible = h.0.eligible; accepted = b; state = h.0.state },
      h.1,
      fresh broken h.2,
    );
  }
    where
      fresh :
          (k : Bool)
          → IsFresh k c at
          → IsFresh k (record c { last_accepted_sequence = e.sequence }) at
      fresh true f = f
      fresh false f = f

  -- A transition that opens an interval opens it for the new presence, from now on.
  opened-Holds :
      (e : StateTransitionEvent) (current : Option MutablePresence) (changed : Bool)
      (rows' : List IntervalRow)
      → e.sequence ≤ max_safe_sequence
      → (broken || changed) ≡ true
      → open_view rows'
        ≡ record {
          activity = e.activity_state;
          generation = generation;
          eligible_since = eligible_start e.activity_state at;
        }
          ∷ []
      → LoopHolds generation broken at rows'
          (some (apply_state_transition current e at (broken || changed)))
          false
  unfolding apply_state_transition
  opened-Holds e current changed rows' b reset shown = (
    record { eligible = ground arith; accepted = b; state = b },
    rw (reset, shown) refl,
    IsFresh-intro broken _ at (rw reset refl),
  )

  -- The round of a transition, from what it does to the table.
  transition-Stepped_of_rows :
      (e : StateTransitionEvent) (rows rows' : List IntervalRow) (current : Option MutablePresence)
      (needs : Bool)
      → let changed = not (same_activity current e.activity_state) in
        move_interval generation at changed e (loop rows current needs) ≡ ok rows'
        → LoopHolds generation broken at rows'
            (some (apply_state_transition current e at (broken || changed)))
            false
        → Stepped generation broken at e.sequence
            (apply_event generation at broken (state_transition e) (loop rows current needs))
  unfolding apply_event
  transition-Stepped_of_rows e rows rows' current needs moved holds = record {
    rows = rows';
    presence = c';
    returned = rw moved (ap (λ b. ok (loop rows' (some c') b)) (cleared changed needs));
    reached = unfold apply_state_transition in refl;
    holds = holds;
  }
    where
      changed : Bool
      changed = not (same_activity current e.activity_state)

      c' : MutablePresence
      c' = apply_state_transition current e at (broken || changed)

      cleared : (b n : Bool) → (if b || n then false else n) ≡ false
      cleared true n = refl
      cleared false true = refl
      cleared false false = refl

  -- After a break nothing is closed before the interval opens.
  move-needs :
      (e : StateTransitionEvent) (rows : List IntervalRow) (c : MutablePresence) (changed : Bool)
      → move_interval generation at changed e (loop rows (some c) true)
        ≡ open_activity_interval generation e.activity_state e.sequence at rows
  unfolding move_interval
  move-needs e rows c true = refl
  move-needs e rows c false = refl

  -- A transition to the same activity keeps the interval.
  kept-Holds :
      (e : StateTransitionEvent) (rows : List IntervalRow) (c : MutablePresence)
      → e.sequence ≤ max_safe_sequence
      → c.activity_state ≡ e.activity_state
      → LoopHolds generation broken at rows (some c) false
      → LoopHolds generation broken at rows
          (some (apply_state_transition (some c) e at broken))
          false
  unfolding apply_state_transition
  kept-Holds e rows c b same (c_sound, h, f) =
      let kept = kept_eligible_lem broken c e.activity_state at c_sound same f in
      (
        record { eligible = ground arith; accepted = b; state = b },
        rw kept (h ∙ ground arith),
        IsFresh-transfer broken c _ at kept same f,
      )

  -- A transition from any point of the loop.
  transition-Stepped :
      (e : StateTransitionEvent) (rows : List IntervalRow) (current : Option MutablePresence)
      (needs : Bool)
      → e.sequence ≤ max_safe_sequence
      → LoopHolds generation broken at rows current needs
      → Stepped generation broken at e.sequence
          (apply_event generation at broken (state_transition e) (loop rows current needs))
  unfolding move_interval
  transition-Stepped e rows none needs b (n, k, h) =
      let (rows', returned, shown) =
        open-returns generation e.activity_state e.sequence at rows h in
      transition-Stepped_of_rows e rows rows' none needs (rw n returned)
        (opened-Holds e none true rows' b (rw k refl) shown)
  transition-Stepped e rows (some c) true b (c_sound, k, h) =
      let (rows', returned, shown) =
        open-returns generation e.activity_state e.sequence at rows h in
      transition-Stepped_of_rows e rows rows' (some c) true (move-needs e rows c _ ∙ returned) (
        opened-Holds e (some c) (not (activity_eq c.activity_state e.activity_state)) rows' b
          (rw k refl) shown)
  transition-Stepped e rows (some c) false b (c_sound, h, f) =
      elim (Bool-cases (activity_eq c.activity_state e.activity_state)) [
        | inl same ↦ transition-Stepped_of_rows e rows rows (some c) false (rw same refl) (
            rw (same, or_false broken)
              (kept-Holds e rows c b ((activity_eq_iff _ _).0 same) (c_sound, h, f)))
        | inr other ↦
            let (rows₁, ended, none_open) = close-returns at e.sequence state_changed rows h in
            let (rows', returned, shown) =
              open-returns generation e.activity_state e.sequence at rows₁ none_open in
            transition-Stepped_of_rows e rows rows' (some c) false (rw (other, ended) returned)
              (opened-Holds e (some c) _ rows' b (rw other (or_true broken)) shown)
      ]

  -- Any event, once there is a presence or the event is a transition.
  event-Stepped :
      (e : EdgeEvent) (rows : List IntervalRow) (current : Option MutablePresence) (needs : Bool)
      → sequence e ≤ max_safe_sequence
      → (is_some current || is_state_transition e) ≡ true
      → LoopHolds generation broken at rows current needs
      → Stepped generation broken at
          (sequence e)
          (apply_event generation at broken e (loop rows current needs))
  event-Stepped (state_transition e) rows current needs b k h =
      transition-Stepped e rows current needs b h
  event-Stepped (heartbeat e) rows none needs b k h = absurd (ground arith)
  event-Stepped (heartbeat e) rows (some c) needs b k h = heartbeat-Stepped e rows c needs b h

  -- The events after the first.
  rest-Stepped :
      (es : List EdgeEvent) (rows : List IntervalRow) (c : MutablePresence)
      → All (λ e. sequence e ≤ max_safe_sequence) es
      → LoopHolds generation broken at rows (some c) false
      → Stepped generation broken at
          (final_sequence c.last_accepted_sequence es)
          (apply_loop generation at broken es (loop rows (some c) false))
  unfolding apply_loop final_sequence
  rest-Stepped [] rows c b h = record {
    rows = rows;
    presence = c;
    returned = refl;
    reached = refl;
    holds = h;
  }
  rest-Stepped (e ∷ es) rows c b h =
      let s = event-Stepped e rows (some c) false b.0 refl h in
      let r = rest-Stepped es s.rows s.presence b.1 s.holds in
      record {
        rows = r.rows;
        presence = r.presence;
        returned = rw s.returned r.returned;
        reached = r.reached ∙ ap (λ n. final_sequence n es) s.reached;
        holds = r.holds;
      }

  -- The whole loop, over one event or more.
  pub loop-Stepped :
      (e : EdgeEvent) (es : List EdgeEvent) (rows : List IntervalRow)
      (current : Option MutablePresence) (needs : Bool)
      → All (λ e'. sequence e' ≤ max_safe_sequence) (e ∷ es)
      → (is_some current || is_state_transition e) ≡ true
      → LoopHolds generation broken at rows current needs
      → Stepped generation broken at
          (final_sequence (sequence e) es)
          (apply_loop generation at broken (e ∷ es) (loop rows current needs))
  unfolding apply_loop
  loop-Stepped e es rows current needs b k h =
      let s = event-Stepped e rows current needs b.0 k h in
      let r = rest-Stepped es s.rows s.presence b.1 s.holds in
      record {
        rows = r.rows;
        presence = r.presence;
        returned = rw s.returned r.returned;
        reached = r.reached ∙ ap (λ n. final_sequence n es) s.reached;
        holds = r.holds;
      }
