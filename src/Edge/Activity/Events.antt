-- ===== src/Edge/Activity/Events.antt =====
-- applyEvents as a whole, from the row of the presence that the report found.
use workbuddy_buddy.Prelude.{
  ℕ, ◌≤◌, ◌≡◌, refl, Bool, true, false, ◌||◌, Option, none, some, List, [], ◌∷◌, arith, All,
}
use workbuddy_buddy.Edge.Problem.{Result, ok}
use workbuddy_buddy.Edge.Types.{
  eligible_idle, activity_eq, EdgeEvent, sequence, is_state_transition, max_safe_sequence,
}
use workbuddy_buddy.Edge.Store.{IntervalRow, PresenceRow, is_some, parse_safe_integer}
use workbuddy_buddy.Edge.Activity.{MutablePresence, mutable_presence, prior_presence, apply_events}
use workbuddy_buddy.Edge.Activity.View.{open_view}
use workbuddy_buddy.Edge.Activity.Rounds.{loop-Stepped}
use workbuddy_buddy.Edge.Activity.Step.{IsSound, LoopHolds, final_sequence, current_open}

-- The row's columns agree, as the CHECK constraints of its table ask.
pub record IsSoundRow (p : PresenceRow) : Type 0 where
  pub eligible : is_some p.eligible_since ≡ activity_eq p.activity_state eligible_idle
  pub accepted : p.last_accepted_sequence ≤ max_safe_sequence
  pub state : p.last_state_sequence ≤ max_safe_sequence

abbrev pub of_row : PresenceRow → MutablePresence
of_row p = record {
  last_accepted_sequence = p.last_accepted_sequence;
  last_state_sequence = p.last_state_sequence;
  display_state = p.display_state;
  activity_state = p.activity_state;
  pet_id = p.pet_id;
  display_since = p.display_since;
  activity_since = p.activity_since;
  eligible_since = p.eligible_since;
}

pub parse-returns : (n : ℕ) (b : Bool) → n ≤ max_safe_sequence → parse_safe_integer n b ≡ ok n
unfolding parse_safe_integer
parse-returns n b h = ground arith

mutable_presence-returns : (p : PresenceRow) → IsSoundRow p → mutable_presence p ≡ ok (of_row p)
unfolding mutable_presence
mutable_presence-returns p s = rw (
  parse-returns p.last_accepted_sequence false s.accepted,
  parse-returns p.last_state_sequence false s.state,
)

abbrev pub PriorHolds : ℕ → Bool → List IntervalRow → Option PresenceRow → Type 0
PriorHolds generation broken rows none = (broken ≡ true) × (open_view rows ≡ [])
PriorHolds generation true rows (some p) = IsSoundRow p × (open_view rows ≡ [])
PriorHolds generation false rows (some p) =
    IsSoundRow p × (open_view rows ≡ current_open generation (of_row p))

-- What applyEvents returns: the presence after the last event, with its interval open.
pub record Applied (generation reach : ℕ) (r : Result (MutablePresence × List IntervalRow))
    : Type 0 where
  pub presence : MutablePresence
  pub rows : List IntervalRow
  pub returned : r ≡ ok (presence, rows)
  pub reached : presence.last_accepted_sequence ≡ reach
  pub sound : IsSound presence
  pub shown : open_view rows ≡ current_open generation presence

module _ (generation at : ℕ) (e : EdgeEvent) (es : List EdgeEvent)
    (bounded : All (λ e'. sequence e' ≤ max_safe_sequence) (e ∷ es)) where
  Applied-of_loop :
      (broken : Bool) (prior : Option PresenceRow) (current : Option MutablePresence)
      (rows : List IntervalRow)
      → prior_presence prior ≡ ok current
      → (is_some current || is_state_transition e) ≡ true
      → LoopHolds generation broken at rows current broken
      → Applied generation
          (final_sequence (sequence e) es)
          (apply_events generation at broken (e ∷ es) prior rows)
  unfolding apply_events
  Applied-of_loop broken prior current rows p k h =
      let s = loop-Stepped generation broken at e es rows current broken bounded k h in
      record {
        presence = s.presence;
        rows = s.rows;
        returned = rw (p, s.returned) refl;
        reached = s.reached;
        sound = s.holds.0;
        shown = s.holds.1;
      }

  pub apply_events-Applied :
      (broken : Bool) (prior : Option PresenceRow) (rows : List IntervalRow)
      → (is_some prior || is_state_transition e) ≡ true
      → PriorHolds generation broken rows prior
      → Applied generation
          (final_sequence (sequence e) es)
          (apply_events generation at broken (e ∷ es) prior rows)
  unfolding prior_presence
  apply_events-Applied broken none rows k (b, h) =
      Applied-of_loop broken none none rows refl k (b, b, h)
  apply_events-Applied true (some p) rows k (s, h) =
      Applied-of_loop true (some p) (some (of_row p)) rows (rw (mutable_presence-returns p s)) refl
        (record { eligible = s.eligible; accepted = s.accepted; state = s.state }, refl, h)
  apply_events-Applied false (some p) rows k (s, h) =
      Applied-of_loop false (some p) (some (of_row p)) rows (rw (mutable_presence-returns p s)) refl
        (record { eligible = s.eligible; accepted = s.accepted; state = s.state }, h, tt)
