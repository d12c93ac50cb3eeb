-- ===== src/Edge/Activity/Step.antt =====
-- What one round of the loop over the events leaves, and when its presence is sound.
use workbuddy_buddy.Prelude.{
  ℕ, ◌≤◌, ◌≡◌, ap, ◌∙◌, Bool, true, false, Option, none, some, List, [], ◌∷◌, arith, if◌then◌else◌,
}
use workbuddy_buddy.Edge.Problem.{Result, ok}
use workbuddy_buddy.Edge.Types.{
  ActivityState, eligible_idle, activity_eq, EdgeEvent, sequence, max_safe_sequence,
}
use workbuddy_buddy.Edge.Store.{IntervalRow, is_some}
use workbuddy_buddy.Edge.Activity.{MutablePresence, Loop, eligible_boundary}
use workbuddy_buddy.Edge.Activity.View.{OpenActivity, eligible_start, open_view}

-- The sequence of the last event, if there is one.
unfoldable pub final_sequence : ℕ → List EdgeEvent → ℕ
final_sequence n [] = n
final_sequence n (e ∷ es) = final_sequence (sequence e) es

-- The columns of a presence agree: `eligible_since` is set exactly in an eligible idle, and the
-- sequences are in range.
pub record IsSound (c : MutablePresence) : Type 0 where
  pub eligible : is_some c.eligible_since ≡ activity_eq c.activity_state eligible_idle
  pub accepted : c.last_accepted_sequence ≤ max_safe_sequence
  pub state : c.last_state_sequence ≤ max_safe_sequence

abbrev pub current_open : ℕ → MutablePresence → List OpenActivity
current_open generation c =
    record {
      activity = c.activity_state;
      generation = generation;
      eligible_since = c.eligible_since;
    }
    ∷ []

-- After a break of the lease an interval that is open was opened by this very report.
abbrev pub IsFresh : Bool → MutablePresence → ℕ → Type 0
IsFresh true c at = c.eligible_since ≡ eligible_start c.activity_state at
IsFresh false c at = Unit

-- The invariant of the loop, by `current` and `needsOpenInterval`.
abbrev pub LoopHolds : ℕ → Bool → ℕ → List IntervalRow → Option MutablePresence → Bool → Type 0
LoopHolds generation broken at rows none needs =
    (needs ≡ true) × (broken ≡ true) × (open_view rows ≡ [])
LoopHolds generation broken at rows (some c) true =
    IsSound c × (broken ≡ true) × (open_view rows ≡ [])
LoopHolds generation broken at rows (some c) false =
    IsSound c × (open_view rows ≡ current_open generation c) × IsFresh broken c at

abbrev pub loop : List IntervalRow → Option MutablePresence → Bool → Loop
loop rows current needs = record { rows = rows; current = current; needs_open_interval = needs }

-- What a round, or the whole loop, establishes: it returns, nothing needs opening any more, and
-- the presence has reached a sequence.
pub record Stepped (generation : ℕ) (broken : Bool) (at reach : ℕ) (r : Result Loop) : Type 0 where
  pub rows : List IntervalRow
  pub presence : MutablePresence
  pub returned : r ≡ ok (loop rows (some presence) false)
  pub reached : presence.last_accepted_sequence ≡ reach
  pub holds : LoopHolds generation broken at rows (some presence) false

-- A reopened interval starts where the presence says.
pub eligible_start-reopened :
    (c : MutablePresence) (at : ℕ)
    → IsSound c
    → (if activity_eq c.activity_state eligible_idle then some at else c.eligible_since)
      ≡ eligible_start c.activity_state at
eligible_start-reopened c at h = ground (arith, h.eligible)

pub IsFresh-intro :
    (k : Bool) (c : MutablePresence) (at : ℕ)
    → c.eligible_since ≡ eligible_start c.activity_state at
    → IsFresh k c at
IsFresh-intro true c at h = h
IsFresh-intro false c at h = tt

pub IsFresh-transfer :
    (k : Bool) (c c' : MutablePresence) (at : ℕ)
    → c'.eligible_since ≡ c.eligible_since
    → c.activity_state ≡ c'.activity_state
    → IsFresh k c at
    → IsFresh k c' at
IsFresh-transfer true c c' at e a f = e ∙ f ∙ ap (λ s. eligible_start s at) a
IsFresh-transfer false c c' at e a f = tt

-- A transition to the same activity keeps the start of an idle.
pub kept_eligible_lem :
    (k : Bool) (c : MutablePresence) (a : ActivityState) (at : ℕ)
    → IsSound c
    → c.activity_state ≡ a
    → IsFresh k c at
    → (if activity_eq a eligible_idle then some (eligible_boundary k (some c) at) else none)
      ≡ c.eligible_since
kept_eligible_lem true c a at s e f = ground (arith, s.eligible)
kept_eligible_lem false c a at s e f = ground (arith, s.eligible)
