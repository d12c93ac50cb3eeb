-- ===== src/Edge/Activity.antt =====
-- presence/application/ingest-edge-report.ts: the table of activity intervals, and applyEvents.
-- A function of a statement takes the table and returns it; a thrown `Error` is a fault.
pub mod View
pub mod Step
pub mod Rounds
pub mod Events
use workbuddy_buddy.Prelude.{
  ℕ, Bool, true, false, not, ◌&&◌, ◌||◌, Option, none, some, List, [], ◌∷◌, ◌==◌, if◌then◌else◌,
  update_where, count_where,
}
use workbuddy_buddy.Edge.Problem.{Result, ok, throws, fault, ◌>>=◌}
use workbuddy_buddy.Edge.Types.{
  Text, DisplayState, ActivityState, eligible_idle, display_eq, activity_eq, StateTransitionEvent,
  EdgeEvent, state_transition, heartbeat,
}
use workbuddy_buddy.Edge.Store.{
  IntervalRow, PresenceRow, CloseReason, state_changed, is_none, is_some, parse_safe_integer,
}
use workbuddy_buddy.Edge.Boot.{internal}

pub record MutablePresence : Type 0 where
  pub last_accepted_sequence : ℕ
  pub last_state_sequence : ℕ
  pub display_state : DisplayState
  pub activity_state : ActivityState
  pub pet_id : Text
  pub display_since : ℕ
  pub activity_since : ℕ
  pub eligible_since : Option ℕ

-- `ended_at IS NULL`
abbrev pub is_open : IntervalRow → Bool
is_open r = is_none r.ended_at

abbrev pub closed : ℕ → ℕ → CloseReason → IntervalRow → IntervalRow
closed ended_at end_sequence reason r = record r {
  ended_at = some ended_at;
  end_sequence = some end_sequence;
  close_reason = some reason;
}

-- closeOpenActivityInterval: an UPDATE of the open interval that must meet exactly one row.
unfoldable pub close_open_activity_interval :
    ℕ → ℕ → CloseReason → List IntervalRow → Result (List IntervalRow)
close_open_activity_interval ended_at end_sequence reason rows =
    if count_where is_open rows == 1
    then ok (update_where is_open (closed ended_at end_sequence reason) rows)
    else throws fault

-- The row that openActivityInterval inserts.
abbrev pub opened : ℕ → ActivityState → ℕ → ℕ → IntervalRow
opened generation activity start_sequence started_at = record {
  boot_generation = generation;
  activity_state = activity;
  started_at = started_at;
  start_sequence = start_sequence;
  ended_at = none;
  end_sequence = none;
  close_reason = none;
}

-- openActivityInterval: the table's index on open intervals lets there be one at most.
unfoldable pub open_activity_interval :
    ℕ → ActivityState → ℕ → ℕ → List IntervalRow → Result (List IntervalRow)
open_activity_interval generation activity start_sequence started_at rows =
    if count_where is_open rows == 0
    then ok (opened generation activity start_sequence started_at ∷ rows)
    else throws fault

abbrev pub carried : ℕ → IntervalRow → IntervalRow
carried generation r = record r { boot_generation = generation; start_sequence = 1 }

-- moveOpenActivityIntervalToBoot
unfoldable pub move_open_activity_interval_to_boot :
    ℕ → List IntervalRow → Result (List IntervalRow)
move_open_activity_interval_to_boot generation rows =
    if count_where is_open rows == 1
    then ok (update_where is_open (carried generation) rows)
    else throws fault

-- mutablePresence
unfoldable pub mutable_presence : PresenceRow → Result MutablePresence
mutable_presence row = do
  accepted ← parse_safe_integer row.last_accepted_sequence false
  state ← parse_safe_integer row.last_state_sequence false
  ok (record {
    last_accepted_sequence = accepted;
    last_state_sequence = state;
    display_state = row.display_state;
    activity_state = row.activity_state;
    pet_id = row.pet_id;
    display_since = row.display_since;
    activity_since = row.activity_since;
    eligible_since = row.eligible_since;
  })

abbrev pub same_activity : Option MutablePresence → ActivityState → Bool
same_activity none activity = false
same_activity (some c) activity = activity_eq c.activity_state activity

abbrev pub same_display : Option MutablePresence → DisplayState → Bool
same_display none display = false
same_display (some c) display = display_eq c.display_state display

abbrev since {ℓ} : {A : Type ℓ} → Bool → Option MutablePresence → (MutablePresence → A) → A → A
since changed none field at = at
since changed (some c) field at = if changed then at else field c

-- `current?.activityState === "eligible_idle" && current.eligibleSince !== null`
abbrev kept_eligible : Option MutablePresence → Option ℕ
kept_eligible none = none
kept_eligible (some c) =
    if activity_eq c.activity_state eligible_idle then c.eligible_since else none

abbrev pub eligible_boundary : Bool → Option MutablePresence → ℕ → ℕ
eligible_boundary true current at = at
eligible_boundary false current at = elim (kept_eligible current) [ none ↦ at | some t ↦ t ]

-- applyStateTransition
unfoldable pub apply_state_transition :
    Option MutablePresence → StateTransitionEvent → ℕ → Bool → MutablePresence
apply_state_transition current event at reset_eligible_boundary = record {
  last_accepted_sequence = event.sequence;
  last_state_sequence = event.sequence;
  display_state = event.display_state;
  activity_state = event.activity_state;
  pet_id = event.pet_id;
  display_since =
      since (not (same_display current event.display_state)) current (λ c. c.display_since) at;
  activity_since =
      since (not (same_activity current event.activity_state)) current (λ c. c.activity_since) at;
  eligible_since =
      if activity_eq event.activity_state eligible_idle
      then some (eligible_boundary reset_eligible_boundary current at)
      else none;
}

-- The variables of the loop of applyEvents: the table, `current` and `needsOpenInterval`.
pub record Loop : Type 0 where
  pub rows : List IntervalRow
  pub current : Option MutablePresence
  pub needs_open_interval : Bool

-- The round of a heartbeat, with the current presence.
unfoldable pub apply_heartbeat : ℕ → ℕ → ℕ → MutablePresence → Loop → Result Loop
apply_heartbeat generation received sequence c l =
    if l.needs_open_interval
    then (do
      rows ← open_activity_interval generation c.activity_state sequence received l.rows
      ok (record {
        rows = rows;
        current = some (record c {
          last_accepted_sequence = sequence;
          eligible_since =
              if activity_eq c.activity_state eligible_idle
              then some received
              else c.eligible_since;
        });
        needs_open_interval = false;
      }))
    else ok (record l { current = some (record c { last_accepted_sequence = sequence }) })

-- The round of a state transition: its statements on the table.
unfoldable pub move_interval :
    ℕ → ℕ → Bool → StateTransitionEvent → Loop → Result (List IntervalRow)
move_interval generation received activity_changed e l = do
  rows ←
      if activity_changed && not l.needs_open_interval && is_some l.current
      then close_open_activity_interval received e.sequence state_changed l.rows
      else ok l.rows
  if activity_changed || l.needs_open_interval
      then open_activity_interval generation e.activity_state e.sequence received rows
      else ok rows

unfoldable pub apply_event : ℕ → ℕ → Bool → EdgeEvent → Loop → Result Loop
apply_event generation received broken (heartbeat e) l = elim l.current [
  | none ↦ throws (internal "A heartbeat has no current presence snapshot.")
  | some c ↦ apply_heartbeat generation received e.sequence c l
]
apply_event generation received broken (state_transition e) l = do
  let activity_changed = not (same_activity l.current e.activity_state)
  rows ← move_interval generation received activity_changed e l
  ok (record {
    rows = rows;
    current = some (apply_state_transition l.current e received (broken || activity_changed));
    needs_open_interval =
        if activity_changed || l.needs_open_interval then false else l.needs_open_interval;
  })

unfoldable pub apply_loop : ℕ → ℕ → Bool → List EdgeEvent → Loop → Result Loop
apply_loop generation received broken [] l = ok l
apply_loop generation received broken (e ∷ es) l = do
  l' ← apply_event generation received broken e l
  apply_loop generation received broken es l'

-- `mutablePresence(prior)`, or `null`.
unfoldable pub prior_presence : Option PresenceRow → Result (Option MutablePresence)
prior_presence none = ok none
prior_presence (some row) = do c ← mutable_presence row; ok (some c)

-- applyEvents
unfoldable pub apply_events :
    ℕ
    → ℕ
    → Bool
    → List EdgeEvent
    → Option PresenceRow
    → List IntervalRow
    → Result (MutablePresence × List IntervalRow)
apply_events generation received lease_boundary_broken events prior rows = do
  current ← prior_presence prior
  l ←
      apply_loop generation received lease_boundary_broken events
        (record { rows = rows; current = current; needs_open_interval = lease_boundary_broken })
  elim l.current [
    | none ↦ throws (internal "The report did not produce a current presence snapshot.")
    | some c ↦ ok (c, l.rows)
  ]
