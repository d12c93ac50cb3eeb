-- ===== src/Edge/Activity/View.antt =====
-- What the table of intervals says of the present: its open rows, each with its activity, its boot
-- and, if the agent is idle in it, its start.
use workbuddy_buddy.Prelude.{
  ℕ, ◌≡◌, refl, Option, none, some, List, [], ◌∷◌, map, arith, if◌then◌else◌, length, update_where,
  count_where,
}
use workbuddy_buddy.Edge.Problem.{ok}
use workbuddy_buddy.Edge.Types.{ActivityState, eligible_idle, activity_eq}
use workbuddy_buddy.Edge.Store.{IntervalRow, PresenceRow, CloseReason, is_none}
use workbuddy_buddy.Edge.Activity.{
  is_open, closed, opened, carried, close_open_activity_interval, open_activity_interval,
  move_open_activity_interval_to_boot,
}

pub record OpenActivity : Type 0 where
  pub activity : ActivityState
  pub generation : ℕ
  pub eligible_since : Option ℕ

abbrev pub eligible_start : ActivityState → ℕ → Option ℕ
eligible_start a t = if activity_eq a eligible_idle then some t else none

abbrev pub view : IntervalRow → OpenActivity
view r = record {
  activity = r.activity_state;
  generation = r.boot_generation;
  eligible_since = eligible_start r.activity_state r.started_at;
}

unfoldable pub open_view : List IntervalRow → List OpenActivity
open_view [] = []
open_view (r ∷ rs) = if is_open r then view r ∷ open_view rs else open_view rs

abbrev pub presence_open : PresenceRow → List OpenActivity
presence_open p =
    record {
      activity = p.activity_state;
      generation = p.boot_generation;
      eligible_since = p.eligible_since;
    }
    ∷ []

-- What a presence says of the present: nothing once its lease is closed.
unfoldable pub presence_view : Option PresenceRow → List OpenActivity
presence_view none = []
presence_view (some p) = if is_none p.lease_closed_at then presence_open p else []

pub count-open : (rows : List IntervalRow) → count_where is_open rows ≡ length (open_view rows)
unfolding open_view
count-open [] = refl
count-open (r ∷ rs) = ground (arith, count-open rs)

pub open_view-closed :
    (t n : ℕ) (c : CloseReason) (rows : List IntervalRow)
    → open_view (update_where is_open (closed t n c) rows) ≡ []
unfolding open_view
open_view-closed t n c [] = refl
open_view-closed t n c (r ∷ rs) = ground (arith, open_view-closed t n c rs)

abbrev moved : ℕ → OpenActivity → OpenActivity
moved generation v = record v { generation = generation }

pub open_view-moved :
    (g : ℕ) (rows : List IntervalRow)
    → open_view (update_where is_open (carried g) rows) ≡ map (moved g) (open_view rows)
unfolding open_view
open_view-moved g [] = refl
open_view-moved g (r ∷ rs) = ground (arith, open_view-moved g rs)

-- With one open interval, closing it succeeds and leaves none.
pub close-returns :
    (t n : ℕ) (c : CloseReason) (rows : List IntervalRow) {v : OpenActivity}
    → open_view rows ≡ v ∷ []
    → (rows' : List IntervalRow) × (close_open_activity_interval t n c rows ≡ ok rows')
      × (open_view rows' ≡ [])
unfolding close_open_activity_interval
close-returns t n c rows h = (
  update_where is_open (closed t n c) rows,
  rw (count-open rows, h) refl,
  open_view-closed t n c rows,
)

-- With none, opening one succeeds, and it is then the only one.
pub open-returns :
    (g : ℕ) (a : ActivityState) (n t : ℕ) (rows : List IntervalRow)
    → open_view rows ≡ []
    → (rows' : List IntervalRow) × (open_activity_interval g a n t rows ≡ ok rows')
      × (open_view rows'
          ≡ record { activity = a; generation = g; eligible_since = eligible_start a t } ∷ [])
unfolding open_activity_interval open_view
open-returns g a n t rows h = (opened g a n t ∷ rows, rw (count-open rows, h) refl, rw h refl)

pub move-returns :
    (g : ℕ) (rows : List IntervalRow) {v : OpenActivity}
    → open_view rows ≡ v ∷ []
    → (rows' : List IntervalRow) × (move_open_activity_interval_to_boot g rows ≡ ok rows')
      × (open_view rows' ≡ moved g v ∷ [])
unfolding move_open_activity_interval_to_boot
move-returns g rows h = (
  update_where is_open (carried g) rows,
  rw (count-open rows, h) refl,
  rw (open_view-moved g rows, h) refl,
)

pub presence_view-some :
    (p : PresenceRow)
    → presence_view (some p) ≡ (if is_none p.lease_closed_at then presence_open p else [])
unfolding presence_view
presence_view-some p = refl

pub presence_view-live :
    (p : PresenceRow) → p.lease_closed_at ≡ none → presence_view (some p) ≡ presence_open p
unfolding presence_view
presence_view-live p live = rw live refl

pub presence_view-none : presence_view none ≡ []
unfolding presence_view
presence_view-none = refl
