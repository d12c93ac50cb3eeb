-- ===== src/Limits/Window.antt =====
-- What every limiter promises: a window has a start and a use, a call inside the window adds to its
-- use, a call after its end starts a new one, and what is admitted never brings a window's use above
-- the limit. A limiter may count calls that it refuses too.
pub mod Trace
pub mod Single
use workbuddy_buddy.Prelude.{
  ℕ, ◌+◌, ◌-◌, ◌*◌, ◌≤◌, ◌<◌, ◌≡◌, ◌⊎◌, Option, none, some, arith, Bool, true, false, List, [], ◌∷◌,
  leb, ltb, ◌&&◌, refl, inl, inr, Bool-cases, leb→le, ltb→lt, if◌then◌else◌,
}

pub record Window : Type 0 where
  pub started_at : ℕ
  pub used : ℕ

abbrev pub IsOver : ℕ → Option Window → ℕ → Type 0
IsOver width none now = Unit
IsOver width (some w) now = w.started_at + width ≤ now

-- One call at a time `now`, of which `admitted` units pass.
pub data Turn (width limit now admitted : ℕ) : Option Window → Window → Type 0 where
  goes_on :
      (w : Window) (used : ℕ)
      → now < w.started_at + width
      → w.used + admitted ≤ used
      → (admitted ≡ 0) ⊎ (used ≤ limit)
      → Turn width limit now admitted (some w) (record { started_at = w.started_at; used = used })
  starts :
      (o : Option Window) (used : ℕ)
      → IsOver width o now
      → admitted ≤ used
      → (admitted ≡ 0) ⊎ (used ≤ limit)
      → Turn width limit now admitted o (record { started_at = now; used = used })

-- The calls between two times, the later one excluded, with the sum of what they admit.
pub data Turns (width limit from until : ℕ) : Option Window → ℕ → Option Window → Type 0 where
  done : (o : Option Window) → Turns width limit from until o 0 o
  turn :
      {o : Option Window} {w : Window} {o' : Option Window} (now admitted total : ℕ)
      → from ≤ now
      → now < until
      → Turn width limit now admitted o w
      → Turns width limit from until (some w) total o'
      → Turns width limit from until o (admitted + total) o'

module _ (width limit from until : ℕ) where
  -- Inside one window.
  one_window :
      (w : Window) {o : Option Window} {total : ℕ}
      → until ≤ w.started_at + width
      → Turns width limit from until (some w) total o
      → (total ≡ 0) ⊎ (w.used + total ≤ limit)
  one_window w inside (done _) = ground arith
  one_window w inside (turn now admitted total _ before (goes_on _ used _ adds fits) rest) =
      ground
        (arith, one_window (record { started_at = w.started_at; used = used }) inside rest, fits)
  one_window w inside (turn now admitted total _ before (starts _ used over _ _) rest) =
      absurd (omega arith)

  -- From any window: what is left of it, and one more.
  two_windows :
      (w : Window) {o : Option Window} {total : ℕ}
      → until ≤ from + width
      → Turns width limit from until (some w) total o
      → total ≤ (limit - w.used) + limit
  two_windows w span (done _) = ground arith
  two_windows w span (turn now admitted total _ _ (goes_on _ used _ adds fits) rest) =
      ground
        (arith, two_windows (record { started_at = w.started_at; used = used }) span rest, fits)
  two_windows w span (turn now admitted total after _ (starts _ used _ adds fits) rest) =
      ground (arith, one_window (record { started_at = now; used = used }) (omega arith) rest, fits)

  -- Calls in a span of the width of a window fall into at most two windows, so they pass at most
  -- twice the limit, whatever the window was before.
  pub Turns-fits :
      {o o' : Option Window} {total : ℕ}
      → until ≤ from + width
      → Turns width limit from until o total o'
      → total ≤ 2 * limit
  Turns-fits {o = some w} span turns = omega (arith, two_windows w span turns)
  Turns-fits {o = none} span (done _) = omega arith
  Turns-fits {o = none} span (turn now admitted total after _ (starts _ used _ adds fits) rest) =
      ground (arith, one_window (record { started_at = now; used = used }) (omega arith) rest, fits)
