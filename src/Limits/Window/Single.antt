-- ===== src/Limits/Window/Single.antt =====
-- The limiter of a single caller, which admits a call while its window is not used up, is one of the
-- windows.
use workbuddy_buddy.Prelude.{
  ℕ, ◌+◌, ◌≤◌, ◌<◌, ◌≡◌, ◌⊎◌, Option, none, some, arith, Bool, true, false, List, [], ◌∷◌, leb,
  refl, inl, inr, Bool-cases, leb→le, if◌then◌else◌,
}
use workbuddy_buddy.Limits.Window.{Window, Turn, goes_on, starts}
use workbuddy_buddy.Limits.Window.Trace.{Passed, units_if, Trace, ends, turns}

-- The window that is in force at a time.
unfoldable pub in_force : ℕ → Option Window → ℕ → Window
in_force width none now = record { started_at = now; used = 0 }
in_force width (some w) now =
    if leb (w.started_at + width) now then record { started_at = now; used = 0 } else w

-- The limiter of a single caller, which counts what it admits.
unfoldable pub admit : ℕ → ℕ → Option Window → ℕ → Bool × Window
admit width limit o now =
    let w = in_force width o now in
    if leb limit w.used then (false, w) else (true, record w { used = w.used + 1 })

unfoldable pub admit_all : ℕ → ℕ → List ℕ → Option Window → List Bool
admit_all width limit [] o = []
admit_all width limit (now ∷ times) o =
    let (allowed, w) = admit width limit o now in allowed ∷ admit_all width limit times (some w)

-- The calls with what they pass.
unfoldable pub passed : List ℕ → List Bool → List Passed
passed [] answers = []
passed (now ∷ times) [] = []
passed (now ∷ times) (answer ∷ answers) =
    record { now = now; units = units_if answer 1 } ∷ passed times answers

pub passed-none : (times : List ℕ) → passed times [] ≡ []
unfolding passed
passed-none [] = refl
passed-none (now ∷ times) = refl

admit-Turn :
    (width limit : ℕ) (o : Option Window) (now : ℕ)
    → let (answer, w) = admit width limit o now in Turn width limit now (units_if answer 1) o w
unfolding admit in_force
admit-Turn width limit none now = elim (Bool-cases (leb limit 0)) [
  | inl e ↦ rw e (starts none 0 tt (omega arith) (inl refl))
  | inr e ↦ rw e (starts none 1 tt (omega arith) (inr (ground (arith, e))))
]
admit-Turn width limit (some w) now = elim (Bool-cases (leb (w.started_at + width) now)) [
  | inl over ↦
      let ended : w.started_at + width ≤ now = leb→le (w.started_at + width) now over in
      elim (Bool-cases (leb limit 0)) [
        | inl e ↦ rw (over, e) (starts (some w) 0 ended (omega arith) (inl refl))
        | inr e ↦ rw (over, e) (starts (some w) 1 ended (omega arith) (inr (ground (arith, e))))
      ]
  | inr runs ↦
      let inside : now < w.started_at + width = ground (arith, runs) in
      elim (Bool-cases (leb limit w.used)) [
        | inl e ↦ rw (runs, e) (goes_on w w.used inside (omega arith) (inl refl))
        | inr e ↦
            rw (runs, e) (goes_on w (w.used + 1) inside (omega arith) (inr (ground (arith, e))))
      ]
]

pub admit_all-Trace :
    (width limit : ℕ) (times : List ℕ) (o : Option Window)
    → Trace width limit o (passed times (admit_all width limit times o))
unfolding admit_all passed
admit_all-Trace width limit [] o = ends o
admit_all-Trace width limit (now ∷ times) o =
    let t = admit width limit o now in
    turns (record { now = now; units = units_if t.0 1 }) (admit-Turn width limit o now)
      (admit_all-Trace width limit times (some t.1))

-- A counter that adds to the window in force whether it admits or not.
unfoldable pub add_to : ℕ → ℕ → ℕ → Option Window → Window
add_to width now weight o = let w = in_force width o now in record w { used = w.used + weight }

admitted-le : (b : Bool) (weight : ℕ) → units_if b weight ≤ weight
admitted-le true weight = omega arith
admitted-le false weight = omega arith

-- It makes a turn if it admits only while the count is within the limit.
pub add_to-Turn :
    (width limit now weight : ℕ) (b : Bool) (o : Option Window)
    → (units_if b weight ≡ 0) ⊎ ((add_to width now weight o).used ≤ limit)
    → Turn width limit now (units_if b weight) o (add_to width now weight o)
unfolding add_to in_force
add_to-Turn width limit now weight b none =
    λ fits. starts none (0 + weight) tt (omega (arith, admitted-le b weight)) fits
add_to-Turn width limit now weight b (some w) = elim (Bool-cases (leb (w.started_at + width) now)) [
  | inl over ↦ rw over λ fits.
      starts (some w) (0 + weight) (leb→le (w.started_at + width) now over)
        (omega (arith, admitted-le b weight)) fits
  | inr runs ↦ rw runs λ fits.
      goes_on w (w.used + weight) (ground (arith, runs)) (omega (arith, admitted-le b weight)) fits
]
