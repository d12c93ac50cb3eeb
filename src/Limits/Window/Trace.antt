-- ===== src/Limits/Window/Trace.antt =====
-- What a caller passes, call after call, and its bound in a span of the width of a window.
use workbuddy_buddy.Prelude.{
  ℕ, ◌+◌, ◌*◌, ◌≤◌, ◌≡◌, refl, Option, some, List, [], ◌∷◌, Bool, true, false, ◌&&◌, leb, ltb,
  if◌then◌else◌, Bool-cases, inl, inr, leb→le, ltb→lt, arith,
}
use workbuddy_buddy.Limits.Window.{Window, Turn, Turns, done, turn, Turns-fits}

-- One call: its time, and how much of it was admitted.
pub record Passed : Type 0 where
  pub now : ℕ
  pub units : ℕ

abbrev pub units_if : Bool → ℕ → ℕ
units_if true units = units
units_if false units = 0

-- How much has passed between two times, the later one excluded.
unfoldable pub passed_between : ℕ → ℕ → List Passed → ℕ
passed_between from until [] = 0
passed_between from until (p ∷ ps) =
    (if leb from p.now && ltb p.now until then p.units else 0) + passed_between from until ps

-- Times that do not go back.
abbrev pub IsOrdered : ℕ → List Passed → Type 0
IsOrdered since [] = Unit
IsOrdered since (p ∷ ps) = (since ≤ p.now) × IsOrdered p.now ps

pub IsOrdered-earlier :
    (since now : ℕ) (ps : List Passed) → since ≤ now → IsOrdered now ps → IsOrdered since ps
IsOrdered-earlier since now [] l i = tt
IsOrdered-earlier since now (p ∷ ps) l (le, i) = (omega arith, i)

-- Each call is a turn of the window, or is refused and leaves no mark.
pub data Trace (width limit : ℕ) : Option Window → List Passed → Type 0 where
  ends : (o : Option Window) → Trace width limit o []
  turns :
      {o : Option Window} {w : Window} {ps : List Passed} (p : Passed)
      → Turn width limit p.now p.units o w
      → Trace width limit (some w) ps
      → Trace width limit o (p ∷ ps)
  refused :
      {o : Option Window} {ps : List Passed} (p : Passed)
      → p.units ≡ 0
      → Trace width limit o ps
      → Trace width limit o (p ∷ ps)

module _ (width limit from until : ℕ) where
  none_later :
      (since : ℕ) (ps : List Passed)
      → until ≤ since
      → IsOrdered since ps
      → passed_between from until ps ≡ 0
  unfolding passed_between
  none_later since [] l i = refl
  none_later since (p ∷ ps) l (le, i) = ground (arith, none_later p.now ps (omega (arith, le, l)) i)

  inside :
      (p : Passed)
      → from ≤ p.now
      → ltb p.now until ≡ true
      → (if leb from p.now && ltb p.now until then p.units else 0) ≡ p.units
  inside p l e = ground (arith, l, e)

  passed_between-refused :
      (p : Passed) (ps : List Passed)
      → p.units ≡ 0
      → passed_between from until (p ∷ ps) ≡ passed_between from until ps
  unfolding passed_between
  passed_between-refused p ps e = ground (arith, e)

  Trace-Turns :
      {o : Option Window} {ps : List Passed} (since : ℕ)
      → from ≤ since
      → Trace width limit o ps
      → IsOrdered since ps
      → (o' : Option Window) × Turns width limit from until o (passed_between from until ps) o'
  unfolding passed_between
  Trace-Turns since l (ends o) i = (o, done o)
  Trace-Turns since l (refused {ps = ps} p e rest) (le, i) =
      let (o', t) = Trace-Turns p.now (omega (arith, l, le)) rest i in
      (o', rw (passed_between-refused p ps e) t)
  Trace-Turns since l (turns {o = o} {ps = ps} p t rest) (le, i) =
      elim (Bool-cases (ltb p.now until)) [
        | inl before ↦
            let started : from ≤ p.now = omega (arith, l, le) in
            let (o', ts) = Trace-Turns p.now started rest i in
            (
              o',
              rw (inside p started before)
                  (turn p.now p.units _ started (ltb→lt p.now until before) t ts),
            )
        | inr over ↦
            (o, rw (none_later p.now (p ∷ ps) (ground (arith, over)) (omega arith, i)) (done o))
      ]

  -- Whatever the window was, a span of its width passes at most twice the limit.
  pub Trace-fits :
      {o : Option Window} {ps : List Passed} (since : ℕ)
      → until ≤ from + width
      → Trace width limit o ps
      → IsOrdered since ps
      → passed_between from until ps ≤ 2 * limit
  unfolding passed_between
  Trace-fits since span (ends o) i = omega arith
  Trace-fits since span (refused {ps = ps} p e rest) (le, i) =
      rw (passed_between-refused p ps e) (Trace-fits p.now span rest i)
  Trace-fits since span (turns {ps = ps} p t rest) (le, i) = elim (Bool-cases (leb from p.now)) [
    | inl started ↦
        let (o', ts) =
          Trace-Turns from (omega arith) (turns p t rest) (leb→le from p.now started, i) in
        Turns-fits width limit from until span ts
    | inr early ↦ rw early (omega (arith, Trace-fits p.now span rest i))
  ]
