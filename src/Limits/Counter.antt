-- ===== src/Limits/Counter.antt =====
-- Limiters that keep a row for each caller, behind one interface, and the bound that follows from it.
use mathlib.Core.Path.{subst}
use workbuddy_buddy.Prelude.{
  ℕ, ◌+◌, ◌*◌, ◌≤◌, ◌≡◌, ◌⊎◌, sym, ap, inl, inr, Bool, false, Option, none, some, List, [], ◌∷◌,
  if◌then◌else◌, Bool-cases,
}
use workbuddy_buddy.Edge.Types.{Text, text_eq, text_eq_iff}
use workbuddy_buddy.Limits.Table.{Table, get}
use workbuddy_buddy.Limits.Window.{Window, Turn}
use workbuddy_buddy.Limits.Window.Trace.{
  Passed, units_if, passed_between, IsOrdered, IsOrdered-earlier, Trace, ends, turns, refused,
  Trace-fits,
}

-- A limiter of requests `R` with rows `V`, seen through one of its counters.
pub record Counter {ℓ κ} (V : Type ℓ) (R : Type κ) : Type (ℓ ⊔ κ) where
  pub width : ℕ
  pub limit : ℕ
  pub caller : R → Text
  pub now : R → ℕ
  pub weight : R → ℕ
  pub consume : R → Table V → Bool × Table V
  pub view : V → Window

module _ {ℓ κ} {V : Type ℓ} {R : Type κ} where
  abbrev pub view_of : Counter V R → Option V → Option Window
  view_of counter none = none
  view_of counter (some row) = some (counter.view row)

  -- A request makes a turn of its caller's window, or it is refused and the row stays.
  abbrev pub IsTurn : Counter V R → R → Table V → Type 0
  IsTurn counter r rows =
      ((w : Window) × Turn counter.width counter.limit (counter.now r)
          (units_if (counter.consume r rows).0 (counter.weight r))
          (view_of counter (get (counter.caller r) rows)) w
        × (view_of counter (get (counter.caller r) (counter.consume r rows).1) ≡ some w))
      ⊎ (((counter.consume r rows).0 ≡ false)
          × (view_of counter (get (counter.caller r) (counter.consume r rows).1)
              ≡ view_of counter (get (counter.caller r) rows)))

  -- The laws of a counter.
  pub record IsCounter (counter : Counter V R) : Type (ℓ ⊔ κ) where
    pub own : (r : R) (rows : Table V) → IsTurn counter r rows
    pub other :
        (r : R) (rows : Table V) (key : Text)
        → text_eq (counter.caller r) key ≡ false
        → get key (counter.consume r rows).1 ≡ get key rows

  -- What a caller passes in a history of requests.
  unfoldable pub own_passed : Counter V R → Text → List R → Table V → List Passed
  own_passed counter key [] rows = []
  own_passed counter key (r ∷ rs) rows =
      let (answer, after) = counter.consume r rows in
      let rest = own_passed counter key rs after in
      if text_eq (counter.caller r) key
      then record { now = counter.now r; units = units_if answer (counter.weight r) } ∷ rest
      else rest

  abbrev pub IsTimely : Counter V R → ℕ → List R → Type 0
  IsTimely counter since [] = Unit
  IsTimely counter since (r ∷ rs) = (since ≤ counter.now r) × IsTimely counter (counter.now r) rs

  IsTurn-Trace :
      (counter : Counter V R) (r : R) (rows : Table V) (ps : List Passed)
      → IsTurn counter r rows
      → Trace counter.width counter.limit
          (view_of counter (get (counter.caller r) (counter.consume r rows).1))
          ps
      → Trace counter.width counter.limit (view_of counter (get (counter.caller r) rows)) (
          record {
            now = counter.now r;
            units = units_if (counter.consume r rows).0 (counter.weight r);
          }
          ∷ ps)
  IsTurn-Trace counter r rows ps (inl (w, t, after)) rest =
      turns _ t (subst (λ o. Trace counter.width counter.limit o ps) after rest)
  IsTurn-Trace counter r rows ps (inr (no_answer, after)) rest =
      refused _ (ap (λ b. units_if b (counter.weight r)) no_answer)
        (subst (λ o. Trace counter.width counter.limit o ps) after rest)

  module _ (counter : Counter V R) (laws : IsCounter counter) (key : Text) where
    own_passed-IsOrdered :
        (since : ℕ) (rs : List R) (rows : Table V)
        → IsTimely counter since rs
        → IsOrdered since (own_passed counter key rs rows)
    unfolding own_passed
    own_passed-IsOrdered since [] rows i = tt
    own_passed-IsOrdered since (r ∷ rs) rows (l, i) =
        let rest = own_passed-IsOrdered (counter.now r) rs (counter.consume r rows).1 i in
        elim (Bool-cases (text_eq (counter.caller r) key)) [
          | inl own ↦ rw own (l, rest)
          | inr other ↦ rw other (IsOrdered-earlier since (counter.now r) _ l rest)
        ]

    own_passed-Trace :
        (rs : List R) (rows : Table V)
        → Trace counter.width counter.limit
            (view_of counter (get key rows))
            (own_passed counter key rs rows)
    unfolding own_passed
    own_passed-Trace [] rows = ends _
    own_passed-Trace (r ∷ rs) rows =
        let rest = own_passed-Trace rs (counter.consume r rows).1 in
        elim (Bool-cases (text_eq (counter.caller r) key)) [
          | inr differs ↦ rw differs (rw (sym (laws.other r rows key differs)) rest)
          | inl own ↦
              let same : counter.caller r ≡ key = (text_eq_iff (counter.caller r) key).0 own in
              rw (own, sym same) (IsTurn-Trace counter r rows _ (laws.own r rows) (rw same rest))
        ]

    -- Whatever other callers do, a caller passes at most twice the limit in a span of the width of a
    -- window.
    pub own_passed-fits :
        (from until : ℕ) (rs : List R) (rows : Table V)
        → until ≤ from + counter.width
        → IsTimely counter 0 rs
        → passed_between from until (own_passed counter key rs rows) ≤ 2 * counter.limit
    own_passed-fits from until rs rows span i =
        Trace-fits counter.width counter.limit from until 0 span (own_passed-Trace rs rows)
          (own_passed-IsOrdered 0 rs rows i)
