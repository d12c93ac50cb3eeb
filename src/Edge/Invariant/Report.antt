-- ===== src/Edge/Invariant/Report.antt =====
-- Reports as the validator leaves them: one event or more, numbered on from first_sequence, in the
-- range of the protocol.
use workbuddy_buddy.Prelude.{ℕ, ◌+◌, ◌≤◌, ◌<◌, ◌≡◌, refl, List, [], ◌∷◌, arith, All, length}
use workbuddy_buddy.Edge.Problem.{ok}
use workbuddy_buddy.Edge.Types.{EdgeEvent, sequence, PreparedEdgeReport, max_safe_sequence}
use workbuddy_buddy.Edge.Boot.{last_sequence}
use workbuddy_buddy.Edge.Validator.{assert_contiguous}
use workbuddy_buddy.Edge.Activity.Step.{final_sequence}

abbrev pub Contiguous : ℕ → List EdgeEvent → Type 0
Contiguous first [] = Unit
Contiguous first (e ∷ es) =
    (sequence e ≡ first) × (first ≤ max_safe_sequence) × Contiguous (first + 1) es

-- `events` holds one event or more, numbered on from `first`.
abbrev pub Numbered : ℕ → List EdgeEvent → Type 0
Numbered first [] = ⊥
Numbered first (e ∷ es) = Contiguous first (e ∷ es)

-- The schema asks that sequences are positive, and the validator that they are numbered on.
abbrev pub IsPrepared : PreparedEdgeReport → Type 0
IsPrepared report =
    (0 < report.envelope.first_sequence)
    × Numbered report.envelope.first_sequence report.envelope.events

pub Contiguous-bounded :
    (first : ℕ) (es : List EdgeEvent)
    → Contiguous first es
    → All (λ e. sequence e ≤ max_safe_sequence) es
Contiguous-bounded first [] h = tt
Contiguous-bounded first (e ∷ es) h = (rw h.0 h.1, Contiguous-bounded (first + 1) es h.2)

-- The last event has the last number.
pub final_sequence-Contiguous :
    (n : ℕ) (es : List EdgeEvent) → Contiguous (n + 1) es → final_sequence n es ≡ n + length es
unfolding final_sequence
final_sequence-Contiguous n [] h = omega arith
final_sequence-Contiguous n (e ∷ es) h =
    rw h.0 (omega (arith, final_sequence-Contiguous (n + 1) es h.2))

pub final_sequence-le :
    (n : ℕ) (es : List EdgeEvent)
    → n ≤ max_safe_sequence
    → All (λ e. sequence e ≤ max_safe_sequence) es
    → final_sequence n es ≤ max_safe_sequence
unfolding final_sequence
final_sequence-le n [] l h = l
final_sequence-le n (e ∷ es) l h = final_sequence-le (sequence e) es h.0 h.1

assert_contiguous-Contiguous :
    (first : ℕ) (es : List EdgeEvent) → assert_contiguous first es ≡ ok tt → Contiguous first es
unfolding assert_contiguous
assert_contiguous-Contiguous first [] h = tt
assert_contiguous-Contiguous first (e ∷ es) h =
    ground (arith, assert_contiguous-Contiguous (first + 1) es)

-- A numbered list shows its first event.
pub Numbered-cons :
    (first : ℕ) (events : List EdgeEvent)
    → Numbered first events
    → (e : EdgeEvent) × (es : List EdgeEvent) × (events ≡ e ∷ es) × Contiguous first (e ∷ es)
Numbered-cons first [] h = absurd h
Numbered-cons first (e ∷ es) h = (e, es, refl, h)

-- The last event of a report carries `last_sequence`, which is in range.
pub last_sequence-reached :
    (report : PreparedEdgeReport) (e : EdgeEvent) (es : List EdgeEvent)
    → report.envelope.events ≡ e ∷ es
    → Contiguous report.envelope.first_sequence (e ∷ es)
    → (final_sequence (sequence e) es ≡ last_sequence report)
      × (last_sequence report ≤ max_safe_sequence)
      × (report.envelope.first_sequence ≤ last_sequence report)
unfolding last_sequence
last_sequence-reached report e es shape h =
    let first = report.envelope.first_sequence in
    let n = final_sequence-Contiguous first es h.2 in
    let le = final_sequence-le first es h.1 (Contiguous-bounded (first + 1) es h.2) in
    rw (shape, h.0) (omega (arith, n), omega (arith, n, le), omega arith)
