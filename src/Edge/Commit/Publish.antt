-- ===== src/Edge/Commit/Publish.antt =====
-- The calls of the projector at the end of the transaction: they add to the calls it has taken, or
-- the transaction fails.
use workbuddy_buddy.Prelude.{ℕ, ◌≡◌, refl, Bool, true, false, List, [], ◌∷◌, arith}
use workbuddy_buddy.Edge.Problem.{ok}
use workbuddy_buddy.Edge.Types.{Text}
use workbuddy_buddy.Edge.Store.{HeadRow, Store, Env, RevisionInput, append_office_revisions}
use workbuddy_buddy.Edge.Commit.{publish, report_revision}
use workbuddy_buddy.Edge.Invariant.{Consistent}

module _ (env : Env) (changed : Bool) (offices : List Text) (received : ℕ) where
  -- Only the projector's log changes.
  pub publish-eq :
      (s t : Store)
      → publish env changed offices received s ≡ ok t
      → t ≡ record s { revisions = t.revisions }
  unfolding publish
  publish-eq s t e = ground arith

  -- So what holds of the rows still holds.
  pub publish-Consistent :
      (now : ℕ) (h : HeadRow) (s t : Store)
      → publish env changed offices received s ≡ ok t
      → Consistent now h s
      → Consistent now h t
  publish-Consistent now h s t e c =
      rw (publish-eq s t e) (record { head = c.head; current = c.current; shown = c.shown })

-- A projector that takes every call.
abbrev pub IsAccepting : Env → Type 0
IsAccepting env =
    (taken : List RevisionInput) (i : RevisionInput) → env.projector_accepts taken i ≡ true

pub append_all-returns :
    (accepts : List RevisionInput → RevisionInput → Bool) (input : Text → RevisionInput)
    (offices : List Text) (taken : List RevisionInput)
    → ((taken : List RevisionInput) (i : RevisionInput) → accepts taken i ≡ true)
    → (taken' : List RevisionInput) × (append_office_revisions accepts input offices taken
        ≡ ok taken')
unfolding append_office_revisions
append_all-returns accepts input [] taken a = (taken, refl)
append_all-returns accepts input (o ∷ os) taken a =
    let (taken', e) = append_all-returns accepts input os (input o ∷ taken) a in
    (taken', rw (a taken (input o)) e)

pub publish-returns :
    (env : Env) (changed : Bool) (offices : List Text) (received : ℕ) (s : Store)
    → IsAccepting env
    → (t : Store) × (publish env changed offices received s ≡ ok t)
unfolding publish
publish-returns env false offices received s a = (s, refl)
publish-returns env true offices received s a =
    let (taken, e) =
      append_all-returns env.projector_accepts (report_revision env.receipt_id received) offices
        s.revisions a in
    (record s { revisions = taken }, rw e refl)
