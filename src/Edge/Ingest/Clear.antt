-- ===== src/Edge/Ingest/Clear.antt =====
-- The rows of a report that starts where its boot goes on violate no constraint of the tables.
use mathlib.Core.Path.{subst}
use workbuddy_buddy.Prelude.{
  ℕ, ◌≡◌, sym, ap, ◌∙◌, ◌⊎◌, inl, inr, true, Option, none, some, arith, All-keep,
}
use workbuddy_buddy.Edge.Problem.{Result, ok}
use workbuddy_buddy.Edge.Types.{Text, PreparedEdgeReport}
use workbuddy_buddy.Edge.Store.{HeadRow, Store, parse_safe_integer}
use workbuddy_buddy.Edge.Boot.{BootDecision, expected_sequence}
use workbuddy_buddy.Edge.Boot.Decision.{Continues, Establishes}
use workbuddy_buddy.Edge.Rollover.{Rolled, fence_previous_boot, scrub_fenced_boot_replay_material}
use workbuddy_buddy.Edge.Commit.Enter.{Entered, IsCurrent-presence}
use workbuddy_buddy.Edge.Invariant.{CurrentHolds}
use workbuddy_buddy.Edge.Invariant.Log.{
  LogBelow, LogBelow-more, IsLogged, IsNewId, next_of, fence-LogBelow,
}

pub parse-eq : (n m : ℕ) → parse_safe_integer n true ≡ ok m → m ≡ n
unfolding parse_safe_integer
parse-eq n m e = ground arith

fence-IsNewId :
    (id : Text) (o : Option Text) (received : ℕ) (s : Store)
    → IsNewId id s
    → IsNewId id (fence_previous_boot o received s)
unfolding fence_previous_boot scrub_fenced_boot_replay_material
fence-IsNewId id none received s h = h
fence-IsNewId id (some previous) received s h = All-keep _ _ s.receipts h

module _ (now : ℕ) (h : HeadRow) (d : BootDecision) (report : PreparedEdgeReport) (s : Store)
    (current : CurrentHolds now h s.boots s.presence) (logged : IsLogged h s) where
  -- Where a report starts that goes on with its boot, or starts one, nothing is recorded.
  expected-LogBelow :
      Continues s.boots report d ⊎ Establishes h report d
      → expected_sequence d ≡ ok report.envelope.first_sequence
      → LogBelow d.boot_generation report.envelope.first_sequence s
  unfolding expected_sequence
  expected-LogBelow (inl on) e =
      let (p, _, k) =
        IsCurrent-presence now h on.boot on.others s.presence
          (subst (λ bs. CurrentHolds now h bs s.presence) on.shape current) in
      let reached =
        parse-eq on.boot.next_sequence report.envelope.first_sequence
          (ap expected_sequence (sym on.decision) ∙ e) in
      LogBelow-more h.current_boot_generation (next_of s.boots) d.boot_generation
        report.envelope.first_sequence s
        (inr (
          k.generation ∙ ap (λ x. x.boot_generation) (sym on.decision),
          omega (arith, reached, ap next_of on.shape),
        ))
        logged
  expected-LogBelow (inr est) e =
      LogBelow-more h.current_boot_generation (next_of s.boots) d.boot_generation
        report.envelope.first_sequence s (inl (omega (arith, est.generation))) logged

  -- Entering the boot records nothing.
  pub Entered-LogBelow :
      {received : ℕ} {result : Result Rolled}
      → (entered : Entered received d report s result)
      → Continues s.boots report d ⊎ Establishes h report d
      → expected_sequence d ≡ ok report.envelope.first_sequence
      → LogBelow d.boot_generation report.envelope.first_sequence entered.rolled.store
  Entered-LogBelow {received} entered kind e =
      let below = expected-LogBelow kind e in
      elim entered.kept [
        | inl (_, same) ↦
            subst (LogBelow d.boot_generation report.envelope.first_sequence) (sym same) below
        | inr (_, o, receipts, fingerprints) ↦
            let fenced =
              fence-LogBelow d.boot_generation report.envelope.first_sequence o received s below in
            record {
              receipts = rw receipts fenced.receipts;
              fingerprints = rw fingerprints fenced.fingerprints;
            }
      ]

  pub Entered-IsNewId :
      {received : ℕ} {result : Result Rolled}
      → (id : Text) (entered : Entered received d report s result) → IsNewId id s
      → IsNewId id entered.rolled.store
  Entered-IsNewId {received} id entered fresh = elim entered.kept [
    | inl (_, same) ↦ subst (IsNewId id) (sym same) fresh
    | inr (_, o, receipts, _) ↦ rw receipts (fence-IsNewId id o received s fresh)
  ]
