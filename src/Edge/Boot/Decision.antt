-- ===== src/Edge/Boot/Decision.antt =====
-- What decide_boot accepts: the current boot, or a successor of it that starts with a snapshot.
use workbuddy_buddy.Prelude.{
  ℕ, ◌+◌, ◌≤◌, ◌<◌, ◌≡◌, refl, sym, ap, ◌∙◌, ◌⊎◌, inl, inr, true, false, Option, none, some, List,
  [], ◌∷◌, arith, Bool-cases,
}
use workbuddy_buddy.Edge.Problem.{ok}
use workbuddy_buddy.Edge.Types.{
  Text, text_eq_iff, nullable_eq, nullable_eq_iff, max_safe_sequence, PreparedEdgeReport,
  normalize_uuid, normalize_nullable_uuid,
}
use workbuddy_buddy.Edge.Store.{HeadRow, BootRow, PresenceRow}
use workbuddy_buddy.Edge.Boot.{
  BootDecision, find_boot, starts_with_state_transition, establish_boot, continue_boot, decide_boot,
}
use workbuddy_buddy.Edge.Invariant.{CurrentHolds}
use workbuddy_buddy.Edge.Activity.Events.{parse-returns}

-- The report goes on with the boot that the head points to.
pub record Continues (boots : List BootRow) (report : PreparedEdgeReport) (d : BootDecision)
    : Type 0 where
  pub boot : BootRow
  pub others : List BootRow
  pub shape : boots ≡ boot ∷ others
  pub boot_id : boot.boot_id ≡ normalize_uuid report.envelope.boot_id
  pub previous : normalize_nullable_uuid report.envelope.previous_boot_id ≡ boot.previous_boot_id
  pub decision :
      d ≡ record { boot = some boot; boot_generation = boot.generation; is_new_boot = false }

-- The report starts a boot that follows the current one.
pub record Establishes (h : HeadRow) (report : PreparedEdgeReport) (d : BootDecision) : Type 0 where
  pub boot : d.boot ≡ none
  pub generation : d.boot_generation ≡ h.current_boot_generation + 1
  pub is_new : d.is_new_boot ≡ true
  pub previous : normalize_nullable_uuid report.envelope.previous_boot_id ≡ h.current_boot_id
  pub room : h.current_boot_generation < max_safe_sequence
  pub first : report.envelope.first_sequence ≡ 1
  pub starts : starts_with_state_transition report.envelope.events ≡ true

establish_boot-Establishes :
    (h : HeadRow) (found : Option BootRow) (report : PreparedEdgeReport) (d : BootDecision)
    → establish_boot h h.current_boot_generation found
        (normalize_nullable_uuid report.envelope.previous_boot_id)
        report
      ≡ ok d
    → Establishes h report d
unfolding establish_boot
establish_boot-Establishes h found report d e = record {
  boot = ground arith;
  generation = ground arith;
  is_new = ground arith;
  previous = ground (
    arith,
    nullable_eq_iff (normalize_nullable_uuid report.envelope.previous_boot_id) h.current_boot_id,
  );
  room = ground arith;
  first = ground arith;
  starts = ground arith;
}

continue_boot-Continues :
    (b : BootRow) (bs : List BootRow) (report : PreparedEdgeReport) (d : BootDecision)
    → b.generation ≤ max_safe_sequence
    → b.boot_id ≡ normalize_uuid report.envelope.boot_id
    → continue_boot (some b) (normalize_nullable_uuid report.envelope.previous_boot_id) ≡ ok d
    → Continues (b ∷ bs) report d
unfolding continue_boot
continue_boot-Continues b bs report d r i e = record {
  boot = b;
  others = bs;
  shape = refl;
  boot_id = i;
  previous = ground (
    arith,
    nullable_eq_iff (normalize_nullable_uuid report.envelope.previous_boot_id) b.previous_boot_id,
  );
  decision = ground (arith, parse-returns b.generation false r);
}

pub find_boot-head :
    (t : Text) (b : BootRow) (bs : List BootRow) → b.boot_id ≡ t → find_boot t (b ∷ bs) ≡ some b
unfolding find_boot
find_boot-head t b bs e = rw ((text_eq_iff b.boot_id t).1 e)

module _ (h : HeadRow) (boots : List BootRow) (report : PreparedEdgeReport)
    (range : h.current_boot_generation ≤ max_safe_sequence) where
  pub decide_boot-other :
      nullable_eq h.current_boot_id (some (normalize_uuid report.envelope.boot_id)) ≡ false
      → decide_boot h boots report
        ≡ establish_boot h h.current_boot_generation
            (find_boot (normalize_uuid report.envelope.boot_id) boots)
            (normalize_nullable_uuid report.envelope.previous_boot_id)
            report
  unfolding decide_boot
  decide_boot-other e = rw (parse-returns h.current_boot_generation true range, e) refl

  pub decide_boot-same :
      nullable_eq h.current_boot_id (some (normalize_uuid report.envelope.boot_id)) ≡ true
      → decide_boot h boots report
        ≡ continue_boot
            (find_boot (normalize_uuid report.envelope.boot_id) boots)
            (normalize_nullable_uuid report.envelope.previous_boot_id)
  unfolding decide_boot
  decide_boot-same e = rw (parse-returns h.current_boot_generation true range, e) refl

module _ (now : ℕ) (h : HeadRow) (report : PreparedEdgeReport) (d : BootDecision) where
  -- Every accepted decision is of one of the two kinds.
  pub decide_boot-cases :
      (boots : List BootRow) (presence : Option PresenceRow)
      → CurrentHolds now h boots presence
      → decide_boot h boots report ≡ ok d
      → Continues boots report d ⊎ Establishes h report d
  decide_boot-cases [] none (c, g) e = inr (
      establish_boot-Establishes h (find_boot (normalize_uuid report.envelope.boot_id) []) report d
        (sym (decide_boot-other h [] report (omega arith) (rw c (unfold nullable_eq in refl))) ∙ e))
  decide_boot-cases [] (some p) c e = absurd c
  decide_boot-cases (b ∷ bs) none c e = absurd c
  decide_boot-cases (b ∷ bs) (some p) c e =
      let requested = normalize_uuid report.envelope.boot_id in
      let range : h.current_boot_generation ≤ max_safe_sequence = rw c.generation c.range in
      elim (Bool-cases (nullable_eq h.current_boot_id (some requested))) [
        | inl same ↦
            let known : b.boot_id ≡ requested =
              cc (c.boot_id, (nullable_eq_iff h.current_boot_id (some requested)).0 same) in
            inl (
              continue_boot-Continues b bs report d c.range known (
                sym (
                  ap
                    (λ f.
                      continue_boot f (normalize_nullable_uuid report.envelope.previous_boot_id))
                    (find_boot-head requested b bs known))
                ∙ sym (decide_boot-same h (b ∷ bs) report range same)
                ∙ e))
        | inr other ↦ inr (
            establish_boot-Establishes h (find_boot requested (b ∷ bs)) report d
              (sym (decide_boot-other h (b ∷ bs) report range other) ∙ e))
      ]
