-- ===== src/Edge/Ingest/Expected.antt =====
-- The sequence that a report has to start at: that which its boot expects, or the first of a new boot.
use workbuddy_buddy.Prelude.{
  ℕ, ◌≡◌, refl, sym, ap, ◌∙◌, ◌⊎◌, inl, inr, true, false, Option, none, some, arith,
}
use workbuddy_buddy.Edge.Problem.{ok, >>=-eq-ok}
use workbuddy_buddy.Edge.Types.{Text, PreparedEdgeReport, normalize_uuid, normalize_nullable_uuid}
use workbuddy_buddy.Edge.Store.{HeadRow, BootRow, Store, parse_safe_integer}
use workbuddy_buddy.Edge.Boot.{
  BootDecision, find_boot, establish_boot, continue_boot, decide_boot, check_sequence,
  expected_sequence,
}

establish_boot-first :
    (h : HeadRow) (n : ℕ) (found : Option BootRow) (previous : Option Text)
    (report : PreparedEdgeReport) (d : BootDecision)
    → establish_boot h n found previous report ≡ ok d
    → (d.boot ≡ none) × (report.envelope.first_sequence ≡ 1)
unfolding establish_boot
establish_boot-first h n found previous report d e = ground arith

continue_boot-old :
    (found : Option BootRow) (previous : Option Text) (d : BootDecision)
    → continue_boot found previous ≡ ok d
    → d.is_new_boot ≡ false
unfolding continue_boot
continue_boot-old none previous d e = ground arith
continue_boot-old (some b) previous d e = ground (arith)

-- A new boot starts at its first sequence.
pub decide_boot-first :
    (h : HeadRow) (s : Store) (report : PreparedEdgeReport) (d : BootDecision)
    → decide_boot h s.boots report ≡ ok d
    → (d.is_new_boot ≡ false) ⊎ ((d.boot ≡ none) × (report.envelope.first_sequence ≡ 1))
unfolding decide_boot
decide_boot-first h s report d e =
    let requested = normalize_uuid report.envelope.boot_id in
    let previous = normalize_nullable_uuid report.envelope.previous_boot_id in
    let found = find_boot requested s.boots in
    let (n, _, e') = >>=-eq-ok (parse_safe_integer h.current_boot_generation true) _ e in
    ground (
      arith,
      e',
      continue_boot-old found previous d,
      establish_boot-first h n found previous report d,
    )

expected_sequence-none : (d : BootDecision) → d.boot ≡ none → expected_sequence d ≡ ok 1
unfolding expected_sequence
expected_sequence-none d e = rw e refl

-- The check passes only a report that starts where its boot goes on.
pub check_sequence-expected :
    (d : BootDecision) (s : Store) (report : PreparedEdgeReport)
    → (d.is_new_boot ≡ false) ⊎ ((d.boot ≡ none) × (report.envelope.first_sequence ≡ 1))
    → check_sequence d s report ≡ ok none
    → expected_sequence d ≡ ok report.envelope.first_sequence
unfolding check_sequence
check_sequence-expected d s report (inl old) e =
    let (n, p, e') = >>=-eq-ok (expected_sequence d) _ e in p ∙ ap ok (ground (arith, e'))
check_sequence-expected d s report (inr (fresh, first)) e =
    expected_sequence-none d fresh ∙ ap ok (sym first)
