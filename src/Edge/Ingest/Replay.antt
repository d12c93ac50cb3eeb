-- ===== src/Edge/Ingest/Replay.antt =====
-- What a replay reads: the receipt of a report that was committed, and the decision on its boot.
use workbuddy_buddy.Prelude.{
  ℕ, ◌+◌, ◌≤◌, ◌≡◌, refl, ap, ◌∙◌, true, false, some, List, ◌∷◌, arith, ==_iff,
}
use workbuddy_buddy.Edge.Problem.{ok}
use workbuddy_buddy.Edge.Types.{
  VerifiedEdgeContext, PreparedEdgeReport, max_safe_sequence, normalize_uuid,
  normalize_nullable_uuid, nullable_eq_iff,
}
use workbuddy_buddy.Edge.Store.{HeadRow, BootRow, ReceiptRow, Env, parse_safe_integer}
use workbuddy_buddy.Edge.Boot.{
  continue_boot, decide_boot, find_boot, last_sequence, find_receipt, ack_from_receipt,
}
use workbuddy_buddy.Edge.Boot.Decision.{decide_boot-same, find_boot-head}
use workbuddy_buddy.Edge.Commit.{new_receipt}
use workbuddy_buddy.Edge.Activity.Events.{parse-returns}

pub parse_past-returns : (n : ℕ) → n ≤ max_safe_sequence + 1 → parse_safe_integer n true ≡ ok n
unfolding parse_safe_integer
parse_past-returns n h = ground arith

module _ (env : Env) (report : PreparedEdgeReport) (verified : VerifiedEdgeContext)
    (generation received lease : ℕ) where
  abbrev pub stored : ReceiptRow
  stored = new_receipt env report verified generation (last_sequence report) received lease

  -- The newest receipt is found first.
  pub find_receipt-new :
      (rs : List ReceiptRow)
      → find_receipt generation report.envelope.first_sequence (last_sequence report) (stored ∷ rs)
        ≡ some stored
  unfolding find_receipt new_receipt
  find_receipt-new rs =
      rw
        (
          (==_iff generation generation).1 refl,
          (==_iff report.envelope.first_sequence report.envelope.first_sequence).1 refl,
          (==_iff (last_sequence report) (last_sequence report)).1 refl,
        )
        refl

  pub stored-ack :
      last_sequence report ≤ max_safe_sequence
      → ack_from_receipt stored
        ≡ ok (record {
          current_protocol = 1;
          min_supported_protocol = 1;
          instance_id = normalize_uuid verified.instance_id;
          boot_id = normalize_uuid report.envelope.boot_id;
          accepted_through_sequence = last_sequence report;
          server_received_at = received;
          lease_expires_at = lease;
        })
  unfolding ack_from_receipt new_receipt
  stored-ack h =
      rw (parse-returns 1 false (omega arith), parse-returns (last_sequence report) false h) refl

-- The decision on a boot that stands at the head of the boots, with the report's ids.
pub decide_boot-current :
    (h : HeadRow) (b : BootRow) (bs boots : List BootRow) (report : PreparedEdgeReport)
    → boots ≡ b ∷ bs
    → h.current_boot_id ≡ some b.boot_id
    → h.current_boot_generation ≡ b.generation
    → b.generation ≤ max_safe_sequence
    → b.boot_id ≡ normalize_uuid report.envelope.boot_id
    → b.previous_boot_id ≡ normalize_nullable_uuid report.envelope.previous_boot_id
    → decide_boot h boots report
      ≡ ok (record { boot = some b; boot_generation = b.generation; is_new_boot = false })
unfolding continue_boot
decide_boot-current h b bs boots report shape c g r i p =
    decide_boot-same h boots report (rw g r) ((nullable_eq_iff _ _).1 (c ∙ ap some i))
    ∙ ap (λ f. continue_boot f (normalize_nullable_uuid report.envelope.previous_boot_id))
        (ap (find_boot (normalize_uuid report.envelope.boot_id)) shape
          ∙ find_boot-head (normalize_uuid report.envelope.boot_id) b bs i)
    ∙ rw (p, (nullable_eq_iff _ _).1 refl, parse-returns b.generation false r) refl
