-- ===== src/Edge/Ingest/Order.antt =====
-- Which reports write: those that start at the sequence that their boot expects.
use workbuddy_buddy.Prelude.{◌≡◌, refl, ◌⊎◌, inl, inr}
use workbuddy_buddy.Edge.Problem.{ok}
use workbuddy_buddy.Edge.Types.{EdgeReportAck, VerifiedEdgeContext, PreparedEdgeReport}
use workbuddy_buddy.Edge.Store.{HeadRow, Store, Env}
use workbuddy_buddy.Edge.Boot.{BootDecision, decide_boot, expected_sequence}
use workbuddy_buddy.Edge.Ingest.{lock_head, ingest_in_transaction, ingest}
use workbuddy_buddy.Edge.Ingest.Consistency.{transaction-Committed}
use workbuddy_buddy.Edge.Ingest.Expected.{decide_boot-first, check_sequence-expected}
use workbuddy_buddy.Edge.Ingest.Safety.{checked_rule, settle_rule}

-- The boot that a store's head gives a report, and the sequence that it has to start at.
abbrev pub GoesOn : PreparedEdgeReport → Store → Type 0
GoesOn report s =
    (h : HeadRow) × (d : BootDecision) × (lock_head s ≡ ok h)
    × (decide_boot h s.boots report ≡ ok d)
    × (expected_sequence d ≡ ok report.envelope.first_sequence)

module _ (env : Env) (report : PreparedEdgeReport) (verified : VerifiedEdgeContext)
    (s : Store) where
  -- Whatever is sent, `ingest` leaves the rows as they were, unless the report starts at the very
  -- sequence that the boot which the head gives it expects.
  pub ingest_in_order : ((ingest env report verified s).1 ≡ s) ⊎ GoesOn report s
  unfolding ingest
  ingest_in_order =
      checked_rule (λ u. (u ≡ s) ⊎ GoesOn report s) _ s _ (inl refl)
        (settle_rule (λ u. (u ≡ s) ⊎ GoesOn report s) s _ (inl refl) written)
    where
      written :
          (ack : EdgeReportAck) (t : Store)
          → ingest_in_transaction env report verified s ≡ ok (ack, t)
          → (t ≡ s) ⊎ GoesOn report s
      written ack t e =
          let c = transaction-Committed env report verified s ack t e in
          elim c.kind [
            | inl (_, same) ↦ inl same
            | inr (in_sequence, _) ↦ inr (
              c.head,
              c.decision,
              c.locked_head,
              c.decided,
              check_sequence-expected c.decision s report
                  (decide_boot-first c.head s report c.decision c.decided) in_sequence,
            )
          ]
