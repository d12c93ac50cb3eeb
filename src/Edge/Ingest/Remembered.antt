-- ===== src/Edge/Ingest/Remembered.antt =====
-- A report that is accepted is remembered, and later reports of its boot do not make the rows forget
-- it.
use workbuddy_buddy.Prelude.{◌+◌, ◌≡◌, refl, sym, ap, ◌∙◌, false, some, ◌∷◌, arith}
use workbuddy_buddy.Edge.Problem.{ok}
use workbuddy_buddy.Edge.Types.{EdgeReportAck, VerifiedEdgeContext, PreparedEdgeReport}
use workbuddy_buddy.Edge.Store.{HeadRow, BootRow, Store, Env}
use workbuddy_buddy.Edge.Boot.{last_sequence, find_receipt}
use workbuddy_buddy.Edge.Constraints.{receipt_clashes, violates_constraints}
use workbuddy_buddy.Edge.Commit.{new_receipt, is_refused, advance_boot}
use workbuddy_buddy.Edge.Ingest.Consistency.{received_at, lease_until, fresh_ack, Committed}
use workbuddy_buddy.Edge.Ingest.Safety.{Fresh}
use workbuddy_buddy.Edge.Ingest.Replay.{stored, find_receipt-new, stored-ack}
use workbuddy_buddy.Edge.Ingest.Replays.{lock_instance-id, lock_instance-same}
use workbuddy_buddy.Edge.Ingest.Left.{
  current_boot, left_instance, left_head, left_receipts, left_boots, left_agent,
}
use workbuddy_buddy.Edge.Ingest.Memory.{Remembers, find_receipt-older}

module _ (env : Env) (report : PreparedEdgeReport) (verified : VerifiedEdgeContext) (s : Store)
    (ack : EdgeReportAck) (t : Store) (c : Committed env report verified s ack t)
    (f : Fresh env report verified s ack t c) where
  open f.accepted.entered use {rolled, is_rolled}
  open f.accepted.written use {in_range, in_order}

  left_head_row : HeadRow
  left_head_row = record is_rolled.head { last_server_received_at = some (received_at env c.head) }

  -- The report that was accepted is remembered.
  pub Fresh-Remembers : Remembers report verified ack t
  unfolding left_head_row new_receipt
  Fresh-Remembers =
      let (agent, locked) =
        left_agent env report verified s ack t c f c.row c.agent c.locked_agent in
      record {
        row = c.row;
        agent = agent;
        head = left_head_row;
        boot = current_boot env report verified s ack t c f;
        others =
            advance_boot c.decision.boot_generation (last_sequence report + 1)
              (received_at env c.head) is_rolled.others;
        receipt =
            stored env report verified c.decision.boot_generation (received_at env c.head)
              (lease_until env c.head);
        locked_instance =
            lock_instance-same verified.instance_id s t
              (left_instance env report verified s ack t c f)
            ∙ c.locked_instance;
        locked_agent = locked;
        store_head = left_head env report verified s ack t c f;
        store_boots = left_boots env report verified s ack t c f;
        current = is_rolled.current;
        generation = is_rolled.head_generation;
        range = is_rolled.range;
        boot_id = is_rolled.boot_id;
        previous = is_rolled.previous;
        passed = omega (arith, in_order);
        next_range = omega (arith, in_range);
        found =
            ap
              (λ g. find_receipt g report.envelope.first_sequence (last_sequence report) t.receipts)
              is_rolled.generation
            ∙ ap
                (find_receipt c.decision.boot_generation report.envelope.first_sequence
                  (last_sequence report))
                (left_receipts env report verified s ack t c f)
            ∙ find_receipt-new env report verified c.decision.boot_generation
                (received_at env c.head) (lease_until env c.head) rolled.store.receipts;
        hash = refl;
        payload = refl;
        answered =
            stored-ack env report verified c.decision.boot_generation (received_at env c.head)
              (lease_until env c.head) in_range
            ∙ ap (λ id. ok (fresh_ack env report id c.head))
                (sym (lock_instance-id verified.instance_id s c.row c.locked_instance))
            ∙ ap ok (sym f.acknowledged);
      }

  -- The constraints have let the receipt in.
  stored-IsNew :
      rolled.store ≡ s
      → receipt_clashes
          (stored env report verified c.decision.boot_generation
            (received_at env c.head)
            (lease_until env c.head))
          s.receipts
        ≡ false
  unfolding is_refused violates_constraints
  stored-IsNew same =
      ap (receipt_clashes _) (ap (λ (x : Store). x.receipts) (sym same)) ∙ ground (arith, f.clear)

  -- A report that goes on with the boot leaves what was remembered of another one.
  pub later-Remembers :
      (old : PreparedEdgeReport) (context : VerifiedEdgeContext) (answer : EdgeReportAck)
      → rolled.store ≡ s
      → (m : Remembers old context answer s) → report.envelope.first_sequence ≡ m.boot.next_sequence
      → Remembers old context answer t
  unfolding left_head_row
  later-Remembers old context answer same m expected =
      let (agent, locked) =
        left_agent env report verified s ack t c f m.row m.agent m.locked_agent in
      let boots : m.boot ∷ m.others ≡ is_rolled.boot ∷ is_rolled.others =
        sym m.store_boots ∙ ap (λ (x : Store). x.boots) (sym same) ∙ is_rolled.store_boots in
      let boot : m.boot ≡ is_rolled.boot = cc boots in
      record {
        row = m.row;
        agent = agent;
        head = left_head_row;
        boot = current_boot env report verified s ack t c f;
        others =
            advance_boot c.decision.boot_generation (last_sequence report + 1)
              (received_at env c.head) is_rolled.others;
        receipt = m.receipt;
        locked_instance =
            lock_instance-same context.instance_id s t
              (left_instance env report verified s ack t c f)
            ∙ m.locked_instance;
        locked_agent = locked;
        store_head = left_head env report verified s ack t c f;
        store_boots = left_boots env report verified s ack t c f;
        current = is_rolled.current;
        generation = is_rolled.head_generation;
        range = is_rolled.range;
        boot_id = ap (λ (b : BootRow). b.boot_id) (sym boot) ∙ m.boot_id;
        previous = ap (λ (b : BootRow). b.previous_boot_id) (sym boot) ∙ m.previous;
        passed = omega (arith, m.passed, expected, in_order);
        next_range = omega (arith, in_range);
        found =
            ap
              (λ (b : BootRow).
                find_receipt b.generation old.envelope.first_sequence (last_sequence old)
                  t.receipts)
              (sym boot)
            ∙ ap (find_receipt m.boot.generation old.envelope.first_sequence (last_sequence old)) (
                left_receipts env report verified s ack t c f
                ∙ ap
                    (λ (x : Store).
                      stored env report verified c.decision.boot_generation (received_at env c.head)
                        (lease_until env c.head)
                      ∷ x.receipts)
                    same)
            ∙ find_receipt-older _ m.receipt m.boot.generation old.envelope.first_sequence
                (last_sequence old) s.receipts m.found (stored-IsNew same);
        hash = m.hash;
        payload = m.payload;
        answered = m.answered;
      }
