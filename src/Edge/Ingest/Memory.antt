-- ===== src/Edge/Ingest/Memory.antt =====
-- What the rows remember of a report that was acknowledged, as long as its boot is the current one.
use workbuddy_buddy.Prelude.{
  ℕ, ◌+◌, ◌≤◌, ◌<◌, ◌≡◌, refl, ◌∙◌, false, ◌&&◌, some, List, [], ◌∷◌, ◌==◌, arith, lt→ltb,
}
use workbuddy_buddy.Edge.Problem.{ok}
use workbuddy_buddy.Edge.Types.{
  EdgeReportAck, VerifiedEdgeContext, PreparedEdgeReport, max_safe_sequence, normalize_uuid,
  normalize_nullable_uuid, text_eq_iff,
}
use workbuddy_buddy.Edge.Store.{InstanceRow, AgentRow, HeadRow, BootRow, ReceiptRow, Store}
use workbuddy_buddy.Edge.Boot.{
  last_sequence, find_receipt, ack_from_receipt, check_sequence, replay, expected_sequence,
}
use workbuddy_buddy.Edge.Constraints.{receipt_clashes}
use workbuddy_buddy.Edge.Ingest.{lock_instance, lock_agent}
use workbuddy_buddy.Edge.Ingest.Replay.{parse_past-returns, decide_boot-current}
use workbuddy_buddy.Edge.Ingest.Replays.{Replays, lock_head-of}

-- The boot of the report is the current one and has gone past it, and its receipt is found.
pub record Remembers (report : PreparedEdgeReport) (verified : VerifiedEdgeContext)
    (ack : EdgeReportAck) (s : Store) : Type 0 where
  pub row : InstanceRow
  pub agent : AgentRow
  pub head : HeadRow
  pub boot : BootRow
  pub others : List BootRow
  pub receipt : ReceiptRow
  pub locked_instance : lock_instance verified.instance_id s ≡ ok row
  pub locked_agent : lock_agent row s ≡ ok agent
  pub store_head : s.head ≡ some head
  pub store_boots : s.boots ≡ boot ∷ others
  pub current : head.current_boot_id ≡ some boot.boot_id
  pub generation : head.current_boot_generation ≡ boot.generation
  pub range : boot.generation ≤ max_safe_sequence
  pub boot_id : boot.boot_id ≡ normalize_uuid report.envelope.boot_id
  pub previous : boot.previous_boot_id ≡ normalize_nullable_uuid report.envelope.previous_boot_id
  pub passed : report.envelope.first_sequence < boot.next_sequence
  pub next_range : boot.next_sequence ≤ max_safe_sequence + 1
  pub found :
      find_receipt boot.generation report.envelope.first_sequence (last_sequence report) s.receipts
      ≡ some receipt
  pub hash : receipt.canonical_sha256 ≡ report.canonical_payload_hash
  pub payload : receipt.canonical_payload ≡ report.canonical_payload
  pub answered : ack_from_receipt receipt ≡ ok ack

replay_of :
    {report : PreparedEdgeReport} {verified : VerifiedEdgeContext} {ack : EdgeReportAck} {s : Store}
    → (m : Remembers report verified ack s)
    → replay m.boot.generation m.boot.next_sequence s report ≡ ack_from_receipt m.receipt
unfolding replay
replay_of {report} m =
    rw
      (
        m.found,
        replay,
        (text_eq_iff m.receipt.canonical_sha256 report.canonical_payload_hash).1 m.hash,
        (text_eq_iff m.receipt.canonical_payload report.canonical_payload).1 m.payload,
      )
      refl

-- So the report is answered from its receipt.
pub Remembers-Replays :
    (report : PreparedEdgeReport) (verified : VerifiedEdgeContext) (ack : EdgeReportAck) (s : Store)
    → Remembers report verified ack s
    → Replays report verified s ack
unfolding check_sequence expected_sequence
Remembers-Replays report verified ack s m = record {
  row = m.row;
  agent = m.agent;
  head = m.head;
  decision = record {
    boot = some m.boot;
    boot_generation = m.boot.generation;
    is_new_boot = false;
  };
  locked_instance = m.locked_instance;
  locked_agent = m.locked_agent;
  locked_head = lock_head-of s m.head m.store_head;
  decided =
      decide_boot-current m.head m.boot m.others s.boots report m.store_boots m.current m.generation
        m.range m.boot_id m.previous;
  replayed =
      rw
        (
          parse_past-returns m.boot.next_sequence m.next_range,
          lt→ltb report.envelope.first_sequence m.boot.next_sequence m.passed,
          replay_of m ∙ m.answered,
        )
        refl;
}

-- A receipt that the constraints let in has another range than any that is there.
pub found-differs :
    (new r : ReceiptRow) (generation first last : ℕ) (rs : List ReceiptRow)
    → find_receipt generation first last rs ≡ some r
    → receipt_clashes new rs ≡ false
    → (new.boot_generation == generation
        && new.first_sequence == first
        && new.last_sequence == last)
      ≡ false
unfolding find_receipt receipt_clashes
found-differs new r generation first last [] e c = ground arith
found-differs new r generation first last (x ∷ xs) e c =
    ground (arith, found-differs new r generation first last xs)

-- So the receipt that was found before it is still found.
pub find_receipt-older :
    (new r : ReceiptRow) (generation first last : ℕ) (rs : List ReceiptRow)
    → find_receipt generation first last rs ≡ some r
    → receipt_clashes new rs ≡ false
    → find_receipt generation first last (new ∷ rs) ≡ some r
unfolding find_receipt
find_receipt-older new r generation first last rs e c =
    rw (found-differs new r generation first last rs (unfold find_receipt in e) c) e
