-- ===== src/Edge/Ingest/Left.antt =====
-- The rows that an accepted report leaves, as far as a later replay reads them.
use workbuddy_buddy.Prelude.{◌+◌, ◌≡◌, refl, ap, ◌∙◌, some, ◌∷◌, ==_iff}
use workbuddy_buddy.Edge.Problem.{ok}
use workbuddy_buddy.Edge.Types.{EdgeReportAck, VerifiedEdgeContext, PreparedEdgeReport}
use workbuddy_buddy.Edge.Store.{InstanceRow, AgentRow, BootRow, Store, Env}
use workbuddy_buddy.Edge.Boot.{last_sequence}
use workbuddy_buddy.Edge.Commit.{record_report, advance_boot, set_received, set_pet}
use workbuddy_buddy.Edge.Commit.Publish.{publish-eq}
use workbuddy_buddy.Edge.Ingest.{lock_agent}
use workbuddy_buddy.Edge.Ingest.Consistency.{received_at, lease_until, before_publish, Committed}
use workbuddy_buddy.Edge.Ingest.Safety.{Fresh}
use workbuddy_buddy.Edge.Ingest.Replay.{stored}
use workbuddy_buddy.Edge.Ingest.Replays.{lock_agent-set_pet}

module _ (env : Env) (report : PreparedEdgeReport) (verified : VerifiedEdgeContext) (s : Store)
    (ack : EdgeReportAck) (t : Store) (c : Committed env report verified s ack t)
    (f : Fresh env report verified s ack t c) where
  open f.accepted.entered use {rolled, is_rolled, device}
  open f.accepted.written use {changed}

  abbrev pub written : Store
  written = before_publish env report verified c.head c.decision s f.accepted

  pub left : t ≡ record written { revisions = t.revisions }
  left = publish-eq env changed _ (received_at env c.head) written t f.published

  abbrev pub current_boot : BootRow
  current_boot = record is_rolled.boot {
    next_sequence = last_sequence report + 1;
    last_accepted_at = received_at env c.head;
  }

  pub left_instance : t.instance_row ≡ s.instance_row
  unfolding record_report
  left_instance = ap (λ (x : Store). x.instance_row) left ∙ device.instance_row

  pub left_head :
      t.head
      ≡ some (record is_rolled.head { last_server_received_at = some (received_at env c.head) })
  unfolding record_report
  left_head =
      ap (λ (x : Store). x.head) left
      ∙ ap (λ h. set_received (received_at env c.head) h) is_rolled.store_head

  pub left_receipts :
      t.receipts
      ≡ stored env report verified c.decision.boot_generation
          (received_at env c.head)
          (lease_until env c.head)
        ∷ rolled.store.receipts
  unfolding record_report
  left_receipts = ap (λ (x : Store). x.receipts) left

  pub left_boots :
      t.boots
      ≡ current_boot
        ∷ advance_boot c.decision.boot_generation
            (last_sequence report + 1)
            (received_at env c.head)
            is_rolled.others
  unfolding record_report advance_boot
  left_boots =
      ap (λ (x : Store). x.boots) left
      ∙ rw (is_rolled.store_boots, advance_boot)
          (rw ((==_iff is_rolled.boot.generation c.decision.boot_generation).1 is_rolled.generation)
            refl)

  pub left_agent :
      (row : InstanceRow) (agent : AgentRow)
      → lock_agent row s ≡ ok agent
      → (a : AgentRow) × (lock_agent row t ≡ ok a)
  unfolding record_report
  left_agent row agent locked =
      lock_agent-set_pet row s t agent _ _ locked
        (ap (λ (x : Store). x.agent) left ∙ ap (set_pet _ _) device.agent)
