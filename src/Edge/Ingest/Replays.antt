-- ===== src/Edge/Ingest/Replays.antt =====
-- A replay step by step, and the rows that it reads.
use workbuddy_buddy.Prelude.{◌≡◌, refl, Bool, some, arith, if◌then◌else◌}
use workbuddy_buddy.Edge.Problem.{ok}
use workbuddy_buddy.Edge.Types.{
  Text, EdgeReportAck, VerifiedEdgeContext, PreparedEdgeReport, normalize_uuid, text_eq_iff,
}
use workbuddy_buddy.Edge.Store.{InstanceRow, AgentRow, HeadRow, Store, Env}
use workbuddy_buddy.Edge.Boot.{BootDecision, decide_boot, check_sequence}
use workbuddy_buddy.Edge.Commit.{set_pet}
use workbuddy_buddy.Edge.Ingest.{
  assert_verified_identity, assert_supported_pet_ids, lock_instance, lock_agent,
  lock_and_validate_credential, lock_head, answer, ingest_in_transaction, ingest,
}

-- The steps of a replay.
pub record Replays (report : PreparedEdgeReport) (verified : VerifiedEdgeContext) (t : Store)
    (ack : EdgeReportAck) : Type 0 where
  pub row : InstanceRow
  pub agent : AgentRow
  pub head : HeadRow
  pub decision : BootDecision
  pub locked_instance : lock_instance verified.instance_id t ≡ ok row
  pub locked_agent : lock_agent row t ≡ ok agent
  pub locked_head : lock_head t ≡ ok head
  pub decided : decide_boot head t.boots report ≡ ok decision
  pub replayed : check_sequence decision t report ≡ ok (some ack)

pub Replays-answer :
    (env : Env) (report : PreparedEdgeReport) (verified : VerifiedEdgeContext) (t : Store)
    (ack : EdgeReportAck)
    → assert_verified_identity report verified ≡ ok tt
    → assert_supported_pet_ids env.supported_pets report ≡ ok tt
    → lock_and_validate_credential env verified t ≡ ok tt
    → Replays report verified t ack
    → ingest env report verified t ≡ (ok ack, t)
unfolding ingest ingest_in_transaction answer
Replays-answer env report verified t ack identity pets validated r =
    rw
      (
        identity, pets, r.locked_instance, r.locked_agent, validated, r.locked_head, r.decided,
        r.replayed,
      )
      refl

pub lock_instance-id :
    (id : Text) (s : Store) (row : InstanceRow)
    → lock_instance id s ≡ ok row
    → row.id ≡ normalize_uuid id
unfolding lock_instance
lock_instance-id id s row e = ground (arith, text_eq_iff row.id (normalize_uuid id))

pub lock_instance-same :
    (id : Text) (s t : Store)
    → t.instance_row ≡ s.instance_row
    → lock_instance id t ≡ lock_instance id s
unfolding lock_instance
lock_instance-same id s t e = rw e refl

pub lock_head-of : (t : Store) (h : HeadRow) → t.head ≡ some h → lock_head t ≡ ok h
unfolding lock_head
lock_head-of t h e = rw e refl

pub lock_agent-set_pet :
    (row : InstanceRow) (s t : Store) (a : AgentRow) (changed : Bool) (pet : Text)
    → lock_agent row s ≡ ok a
    → t.agent ≡ set_pet changed pet s.agent
    → (b : AgentRow) × (lock_agent row t ≡ ok b)
unfolding lock_agent
lock_agent-set_pet row s t a changed pet e f =
    (if changed then record a { pet_id = pet } else a, ground arith)
