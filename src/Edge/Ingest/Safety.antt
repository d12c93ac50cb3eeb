-- ===== src/Edge/Ingest/Safety.antt =====
-- Ingestion keeps the rows of an instance consistent, whatever it is sent and however it ends, and
-- commits every report that it admits.
use mathlib.Core.Path.{subst}
use workbuddy_buddy.Prelude.{
  ℕ, ◌+◌, ◌≤◌, ◌≡◌, refl, sym, ap, ◌∙◌, inl, inr, none, some, arith, ==_iff,
}
use workbuddy_buddy.Edge.Problem.{Result, ok, throws, protocol, fault, ◌>>=◌, >>=-eq-ok}
use workbuddy_buddy.Edge.Types.{EdgeReportAck, VerifiedEdgeContext, PreparedEdgeReport}
use workbuddy_buddy.Edge.Store.{InstanceRow, AgentRow, HeadRow, Store, Env, affected_offices}
use workbuddy_buddy.Edge.Boot.{BootDecision, last_sequence, decide_boot, check_sequence}
use workbuddy_buddy.Edge.Boot.Decision.{decide_boot-cases}
use workbuddy_buddy.Edge.Commit.{publish, record_report, advance_boot, accept_report}
use workbuddy_buddy.Edge.Commit.Publish.{
  publish-Consistent, publish-eq, IsAccepting, publish-returns,
}
use workbuddy_buddy.Edge.Invariant.{Consistent, IsConsistent, CurrentHolds-later}
use workbuddy_buddy.Edge.Invariant.Report.{IsPrepared}
use workbuddy_buddy.Edge.Ingest.{
  assert_verified_identity, assert_supported_pet_ids, lock_instance, lock_agent,
  lock_and_validate_credential, lock_head, answer, ingest_in_transaction, checked, settle, ingest,
}
use workbuddy_buddy.Edge.Invariant.Log.{
  LogBelow, LogBelow-more, next_of, IsLogged, IsCanonical, IsNewId, is_refused-clear,
  record_report-LogBelow,
}
use workbuddy_buddy.Edge.Commit.Write.{prepared_sequences}
use workbuddy_buddy.Edge.Ingest.Expected.{decide_boot-first, check_sequence-expected}
use workbuddy_buddy.Edge.Ingest.Clear.{Entered-LogBelow, Entered-IsNewId}
use workbuddy_buddy.Edge.Ingest.Consistency.{
  received_at, lease_until, fresh_ack, Accepted, rolled_into, accept_report-IsClear, IsClear,
  accept_report-Accepted, before_publish, accept_report-eq, Committed, transaction-Committed,
}

pub checked_rule {ℓ} :
    (P : Store → Type ℓ) (r : Result (Unit {0})) (s : Store) (o : Result EdgeReportAck × Store)
    → P s
    → P o.1
    → P (checked r s o).1
checked_rule P (ok _) s o p q = q
checked_rule P (throws e) s o p q = p

pub settle_rule {ℓ} :
    (P : Store → Type ℓ) (s : Store) (r : Result (EdgeReportAck × Store))
    → P s
    → ((ack : EdgeReportAck) (t : Store) → r ≡ ok (ack, t) → P t)
    → P (settle s r).1
settle_rule P s (ok (ack, t)) p q = q ack t refl
settle_rule P s (throws (protocol e)) p q = p
settle_rule P s (throws fault) p q = p

pub Consistent-later :
    (now later : ℕ) (h : HeadRow) (s : Store)
    → now ≤ later
    → Consistent now h s
    → Consistent later h s
Consistent-later now later h s l c = record {
  head = c.head;
  current = CurrentHolds-later now later h s.boots s.presence l c.current;
  shown = c.shown;
}

pub lock_head-some : (s : Store) (h h' : HeadRow) → s.head ≡ some h → lock_head s ≡ ok h' → h' ≡ h
unfolding lock_head
lock_head-some s h h' e l = ground arith

-- A fresh commit: the projector has consented to the rows that were prepared.
pub record Fresh (env : Env) (report : PreparedEdgeReport) (verified : VerifiedEdgeContext)
    (s : Store) (ack : EdgeReportAck) (t : Store) (c : Committed env report verified s ack t)
    : Type 0 where
  pub accepted : Accepted env report verified c.head c.decision s
  pub published :
      publish env accepted.written.changed
        (affected_offices accepted.entered.rolled.store.mounts)
        (received_at env c.head)
        (before_publish env report verified c.head c.decision s accepted)
      ≡ ok t
  pub clear : IsClear env report verified c.head c.decision s accepted.entered
  pub acknowledged : ack ≡ fresh_ack env report c.row.id c.head

module _ (env : Env) (report : PreparedEdgeReport) (verified : VerifiedEdgeContext) (now : ℕ)
    (s : Store) (later : now ≤ env.clock) (prepared : IsPrepared report) where
  pub Committed-Fresh :
      (h : HeadRow) (ack : EdgeReportAck) (t : Store) (c : Committed env report verified s ack t)
      → Consistent now h s
      → accept_report env report verified c.row.id c.head c.decision s ≡ ok (ack, t)
      → Fresh env report verified s ack t c
  Committed-Fresh h ack t c k e =
      let same = lock_head-some s h c.head k.head c.locked_head in
      let k' = subst (λ x. Consistent now x s) (sym same) k in
      let entered =
        rolled_into env report verified c.head c.decision s now later k' (
          decide_boot-cases now c.head report c.decision s.boots s.presence k'.current c.decided) in
      let a =
        accept_report-Accepted env report verified c.head c.decision s prepared entered (
          accept_report-IsClear env report verified c.head c.decision s c.row.id entered ack t e) in
      let (t', published, f) =
        >>=-eq-ok _ _
          (sym (accept_report-eq env report verified c.head c.decision s c.row.id a) ∙ e) in
      record {
        accepted = a;
        published = published ∙ cc f;
        acknowledged = cc f;
        clear =
            accept_report-IsClear env report verified c.head c.decision s c.row.id a.entered ack t
              e;
      }

  transaction-IsConsistent :
      (ack : EdgeReportAck) (t : Store)
      → IsConsistent now s
      → ingest_in_transaction env report verified s ≡ ok (ack, t)
      → IsConsistent env.clock t
  transaction-IsConsistent ack t (h, k) e =
      let c = transaction-Committed env report verified s ack t e in
      elim c.kind [
        | inl (_, same) ↦
            (h, Consistent-later now env.clock h t later (subst (Consistent now h) (sym same) k))
        | inr (_, accepted) ↦
            let f = Committed-Fresh h ack t c k accepted in
            (
              record f.accepted.entered.is_rolled.head {
                last_server_received_at = some (received_at env c.head);
              },
              publish-Consistent env f.accepted.written.changed _ (received_at env c.head) env.clock
                  _ _ t f.published (f.accepted.written.consistent env.clock),
            )
      ]

  -- Whatever `ingest` answers, the rows that it leaves are consistent.
  pub ingest-IsConsistent :
      IsConsistent now s → IsConsistent env.clock (ingest env report verified s).1
  unfolding ingest
  ingest-IsConsistent (h, k) = checked_rule (IsConsistent env.clock) _ s _ unchanged (
      settle_rule (IsConsistent env.clock) s _ unchanged
        (λ ack t e. transaction-IsConsistent ack t (h, k) e))
    where
      unchanged : IsConsistent env.clock s
      unchanged = (h, Consistent-later now env.clock h s later k)

-- The log of the written rows is the log of the head that they have.
written-IsLogged :
    (env : Env) (report : PreparedEdgeReport) (verified : VerifiedEdgeContext) (h : HeadRow)
    (d : BootDecision) (s : Store) (a : Accepted env report verified h d s) (t : Store)
    → publish env a.written.changed
        (affected_offices a.entered.rolled.store.mounts)
        (received_at env h)
        (before_publish env report verified h d s a)
      ≡ ok t
    → LogBelow d.boot_generation
        (last_sequence report + 1)
        (before_publish env report verified h d s a)
    → IsLogged
        (record a.entered.is_rolled.head { last_server_received_at = some (received_at env h) })
        t
unfolding record_report advance_boot
written-IsLogged env report verified h d s a t published log =
    let left = publish-eq env a.written.changed _ (received_at env h) _ t published in
    let log' : LogBelow d.boot_generation (last_sequence report + 1) t =
      rw left (record { receipts = log.receipts; fingerprints = log.fingerprints }) in
    let expects : next_of t.boots ≡ last_sequence report + 1 =
      ap (λ (x : Store). next_of x.boots) left
      ∙ rw (a.entered.is_rolled.store_boots, advance_boot)
          (rw
            ((==_iff a.entered.is_rolled.boot.generation d.boot_generation).1
              a.entered.is_rolled.generation)
            refl) in
    LogBelow-more d.boot_generation (last_sequence report + 1)
      a.entered.is_rolled.head.current_boot_generation (next_of t.boots) t
      (inr (
        sym (a.entered.is_rolled.head_generation ∙ a.entered.is_rolled.generation),
        omega (arith, expects),
      ))
      log'

-- Every step up to the check of the sequence lets the report in.
pub record IsAdmitted (env : Env) (report : PreparedEdgeReport) (verified : VerifiedEdgeContext)
    (s : Store) (row : InstanceRow) (h : HeadRow) (d : BootDecision) : Type 0 where
  pub agent : AgentRow
  pub identity : assert_verified_identity report verified ≡ ok tt
  pub pets : assert_supported_pet_ids env.supported_pets report ≡ ok tt
  pub locked_instance : lock_instance verified.instance_id s ≡ ok row
  pub locked_agent : lock_agent row s ≡ ok agent
  pub validated : lock_and_validate_credential env verified s ≡ ok tt
  pub locked_head : lock_head s ≡ ok h
  pub decided : decide_boot h s.boots report ≡ ok d
  pub in_sequence : check_sequence d s report ≡ ok none

module _ (env : Env) (report : PreparedEdgeReport) (verified : VerifiedEdgeContext) (now : ℕ)
    (s : Store) (row : InstanceRow) (h : HeadRow) (d : BootDecision) where
  admitted-eq :
      IsAdmitted env report verified s row h d
      → ingest env report verified s ≡ settle s (accept_report env report verified row.id h d s)
  unfolding ingest ingest_in_transaction answer
  admitted-eq a =
      rw
        (
          a.identity, a.pets, a.locked_instance, a.locked_agent, a.validated, a.locked_head,
          a.decided, a.in_sequence,
        )
        refl

  pub ingest_commits :
      now ≤ env.clock
      → IsPrepared report
      → IsConsistent now s
      → IsLogged h s
      → IsCanonical report
      → IsNewId env.receipt_id s
      → IsAccepting env
      → IsAdmitted env report verified s row h d
      → (t : Store) × (ingest env report verified s ≡ (ok (fresh_ack env report row.id h), t))
        × (after : HeadRow) × Consistent env.clock after t
        × IsLogged after t
  ingest_commits later prepared (h', k') logged canonical new_id accepting a =
      let same = lock_head-some s h' h k'.head a.locked_head in
      let k = subst (λ x. Consistent now x s) (sym same) k' in
      let kind = decide_boot-cases now h report d s.boots s.presence k.current a.decided in
      let entered = rolled_into env report verified h d s now later k kind in
      let expected =
        check_sequence-expected d s report (decide_boot-first h s report d a.decided)
          a.in_sequence in
      let below = Entered-LogBelow now h d report s k.current logged entered kind expected in
      let clear =
        is_refused-clear env report verified d.boot_generation (received_at env h)
          (lease_until env h) entered.rolled.store prepared canonical below
          (prepared_sequences report prepared).1
          (Entered-IsNewId now h d report s k.current logged env.receipt_id entered new_id) in
      let acc = accept_report-Accepted env report verified h d s prepared entered clear in
      let (t, published) =
        publish-returns env acc.written.changed _ (received_at env h) _ accepting in
      (
        t,
        admitted-eq a
            ∙ ap (settle s) (accept_report-eq env report verified h d s row.id acc)
            ∙ ap (λ r. settle s (r >>= λ t'. ok (fresh_ack env report row.id h, t'))) published,
        record acc.entered.is_rolled.head { last_server_received_at = some (received_at env h) },
        publish-Consistent env acc.written.changed _ (received_at env h) env.clock _ _ t published
            (acc.written.consistent env.clock),
        written-IsLogged env report verified h d s acc t published (
            record_report-LogBelow env report verified d.boot_generation (received_at env h)
              (lease_until env h) acc.entered.rolled.store prepared canonical
              (Entered-LogBelow now h d report s k.current logged acc.entered kind expected)
              acc.written.applied (prepared_sequences report prepared).1),
      )
