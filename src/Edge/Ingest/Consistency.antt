-- ===== src/Edge/Ingest/Consistency.antt =====
-- The transaction as a whole keeps the rows consistent.
use workbuddy_buddy.Prelude.{
  ℕ, ◌+◌, ◌*◌, ◌≤◌, ◌≡◌, refl, ap, ◌∙◌, ◌⊎◌, inl, inr, false, Option, none, some, arith,
}
use workbuddy_buddy.Edge.Problem.{Result, ok, ◌>>=◌, >>=-eq-ok}
use workbuddy_buddy.Edge.Types.{
  normalize_uuid, Text, EdgeReportAck, VerifiedEdgeContext, PreparedEdgeReport,
}
use workbuddy_buddy.Edge.Store.{
  InstanceRow, AgentRow, HeadRow, Store, Env, next_server_received_at, affected_offices,
}
use workbuddy_buddy.Edge.Boot.{last_sequence, BootDecision, decide_boot, check_sequence}
use workbuddy_buddy.Edge.Boot.Decision.{Continues, Establishes}
use workbuddy_buddy.Edge.Commit.{publish, record_report, is_refused, write_report, accept_report}
use workbuddy_buddy.Edge.Rollover.{enter_boot}
use workbuddy_buddy.Edge.Commit.Write.{IsWritten, write_report-IsWritten, write_report-clear}
use workbuddy_buddy.Edge.Commit.Enter.{Entered, enter_boot-Entered}
use workbuddy_buddy.Edge.Invariant.{Consistent}
use workbuddy_buddy.Edge.Invariant.Report.{IsPrepared}
use workbuddy_buddy.Edge.Ingest.{
  answer, ingest_in_transaction, lock_head, lock_instance, lock_agent, lock_and_validate_credential,
}

pub next_received-le : (clock : ℕ) (h : HeadRow) → clock ≤ next_server_received_at clock h
unfolding next_server_received_at
next_received-le clock h = ground arith

abbrev pub received_at : Env → HeadRow → ℕ
received_at env h = next_server_received_at env.clock h

abbrev pub lease_until : Env → HeadRow → ℕ
lease_until env h = received_at env h + env.lease_ttl_seconds * 1000

-- The acknowledgement of a report that is accepted now.
abbrev pub fresh_ack : Env → PreparedEdgeReport → Text → HeadRow → EdgeReportAck
fresh_ack env report instance_id h = record {
  current_protocol = 1;
  min_supported_protocol = 1;
  instance_id = instance_id;
  boot_id = normalize_uuid report.envelope.boot_id;
  accepted_through_sequence = last_sequence report;
  server_received_at = received_at env h;
  lease_expires_at = lease_until env h;
}

-- A report that is accepted on consistent rows, but for the projector's consent.
pub record Accepted (env : Env) (report : PreparedEdgeReport) (verified : VerifiedEdgeContext)
    (h : HeadRow) (d : BootDecision) (s : Store) : Type 0 where
  pub entered : Entered (received_at env h) d report s (enter_boot h d report (received_at env h) s)
  pub written :
      IsWritten env report verified d
        (received_at env h)
        (lease_until env h)
        entered.rolled
        (write_report env report verified d (received_at env h) (lease_until env h) entered.rolled)
        entered.is_rolled

module _ (env : Env) (report : PreparedEdgeReport) (verified : VerifiedEdgeContext) (h : HeadRow)
    (d : BootDecision) (s : Store) where
  pub rolled_into :
      (now : ℕ)
      → now ≤ env.clock
      → Consistent now h s
      → Continues s.boots report d ⊎ Establishes h report d
      → Entered (received_at env h) d report s (enter_boot h d report (received_at env h) s)
  rolled_into now later c kind =
      enter_boot-Entered now (received_at env h) h d report s
        (omega (arith, next_received-le env.clock h)) c kind

  -- The constraints of the tables let the report's rows in.
  abbrev pub IsClear :
      Entered (received_at env h) d report s (enter_boot h d report (received_at env h) s) → Type 0
  IsClear entered =
      is_refused env report verified d.boot_generation (received_at env h) (lease_until env h)
        entered.rolled.store
      ≡ false

  pub accept_report-IsClear :
      (instance_id : Text)
      (entered : Entered
        (received_at env h)
        d
        report
        s
        (enter_boot h d report (received_at env h) s))
      (ack : EdgeReportAck) (t : Store)
      → accept_report env report verified instance_id h d s ≡ ok (ack, t)
      → IsClear entered
  unfolding accept_report
  accept_report-IsClear instance_id entered ack t e =
      let (u, written, _) =
        >>=-eq-ok
          (write_report env report verified d (received_at env h) (lease_until env h)
            entered.rolled)
          _ (rw entered.returned at e) in
      write_report-clear env report verified d (received_at env h) (lease_until env h)
        entered.rolled u written

  pub accept_report-Accepted :
      IsPrepared report
      → (entered : Entered
          (received_at env h)
          d
          report
          s
          (enter_boot h d report (received_at env h) s))
      → IsClear entered
      → Accepted env report verified h d s
  accept_report-Accepted prepared entered clear = record {
    entered = entered;
    written =
        write_report-IsWritten env report verified d (received_at env h) (lease_until env h)
          entered.rolled prepared entered.is_rolled clear;
  }

  -- The rows that the projector is called with.
  abbrev pub before_publish : Accepted env report verified h d s → Store
  before_publish a =
      record_report env report verified d.boot_generation (received_at env h) (lease_until env h)
        a.written.applied a.entered.rolled.store

  pub accept_report-eq :
      (instance_id : Text) (a : Accepted env report verified h d s)
      → accept_report env report verified instance_id h d s ≡ (
          publish env a.written.changed
            (affected_offices a.entered.rolled.store.mounts)
            (received_at env h)
            (before_publish a)
          >>= λ t. ok (fresh_ack env report instance_id h, t))
  unfolding accept_report
  accept_report-eq instance_id a = rw (a.entered.returned, a.written.returned) refl

-- A committed transaction: what each of its steps returned.
pub record Committed (env : Env) (report : PreparedEdgeReport) (verified : VerifiedEdgeContext)
    (s : Store) (ack : EdgeReportAck) (t : Store) : Type 0 where
  pub row : InstanceRow
  pub agent : AgentRow
  pub head : HeadRow
  pub decision : BootDecision
  pub locked_instance : lock_instance verified.instance_id s ≡ ok row
  pub locked_agent : lock_agent row s ≡ ok agent
  pub validated : lock_and_validate_credential env verified s ≡ ok tt
  pub locked_head : lock_head s ≡ ok head
  pub decided : decide_boot head s.boots report ≡ ok decision
  pub kind :
      ((check_sequence decision s report ≡ ok (some ack)) × (t ≡ s))
      ⊎ ((check_sequence decision s report ≡ ok none)
          × (accept_report env report verified row.id head decision s ≡ ok (ack, t)))

answer_cases :
    (o : Option EdgeReportAck) (accepted : Result (EdgeReportAck × Store)) (s : Store)
    (ack : EdgeReportAck) (t : Store)
    → answer o accepted s ≡ ok (ack, t)
    → ((o ≡ some ack) × (t ≡ s)) ⊎ ((o ≡ none) × (accepted ≡ ok (ack, t)))
unfolding answer
answer_cases none accepted s ack t e = inr (refl, e)
answer_cases (some a) accepted s ack t e = inl (cc, cc)

pub transaction-Committed :
    (env : Env) (report : PreparedEdgeReport) (verified : VerifiedEdgeContext) (s : Store)
    (ack : EdgeReportAck) (t : Store)
    → ingest_in_transaction env report verified s ≡ ok (ack, t)
    → Committed env report verified s ack t
unfolding ingest_in_transaction
transaction-Committed env report verified s ack t e =
    let (row, locked_instance, e₁) = >>=-eq-ok (lock_instance verified.instance_id s) _ e in
    let (agent, locked_agent, e₂) = >>=-eq-ok (lock_agent row s) _ e₁ in
    let (_, validated, e₃) = >>=-eq-ok (lock_and_validate_credential env verified s) _ e₂ in
    let (head, locked_head, e₄) = >>=-eq-ok (lock_head s) _ e₃ in
    let (decision, decided, e₅) = >>=-eq-ok (decide_boot head s.boots report) _ e₄ in
    let (o, checked, e₆) = >>=-eq-ok (check_sequence decision s report) _ e₅ in
    record {
      row = row;
      agent = agent;
      head = head;
      decision = decision;
      locked_instance = locked_instance;
      locked_agent = locked_agent;
      validated = validated;
      locked_head = locked_head;
      decided = decided;
      kind = elim (answer_cases o _ s ack t e₆) [
        | inl (f, g) ↦ inl (checked ∙ ap ok f, g)
        | inr (f, g) ↦ inr (checked ∙ ap ok f, g)
      ];
    }
