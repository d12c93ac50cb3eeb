-- ===== src/Edge/Ingest/Replayed.antt =====
-- A report that is answered from its receipt is one that the rows remember.
use mathlib.Core.Path.{subst}
use workbuddy_buddy.Prelude.{
  ℕ, ◌≡◌, refl, sym, ap, ◌∙◌, inl, inr, Bool, true, false, not, ◌&&◌, none, some, List, arith, ltb,
  ◌==◌, length, if◌then◌else◌, Option-cases,
}
use workbuddy_buddy.Edge.Problem.{
  Result, ok, throws, Failure, throw_if, ◌>>◌, ◌>>=◌, >>=-eq-ok, throw_if-eq-ok,
}
use workbuddy_buddy.Edge.Types.{
  EdgeReportAck, VerifiedEdgeContext, PreparedEdgeReport, CanonicalEvent, text_eq_iff,
}
use workbuddy_buddy.Edge.Store.{ReceiptRow, FingerprintRow, Store, Env}
use workbuddy_buddy.Edge.Boot.{
  BootDecision, last_sequence, expected_sequence, find_receipt, some_differs, ack_from_receipt,
  refuse_overlap, replay, check_sequence,
}
use workbuddy_buddy.Edge.Boot.Decision.{Continues, decide_boot-cases}
use workbuddy_buddy.Edge.Commit.Enter.{IsCurrent-presence}
use workbuddy_buddy.Edge.Invariant.{CurrentHolds, Consistent, IsConsistent}
use workbuddy_buddy.Edge.Ingest.Clear.{parse-eq}
use workbuddy_buddy.Edge.Ingest.Consistency.{Committed}
use workbuddy_buddy.Edge.Ingest.Safety.{lock_head-some}
use workbuddy_buddy.Edge.Ingest.Memory.{Remembers}

-- The branch of an unknown range answers no report.
refuse_overlap-never :
    (expected : ℕ) (submitted : List CanonicalEvent) (fs : List FingerprintRow)
    (ack : EdgeReportAck)
    → refuse_overlap expected submitted fs ≡ ok ack
    → ⊥
unfolding refuse_overlap
refuse_overlap-never expected submitted fs ack e =
    let (_, e₁) = throw_if-eq-ok (length fs == 0) _ _ e in
    let (conflicting, _, e₂) = >>=-eq-ok (some_differs submitted fs) _ e₁ in
    let (_, e₃) = throw_if-eq-ok conflicting _ _ e₂ in ground (arith, e₃)

module _ (report : PreparedEdgeReport) (ack : EdgeReportAck) (s : Store) where
  -- An answer comes from a receipt of the report's range and content.
  replay-found :
      (generation expected : ℕ)
      → replay generation expected s report ≡ ok ack
      → (r : ReceiptRow) × (find_receipt generation report.envelope.first_sequence
            (last_sequence report)
            s.receipts
          ≡ some r)
        × (r.canonical_sha256 ≡ report.canonical_payload_hash)
        × (r.canonical_payload ≡ report.canonical_payload)
        × (ack_from_receipt r ≡ ok ack)
  unfolding replay
  replay-found generation expected e =
      elim (Option-cases (
        find_receipt generation report.envelope.first_sequence (last_sequence report) s.receipts)) [
          | inl missing ↦ absurd (
              refuse_overlap-never expected report.canonical_events _ ack
                (rw (missing, replay) at e))
          | inr (r, found) ↦
              let e' = rw (found, replay) at e in
              (
                r,
                found,
                ground (arith, e', text_eq_iff r.canonical_sha256 report.canonical_payload_hash),
                ground (arith, e', text_eq_iff r.canonical_payload report.canonical_payload),
                ground (arith, e'),
              )
        ]

  answers_only :
      (test gap : Bool) (answer : Result EdgeReportAck) (p : Failure)
      → (if test then (answer >>= λ a. ok (some a)) else (throw_if gap p >> ok none))
        ≡ ok (some ack)
      → (test ≡ true) × (answer ≡ ok ack)
  answers_only true gap (ok a) p e = (refl, ground (arith, e))
  answers_only true gap (throws x) p e = ground (arith, e)
  answers_only false true answer p e = ground (arith, e)
  answers_only false false answer p e = ground (arith, e)

  check_sequence-replays :
      (d : BootDecision)
      → check_sequence d s report ≡ ok (some ack)
      → (n : ℕ) × (expected_sequence d ≡ ok n)
        × ((not d.is_new_boot && ltb report.envelope.first_sequence n) ≡ true)
        × (replay d.boot_generation n s report ≡ ok ack)
  unfolding check_sequence
  check_sequence-replays d e =
      let (n, p, e') = >>=-eq-ok (expected_sequence d) _ e in
      let (test, answer) = answers_only _ _ _ _ e' in (n, p, test, answer)

module _ (env : Env) (report : PreparedEdgeReport) (verified : VerifiedEdgeContext) (now : ℕ)
    (s : Store) (ack : EdgeReportAck) (t : Store) (c : Committed env report verified s ack t) where
  continued-Remembers :
      Consistent now c.head s
      → Continues s.boots report c.decision
      → check_sequence c.decision s report ≡ ok (some ack)
      → Remembers report verified ack s
  unfolding expected_sequence
  continued-Remembers k on e =
      let (p, _, current) =
        IsCurrent-presence now c.head on.boot on.others s.presence
          (subst (λ bs. CurrentHolds now c.head bs s.presence) on.shape k.current) in
      let (n, expected, below, answer) = check_sequence-replays report ack s c.decision e in
      let reached =
        parse-eq on.boot.next_sequence n (ap expected_sequence (sym on.decision) ∙ expected) in
      let (receipt, found, hash, payload, answered) =
        replay-found report ack s c.decision.boot_generation n answer in
      record {
        row = c.row;
        agent = c.agent;
        head = c.head;
        boot = on.boot;
        others = on.others;
        receipt = receipt;
        locked_instance = c.locked_instance;
        locked_agent = c.locked_agent;
        store_head = k.head;
        store_boots = on.shape;
        current = current.boot_id;
        generation = current.generation;
        range = current.range;
        boot_id = on.boot_id;
        previous = sym on.previous;
        passed = ground (arith, below, reached);
        next_range = omega (arith, current.next, current.sound.accepted);
        found =
            ap
              (λ (x : BootDecision).
                find_receipt x.boot_generation report.envelope.first_sequence (last_sequence report)
                  s.receipts)
              (sym on.decision)
            ∙ found;
        hash = hash;
        payload = payload;
        answered = answered;
      }

  pub replayed-Remembers :
      IsConsistent now s
      → check_sequence c.decision s report ≡ ok (some ack)
      → Remembers report verified ack s
  replayed-Remembers (h, k) e =
      let same = lock_head-some s h c.head k.head c.locked_head in
      let k' = subst (λ x. Consistent now x s) (sym same) k in
      elim (decide_boot-cases now c.head report c.decision s.boots s.presence k'.current
        c.decided) [
          | inl on ↦ continued-Remembers k' on e
          | inr est ↦
              absurd
                (ground (arith, est.is_new, (check_sequence-replays report ack s c.decision e).2))
        ]
