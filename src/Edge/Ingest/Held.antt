-- ===== src/Edge/Ingest/Held.antt =====
-- An instance remembers a report through any later report and sweep, or its boot is replaced.
use mathlib.Core.Path.{subst}
use workbuddy_buddy.Prelude.{
  ℕ, ◌≤◌, ◌<◌, ◌≡◌, sym, ap, ◌∙◌, ◌⊎◌, inl, inr, false, Option, none, some, List, ◌∷◌, arith,
}
use workbuddy_buddy.Edge.Problem.{ok, >>=-eq-ok}
use workbuddy_buddy.Edge.Types.{EdgeReportAck, VerifiedEdgeContext, PreparedEdgeReport}
use workbuddy_buddy.Edge.Store.{
  HeadRow, PresenceRow, IntervalRow, RevisionInput, Store, Env, lease_expired,
}
use workbuddy_buddy.Edge.Boot.{expected_sequence}
use workbuddy_buddy.Edge.Boot.Decision.{Continues, Establishes, decide_boot-cases}
use workbuddy_buddy.Edge.Activity.{close_open_activity_interval}
use workbuddy_buddy.Edge.Invariant.{Consistent, IsConsistent}
use workbuddy_buddy.Edge.Invariant.Report.{IsPrepared}
use workbuddy_buddy.Edge.Ingest.{lock_instance, lock_agent, ingest_in_transaction, ingest}
use workbuddy_buddy.Edge.Ingest.Consistency.{Committed, transaction-Committed}
use workbuddy_buddy.Edge.Ingest.Expected.{decide_boot-first, check_sequence-expected}
use workbuddy_buddy.Edge.Ingest.Clear.{parse-eq}
use workbuddy_buddy.Edge.Ingest.Safety.{
  Fresh, Committed-Fresh, checked_rule, settle_rule, lock_head-some,
}
use workbuddy_buddy.Edge.Ingest.Left.{left_head}
use workbuddy_buddy.Edge.Ingest.Memory.{Remembers}
use workbuddy_buddy.Edge.Ingest.Remembered.{later-Remembers}
use workbuddy_buddy.Edge.Lease.{SweepEnv, parse_safe_sequence, close_lease, expire_one_lease}
use workbuddy_buddy.Edge.Lease.Sweep.{expire_cases, append-eq, rolled_back_rule}

-- The generation of the current boot.
abbrev pub generation_of : Option HeadRow → ℕ
generation_of none = 0
generation_of (some h) = h.current_boot_generation

module _ (old : PreparedEdgeReport) (context : VerifiedEdgeContext) (answer : EdgeReportAck)
    (generation : ℕ) where
  abbrev pub Held : Store → Type 0
  Held s =
      (Remembers old context answer s × (generation_of s.head ≡ generation))
      ⊎ (generation < generation_of s.head)

  Held-le : (s : Store) → Held s → generation ≤ generation_of s.head
  Held-le s (inl (_, same)) = omega (arith, same)
  Held-le s (inr later) = omega (arith, later)

  module _ (env : Env) (report : PreparedEdgeReport) (verified : VerifiedEdgeContext) (s : Store)
      (ack : EdgeReportAck) (t : Store) (c : Committed env report verified s ack t)
      (f : Fresh env report verified s ack t c) where
    open f.accepted.entered use {rolled, is_rolled}

    -- A new boot has the next generation.
    new-Held : s.head ≡ some c.head → Establishes c.head report c.decision → Held s → Held t
    new-Held head est held = inr (
        omega (
          arith,
          Held-le s held,
          ap generation_of head,
          ap generation_of (left_head env report verified s ack t c f),
          is_rolled.head_generation,
          is_rolled.generation,
          est.generation,
        ))

    same_generation : rolled.store ≡ s → generation_of t.head ≡ generation_of s.head
    same_generation same =
        ap generation_of (left_head env report verified s ack t c f)
        ∙ ap generation_of (sym is_rolled.store_head)
        ∙ ap (λ (x : Store). generation_of x.head) same

    -- A report of the current boot starts where the boot goes on.
    goes_on :
        (m : Remembers old context answer s)
        → Continues s.boots report c.decision
        → expected_sequence c.decision ≡ ok report.envelope.first_sequence
        → report.envelope.first_sequence ≡ m.boot.next_sequence
    unfolding expected_sequence
    goes_on m on e =
        let boots : on.boot ∷ on.others ≡ m.boot ∷ m.others = sym on.shape ∙ m.store_boots in
        let boot : on.boot ≡ m.boot = cc boots in
        parse-eq on.boot.next_sequence report.envelope.first_sequence
          (ap expected_sequence (sym on.decision) ∙ e)
        ∙ ap (λ b. b.next_sequence) boot

    current-Held :
        rolled.store ≡ s
        → Continues s.boots report c.decision
        → expected_sequence c.decision ≡ ok report.envelope.first_sequence
        → Held s
        → Held t
    current-Held same on e (inl (m, g)) = inl (
      later-Remembers env report verified s ack t c f old context answer same m (goes_on m on e),
      same_generation same ∙ g,
    )
    current-Held same on e (inr later) = inr (omega (arith, later, same_generation same))

    Fresh-Held :
        s.head ≡ some c.head
        → Continues s.boots report c.decision ⊎ Establishes c.head report c.decision
        → expected_sequence c.decision ≡ ok report.envelope.first_sequence
        → Held s
        → Held t
    Fresh-Held head (inr est) e held = new-Held head est held
    Fresh-Held head (inl on) e held = elim f.accepted.entered.kept [
      | inl (_, same) ↦ current-Held same on e held
      | inr (new, _, _, _) ↦ absurd (ground (arith, new, ap (λ x. x.is_new_boot) on.decision))
    ]

  module _ (env : Env) (report : PreparedEdgeReport) (verified : VerifiedEdgeContext) (now : ℕ)
      (s : Store) (later : now ≤ env.clock) (prepared : IsPrepared report)
      (consistent : IsConsistent now s) (held : Held s) where
    transaction-Held :
        (ack : EdgeReportAck) (t : Store)
        → ingest_in_transaction env report verified s ≡ ok (ack, t)
        → Held t
    transaction-Held ack t e =
        let c = transaction-Committed env report verified s ack t e in
        let (h, k) = consistent in
        let same = lock_head-some s h c.head k.head c.locked_head in
        let k' = subst (λ x. Consistent now x s) (sym same) k in
        elim c.kind [
          | inl (_, unchanged) ↦ subst Held (sym unchanged) held
          | inr (in_sequence, accepted) ↦
              Fresh-Held env report verified s ack t c
                (Committed-Fresh env report verified now s later prepared h ack t c k accepted)
                k'.head
                (decide_boot-cases now c.head report c.decision s.boots s.presence k'.current
                  c.decided)
                (check_sequence-expected c.decision s report
                  (decide_boot-first c.head s report c.decision c.decided) in_sequence)
                held
        ]

    pub ingest-Held : Held (ingest env report verified s).1
    unfolding ingest
    ingest-Held = checked_rule Held _ s _ held (settle_rule Held s _ held transaction-Held)

  -- What a sweep writes is not remembered.
  swept-Remembers :
      (s : Store) (rows : List IntervalRow) (p : Option PresenceRow)
      (revisions : List RevisionInput)
      → Remembers old context answer s
      → Remembers old context answer
          (record s { intervals = rows; presence = p; revisions = revisions })
  unfolding lock_instance lock_agent
  swept-Remembers s rows p revisions m = record {
    row = m.row;
    agent = m.agent;
    head = m.head;
    boot = m.boot;
    others = m.others;
    receipt = m.receipt;
    locked_instance = m.locked_instance;
    locked_agent = m.locked_agent;
    store_head = m.store_head;
    store_boots = m.store_boots;
    current = m.current;
    generation = m.generation;
    range = m.range;
    boot_id = m.boot_id;
    previous = m.previous;
    passed = m.passed;
    next_range = m.next_range;
    found = m.found;
    hash = m.hash;
    payload = m.payload;
    answered = m.answered;
  }

  swept-Held :
      (s : Store) (rows : List IntervalRow) (p : Option PresenceRow)
      (revisions : List RevisionInput)
      → Held s
      → Held (record s { intervals = rows; presence = p; revisions = revisions })
  swept-Held s rows p revisions (inl (m, g)) = inl (swept-Remembers s rows p revisions m, g)
  swept-Held s rows p revisions (inr later) = inr later

  pub expire_one_lease-Held :
      (env : SweepEnv) (s : Store) → Held s → Held (expire_one_lease env s).1
  unfolding expire_one_lease close_lease
  expire_one_lease-Held env s held = rolled_back_rule Held s _ held λ done t e.
      elim (expire_cases env s done t e) [
        | inl (_, same) ↦ subst Held (sym same) held
        | inr (row, p, _, _, _, closed) ↦
            let (_, _, e₁) =
              >>=-eq-ok (parse_safe_sequence p.last_accepted_sequence false) _ closed in
            let (rows, _, e₂) =
              >>=-eq-ok
                (close_open_activity_interval p.lease_expires_at _ lease_expired s.intervals) _
                e₁ in
            subst Held (sym (append-eq env row p.lease_expires_at _ t e₂)) (
              swept-Held s rows (some (record p { lease_closed_at = some p.lease_expires_at }))
                t.revisions held)
      ]
