-- ===== src/Edge/Ingest/Retry.antt =====
-- A report that was answered with an acknowledgement and is sent again, as a client does that has
-- lost the answer, gets the same acknowledgement and changes nothing, also after later reports.
use mathlib.Core.Path.{subst}
use workbuddy_buddy.Prelude.{ℕ, ◌≤◌, ◌≡◌, refl, sym, ap, inl, inr, arith}
use workbuddy_buddy.Edge.Problem.{Result, ok, throws, protocol, fault, ◌>>◌}
use workbuddy_buddy.Edge.Types.{EdgeReportAck, VerifiedEdgeContext, PreparedEdgeReport}
use workbuddy_buddy.Edge.Store.{Store, Env}
use workbuddy_buddy.Edge.Invariant.{IsConsistent}
use workbuddy_buddy.Edge.Invariant.Report.{IsPrepared}
use workbuddy_buddy.Edge.Ingest.{
  assert_verified_identity, assert_supported_pet_ids, lock_and_validate_credential,
  ingest_in_transaction, checked, settle, ingest,
}
use workbuddy_buddy.Edge.Ingest.Consistency.{Committed, transaction-Committed}
use workbuddy_buddy.Edge.Ingest.Safety.{Committed-Fresh, ingest-IsConsistent}
use workbuddy_buddy.Edge.Ingest.Replays.{Replays-answer}
use workbuddy_buddy.Edge.Ingest.Memory.{Remembers, Remembers-Replays}
use workbuddy_buddy.Edge.Ingest.Remembered.{Fresh-Remembers}
use workbuddy_buddy.Edge.Ingest.Replayed.{replayed-Remembers}
use workbuddy_buddy.Edge.Ingest.Held.{generation_of, Held, ingest-Held, expire_one_lease-Held}
use workbuddy_buddy.Edge.Lease.History.{
  Moment, Step, reports, sweeps, Reach, here, next, Step-IsConsistent,
}

-- What an answer with an acknowledgement says of the two assertions and of the transaction.
record Answered (env : Env) (report : PreparedEdgeReport) (verified : VerifiedEdgeContext)
    (s : Store) (ack : EdgeReportAck) (t : Store) : Type 0 where
  pub identity : assert_verified_identity report verified ≡ ok tt
  transaction : ingest_in_transaction env report verified s ≡ ok (ack, t)

settle-ok :
    (s : Store) (r : Result (EdgeReportAck × Store)) (ack : EdgeReportAck) (t : Store)
    → settle s r ≡ (ok ack, t)
    → r ≡ ok (ack, t)
settle-ok s (ok (a, u)) ack t e = ground arith
settle-ok s (throws (protocol p)) ack t e = ground arith
settle-ok s (throws fault) ack t e = ground arith

checked-ok :
    (m k : Result (Unit {0})) (s : Store) (o : Result EdgeReportAck × Store) (ack : EdgeReportAck)
    (t : Store)
    → checked (m >> k) s o ≡ (ok ack, t)
    → (m ≡ ok tt) × (o ≡ (ok ack, t))
checked-ok (ok tt) (ok _) s o ack t e = (refl, e)
checked-ok (ok _) (throws f) s o ack t e = ground arith
checked-ok (throws f) k s o ack t e = ground arith

ingest-Answered :
    (env : Env) (report : PreparedEdgeReport) (verified : VerifiedEdgeContext) (s : Store)
    (ack : EdgeReportAck) (t : Store)
    → ingest env report verified s ≡ (ok ack, t)
    → Answered env report verified s ack t
unfolding ingest
ingest-Answered env report verified s ack t e =
    let (identity, settled) = checked-ok _ _ s _ ack t e in
    record { identity = identity; transaction = settle-ok s _ ack t settled }

module _ (env : Env) (report : PreparedEdgeReport) (verified : VerifiedEdgeContext) (now : ℕ)
    (s : Store) (ack : EdgeReportAck) (t : Store) (later : now ≤ env.clock)
    (prepared : IsPrepared report) (consistent : IsConsistent now s) where
  Committed-Remembers : Committed env report verified s ack t → Remembers report verified ack t
  Committed-Remembers c = elim c.kind [
    | inl (replayed, same) ↦
        subst (Remembers report verified ack) (sym same)
          (replayed-Remembers env report verified now s ack t c consistent replayed)
    | inr (_, accepted) ↦
        let (h, k) = consistent in
        Fresh-Remembers env report verified s ack t c
          (Committed-Fresh env report verified now s later prepared h ack t c k accepted)
  ]

module _ (old : PreparedEdgeReport) (context : VerifiedEdgeContext) (ack : EdgeReportAck)
    (generation : ℕ) where
  Step-Held :
      {m n : Moment}
      → Step m n
      → IsConsistent m.now m.store
      → Held old context ack generation m.store
      → Held old context ack generation n.store
  Step-Held (reports m env report verified later prepared) c held =
      ingest-Held old context ack generation env report verified m.now m.store later prepared c held
  Step-Held (sweeps m env later) c held =
      expire_one_lease-Held old context ack generation env m.store held

  Reach-Held :
      {m n : Moment}
      → IsConsistent m.now m.store
      → Held old context ack generation m.store
      → Reach m n
      → IsConsistent n.now n.store × Held old context ack generation n.store
  Reach-Held c held here = (c, held)
  Reach-Held c held (next r step) =
      let (c', held') = Reach-Held c held r in (Step-IsConsistent step c', Step-Held step c' held')

-- From consistent rows, a prepared report that `ingest` answers with an acknowledgement is answered
-- with the same one when it is sent again after any history of prepared reports and sweeps, as long
-- as no report has replaced the boot, and leaves the rows as they are. The device's credential and
-- the report's pets must still be good at that time.
pub ingest_again :
    (env later_env : Env) (report : PreparedEdgeReport) (verified : VerifiedEdgeContext) (now : ℕ)
    (s : Store) (ack : EdgeReportAck) (t : Store) (m : Moment)
    → now ≤ env.clock
    → IsPrepared report
    → IsConsistent now s
    → ingest env report verified s ≡ (ok ack, t)
    → Reach (record { now = env.clock; store = t }) m
    → generation_of m.store.head ≡ generation_of t.head
    → lock_and_validate_credential later_env verified m.store ≡ ok tt
    → assert_supported_pet_ids later_env.supported_pets report ≡ ok tt
    → ingest later_env report verified m.store ≡ (ok ack, m.store)
ingest_again env later_env report verified now s ack t m later prepared consistent answered history
      same validated pets =
    let a = ingest-Answered env report verified s ack t answered in
    let c = transaction-Committed env report verified s ack t a.transaction in
    let remembered =
      Committed-Remembers env report verified now s ack t later prepared consistent c in
    let consistent' : IsConsistent env.clock t =
      subst (IsConsistent env.clock) (ap (λ o. o.1) answered)
        (ingest-IsConsistent env report verified now s later prepared consistent) in
    let (_, held) =
      Reach-Held report verified ack (generation_of t.head) consistent' (inl (remembered, refl))
        history in
    elim held [
      | inl (kept, _) ↦
          Replays-answer later_env report verified m.store ack a.identity pets validated
            (Remembers-Replays report verified ack m.store kept)
      | inr replaced ↦ absurd (omega (arith, replaced, same))
    ]
