-- ===== src/Edge/Invariant/Log.antt =====
-- The receipts and fingerprints of an instance lie below the head: each is of an older boot, or of
-- the current one and below the sequence that it expects next. So the rows of a report that goes on
-- there violate no key.
use mathlib.Core.Path.{subst}
use workbuddy_buddy.Prelude.{
  ℕ, ◌+◌, ◌≤◌, ◌<◌, ◌≡◌, ◌≢◌, refl, sym, ap, ◌∙◌, ◌⊎◌, inr, true, false, ◌&&◌, Option, none, some,
  List, [], ◌∷◌, map, ◌==◌, arith, All, All-map, All-keep, All-append, All-both, any-none, length,
}
use workbuddy_buddy.Edge.Types.{
  Text, EdgeEvent, CanonicalEvent, PreparedEdgeReport, VerifiedEdgeContext, sequence, text_eq_iff,
  max_safe_sequence,
}
use workbuddy_buddy.Edge.Activity.{MutablePresence}
use workbuddy_buddy.Edge.Store.{
  IntervalRow, HeadRow, BootRow, ReceiptRow, FingerprintRow, Store, Env,
}
use workbuddy_buddy.Edge.Boot.{last_sequence}
use workbuddy_buddy.Edge.Constraints.{
  same_receipt_key, receipt_clashes, is_valid_event, is_valid_fingerprint, same_fingerprint_key,
  fingerprints_clash, violates_constraints,
}
use workbuddy_buddy.Edge.Commit.{new_receipt, new_fingerprints, is_refused, record_report}
use workbuddy_buddy.Edge.Rollover.{fence_previous_boot, scrub_fenced_boot_replay_material}
use workbuddy_buddy.Edge.Invariant.Report.{Contiguous, Numbered-cons, IsPrepared}

-- What the boot `generation` has recorded up to, but not including, the sequence `next`, and all
-- that older boots have.
abbrev pub IsBefore : ℕ → ℕ → ℕ → ℕ → Type 0
IsBefore generation next g n = (g < generation) ⊎ ((g ≡ generation) × (n < next))

pub record LogBelow (generation next : ℕ) (s : Store) : Type 0 where
  pub receipts : All (λ r. IsBefore generation next r.boot_generation r.last_sequence) s.receipts
  pub fingerprints : All (λ f. IsBefore generation next f.boot_generation f.sequence) s.fingerprints

-- The sequence that the newest boot expects.
abbrev pub next_of : List BootRow → ℕ
next_of [] = 1
next_of (b ∷ bs) = b.next_sequence

abbrev pub IsLogged : HeadRow → Store → Type 0
IsLogged h s = LogBelow h.current_boot_generation (next_of s.boots) s

-- The canonical events are those of the envelope, and their states fit their activities.
pub record IsCanonical (report : PreparedEdgeReport) : Type 0 where
  pub events : map (λ c. c.event) report.canonical_events ≡ report.envelope.events
  pub valid : All (λ e. is_valid_event e ≡ true) report.envelope.events

IsBefore-more :
    (g n g' n' a b : ℕ) → (g < g') ⊎ ((g ≡ g') × (n ≤ n')) → IsBefore g n a b → IsBefore g' n' a b
IsBefore-more g n g' n' a b l h = omega arith

pub LogBelow-more :
    (g n g' n' : ℕ) (s : Store)
    → (g < g') ⊎ ((g ≡ g') × (n ≤ n'))
    → LogBelow g n s
    → LogBelow g' n' s
LogBelow-more g n g' n' s l h = record {
  receipts =
      All-map (λ r. IsBefore g n r.boot_generation r.last_sequence)
        (λ r. IsBefore g' n' r.boot_generation r.last_sequence)
        (λ r k. IsBefore-more g n g' n' r.boot_generation r.last_sequence l k) s.receipts
        h.receipts;
  fingerprints =
      All-map (λ f. IsBefore g n f.boot_generation f.sequence)
        (λ f. IsBefore g' n' f.boot_generation f.sequence)
        (λ f k. IsBefore-more g n g' n' f.boot_generation f.sequence l k) s.fingerprints
        h.fingerprints;
}

-- Fencing a boot only removes rows.
pub fence-LogBelow :
    (g n : ℕ) (o : Option Text) (received : ℕ) (s : Store)
    → LogBelow g n s
    → LogBelow g n (fence_previous_boot o received s)
unfolding fence_previous_boot scrub_fenced_boot_replay_material
fence-LogBelow g n none received s h = h
fence-LogBelow g n (some previous) received s h = record {
  receipts = All-keep _ _ s.receipts h.receipts;
  fingerprints = All-keep _ _ s.fingerprints h.fingerprints;
}

key-misses : (g n a b : ℕ) → IsBefore g n a b → (a == g && b == n) ≡ false
key-misses g n a b h = ground arith

valid_fingerprint :
    (f : FingerprintRow)
    → 0 < f.sequence
    → f.sequence ≤ max_safe_sequence
    → is_valid_event f.event ≡ true
    → is_valid_fingerprint f ≡ true
unfolding is_valid_fingerprint
valid_fingerprint f p l v = ground arith

module _ (receipt_id : Text) (generation : ℕ) where
  -- Numbered events whose sequences are not taken go into the table.
  fingerprints-clear :
      (first : ℕ) (cs : List CanonicalEvent) (rows : List FingerprintRow)
      → 0 < first
      → Contiguous first (map (λ c. c.event) cs)
      → All (λ e. is_valid_event e ≡ true) (map (λ c. c.event) cs)
      → All (λ f. IsBefore generation first f.boot_generation f.sequence) rows
      → fingerprints_clash (new_fingerprints receipt_id generation cs) rows ≡ false
  unfolding fingerprints_clash new_fingerprints is_valid_fingerprint
  fingerprints-clear first [] rows positive h v below = refl
  fingerprints-clear first (c ∷ cs) rows positive h v below =
      let new : FingerprintRow = record {
        boot_generation = generation;
        sequence = sequence c.event;
        receipt_id = receipt_id;
        event = c.event;
        canonical_sha256 = c.hash;
        canonical_event = c.bytes;
      } in
      let below' : All (λ f. IsBefore generation (first + 1) f.boot_generation f.sequence) rows =
        All-map (λ f. IsBefore generation first f.boot_generation f.sequence)
          (λ f. IsBefore generation (first + 1) f.boot_generation f.sequence)
          (λ f k. omega (arith, k)) rows below in
      rw
        (
          valid_fingerprint new (omega (arith, h.0)) (omega (arith, h.0, h.1)) v.0,
          any-none (same_fingerprint_key new) rows (
              All-map (λ f. IsBefore generation first f.boot_generation f.sequence)
                (λ f. same_fingerprint_key new f ≡ false)
                (λ f k.
                  key-misses generation (sequence c.event) f.boot_generation f.sequence
                    (omega (arith, h.0, k)))
                rows below),
        )
        (fingerprints-clear (first + 1) cs (new ∷ rows) (omega arith) h.2 v.1
          (inr (refl, omega (arith, h.0)), below'))

  -- All of them are recorded below the end of the report.
  fingerprints-IsBefore :
      (first : ℕ) (cs : List CanonicalEvent)
      → Contiguous first (map (λ c. c.event) cs)
      → All
          (λ f. IsBefore generation (first + length cs) f.boot_generation f.sequence)
          (new_fingerprints receipt_id generation cs)
  unfolding new_fingerprints
  fingerprints-IsBefore first [] h = tt
  fingerprints-IsBefore first (c ∷ cs) h = (
    inr (refl, omega (arith, h.0)),
    All-map (λ f. IsBefore generation (first + 1 + length cs) f.boot_generation f.sequence)
        (λ f. IsBefore generation (first + length (c ∷ cs)) f.boot_generation f.sequence)
        (λ f k. omega (arith, k)) (new_fingerprints receipt_id generation cs)
        (fingerprints-IsBefore (first + 1) cs h.2),
  )

receipt-misses :
    (new r : ReceiptRow)
    → r.id ≢ new.id
    → IsBefore new.boot_generation new.last_sequence r.boot_generation r.last_sequence
    → same_receipt_key new r ≡ false
receipt-misses new r other h = ground (arith, text_eq_iff r.id new.id)

receipts-clear :
    (new : ReceiptRow) (rs : List ReceiptRow)
    → All (λ r. r.id ≢ new.id) rs
    → All (λ r. IsBefore new.boot_generation new.last_sequence r.boot_generation r.last_sequence) rs
    → receipt_clashes new rs ≡ false
unfolding receipt_clashes
receipts-clear new rs other h = any-none (same_receipt_key new) rs (
    All-both (λ r. r.id ≢ new.id)
      (λ r. IsBefore new.boot_generation new.last_sequence r.boot_generation r.last_sequence)
      (λ r. same_receipt_key new r ≡ false) rs (λ r o k. receipt-misses new r o k) other h)

-- No receipt has the id that the next one gets.
abbrev pub IsNewId : Text → Store → Type 0
IsNewId id s = All (λ r. r.id ≢ id) s.receipts

length-canonical :
    (f : CanonicalEvent → EdgeEvent) (cs : List CanonicalEvent) → length (map f cs) ≡ length cs
length-canonical f [] = refl
length-canonical f (c ∷ cs) = omega (arith, length-canonical f cs)

module _ (env : Env) (report : PreparedEdgeReport) (verified : VerifiedEdgeContext)
    (generation received lease : ℕ) (s : Store) (prepared : IsPrepared report)
    (canonical : IsCanonical report)
    (below : LogBelow generation report.envelope.first_sequence s) where
  numbered : Contiguous report.envelope.first_sequence (map (λ c. c.event) report.canonical_events)
  numbered =
      let (e, es, shape, h) =
        Numbered-cons report.envelope.first_sequence report.envelope.events prepared.1 in
      subst (Contiguous report.envelope.first_sequence) (sym (canonical.events ∙ shape)) h

  -- A report that goes on where the log ends violates no constraint.
  pub is_refused-clear :
      report.envelope.first_sequence ≤ last_sequence report
      → IsNewId env.receipt_id s
      → is_refused env report verified generation received lease s ≡ false
  unfolding is_refused violates_constraints new_receipt
  is_refused-clear ordered fresh =
      rw
        (receipts-clear
          (new_receipt env report verified generation (last_sequence report) received lease)
          s.receipts fresh
          (LogBelow-more generation report.envelope.first_sequence generation (last_sequence report)
            s (inr (refl, ordered)) below).receipts)
        (fingerprints-clear env.receipt_id generation report.envelope.first_sequence
          report.canonical_events s.fingerprints prepared.0 numbered
          (subst (All (λ e. is_valid_event e ≡ true)) (sym canonical.events) canonical.valid)
          below.fingerprints)

  log_ends :
      report.envelope.first_sequence ≤ last_sequence report
      → report.envelope.first_sequence + length report.canonical_events ≡ last_sequence report + 1
  unfolding last_sequence
  log_ends ordered = omega (
    arith,
    sym (length-canonical (λ c. c.event) report.canonical_events) ∙ ap length canonical.events,
    ordered,
    prepared.0,
  )

  -- With its rows, the log ends at the report's last sequence.
  pub record_report-LogBelow :
      (applied : MutablePresence × List IntervalRow)
      → report.envelope.first_sequence ≤ last_sequence report
      → LogBelow generation
          (last_sequence report + 1)
          (record_report env report verified generation received lease applied s)
  unfolding record_report new_receipt
  record_report-LogBelow applied ordered =
      let older =
        LogBelow-more generation report.envelope.first_sequence generation
          (last_sequence report + 1) s (inr (refl, omega arith)) below in
      record {
        receipts = (inr (refl, omega arith), older.receipts);
        fingerprints =
            All-append _ (new_fingerprints env.receipt_id generation report.canonical_events)
              s.fingerprints
              (subst
                (λ n.
                  All (λ f. IsBefore generation n f.boot_generation f.sequence)
                    (new_fingerprints env.receipt_id generation report.canonical_events))
                (log_ends ordered)
                (fingerprints-IsBefore env.receipt_id generation report.envelope.first_sequence
                  report.canonical_events numbered))
              older.fingerprints;
      }
