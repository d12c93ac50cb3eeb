-- ===== src/Office/Reader/Privacy.antt =====
-- Lowering a consent withdraws everything that was published before.
use mathlib.Core.Path.{subst}
use workbuddy_buddy.Prelude.{
  All-limit_rows, ℕ, ◌+◌, ◌≤◌, ◌≡◌, refl, sym, ap, ◌∙◌, Bool, true, false, not, ◌&&◌, ◌||◌, Option,
  some, List, [], ◌∷◌, arith, leb, ltb, ◌==◌, if◌then◌else◌, keep, keep-append, keep-none, All,
  All-map, All-keep, All-sort, Bool-cases, inl, inr,
}
use workbuddy_buddy.Edge.Problem.{Result, ok, fault, ◌>>=◌, >>=-eq-ok, throw_if-eq-ok}
use workbuddy_buddy.Edge.Types.{Text}
use workbuddy_buddy.Office.Intervals.{is_safe_integer}
use workbuddy_buddy.Office.Snapshot.{PublicOfficeSnapshot}
use workbuddy_buddy.Office.Revisions.{
  Office, RevisionEvent, ProjectorEnv, RecordPublicRevisionInput, parse_revision,
  record_privacy_lowering_revision, with_revision, delete_events, invalidate_replay_history,
}
use workbuddy_buddy.Office.Revisions.Invariant.{IsReplayable}
use workbuddy_buddy.Office.Revisions.Record.{record_public_revision-Recorded}
use workbuddy_buddy.Office.Reader.{
  PublicCapability, PublicReplayEvent, PublicStreamPage, page, revision_gap, not_found,
  within_bytes, replay_page, replay_events, stream_page, acquire_locked_stream_page,
  require_payload, octet_length, replay_page_max_bytes,
}

All-within_bytes :
    (P : RevisionEvent → Type 0) (first : Bool) (total : ℕ) (es : List RevisionEvent)
    → All P es
    → All P (within_bytes first total es)
unfolding within_bytes
All-within_bytes P first total [] h = tt
All-within_bytes P first total (e ∷ es) h =
    let sum = total + octet_length e.canonical_payload in
    let rest = All-within_bytes P false sum es h.1 in
    elim (Bool-cases (first || leb sum replay_page_max_bytes)) [
      | inl kept ↦ rw kept (h.0, rest)
      | inr dropped ↦ rw dropped rest
    ]

-- A page has no payload that the events do not have.
replay_events-All :
    (bytes : Text) (es : List RevisionEvent) (events : List PublicReplayEvent)
    → All (λ e. e.canonical_payload ≡ some bytes) es
    → replay_events es ≡ ok events
    → All (λ e. e.canonical_payload ≡ bytes) events
unfolding replay_events
replay_events-All bytes [] events h r =
    let empty : [] ≡ events = ground (arith, r) in subst (All _) empty tt
replay_events-All bytes (e ∷ es) events h r =
    let (payload, shown, r₁) = >>=-eq-ok (require_payload e.canonical_payload) _ r in
    let (revision, _, r₂) = >>=-eq-ok (parse_revision e.revision) _ r₁ in
    let (rest, replayed, r₃) = >>=-eq-ok (replay_events es) _ r₂ in
    let shape : record { revision = revision; canonical_payload = payload } ∷ rest ≡ events =
      ground (arith, r₃) in
    let same : payload ≡ bytes = ground (arith, sym (ap require_payload h.0) ∙ shown) in
    subst (All (λ d. d.canonical_payload ≡ bytes)) shape
      (same, replay_events-All bytes es rest h.1 replayed)

-- The page of a test was made by its other branch.
found :
    (b : Bool) (other : Result PublicStreamPage) {current minimum : ℕ}
    {events : List PublicReplayEvent}
    → (if b then ok not_found else other) ≡ ok (page current minimum events)
    → other ≡ ok (page current minimum events)
found true other e = cc
found false other e = e

stream_page-inversion :
    (cursor limit : ℕ) (s : Office) (current minimum : ℕ) (events : List PublicReplayEvent)
    → stream_page cursor limit s ≡ ok (page current minimum events)
    → (s.minimum_replay_revision ≤ cursor)
      × (replay_events (replay_page cursor limit s.events) ≡ ok events)
unfolding stream_page parse_revision
stream_page-inversion cursor limit s current minimum events e =
    let (c, _, e₁) = >>=-eq-ok (parse_revision s.revision) _ e in
    let (m, parsed, e₂) = >>=-eq-ok (parse_revision s.minimum_replay_revision) _ e₁ in
    let same : s.minimum_replay_revision ≡ m = ground (arith, parsed) in by_test c m same e₂
  where
    by_test :
        (c m : ℕ)
        → s.minimum_replay_revision ≡ m
        → (if ltb cursor m
            then ok (revision_gap c m)
            else (replay_events (replay_page cursor limit s.events) >>= λ es. ok (page c m es)))
          ≡ ok (page current minimum events)
        → (s.minimum_replay_revision ≤ cursor)
          × (replay_events (replay_page cursor limit s.events) ≡ ok events)
    by_test c m same e' = elim (Bool-cases (ltb cursor m)) [
      | inl below ↦
          let no : ok (revision_gap c m) ≡ ok (page current minimum events) =
            subst
              (λ b.
                (if b
                  then ok (revision_gap c m)
                  else (replay_events (replay_page cursor limit s.events) >>= λ es.
                      ok (page c m es)))
                ≡ ok (page current minimum events))
              below e' in
          cc
      | inr reached ↦
          let yes : (replay_events (replay_page cursor limit s.events) >>= λ es. ok (page c m es))
              ≡ ok (page current minimum events) =
            subst
              (λ b.
                (if b
                  then ok (revision_gap c m)
                  else (replay_events (replay_page cursor limit s.events) >>= λ es.
                      ok (page c m es)))
                ≡ ok (page current minimum events))
              reached e' in
          let (es, replayed, shape) =
            >>=-eq-ok (replay_events (replay_page cursor limit s.events)) _ yes in
          let same_events : es ≡ events = ground (arith, shape) in
          (ground (arith, reached, same), replayed ∙ ap ok same_events)
    ]

-- What a page says of the rows it was read from.
page-inversion :
    (capability : PublicCapability) (clock head_clock cursor limit : ℕ) (s : Office)
    (current minimum : ℕ) (events : List PublicReplayEvent)
    → acquire_locked_stream_page capability clock head_clock cursor limit s
      ≡ ok (page current minimum events)
    → (s.minimum_replay_revision ≤ cursor)
      × (replay_events (replay_page cursor limit s.events) ≡ ok events)
unfolding acquire_locked_stream_page
page-inversion capability clock head_clock cursor limit s current minimum events e =
    let (_, e₁) = throw_if-eq-ok (not (is_safe_integer cursor)) fault _ e in
    let (_, e₂) = throw_if-eq-ok (limit == 0 || ltb 1000 limit) fault _ e₁ in
    stream_page-inversion cursor limit s current minimum events
      (found _ (stream_page cursor limit s) e₂)

replay_page-All :
    (P : RevisionEvent → Type 0) (cursor limit : ℕ) (es : List RevisionEvent)
    → All P es
    → All P (replay_page cursor limit es)
unfolding replay_page
replay_page-All P cursor limit es h = All-within_bytes P true 0 _ (
    All-limit_rows P limit _ (
      All-sort (λ a b. leb a.revision b.revision) P _
        (All-keep P (λ e. ltb cursor e.revision && e.projection_format_version == 1) es h)))

module _ (payload_revision : Text → Option ℕ) where
  -- After a lowering the new event is alone, and the minimum is the revision before it.
  lowered :
      (env : ProjectorEnv) (input : RecordPublicRevisionInput) (s after : Office)
      (snapshot : PublicOfficeSnapshot)
      → IsReplayable payload_revision s
      → record_privacy_lowering_revision env input s ≡ ok (snapshot, after)
      → (after.minimum_replay_revision ≡ s.revision)
        × All (λ e. e.canonical_payload ≡ some (env.canonical_bytes snapshot)) after.events
  unfolding record_privacy_lowering_revision invalidate_replay_history delete_events with_revision
  lowered env input s after snapshot w e =
      let r = record_public_revision-Recorded payload_revision env input true s after snapshot e in
      let gone : keep (λ d. not (ltb d.revision (s.revision + 1))) s.events ≡ [] =
        keep-none (λ d. not (ltb d.revision (s.revision + 1))) s.events
          (All-map (λ d. d.revision ≤ s.revision)
            (λ d. not (ltb d.revision (s.revision + 1)) ≡ false) (λ d l. ground (arith, l)) s.events
            w.bounded) in
      let stays : ltb (s.revision + 1) (s.revision + 1) ≡ false = ground arith in
      rw
        (r.result, keep-append (λ d. not (ltb d.revision (s.revision + 1))) s.events _, gone, stays)
        (omega arith, (refl, tt))

  -- From a replayable state, once a revision that lowers a consent is recorded, no page of the stream,
  -- whatever the token, the times, the cursor and the limit, carries anything but the payload of the
  -- new snapshot; and a cursor below the revision before it gets no page.
  pub record_privacy_lowering_revision-hides :
      (env : ProjectorEnv) (input : RecordPublicRevisionInput) (s after : Office)
      (snapshot : PublicOfficeSnapshot) (capability : PublicCapability)
      (clock head_clock cursor limit current minimum : ℕ) (events : List PublicReplayEvent)
      → IsReplayable payload_revision s
      → record_privacy_lowering_revision env input s ≡ ok (snapshot, after)
      → acquire_locked_stream_page capability clock head_clock cursor limit after
        ≡ ok (page current minimum events)
      → (s.revision ≤ cursor) × All (λ e. e.canonical_payload ≡ env.canonical_bytes snapshot) events
  record_privacy_lowering_revision-hides env input s after snapshot capability clock head_clock
        cursor limit current minimum events w e p =
      let (low, shown) = lowered env input s after snapshot w e in
      let (reached, replayed) =
        page-inversion capability clock head_clock cursor limit after current minimum events p in
      (
        omega (arith, low, reached),
        replay_events-All (env.canonical_bytes snapshot) _ events
            (replay_page-All _ cursor limit after.events shown) replayed,
      )
