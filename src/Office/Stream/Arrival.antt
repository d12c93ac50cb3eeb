-- ===== src/Office/Stream/Arrival.antt =====
-- The pump brings a viewer to the office's revision.
use mathlib.Core.Path.{subst}
use workbuddy_buddy.Prelude.{
  ℕ, zero, suc, ◌+◌, ◌≤◌, ◌<◌, ◌≡◌, refl, sym, ap, ◌∙◌, Bool, true, false, not, ◌&&◌, Option, some,
  List, [], ◌∷◌, ◌++◌, arith, ltb, leb, ◌==◌, if◌then◌else◌, Bool-cases, ◌⊎◌, inl, inr,
}
use workbuddy_buddy.Edge.Types.{Text}
use workbuddy_buddy.Edge.Store.{is_none}
use workbuddy_buddy.Office.Revisions.Invariant.{IsReplayable}
use workbuddy_buddy.Office.Reader.{PublicReplayEvent, grants, projection_of}
use workbuddy_buddy.Office.Reader.Page.{Served, acquire_locked_stream_page-serves}
use workbuddy_buddy.Office.Stream.{
  snapshot, QueueEventResult, queued, backpressure, closed, drained, Stream, World, states,
  queue_event, queue_events, after_events, after_page, pump_round, pump,
}

module _ (payload_revision : Text → Option ℕ) where
  Served-le :
      (from to : ℕ) (es : List PublicReplayEvent) → Served payload_revision from es to → from ≤ to
  Served-le from to [] h = omega (arith, h)
  Served-le from to (e ∷ es) h = omega (arith, Served-le (from + 1) to es h.2)

  -- The stream after the event that follows it.
  abbrev sent : PublicReplayEvent → Stream → Stream
  sent e stream = record stream {
    last_sent = e.revision;
    frames = stream.frames ++ (snapshot e.revision e.canonical_payload ∷ []);
  }

  queue_event-sent :
      (writable : ℕ → Bool) (e : PublicReplayEvent) (stream : Stream)
      → stream.is_closed ≡ false
      → e.revision ≡ stream.last_sent + 1
      → payload_revision e.canonical_payload ≡ some e.revision
      → queue_event payload_revision writable e stream
        ≡ (if writable e.revision then queued else backpressure, sent e stream)
  unfolding queue_event
  queue_event-sent writable e stream live next stated =
      let fresh : leb e.revision stream.last_sent ≡ false = ground (arith, next) in
      let follows : (e.revision == stream.last_sent + 1) ≡ true = ground (arith, next) in
      let same : states e.revision (payload_revision e.canonical_payload) ≡ true =
        ap (states e.revision) stated ∙ ground arith in
      rw (live, fresh, follows, same) refl

  -- What the events of a page that follow a stream make of it.
  abbrev Advanced : ℕ → ℕ → QueueEventResult × Stream → Type 0
  Advanced from to (result, stream) =
      (stream.is_closed ≡ false)
      × (from ≤ stream.last_sent)
      × (stream.last_sent ≤ to)
      × (((result ≡ queued) × (stream.last_sent ≡ to))
          ⊎ ((result ≡ backpressure) × (from < stream.last_sent)))

  -- The rest of the `for` after the answer to one event.
  abbrev go_on :
      (ℕ → Bool) → List PublicReplayEvent → QueueEventResult × Stream → QueueEventResult × Stream
  go_on writable es r = elim r.0 as (λ q. QueueEventResult × Stream) [
    | queued ↦ queue_events payload_revision writable es r.1
    | backpressure ↦ (backpressure, r.1)
    | closed ↦ (closed, r.1)
  ]

  queue_events-Advanced :
      (writable : ℕ → Bool) (es : List PublicReplayEvent) (to : ℕ) (stream : Stream)
      → stream.is_closed ≡ false
      → Served payload_revision stream.last_sent es to
      → Advanced stream.last_sent to (queue_events payload_revision writable es stream)
  unfolding queue_events
  queue_events-Advanced writable [] to stream live h =
      (live, omega arith, omega (arith, h), inl (refl, h))
  queue_events-Advanced writable (e ∷ es) to stream live h =
      let served : Served payload_revision e.revision es to =
        subst (λ n. Served payload_revision n es to) (sym h.0) h.2 in
      let result = queue_event-sent writable e stream live h.0 h.1 in
      subst (λ r. Advanced stream.last_sent to (go_on writable es r)) (sym result)
        (by_writable (writable e.revision)
          (queue_events-Advanced writable es to (sent e stream) live served))
    where
      by_writable :
          (b : Bool)
          → Advanced e.revision to (queue_events payload_revision writable es (sent e stream))
          → Advanced stream.last_sent to
              (go_on writable es (if b then queued else backpressure, sent e stream))
      by_writable true (live', ge, le, outcome) = (
        live',
        omega (arith, ge, h.0),
        le,
        elim outcome [ inl o ↦ inl o | inr o ↦ inr (o.0, omega (arith, o.1, h.0)) ],
      )
      by_writable false rest = (
        live,
        omega (arith, h.0),
        omega (arith, h.0, Served-le (stream.last_sent + 1) to es h.2),
        inr (refl, omega (arith, h.0)),
      )

  -- The office can be read by the viewer, whose connection drains.
  pub record IsReady (w : World) : Type 0 where
    pub replayable : IsReplayable payload_revision w.office
    pub granted : grants w.capability w.clock w.office ≡ true
    pub still_granted : grants w.capability w.head_clock w.office ≡ true
    pub projected : is_none (projection_of w.office.revision w.office.projection) ≡ false
    pub drains : w.drain ≡ drained
    pub undisturbed : w.woken ≡ false

  -- A round that ends at the office's revision, or that goes on from further than it began.
  abbrev Progress : World → Stream → Stream × Bool → Type 0
  Progress w stream (after, again) =
      (after.is_closed ≡ false)
      × (stream.last_sent ≤ after.last_sent)
      × (after.last_sent ≤ w.office.revision)
      × (((again ≡ false) × (after.last_sent ≡ w.office.revision))
          ⊎ ((again ≡ true) × (stream.last_sent < after.last_sent)))

  after_events-Progress :
      (w : World) (from to : ℕ) (stream : Stream) (r : QueueEventResult × Stream)
      → IsReady w
      → stream.last_sent ≡ from
      → Advanced from to r
      → to ≤ w.office.revision
      → (from < w.office.revision → from < to)
      → Progress w stream (after_events payload_revision w w.office.revision r)
  unfolding after_events
  after_events-Progress w from to stream (queued, after) ready same (live, ge, le, outcome) bound
        more =
      let arrived : after.last_sent ≡ to = elim outcome [ inl o ↦ o.1 | inr o ↦ cc ] in
      elim (Bool-cases (ltb after.last_sent w.office.revision)) [
        | inl short ↦ rw short (
          live,
          omega (arith, ge, same),
          omega (arith, le, bound),
          inr (refl, ground (arith, short, same, arrived, more, ge)),
        )
        | inr full ↦
            rw (full, ready.undisturbed)
              (
                live,
                omega (arith, ge, same),
                omega (arith, le, bound),
                inl (refl, ground (arith, full, le, bound)),
              )
      ]
  after_events-Progress w from to stream (backpressure, after) ready same (live, ge, le, outcome)
        bound more =
      let moved : from < after.last_sent = elim outcome [ inl o ↦ cc | inr o ↦ o.1 ] in
      rw (ready.drains) (
        live,
        omega (arith, ge, same),
        omega (arith, le, bound),
        inr (refl, omega (arith, moved, same)),
      )
  after_events-Progress w from to stream (closed, after) ready same (live, ge, le, outcome) bound
        more =
      elim outcome [ inl o ↦ cc | inr o ↦ cc ]

  pump_round-Progress :
      (w : World) (stream : Stream)
      → IsReady w
      → stream.is_closed ≡ false
      → w.office.minimum_replay_revision ≤ stream.last_sent
      → stream.last_sent ≤ w.office.revision
      → Progress w stream (pump_round payload_revision w stream)
  unfolding pump_round after_page
  pump_round-Progress w stream ready live low high =
      let (to, events, read, served, bound, _, more) =
        acquire_locked_stream_page-serves payload_revision w.capability w.clock w.head_clock
          stream.last_sent 100 w.office ready.replayable low high (omega arith) (omega arith)
          ready.granted ready.still_granted ready.projected in
      rw read (
        after_events-Progress w stream.last_sent to stream
          (queue_events payload_revision w.writable events stream) ready refl
          (queue_events-Advanced w.writable events to stream live served) bound more)

  -- When an office can be read and replayed, does not change and the connection drains, the pump of an
  -- open stream whose last revision is one that the office still replays ends, after one round more
  -- than there are revisions to send at most, and it ends with the stream open and at the office's
  -- revision.
  pub pump-arrives :
      (fuel : ℕ) (w : World) (stream : Stream)
      → IsReady w
      → stream.is_closed ≡ false
      → w.office.minimum_replay_revision ≤ stream.last_sent
      → stream.last_sent ≤ w.office.revision
      → w.office.revision < fuel + stream.last_sent
      → (after : Stream) × (pump payload_revision fuel (λ n. w) stream ≡ some after)
        × (after.is_closed ≡ false)
        × (after.last_sent ≡ w.office.revision)
  unfolding pump
  pump-arrives zero w stream ready live low high enough = ground (arith, high, enough)
  pump-arrives (suc fuel) w stream ready live low high enough =
      go (pump_round payload_revision w stream) (pump_round-Progress w stream ready live low high)
        (pump-arrives fuel w)
    where
      go :
          (r : Stream × Bool)
          → Progress w stream r
          → ((next : Stream)
              → IsReady w
              → next.is_closed ≡ false
              → w.office.minimum_replay_revision ≤ next.last_sent
              → next.last_sent ≤ w.office.revision
              → w.office.revision < fuel + next.last_sent
              → (after : Stream) × (pump payload_revision fuel (λ n. w) next ≡ some after)
                × (after.is_closed ≡ false)
                × (after.last_sent ≡ w.office.revision))
          → (after : Stream) × (elim (r.1 && not r.0.is_closed) as (λ b. Option Stream) [
            | true ↦ pump payload_revision fuel (λ n. w) r.0
            | false ↦ some r.0
          ]
              ≡ some after)
            × (after.is_closed ≡ false)
            × (after.last_sent ≡ w.office.revision)
      go (next, again) (live', ge, le, inl (stops, arrived)) f =
          rw stops (next, refl, live', arrived)
      go (next, again) (live', ge, le, inr (goes_on, further)) f =
          rw (goes_on, live')
            (f next ready live' (omega (arith, low, ge)) le (omega (arith, enough, further)))
