-- ===== src/Office/Stream/Delivery.antt =====
-- What a viewer of the stream receives.
use mathlib.Core.Path.{subst}
use workbuddy_buddy.Prelude.{
  ℕ, zero, suc, ◌+◌, ◌≡◌, refl, sym, ap, ◌∙◌, Bool, true, false, not, ◌&&◌, Option, none, some,
  List, [], ◌∷◌, ◌++◌, arith, leb, ◌==◌, Bool-cases, inl, inr,
}
use workbuddy_buddy.Edge.Problem.{Result, ok, throws}
use workbuddy_buddy.Edge.Types.{Text}
use workbuddy_buddy.Office.Reader.{
  PublicReplayEvent, PublicStreamPage, page, revision_gap, not_found, acquire_locked_stream_page,
}
use workbuddy_buddy.Office.Stream.{
  Frame, snapshot, resync, QueueEventResult, queued, backpressure, closed, DrainWaitResult, drained,
  interrupted, timeout, Stream, World, close, send_resync_and_close, states, queue_event,
  queue_events, after_events, after_page, pump_round, pump, canonical_payload_matches_revision,
}

module _ (payload_revision : Text → Option ℕ) where
  -- From a cursor, the frames are the snapshots of one revision after another up to the last that was
  -- sent, each with a payload of its revision; after them a `resync` may stand, if the stream is
  -- closed.
  abbrev pub Delivered : ℕ → List Frame → ℕ → Bool → Type 0
  Delivered from [] to ended = from ≡ to
  Delivered from (snapshot revision payload ∷ fs) to ended =
      (revision ≡ from + 1)
      × (payload_revision payload ≡ some revision)
      × Delivered (from + 1) fs to ended
  Delivered from (resync ∷ fs) to ended = (fs ≡ []) × (from ≡ to) × (ended ≡ true)

  abbrev pub IsDelivered : ℕ → Stream → Type 0
  IsDelivered cursor stream = Delivered cursor stream.frames stream.last_sent stream.is_closed

  Delivered-snapshot :
      (from to : ℕ) (payload : Text) (fs : List Frame)
      → Delivered from fs to false
      → payload_revision payload ≡ some (to + 1)
      → Delivered from (fs ++ (snapshot (to + 1) payload ∷ [])) (to + 1) false
  Delivered-snapshot from to payload [] h e = (ap (λ n. n + 1) (sym h), e, ap (λ n. n + 1) h)
  Delivered-snapshot from to payload (snapshot r p ∷ fs) h e =
      (h.0, h.1, Delivered-snapshot (from + 1) to payload fs h.2 e)
  Delivered-snapshot from to payload (resync ∷ fs) h e = cc

  Delivered-resync :
      (from to : ℕ) (fs : List Frame)
      → Delivered from fs to false
      → Delivered from (fs ++ (resync ∷ [])) to true
  Delivered-resync from to [] h = (refl, h, refl)
  Delivered-resync from to (snapshot r p ∷ fs) h = (h.0, h.1, Delivered-resync (from + 1) to fs h.2)
  Delivered-resync from to (resync ∷ fs) h = cc

  Delivered-close :
      (from to : ℕ) (ended : Bool) (fs : List Frame)
      → Delivered from fs to ended
      → Delivered from fs to true
  Delivered-close from to ended [] h = h
  Delivered-close from to ended (snapshot r p ∷ fs) h =
      (h.0, h.1, Delivered-close (from + 1) to ended fs h.2)
  Delivered-close from to ended (resync ∷ fs) h = (h.0, h.1, refl)

  send_resync-IsDelivered :
      (cursor : ℕ) (stream : Stream)
      → IsDelivered cursor stream
      → IsDelivered cursor (send_resync_and_close stream)
  unfolding send_resync_and_close
  send_resync-IsDelivered cursor stream = by_state stream.is_closed
    where
      by_state :
          (ended : Bool)
          → Delivered cursor stream.frames stream.last_sent ended
          → IsDelivered cursor (send_resync_and_close (record stream { is_closed = ended }))
      by_state true h = h
      by_state false h = Delivered-resync cursor stream.last_sent stream.frames h

  states-eq : (revision : ℕ) (o : Option ℕ) → states revision o ≡ true → o ≡ some revision
  states-eq revision none e = cc
  states-eq revision (some n) e = ap some (ground (arith, e))

  queue_event-IsDelivered :
      (cursor : ℕ) (writable : ℕ → Bool) (e : PublicReplayEvent) (stream : Stream)
      → IsDelivered cursor stream
      → IsDelivered cursor (queue_event payload_revision writable e stream).1
  unfolding queue_event
  queue_event-IsDelivered cursor writable e stream = by_state stream.is_closed
    where
      by_state :
          (ended : Bool)
          → Delivered cursor stream.frames stream.last_sent ended
          → IsDelivered cursor
              (queue_event payload_revision writable e (record stream { is_closed = ended })).1
      by_state true h = h
      by_state false h = elim (Bool-cases (leb e.revision stream.last_sent)) [
        | inl old ↦ rw old h
        | inr fresh ↦ elim (Bool-cases (e.revision == stream.last_sent + 1)) [
          | inr gap ↦
              rw (fresh, gap)
                (send_resync-IsDelivered cursor (record stream { is_closed = false }) h)
          | inl next ↦ elim (Bool-cases (canonical_payload_matches_revision payload_revision e)) [
            | inr other ↦
                rw (fresh, next, other)
                  (send_resync-IsDelivered cursor (record stream { is_closed = false }) h)
            | inl same ↦
                let at : e.revision ≡ stream.last_sent + 1 = ground (arith, next) in
                rw (fresh, next, same, at)
                  (Delivered-snapshot cursor stream.last_sent e.canonical_payload stream.frames h
                    (states-eq e.revision (payload_revision e.canonical_payload) same ∙ ap some at))
          ]
        ]
      ]

  queue_events-IsDelivered :
      (cursor : ℕ) (writable : ℕ → Bool) (es : List PublicReplayEvent) (stream : Stream)
      → IsDelivered cursor stream
      → IsDelivered cursor (queue_events payload_revision writable es stream).1
  unfolding queue_events
  queue_events-IsDelivered cursor writable [] stream h = h
  queue_events-IsDelivered cursor writable (e ∷ es) stream h =
      go (queue_event payload_revision writable e stream)
        (queue_event-IsDelivered cursor writable e stream h)
        (queue_events-IsDelivered cursor writable es)
    where
      go :
          (r : QueueEventResult × Stream)
          → IsDelivered cursor r.1
          → ((after : Stream)
              → IsDelivered cursor after
              → IsDelivered cursor (queue_events payload_revision writable es after).1)
          → IsDelivered cursor
              (elim r.0 as (λ q. QueueEventResult × Stream) [
                | queued ↦ queue_events payload_revision writable es r.1
                | backpressure ↦ (backpressure, r.1)
                | closed ↦ (closed, r.1)
              ]).1
      go (queued, after) k f = f after k
      go (backpressure, after) k f = k
      go (closed, after) k f = k

  close-IsDelivered :
      (cursor : ℕ) (stream : Stream) → IsDelivered cursor stream → IsDelivered cursor (close stream)
  close-IsDelivered cursor stream h =
      Delivered-close cursor stream.last_sent stream.is_closed stream.frames h

  after_events-IsDelivered :
      (cursor : ℕ) (w : World) (current : ℕ) (r : QueueEventResult × Stream)
      → IsDelivered cursor r.1
      → IsDelivered cursor (after_events payload_revision w current r).0
  unfolding after_events
  after_events-IsDelivered cursor w current (queued, stream) h = h
  after_events-IsDelivered cursor w current (closed, stream) h = h
  after_events-IsDelivered cursor w current (backpressure, stream) h = by_drain w.drain
    where
      by_drain :
          (d : DrainWaitResult)
          → IsDelivered cursor
              (after_events payload_revision
                (record w { drain = d })
                current
                (backpressure, stream)).0
      by_drain drained = h
      by_drain interrupted = close-IsDelivered cursor stream h
      by_drain timeout = close-IsDelivered cursor stream h

  pump_round-IsDelivered :
      (cursor : ℕ) (w : World) (stream : Stream)
      → IsDelivered cursor stream
      → IsDelivered cursor (pump_round payload_revision w stream).0
  unfolding pump_round after_page
  pump_round-IsDelivered cursor w stream h =
      by_page
        (acquire_locked_stream_page w.capability w.clock w.head_clock stream.last_sent 100 w.office)
    where
      by_page :
          (r : Result PublicStreamPage)
          → IsDelivered cursor (after_page payload_revision w stream r).0
      by_page (throws failure) = close-IsDelivered cursor stream h
      by_page (ok not_found) = close-IsDelivered cursor stream h
      by_page (ok (revision_gap current minimum)) = send_resync-IsDelivered cursor stream h
      by_page (ok (page current minimum events)) =
          after_events-IsDelivered cursor w current _
            (queue_events-IsDelivered cursor w.writable events stream h)

  -- Whatever happens around the rounds of the pump (other transactions, tokens that are revoked, a
  -- connection that is slow), when the pump ends a viewer who began at a cursor has received the
  -- snapshots of the revisions that follow it, each once, in order and with its own payload, and at
  -- most a resync after them, which closes the stream.
  pub pump-IsDelivered :
      (fuel cursor : ℕ) (worlds : ℕ → World) (stream after : Stream)
      → IsDelivered cursor stream
      → pump payload_revision fuel worlds stream ≡ some after
      → IsDelivered cursor after
  unfolding pump
  pump-IsDelivered zero cursor worlds stream after h e = cc
  pump-IsDelivered (suc fuel) cursor worlds stream after h e =
      go (pump_round payload_revision (worlds 0) stream)
        (pump_round-IsDelivered cursor (worlds 0) stream h)
        (pump-IsDelivered fuel cursor (λ n. worlds (suc n))) e
    where
      go :
          (r : Stream × Bool)
          → IsDelivered cursor r.0
          → ((next after : Stream)
              → IsDelivered cursor next
              → pump payload_revision fuel (λ n. worlds (suc n)) next ≡ some after
              → IsDelivered cursor after)
          → elim (r.1 && not r.0.is_closed) as (λ b. Option Stream) [
            | true ↦ pump payload_revision fuel (λ n. worlds (suc n)) r.0
            | false ↦ some r.0
          ]
            ≡ some after
          → IsDelivered cursor after
      go r k f e' = elim (Bool-cases (r.1 && not r.0.is_closed)) [
        | inl again ↦ f r.0 after k (sym (ap (λ b. go_on b r.0) again) ∙ e')
        | inr done ↦
            subst (IsDelivered cursor) (ground (arith, sym (ap (λ b. go_on b r.0) done) ∙ e')) k
      ]
        where
          go_on : Bool → Stream → Option Stream
          go_on b next = elim b [
            | true ↦ pump payload_revision fuel (λ n. worlds (suc n)) next
            | false ↦ some next
          ]
