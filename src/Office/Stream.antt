-- ===== src/Office/Stream.antt =====
-- apps/control-plane/src/modules/public-office/application/public-office-routes.ts: the event stream
-- of an office, from the first page on (`queueEvent`, `pump` and the handler around them).
-- What happens around a round of the pump is a `World`. Rounds are counted by fuel, and `none` says
-- that it ran out. A viewer who leaves ends the stream, and is no part of the model; a wake-up by the broker or by the timer while a round runs is one round more.
pub mod Delivery
pub mod Arrival
use workbuddy_buddy.Prelude.{
  ℕ, zero, suc, ◌+◌, Bool, true, false, not, ◌&&◌, ◌||◌, Option, none, some, List, [], ◌∷◌, ◌++◌,
  ltb, leb, ◌==◌, if◌then◌else◌, ◌⊎◌, inl, inr,
}
use workbuddy_buddy.Edge.Problem.{Result, ok, throws}
use workbuddy_buddy.Edge.Types.{Text}
use workbuddy_buddy.Office.Revisions.{Office}
use workbuddy_buddy.Office.Reader.{
  PublicCapability, PublicReplayEvent, PublicStreamPage, page, revision_gap, not_found,
  acquire_locked_stream_page,
}

-- What is written to the response: `office.snapshot` with its id and data, and `resync.required`.
pub data Frame : Type 0 where
  snapshot : ℕ → Text → Frame
  resync : Frame

pub data QueueEventResult : Type 0 where
  queued backpressure closed : QueueEventResult

pub data DrainWaitResult : Type 0 where
  drained interrupted timeout : DrainWaitResult

-- The variables `lastSent` and `closed` of the handler, and the frames written so far.
pub record Stream : Type 0 where
  pub last_sent : ℕ
  pub is_closed : Bool
  pub frames : List Frame

pub record World : Type 0 where
  pub capability : PublicCapability
  pub clock : ℕ
  pub head_clock : ℕ
  pub office : Office
  -- What `response.write` answers for the frame of a revision, and how a wait for `drain` ends.
  pub writable : ℕ → Bool
  pub drain : DrainWaitResult
  -- A wake-up has set `pendingPump` during the round.
  pub woken : Bool

-- `close`: the response ends, and no frame is written after it.
abbrev pub close : Stream → Stream
close stream = record stream { is_closed = true }

-- sendResyncAndClose
unfoldable pub send_resync_and_close : Stream → Stream
send_resync_and_close stream =
    if stream.is_closed
    then stream
    else record stream { is_closed = true; frames = stream.frames ++ (resync ∷ []) }

abbrev pub states : ℕ → Option ℕ → Bool
states revision none = false
states revision (some stated) = stated == revision

-- `payload_revision` is `JSON.parse` of a payload with the field `office_revision`, or `none`.
module _ (payload_revision : Text → Option ℕ) where
  -- canonicalPayloadMatchesRevision
  abbrev pub canonical_payload_matches_revision : PublicReplayEvent → Bool
  canonical_payload_matches_revision event =
      states event.revision (payload_revision event.canonical_payload)

  -- queueEvent
  unfoldable pub queue_event : (ℕ → Bool) → PublicReplayEvent → Stream → QueueEventResult × Stream
  queue_event writable event stream =
      if stream.is_closed
      then (closed, stream)
      else if leb event.revision stream.last_sent
      then (queued, stream)
      else if not (event.revision == stream.last_sent + 1)
      then (closed, send_resync_and_close stream)
      else if not (canonical_payload_matches_revision event)
      then (closed, send_resync_and_close stream)
      else (
        if writable event.revision then queued else backpressure,
        record stream {
          last_sent = event.revision;
          frames = stream.frames ++ (snapshot event.revision event.canonical_payload ∷ []);
        },
      )

  -- The `for` over the events of a page, which stops at the first that is not `queued`.
  unfoldable pub queue_events :
      (ℕ → Bool) → List PublicReplayEvent → Stream → QueueEventResult × Stream
  queue_events writable [] stream = (queued, stream)
  queue_events writable (e ∷ es) stream =
      let (result, after) = queue_event writable e stream in
      elim result [
        | queued ↦ queue_events writable es after
        | backpressure ↦ (backpressure, after)
        | closed ↦ (closed, after)
      ]

  -- After the events of a page: the stream, and whether there is another round.
  unfoldable pub after_events : World → ℕ → QueueEventResult × Stream → Stream × Bool
  after_events w current (closed, stream) = (stream, false)
  after_events w current (queued, stream) = (stream, ltb stream.last_sent current || w.woken)
  after_events w current (backpressure, stream) = elim w.drain [
    | drained ↦ (stream, true)
    | _ ↦ (close stream, false)
  ]

  unfoldable pub after_page : World → Stream → Result PublicStreamPage → Stream × Bool
  after_page w stream (throws failure) = (close stream, false)
  after_page w stream (ok not_found) = (close stream, false)
  after_page w stream (ok (revision_gap current minimum)) = (send_resync_and_close stream, false)
  after_page w stream (ok (page current minimum events)) =
      after_events w current (queue_events w.writable events stream)

  -- One turn of the `do` loop of `pump`.
  unfoldable pub pump_round : World → Stream → Stream × Bool
  pump_round w stream =
      after_page w stream
        (acquire_locked_stream_page w.capability w.clock w.head_clock stream.last_sent 100 w.office)

  -- `pump`, in the worlds of its rounds.
  unfoldable pub pump : ℕ → (ℕ → World) → Stream → Option Stream
  pump zero worlds stream = none
  pump (suc fuel) worlds stream =
      let (after, again) = pump_round (worlds 0) stream in
      elim (again && not after.is_closed) [
        | true ↦ pump fuel (λ n. worlds (suc n)) after
        | false ↦ some after
      ]

pub data PublicProblem : Type 0 where
  temporarily_unavailable public_office_not_found invalid_request : PublicProblem
  revision_gap_at : ℕ → PublicProblem

abbrev starts_after : ℕ → List PublicReplayEvent → Bool
starts_after cursor [] = false
starts_after cursor (e ∷ es) = e.revision == cursor + 1

-- The tests of the first pages, the preflight and the authoritative one. Where they stand in another
-- order in the source, no two apply at once.
unfoldable pub refuse_page : ℕ → Result PublicStreamPage → Option PublicProblem
refuse_page cursor (throws failure) = some temporarily_unavailable
refuse_page cursor (ok not_found) = some public_office_not_found
refuse_page cursor (ok (revision_gap current minimum)) = some (revision_gap_at current)
refuse_page cursor (ok (page current minimum events)) =
    if ltb current cursor
    then some invalid_request
    else if ltb cursor current && not (starts_after cursor events)
    then some (revision_gap_at current)
    else none
