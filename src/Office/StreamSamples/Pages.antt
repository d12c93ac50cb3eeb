-- ===== src/Office/StreamSamples/Pages.antt =====
-- The pages and the stream of a viewer, and the theorems on them at these inputs.
use workbuddy_buddy.Prelude.{
  ℕ, ◌+◌, ◌≤◌, ◌<◌, ◌≡◌, refl, false, some, List, [], ◌∷◌, arith, All, sort,
}
use workbuddy_buddy.Edge.Problem.{ok}
use workbuddy_buddy.Edge.Types.{text_eq}
use workbuddy_buddy.Office.Intervals.{is_safe_integer}
use workbuddy_buddy.Office.Revisions.{
  with_revision, invalidate_replay_history, delete_events, parse_revision,
}
use workbuddy_buddy.Office.Reader.{
  PublicReplayEvent, page, acquire_locked_stream_page, stream_page, replay_page, replay_events,
  within_bytes,
}
use workbuddy_buddy.Office.Reader.Page.{Served, acquire_locked_stream_page-serves}
use workbuddy_buddy.Office.Reader.Privacy.{record_privacy_lowering_revision-hides}
use workbuddy_buddy.Office.Stream.{
  World, Stream, Frame, DrainWaitResult, pump, pump_round, after_page, after_events, queue_events,
  queue_event,
}
use workbuddy_buddy.Office.Stream.Delivery.{IsDelivered, pump-IsDelivered}
use workbuddy_buddy.Office.Stream.Arrival.{IsReady, pump-arrives}
use workbuddy_buddy.Office.StreamSamples.{
  env, hidden, lowering, lowering_recorded, shown, stated, ticked, ticked-IsReplayable, viewer,
}

acquire_locked_stream_page-serves_example :
    (upto : ℕ) × (events : List PublicReplayEvent) × (acquire_locked_stream_page viewer 1000 1000 0
        100 ticked
      ≡ ok (page ticked.revision ticked.minimum_replay_revision events))
    × Served stated 0 events upto
    × (upto ≤ ticked.revision)
    × (upto ≤ 0 + 100)
    × (0 < ticked.revision → 0 < upto)
unfolding with_revision invalidate_replay_history text_eq
acquire_locked_stream_page-serves_example =
    acquire_locked_stream_page-serves stated viewer 1000 1000 0 100 ticked ticked-IsReplayable
      (omega arith) (omega arith) (omega arith) (omega arith) refl refl refl

abbrev pub events : List PublicReplayEvent
events = record { revision = 3; canonical_payload = 3 ∷ [] } ∷ []

pub hidden_page : acquire_locked_stream_page viewer 1000 1000 2 100 hidden ≡ ok (page 3 2 events)
unfolding acquire_locked_stream_page stream_page replay_page replay_events within_bytes sort
    is_safe_integer parse_revision with_revision invalidate_replay_history delete_events text_eq
hidden_page = refl

record_privacy_lowering_revision-hides_example :
    (ticked.revision ≤ 2) × All (λ e. e.canonical_payload ≡ 3 ∷ []) events
record_privacy_lowering_revision-hides_example =
    record_privacy_lowering_revision-hides stated env lowering ticked hidden (shown 3) viewer 1000
      1000 2 100 3 2 events ticked-IsReplayable lowering_recorded hidden_page

abbrev world : World
world = record {
  capability = viewer;
  clock = 1000;
  head_clock = 1000;
  office = ticked;
  writable = λ revision. false;
  drain = DrainWaitResult.drained;
  woken = false;
}

abbrev viewing : Stream
viewing = record { last_sent = 0; is_closed = false; frames = [] }

abbrev caught_up : Stream
caught_up = record {
  last_sent = 2;
  is_closed = false;
  frames = Frame.snapshot 1 (1 ∷ []) ∷ Frame.snapshot 2 (2 ∷ []) ∷ [];
}

world-IsReady : IsReady stated world
unfolding with_revision invalidate_replay_history text_eq
world-IsReady = record {
  replayable = ticked-IsReplayable;
  granted = refl;
  still_granted = refl;
  projected = refl;
  drains = refl;
  undisturbed = refl;
}

pump-arrives_example :
    (after : Stream) × (pump stated 3 (λ n. world) viewing ≡ some after)
    × (after.is_closed ≡ false)
    × (after.last_sent ≡ ticked.revision)
unfolding with_revision invalidate_replay_history
pump-arrives_example =
    pump-arrives stated 3 world viewing world-IsReady refl (omega arith) (omega arith) (omega arith)

pumped : pump stated 3 (λ n. world) viewing ≡ some caught_up
unfolding pump pump_round after_page after_events queue_events queue_event
    acquire_locked_stream_page stream_page replay_page replay_events within_bytes sort
    is_safe_integer parse_revision with_revision invalidate_replay_history delete_events text_eq
pumped = refl

pump-IsDelivered_example : IsDelivered stated 0 caught_up
pump-IsDelivered_example = pump-IsDelivered stated 3 0 (λ n. world) viewing caught_up refl pumped
