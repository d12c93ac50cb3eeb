-- ===== src/Edge/Rollover.antt =====
-- The change of an instance's boot in ingestInTransaction (apps/control-plane/src/modules/presence/
-- application/ingest-edge-report.ts): the rows of the previous boot are fenced, and a live presence moves.
use workbuddy_buddy.Prelude.{
  ℕ, Bool, true, false, not, ◌&&◌, ◌||◌, Option, none, some, List, [], ◌∷◌, leb, ltb, ◌==◌,
  if◌then◌else◌, any, keep, update_where,
}
use workbuddy_buddy.Edge.Problem.{Result, ok, throws, ◌>>=◌}
use workbuddy_buddy.Edge.Types.{
  Text, text_eq, nullable_eq, activity_eq, EdgeEvent, state_transition, heartbeat,
  PreparedEdgeReport, normalize_uuid, normalize_nullable_uuid,
}
use workbuddy_buddy.Edge.Store.{
  HeadRow, PresenceRow, Store, lease_expired, boot_replaced, is_none, is_some, parse_safe_integer,
}
use workbuddy_buddy.Edge.Boot.{BootDecision, stale_boot_problem, internal}
use workbuddy_buddy.Edge.Activity.{
  close_open_activity_interval, move_open_activity_interval_to_boot,
}

-- `firstEvent?.kind === "state_transition" && firstEvent.activity_state === …`
abbrev pub starts_in_activity : List EdgeEvent → PresenceRow → Bool
starts_in_activity [] p = false
starts_in_activity (state_transition e ∷ es) p = activity_eq e.activity_state p.activity_state
starts_in_activity (heartbeat e ∷ es) p = false

-- canRollBootWithoutBreakingActivity
unfoldable pub can_roll_boot : Option PresenceRow → List EdgeEvent → ℕ → Bool
can_roll_boot none events received = false
can_roll_boot (some p) events received =
    is_none p.lease_closed_at && ltb received p.lease_expires_at && starts_in_activity events p

-- scrubFencedBootReplayMaterial: the fingerprints go with their receipts (ON DELETE CASCADE).
unfoldable pub scrub_fenced_boot_replay_material : Text → Store → Store
scrub_fenced_boot_replay_material boot_id s = record s {
  receipts = keep (λ r. not (text_eq r.boot_id boot_id)) s.receipts;
  fingerprints =
      keep (λ f. not (any (λ r. text_eq r.boot_id boot_id && text_eq r.id f.receipt_id) s.receipts))
        s.fingerprints;
}

-- The first part of fencePreviousBootAndPresence: the previous boot, if there is one.
unfoldable pub fence_previous_boot : Option Text → ℕ → Store → Store
fence_previous_boot none received s = s
fence_previous_boot (some previous) received s =
    scrub_fenced_boot_replay_material previous (record s {
      boots =
          update_where (λ b. text_eq b.boot_id previous && is_none b.fenced_at)
            (λ b. record b { fenced_at = some received }) s.boots;
    })

-- Its second part: the presence of the previous boot ends, with the open interval.
unfoldable pub drop_presence : Option PresenceRow → ℕ → Store → Result Store
drop_presence none received s = ok s
drop_presence (some p) received s = do
  let expired = leb p.lease_expires_at received
  rows ←
      if not expired || is_none p.lease_closed_at
      then (do
        accepted ← parse_safe_integer p.last_accepted_sequence false
        close_open_activity_interval (if expired then p.lease_expires_at else received) accepted
            (if expired then lease_expired else boot_replaced) s.intervals)
      else ok s.intervals
  ok (record s { intervals = rows; presence = none })

-- fencePreviousBootAndPresence
unfoldable pub fence_previous_boot_and_presence :
    Option Text → Option PresenceRow → ℕ → Bool → Store → Result Store
fence_previous_boot_and_presence previous presence received preserve_live_presence s =
    let fenced = fence_previous_boot previous received s in
    if preserve_live_presence then ok fenced else drop_presence presence received fenced

-- The rows after the INSERT of the boot and the UPDATE of the head.
abbrev pub created : HeadRow → Text → Option Text → ℕ → ℕ → Store → Store
created head boot_id previous_boot_id generation received s = record s {
  boots =
      record {
        boot_id = boot_id;
        previous_boot_id = previous_boot_id;
        generation = generation;
        next_sequence = 1;
        first_accepted_at = received;
        last_accepted_at = received;
        fenced_at = none;
      }
      ∷ s.boots;
  head =
      some (record head { current_boot_id = some boot_id; current_boot_generation = generation });
}

-- createBootAndAdvanceHead: the head moves by compare and swap.
unfoldable pub create_boot_and_advance_head :
    HeadRow → Text → Option Text → ℕ → ℕ → ℕ → Store → Result Store
create_boot_and_advance_head head boot_id previous_boot_id previous generation received s =
    if head.current_boot_generation == previous && nullable_eq head.current_boot_id previous_boot_id
    then ok (created head boot_id previous_boot_id generation received s)
    else throws stale_boot_problem

-- The store, `presence` and `seamlessBootRollover` after the block of a new boot.
pub record Rolled : Type 0 where
  pub store : Store
  pub presence : Option PresenceRow
  pub seamless : Bool

unfoldable pub roll_boot : HeadRow → BootDecision → PreparedEdgeReport → ℕ → Store → Result Rolled
roll_boot head decision report received s = do
  let seamless = can_roll_boot s.presence report.envelope.events received
  fenced ← fence_previous_boot_and_presence head.current_boot_id s.presence received seamless s
  created ←
      create_boot_and_advance_head head (normalize_uuid report.envelope.boot_id)
        (normalize_nullable_uuid report.envelope.previous_boot_id) head.current_boot_generation
        decision.boot_generation received fenced
  if seamless
      then (do
        rows ← move_open_activity_interval_to_boot decision.boot_generation created.intervals
        ok (record {
          store = record created { intervals = rows };
          presence = s.presence;
          seamless = true;
        }))
      else ok (record { store = created; presence = none; seamless = false })

unfoldable pub enter_boot : HeadRow → BootDecision → PreparedEdgeReport → ℕ → Store → Result Rolled
enter_boot head decision report received s =
    if decision.is_new_boot
    then roll_boot head decision report received s
    else if is_some decision.boot
    then ok (record { store = s; presence = s.presence; seamless = false })
    else throws (internal "The accepted boot was not materialized.")
