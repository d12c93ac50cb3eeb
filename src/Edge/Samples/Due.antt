-- ===== src/Edge/Samples/Due.antt =====
-- A lease that has run out.
use workbuddy_buddy.Prelude.{none, some, [], ◌∷◌}
use workbuddy_buddy.Edge.Types.{ActivityState, DisplayState}
use workbuddy_buddy.Edge.Store.{PresenceRow, Store}

abbrev left_presence : PresenceRow
left_presence = record {
  boot_generation = 1;
  boot_id = b'b' ∷ [];
  last_accepted_sequence = 2;
  last_state_sequence = 1;
  display_state = DisplayState.idle;
  activity_state = ActivityState.eligible_idle;
  pet_id = 7 ∷ [];
  display_since = 1000;
  activity_since = 1000;
  eligible_since = some 1000;
  last_report_received_at = 1000;
  lease_expires_at = 91_000;
  lease_closed_at = none;
}
