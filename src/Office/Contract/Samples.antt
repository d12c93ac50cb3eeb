-- ===== src/Office/Contract/Samples.antt =====
-- A snapshot of an office with a lobby and two agents.
use workbuddy_buddy.Prelude.{◌≡◌, ◌↔◌, refl, false, none, some, [], ◌∷◌}
use workbuddy_buddy.Edge.Problem.{ok, throws, fault}
use workbuddy_buddy.Edge.Types.{Text, text_eq}
use workbuddy_buddy.Edge.Idle.{IdleStage}
use workbuddy_buddy.Office.Snapshot.{PublicAgent, PublicOfficeSnapshot, LeaderboardStatus}
use workbuddy_buddy.Office.Contract.{
  map_size, get_room, check_agents, check_entries, assert_semantic_invariants,
}
use workbuddy_buddy.Office.Contract.Invariants.{IsSemantic, assert_semantic_invariants_iff}

abbrev sitting : Text → PublicAgent
sitting mount = record {
  mount_id = mount;
  room_id = b'l' ∷ [];
  alias = mount;
  pet_id = b'p' ∷ [];
  online = false;
  display_state = none;
  idle_stage = IdleStage.none;
  scene_slot = some 0;
}

abbrev snapshot : PublicOfficeSnapshot
snapshot = record {
  office_revision = 1;
  generated_at = 5;
  office_name = b'o' ∷ [];
  office_local_date = b'd' ∷ [];
  office_timezone = b'z' ∷ [];
  rooms = record { room_id = b'l' ∷ []; name = b'L' ∷ []; scene_capacity = 24 } ∷ [];
  agents = sitting (b'm' ∷ []) ∷ record (sitting (b'n' ∷ [])) { scene_slot = some 1 } ∷ [];
  leaderboard_local_date = b'd' ∷ [];
  leaderboard_status = LeaderboardStatus.provisional;
  leaderboard_as_of = 5;
  leaderboard_entries =
      record {
        rank = 1;
        mount_id = b'm' ∷ [];
        alias = b'm' ∷ [];
        pet_id = b'p' ∷ [];
        slacking_seconds = 30;
      }
      ∷ [];
  daily_award = none;
  demo_data = false;
}

passes : assert_semantic_invariants snapshot ≡ ok tt
unfolding assert_semantic_invariants map_size get_room check_agents check_entries text_eq
passes = refl

-- Two agents in one slot.
refuses_slot :
    assert_semantic_invariants
      (record snapshot { agents = sitting (b'm' ∷ []) ∷ sitting (b'n' ∷ []) ∷ [] })
    ≡ throws fault
unfolding assert_semantic_invariants map_size get_room check_agents check_entries text_eq
refuses_slot = refl

assert_semantic_invariants_iff_example :
    (assert_semantic_invariants snapshot ≡ ok tt) ↔ IsSemantic snapshot
assert_semantic_invariants_iff_example = assert_semantic_invariants_iff snapshot
