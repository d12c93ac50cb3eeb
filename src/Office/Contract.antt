-- ===== src/Office/Contract.antt =====
-- apps/control-plane/src/platform/contracts/public-office-snapshot-validator.ts: the invariants that a
-- snapshot is asserted to have before it is published. The JSON schema, which Ajv checks before, is
-- not modelled. The sets of ids and slots that have been seen are given by the entries passed so far.
pub mod Agents
pub mod Invariants
mod Samples
use workbuddy_buddy.Prelude.{
  ℕ, suc, ◌+◌, Bool, true, false, not, ◌&&◌, Option, none, some, List, [], ◌∷◌, leb, ltb, ◌==◌,
  if◌then◌else◌, any, length,
}
use workbuddy_buddy.Edge.Problem.{Result, ok, throws, fault, ◌>>=◌, ◌>>◌, throw_if}
use workbuddy_buddy.Edge.Types.{Text, text_eq}
use workbuddy_buddy.Office.Snapshot.{
  PublicRoom, PublicAgent, PublicLeaderboardEntry, PublicOfficeSnapshot,
}

-- `roomById.size`: a room with the id of a later one is overwritten.
unfoldable pub map_size : List PublicRoom → ℕ
map_size [] = 0
map_size (r ∷ rs) =
    let rest = map_size rs in if any (λ s. text_eq s.room_id r.room_id) rs then rest else suc rest

-- `roomById.get`: of rooms with one id the last.
unfoldable pub get_room : Text → List PublicRoom → Option PublicRoom
get_room id [] = none
get_room id (r ∷ rs) = elim (get_room id rs) [
  | some s ↦ some s
  | none ↦ if text_eq r.room_id id then some r else none
]

abbrev pub same_mount : PublicAgent → PublicAgent → Bool
same_mount a b = text_eq b.mount_id a.mount_id

-- Whether two slots have one slotKey.
abbrev pub share_slot : Option ℕ → Text → Option ℕ → Text → Bool
share_slot none room m other = false
share_slot (some n) room none other = false
share_slot (some n) room (some m) other = text_eq other room && (m == n)

abbrev pub same_slot : Option ℕ → Text → PublicAgent → Bool
same_slot slot room_id b = share_slot slot room_id b.scene_slot b.room_id

-- The branch of a slot that is not null.
abbrev pub check_slot : PublicRoom → List PublicAgent → PublicAgent → Option ℕ → Result (Unit {0})
check_slot room passed a none = ok tt
check_slot room passed a (some n) =
    throw_if (leb room.scene_capacity n) fault
    >> throw_if (any (same_slot (some n) a.room_id) passed) fault

abbrev pub check_in_room : Option PublicRoom → List PublicAgent → PublicAgent → Result (Unit {0})
check_in_room none passed a = throws fault
check_in_room (some room) passed a =
    throw_if (any (same_mount a) passed) fault >> check_slot room passed a a.scene_slot

-- The loop over the agents.
unfoldable pub check_agents :
    List PublicRoom → List PublicAgent → List PublicAgent → Result (Unit {0})
check_agents rooms passed [] = ok tt
check_agents rooms passed (a ∷ agents) =
    check_in_room (get_room a.room_id rooms) passed a >> check_agents rooms (a ∷ passed) agents

-- `previousScore`, which is infinite at first.
abbrev pub exceeds : ℕ → Option ℕ → Bool
exceeds score none = false
exceeds score (some previous) = ltb previous score

-- The loop over the entries of the leaderboard.
unfoldable pub check_entries :
    ℕ → List PublicLeaderboardEntry → Option ℕ → List PublicLeaderboardEntry → Result (Unit {0})
check_entries rank passed previous [] = ok tt
check_entries rank passed previous (e ∷ entries) =
    throw_if (not (e.rank == rank)) fault
    >> (throw_if (any (λ p. text_eq p.mount_id e.mount_id) passed) fault
        >> (throw_if (exceeds e.slacking_seconds previous) fault
            >> check_entries (rank + 1) (e ∷ passed) (some e.slacking_seconds) entries))

-- assertSemanticInvariants
unfoldable pub assert_semantic_invariants : PublicOfficeSnapshot → Result (Unit {0})
assert_semantic_invariants s =
    throw_if (not (text_eq s.office_local_date s.leaderboard_local_date)) fault
    >> (throw_if (not (map_size s.rooms == length s.rooms)) fault
        >> (check_agents s.rooms [] s.agents >> check_entries 1 [] none s.leaderboard_entries))
