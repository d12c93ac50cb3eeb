-- ===== src/Office/Contract/Invariants.antt =====
-- What the assertion means: days, rooms, mounts, slots, ranks and scores.
use workbuddy_buddy.Prelude.{
  ℕ, ◌+◌, ◌≤◌, ◌≡◌, ◌≢◌, ◌↔◌, refl, inl, inr, false, not, Option, none, some, List, [], ◌∷◌, ◌==◌,
  any, length, All, AllPairs, Bool-cases, arith,
}
use workbuddy_buddy.Edge.Problem.{ok}
use workbuddy_buddy.Edge.Types.{Text, text_eq, text_eq_iff}
use workbuddy_buddy.Office.Snapshot.{PublicRoom, PublicLeaderboardEntry, PublicOfficeSnapshot}
use workbuddy_buddy.Office.Contract.{
  map_size, check_agents, exceeds, check_entries, assert_semantic_invariants,
}
use workbuddy_buddy.Office.Contract.Agents.{
  any-All, All-iff, All-both, throw_if_iff, then_iff, IsPlaced, AreApart, agents_iff,
}

abbrev OtherRoom : PublicRoom → PublicRoom → Type 0
OtherRoom r s = s.room_id ≢ r.room_id

map_size-le : (rs : List PublicRoom) → map_size rs ≤ length rs
unfolding map_size
map_size-le [] = omega arith
map_size-le (r ∷ rs) = elim (Bool-cases (any (λ s. text_eq s.room_id r.room_id) rs)) [
  | inl e ↦ rw e (omega (arith, map_size-le rs))
  | inr e ↦ rw e (omega (arith, map_size-le rs))
]

differs_iff : (a b : Text) → (text_eq a b ≡ false) ↔ (a ≢ b)
differs_iff a b =
    (λ e same. ground (arith, text_eq_iff a b, e, same), λ h. ground (arith, text_eq_iff a b, h))

rooms_iff : (rs : List PublicRoom) → (map_size rs ≡ length rs) ↔ AllPairs OtherRoom rs
unfolding map_size
rooms_iff [] = (λ e. tt, λ h. refl)
rooms_iff (r ∷ rs) =
    let none_same = any-All (λ s. text_eq s.room_id r.room_id) rs in
    let others =
      All-iff (λ s. text_eq s.room_id r.room_id ≡ false) (OtherRoom r) rs
        (λ s. differs_iff s.room_id r.room_id) in
    let rest = rooms_iff rs in
    elim (Bool-cases (any (λ s. text_eq s.room_id r.room_id) rs)) [
      | inl e ↦ rw e (
        (λ size. absurd (omega (arith, size, map_size-le rs))),
        (λ h. cc (none_same.1 (others.1 h.0), e)),
      )
      | inr e ↦ rw e (
        (λ size. (others.0 (none_same.0 e), rest.0 (omega (arith, size)))),
        (λ h. omega (arith, rest.1 h.1)),
      )
    ]

-- The ranks count on from a number.
abbrev pub IsRanked : ℕ → List PublicLeaderboardEntry → Type 0
IsRanked rank [] = Unit
IsRanked rank (e ∷ entries) = (e.rank ≡ rank) × IsRanked (rank + 1) entries

abbrev AtMost : ℕ → Option ℕ → Type 0
AtMost score none = Unit
AtMost score (some previous) = score ≤ previous

-- No score is above the one before it.
abbrev pub IsDescending : Option ℕ → List PublicLeaderboardEntry → Type 0
IsDescending previous [] = Unit
IsDescending previous (e ∷ entries) =
    AtMost e.slacking_seconds previous × IsDescending (some e.slacking_seconds) entries

abbrev pub OtherMount : PublicLeaderboardEntry → PublicLeaderboardEntry → Type 0
OtherMount e p = p.mount_id ≢ e.mount_id

exceeds_iff :
    (score : ℕ) (previous : Option ℕ) → (exceeds score previous ≡ false) ↔ AtMost score previous
exceeds_iff score none = (λ e. tt, λ h. refl)
exceeds_iff score (some previous) = ground arith

rank_iff : (a b : ℕ) → (not (a == b) ≡ false) ↔ (a ≡ b)
rank_iff a b = ground arith

entries_iff :
    (rank : ℕ) (passed : List PublicLeaderboardEntry) (previous : Option ℕ)
    (entries : List PublicLeaderboardEntry)
    → (check_entries rank passed previous entries ≡ ok tt) ↔ (
        IsRanked rank entries
        × All (λ e. All (OtherMount e) passed) entries
        × AllPairs (λ p e. OtherMount e p) entries
        × IsDescending previous entries)
unfolding check_entries
entries_iff rank passed previous [] = (λ e. (tt, tt, tt, tt), λ h. refl)
entries_iff rank passed previous (e ∷ entries) =
    let ranked = throw_if_iff (not (e.rank == rank)) _ in
    let fresh = throw_if_iff (any (λ p. text_eq p.mount_id e.mount_id) passed) _ in
    let ordered = throw_if_iff (exceeds e.slacking_seconds previous) _ in
    let numbered = rank_iff e.rank rank in
    let below = exceeds_iff e.slacking_seconds previous in
    let none_same = any-All (λ p. text_eq p.mount_id e.mount_id) passed in
    let others =
      All-iff (λ p. text_eq p.mount_id e.mount_id ≡ false) (OtherMount e) passed
        (λ p. differs_iff p.mount_id e.mount_id) in
    let rest = entries_iff (rank + 1) (e ∷ passed) (some e.slacking_seconds) entries in
    let split = All-both (λ x. OtherMount x e) (λ x. All (OtherMount x) passed) entries in
    (
      λ h.
          let (r, h₁) = ranked.0 h in
          let (f, h₂) = fresh.0 h₁ in
          let (o, h₃) = ordered.0 h₂ in
          let (ranks, clear, pairs, falling) = rest.0 h₃ in
          let (from_e, from_passed) = split.0 clear in
          (
            (numbered.0 r, ranks),
            (others.0 (none_same.0 f), from_passed),
            (from_e, pairs),
            (below.0 o, falling),
          ),
      λ k.
          let (ranks, clear, pairs, falling) = k in
          ranked.1 (
            numbered.1 ranks.0,
            fresh.1 (
              none_same.1 (others.1 clear.0),
              ordered.1 (
                below.1 falling.0,
                rest.1 (ranks.1, split.1 (pairs.0, clear.1), pairs.1, falling.1),
              ),
            ),
          ),
    )

-- A snapshot that may be published: the leaderboard is that of the office's day; no two rooms have one
-- id; each agent is in a room, in one of its slots if it has one, and no two agents have one mount or
-- sit in one slot; the ranks count from one, no mount is ranked twice, and no score is above the one
-- before it.
pub record IsSemantic (s : PublicOfficeSnapshot) : Type 0 where
  pub day : s.office_local_date ≡ s.leaderboard_local_date
  pub rooms : AllPairs (λ r t. t.room_id ≢ r.room_id) s.rooms
  pub placed : All (IsPlaced s.rooms) s.agents
  pub apart : AllPairs (λ a b. AreApart b a) s.agents
  pub ranked : IsRanked 1 s.leaderboard_entries
  pub once : AllPairs (λ p e. OtherMount e p) s.leaderboard_entries
  pub descending : IsDescending none s.leaderboard_entries

All-nothing {κ} : {A : Type 0} (P : A → A → Type κ) (xs : List A) → All (λ x. All (P x) []) xs
All-nothing P [] = tt
All-nothing P (x ∷ xs) = (tt, All-nothing P xs)

-- The assertion passes exactly if the snapshot may be published.
pub assert_semantic_invariants_iff :
    (s : PublicOfficeSnapshot) → (assert_semantic_invariants s ≡ ok tt) ↔ IsSemantic s
unfolding assert_semantic_invariants
assert_semantic_invariants_iff s =
    let day = throw_if_iff (not (text_eq s.office_local_date s.leaderboard_local_date)) _ in
    let size = throw_if_iff (not (map_size s.rooms == length s.rooms)) _ in
    let both =
      then_iff (check_agents s.rooms [] s.agents) (check_entries 1 [] none s.leaderboard_entries) in
    let agents = agents_iff s.rooms [] s.agents in
    let entries = entries_iff 1 [] none s.leaderboard_entries in
    let sizes = rank_iff (map_size s.rooms) (length s.rooms) in
    let rooms = rooms_iff s.rooms in
    (
      λ e.
          let (d, e₁) = day.0 e in
          let (z, e₂) = size.0 e₁ in
          let (a, b) = both.0 e₂ in
          let (placed, _, apart) = agents.0 a in
          let (ranked, _, once, descending) = entries.0 b in
          record {
            day = ground (arith, text_eq_iff s.office_local_date s.leaderboard_local_date, d);
            rooms = rooms.0 (sizes.0 z);
            placed = placed;
            apart = apart;
            ranked = ranked;
            once = once;
            descending = descending;
          },
      λ k. day.1 (
        ground (arith, text_eq_iff s.office_local_date s.leaderboard_local_date, k.day),
        size.1 (
          sizes.1 (rooms.1 k.rooms),
          both.1 (
            agents.1 (k.placed, All-nothing AreApart s.agents, k.apart),
            entries.1
                (k.ranked, All-nothing OtherMount s.leaderboard_entries, k.once, k.descending),
          ),
        ),
      ),
    )
