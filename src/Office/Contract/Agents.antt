-- ===== src/Office/Contract/Agents.antt =====
-- What the loop over the agents asserts: rooms, mounts and slots.
use mathlib.Core.Path.{subst}
use workbuddy_buddy.Prelude.{
  ℕ, ◌<◌, ◌≡◌, ◌≢◌, ◌↔◌, ◌⊎◌, refl, inl, inr, Bool, true, false, Option, none, some, List, [], ◌∷◌,
  leb, any, All, AllPairs, Bool-cases, arith,
}
use workbuddy_buddy.Edge.Problem.{Result, ok, throws, fault, ◌>>◌, throw_if}
use workbuddy_buddy.Edge.Types.{Text, text_eq_iff}
use workbuddy_buddy.Office.Snapshot.{PublicRoom, PublicAgent}
use workbuddy_buddy.Office.Contract.{
  get_room, same_mount, share_slot, same_slot, check_slot, check_in_room, check_agents,
}

module _ {ℓ} {A : Type ℓ} where
  pub any-All : (p : A → Bool) (xs : List A) → (any p xs ≡ false) ↔ All (λ x. p x ≡ false) xs
  any-All p [] = (λ e. tt, λ h. refl)
  any-All p (x ∷ xs) = elim (Bool-cases (p x)) [
    | inl e ↦ (λ f. cc (rw e at f), λ h. cc (h.0, e))
    | inr e ↦ (λ f. (e, (any-All p xs).0 (rw e at f)), λ h. rw e ((any-All p xs).1 h.1))
  ]

  pub All-iff {κ ι} :
      (P : A → Type κ) (Q : A → Type ι) (xs : List A) → ((x : A) → P x ↔ Q x) → All P xs ↔ All Q xs
  All-iff P Q [] f = (λ h. tt, λ h. tt)
  All-iff P Q (x ∷ xs) f =
      let rest = All-iff P Q xs f in
      (λ h. ((f x).0 h.0, rest.0 h.1), λ h. ((f x).1 h.0, rest.1 h.1))

  pub All-both {κ ι} :
      (P : A → Type κ) (Q : A → Type ι) (xs : List A)
      → All (λ x. P x × Q x) xs ↔ (All P xs × All Q xs)
  All-both P Q [] = (λ h. (tt, tt), λ h. tt)
  All-both P Q (x ∷ xs) =
      let rest = All-both P Q xs in
      (
        λ h. ((h.0.0, (rest.0 h.1).0), (h.0.1, (rest.0 h.1).1)),
        λ h. ((h.0.0, h.1.0), rest.1 (h.0.1, h.1.1)),
      )

pub throw_if_iff :
    (test : Bool) (rest : Result (Unit {0}))
    → ((throw_if test fault >> rest) ≡ ok tt) ↔ ((test ≡ false) × (rest ≡ ok tt))
throw_if_iff true rest = (λ e. cc e, λ h. cc h.0)
throw_if_iff false rest = (λ e. (refl, e), λ h. h.1)

pub then_iff :
    (first rest : Result (Unit {0}))
    → ((first >> rest) ≡ ok tt) ↔ ((first ≡ ok tt) × (rest ≡ ok tt))
then_iff (throws e) rest = (λ f. cc f, λ h. cc h.0)
then_iff (ok _) rest = (λ e. (refl, e), λ h. h.1)

-- The agent's slot is one of its room.
abbrev Fits : PublicRoom → Option ℕ → Type 0
Fits room none = Unit
Fits room (some n) = n < room.scene_capacity

-- The agent is in one of the rooms, in one of its slots if it has a slot.
abbrev pub IsPlaced : List PublicRoom → PublicAgent → Type 0
IsPlaced rooms a =
    (room : PublicRoom) × (get_room a.room_id rooms ≡ some room) × Fits room a.scene_slot

abbrev DifferentSlots : Text → Option ℕ → Text → Option ℕ → Type 0
DifferentSlots room none other m = Unit
DifferentSlots room (some n) other none = Unit
DifferentSlots room (some n) other (some m) = (room ≢ other) ⊎ (n ≢ m)

-- Two agents have different mounts and do not sit in one slot.
abbrev pub AreApart : PublicAgent → PublicAgent → Type 0
AreApart a b =
    (a.mount_id ≢ b.mount_id) × DifferentSlots a.room_id a.scene_slot b.room_id b.scene_slot

slots_iff :
    (n : Option ℕ) (room : Text) (m : Option ℕ) (other : Text)
    → (share_slot n room m other ≡ false) ↔ DifferentSlots room n other m
slots_iff none room m other = (λ e. tt, λ h. refl)
slots_iff (some n) room none other = (λ e. tt, λ h. refl)
slots_iff (some n) room (some m) other = ground (arith, text_eq_iff other room)

apart_iff :
    (a b : PublicAgent)
    → ((same_mount a b ≡ false) × (same_slot a.scene_slot a.room_id b ≡ false)) ↔ AreApart a b
apart_iff a b =
    let slots = slots_iff a.scene_slot a.room_id b.scene_slot b.room_id in
    (
      λ h. ((λ same. ground (arith, text_eq_iff b.mount_id a.mount_id, h.0, same)), slots.0 h.1),
      λ h. (ground (arith, text_eq_iff b.mount_id a.mount_id, h.0), slots.1 h.1),
    )

passed_iff :
    (a : PublicAgent) (passed : List PublicAgent)
    → ((any (same_mount a) passed ≡ false)
        × (any (same_slot a.scene_slot a.room_id) passed ≡ false))
      ↔ All (AreApart a) passed
passed_iff a passed =
    let mounts = any-All (same_mount a) passed in
    let slots = any-All (same_slot a.scene_slot a.room_id) passed in
    let both =
      All-both (λ b. same_mount a b ≡ false) (λ b. same_slot a.scene_slot a.room_id b ≡ false)
        passed in
    let apart =
      All-iff (λ b. (same_mount a b ≡ false) × (same_slot a.scene_slot a.room_id b ≡ false))
        (AreApart a) passed (apart_iff a) in
    (
      λ h. apart.0 (both.1 (mounts.0 h.0, slots.0 h.1)),
      λ h. let k = both.0 (apart.1 h) in (mounts.1 k.0, slots.1 k.1),
    )

none_share : (room : Text) (passed : List PublicAgent) → any (same_slot none room) passed ≡ false
none_share room [] = refl
none_share room (b ∷ passed) = none_share room passed

slot_iff :
    (room : PublicRoom) (passed : List PublicAgent) (a : PublicAgent) (slot : Option ℕ)
    → (check_slot room passed a slot ≡ ok tt)
      ↔ (Fits room slot × (any (same_slot slot a.room_id) passed ≡ false))
slot_iff room passed a none = (λ e. (tt, none_share a.room_id passed), λ h. refl)
slot_iff room passed a (some n) =
    let over =
      throw_if_iff (leb room.scene_capacity n)
        (throw_if (any (same_slot (some n) a.room_id) passed) fault) in
    (
      λ e. (
        ground (arith, (over.0 e).0),
        free (any (same_slot (some n) a.room_id) passed) (over.0 e).1,
      ),
      λ h. over.1 (ground (arith, h.0), rw (h.1) refl),
    )
  where
    free : (b : Bool) → throw_if b fault ≡ ok tt → b ≡ false
    free true e = cc e
    free false e = refl

in_room_iff :
    (o : Option PublicRoom) (passed : List PublicAgent) (a : PublicAgent)
    → (check_in_room o passed a ≡ ok tt)
      ↔ (((room : PublicRoom) × (o ≡ some room) × Fits room a.scene_slot) × All (AreApart a) passed)
in_room_iff none passed a = (λ e. cc e, λ h. cc (h.0.1))
in_room_iff (some room) passed a =
    let mount = throw_if_iff (any (same_mount a) passed) (check_slot room passed a a.scene_slot) in
    let slot = slot_iff room passed a a.scene_slot in
    let apart = passed_iff a passed in
    (
      λ e.
          let (fresh, seated) = mount.0 e in
          let (fits, free) = slot.0 seated in ((room, refl, fits), apart.0 (fresh, free)),
      λ h.
          let ((r, same, fits), clear) = h in
          let (fresh, free) = apart.1 clear in
          let own : r ≡ room = cc same in
          mount.1 (fresh, slot.1 (subst (λ x. Fits x a.scene_slot) own fits, free)),
    )

pub agents_iff :
    (rooms : List PublicRoom) (passed agents : List PublicAgent)
    → (check_agents rooms passed agents ≡ ok tt) ↔ (
        All (IsPlaced rooms) agents
        × All (λ a. All (AreApart a) passed) agents
        × AllPairs (λ a b. AreApart b a) agents)
unfolding check_agents
agents_iff rooms passed [] = (λ e. (tt, tt, tt), λ h. refl)
agents_iff rooms passed (a ∷ agents) =
    let first =
      then_iff (check_in_room (get_room a.room_id rooms) passed a)
        (check_agents rooms (a ∷ passed) agents) in
    let here = in_room_iff (get_room a.room_id rooms) passed a in
    let rest = agents_iff rooms (a ∷ passed) agents in
    let split = All-both (λ b. AreApart b a) (λ b. All (AreApart b) passed) agents in
    (
      λ e.
          let (f, r) = first.0 e in
          let (placed, clear) = here.0 f in
          let (all_placed, all_clear, pairs) = rest.0 r in
          let (from_a, from_passed) = split.0 all_clear in
          ((placed, all_placed), (clear, from_passed), (from_a, pairs)),
      λ h.
          let (placed, clear, pairs) = h in
          first.1
            (here.1 (placed.0, clear.0), rest.1 (placed.1, split.1 (pairs.0, clear.1), pairs.1)),
    )
