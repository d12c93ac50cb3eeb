-- ===== src/Edge/Invariant.antt =====
-- What holds of an instance's rows between transactions, at a time `now`: the head is at the newest
-- boot, the presence is that of the last report of that boot, and the table of intervals shows
-- exactly the presence. Any lease that a sweep has closed had run out by `now`.
pub mod Report
pub mod Log
use workbuddy_buddy.Prelude.{
  ℕ, ◌+◌, ◌≤◌, ◌<◌, ◌≡◌, ◌⊎◌, Option, none, some, List, [], ◌∷◌, All, arith, inl, inr,
}
use workbuddy_buddy.Edge.Types.{max_safe_sequence}
use workbuddy_buddy.Edge.Store.{HeadRow, BootRow, PresenceRow, Store}
use workbuddy_buddy.Edge.Activity.View.{open_view, presence_view}
use workbuddy_buddy.Edge.Activity.Events.{IsSoundRow}

pub record IsCurrent (now : ℕ) (h : HeadRow) (b : BootRow) (bs : List BootRow) (p : PresenceRow)
    : Type 0 where
  pub boot_id : h.current_boot_id ≡ some b.boot_id
  pub generation : h.current_boot_generation ≡ b.generation
  pub older : All (λ o. o.generation < b.generation) bs
  pub range : b.generation ≤ max_safe_sequence
  pub sound : IsSoundRow p
  pub presence_generation : p.boot_generation ≡ b.generation
  pub presence_boot : p.boot_id ≡ b.boot_id
  pub positive : 0 < p.last_accepted_sequence
  pub next : b.next_sequence ≡ p.last_accepted_sequence + 1
  pub lease : (p.lease_closed_at ≡ none) ⊎ (p.lease_expires_at ≤ now)

-- Before its first report an instance has neither a boot nor a presence.
abbrev pub CurrentHolds : ℕ → HeadRow → List BootRow → Option PresenceRow → Type 0
CurrentHolds now h [] none = (h.current_boot_id ≡ none) × (h.current_boot_generation ≡ 0)
CurrentHolds now h [] (some p) = ⊥
CurrentHolds now h (b ∷ bs) none = ⊥
CurrentHolds now h (b ∷ bs) (some p) = IsCurrent now h b bs p

pub record Consistent (now : ℕ) (h : HeadRow) (s : Store) : Type 0 where
  pub head : s.head ≡ some h
  pub current : CurrentHolds now h s.boots s.presence
  pub shown : open_view s.intervals ≡ presence_view s.presence

-- The rows of an instance that has a head agree with one another.
abbrev pub IsConsistent : ℕ → Store → Type 0
IsConsistent now s = (h : HeadRow) × Consistent now h s

-- Time passes.
pub CurrentHolds-later :
    (now later : ℕ) (h : HeadRow) (bs : List BootRow) (p : Option PresenceRow)
    → now ≤ later
    → CurrentHolds now h bs p
    → CurrentHolds later h bs p
CurrentHolds-later now later h [] none l c = c
CurrentHolds-later now later h (b ∷ bs) (some p) l c = record {
  boot_id = c.boot_id;
  generation = c.generation;
  older = c.older;
  range = c.range;
  sound = c.sound;
  presence_generation = c.presence_generation;
  presence_boot = c.presence_boot;
  positive = c.positive;
  next = c.next;
  lease = elim c.lease [ inl open_lease ↦ inl open_lease | inr over ↦ inr (omega arith) ];
}
CurrentHolds-later now later h [] (some p) l c = c
CurrentHolds-later now later h (b ∷ bs) none l c = c
