-- ===== src/Edge/Commit/Fence.antt =====
-- Fencing the previous boot and its presence, and creating the next boot, succeed from consistent
-- rows.
use workbuddy_buddy.Prelude.{
  or_true, ℕ, ◌≤◌, ◌<◌, ◌≡◌, refl, sym, ◌⊎◌, inl, inr, true, false, not, ◌&&◌, Option, none, some,
  List, [], arith, leb, if◌then◌else◌, All, All-update_where, Option-cases, ==_iff, le→leb,
}
use workbuddy_buddy.Edge.Problem.{ok}
use workbuddy_buddy.Edge.Types.{Text, EdgeEvent, nullable_eq_iff, text_eq}
use workbuddy_buddy.Edge.Store.{
  HeadRow, PresenceRow, IntervalRow, Store, is_none, lease_expired, boot_replaced,
}
use workbuddy_buddy.Edge.Activity.View.{open_view, close-returns}
use workbuddy_buddy.Edge.Activity.Events.{IsSoundRow, parse-returns}
use workbuddy_buddy.Edge.Rollover.{
  can_roll_boot, fence_previous_boot, drop_presence, fence_previous_boot_and_presence,
  scrub_fenced_boot_replay_material, created, create_boot_and_advance_head,
}
use workbuddy_buddy.Edge.Commit.Write.{shown_open}

-- The rows that no boot change touches.
pub record SameDevice (s t : Store) : Type 0 where
  pub instance_row : t.instance_row ≡ s.instance_row
  pub agent : t.agent ≡ s.agent
  pub credentials : t.credentials ≡ s.credentials
  pub mounts : t.mounts ≡ s.mounts
  pub revisions : t.revisions ≡ s.revisions

pub SameDevice-refl : (s : Store) → SameDevice s s
SameDevice-refl s = record {
  instance_row = refl;
  agent = refl;
  credentials = refl;
  mounts = refl;
  revisions = refl;
}

-- Fencing touches the previous boot's row and what it would be replayed from, and nothing else.
pub record Fenced (s t : Store) : Type 0 where
  pub device : SameDevice s t
  pub head : t.head ≡ s.head
  pub presence : t.presence ≡ s.presence
  pub intervals : t.intervals ≡ s.intervals

pub fence-Fenced :
    (o : Option Text) (received : ℕ) (s : Store) → Fenced s (fence_previous_boot o received s)
unfolding fence_previous_boot scrub_fenced_boot_replay_material
fence-Fenced none received s = record {
  device = SameDevice-refl s;
  head = refl;
  presence = refl;
  intervals = refl;
}
fence-Fenced (some previous) received s = record {
  device = record {
    instance_row = refl;
    agent = refl;
    credentials = refl;
    mounts = refl;
    revisions = refl;
  };
  head = refl;
  presence = refl;
  intervals = refl;
}

-- Fencing renumbers no boot.
pub fence-older :
    (n : ℕ) (o : Option Text) (received : ℕ) (s : Store)
    → All (λ b. b.generation < n) s.boots
    → All (λ b. b.generation < n) (fence_previous_boot o received s).boots
unfolding fence_previous_boot scrub_fenced_boot_replay_material
fence-older n none received s h = h
fence-older n (some previous) received s h =
    All-update_where (λ b. b.generation < n)
      (λ b. text_eq b.boot_id previous && is_none b.fenced_at)
      (λ b. record b { fenced_at = some received }) s.boots (λ b k. k) h

-- The presence of the previous boot ends: its open interval is closed, if its lease had one.
pub drop-returns :
    (received : ℕ) (p : PresenceRow) (s : Store)
    → IsSoundRow p
    → open_view s.intervals ≡ shown_open p.boot_generation p
    → (p.lease_closed_at ≡ none) ⊎ (p.lease_expires_at ≤ received)
    → (rows : List IntervalRow) × (drop_presence (some p) received s
        ≡ ok (record s { intervals = rows; presence = none }))
      × (open_view rows ≡ [])
unfolding drop_presence
drop-returns received p s sound h lease = elim (Option-cases p.lease_closed_at) [
  | inl live ↦
      let (rows, returned, shown) =
        close-returns (if leb p.lease_expires_at received then p.lease_expires_at else received)
          p.last_accepted_sequence
          (if leb p.lease_expires_at received then lease_expired else boot_replaced) s.intervals
          (rw live at h) in
      (
        rows,
        rw
            (
              live,
              or_true (not (leb p.lease_expires_at received)),
              parse-returns p.last_accepted_sequence false sound.accepted,
              returned,
            )
            refl,
        shown,
      )
  | inr (t, done) ↦
      let over : leb p.lease_expires_at received ≡ true = elim lease [
        | inl live ↦ cc
        | inr past ↦ le→leb p.lease_expires_at received past
      ] in
      (s.intervals, rw (over, done) refl, rw done at h)
]

-- The compare and swap of a head that has not moved.
pub create-returns :
    (h : HeadRow) (boot_id : Text) (previous : Option Text) (generation received : ℕ) (s : Store)
    → previous ≡ h.current_boot_id
    → create_boot_and_advance_head h boot_id previous h.current_boot_generation generation received
        s
      ≡ ok (created h boot_id previous generation received s)
unfolding create_boot_and_advance_head
create-returns h boot_id previous generation received s e =
    rw
      (
        (==_iff h.current_boot_generation h.current_boot_generation).1 refl,
        (nullable_eq_iff h.current_boot_id previous).1 (sym e),
      )
      refl

-- Without a live presence to preserve, the fence ends the presence.
pub fence-drops :
    (o : Option Text) (presence : Option PresenceRow) (received : ℕ) (s t : Store)
    → drop_presence presence received (fence_previous_boot o received s) ≡ ok t
    → fence_previous_boot_and_presence o presence received false s ≡ ok t
unfolding fence_previous_boot_and_presence
fence-drops o presence received s t e = e

pub fence-keeps :
    (o : Option Text) (presence : Option PresenceRow) (received : ℕ) (s : Store)
    → fence_previous_boot_and_presence o presence received true s
      ≡ ok (fence_previous_boot o received s)
unfolding fence_previous_boot_and_presence
fence-keeps o presence received s = refl

pub drop-none : (received : ℕ) (s : Store) → drop_presence none received s ≡ ok s
unfolding drop_presence
drop-none received s = refl

pub can_roll-live :
    (p : PresenceRow) (events : List EdgeEvent) (received : ℕ)
    → can_roll_boot (some p) events received ≡ true
    → p.lease_closed_at ≡ none
unfolding can_roll_boot
can_roll-live p events received can = ground arith
