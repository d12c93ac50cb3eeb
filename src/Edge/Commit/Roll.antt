-- ===== src/Edge/Commit/Roll.antt =====
-- Entering a boot succeeds from consistent rows, and leaves the rows as write_report wants them.
use workbuddy_buddy.Prelude.{
  ℕ, ◌+◌, ◌≤◌, ◌<◌, ◌≡◌, refl, sym, ◌∙◌, ◌⊎◌, inl, true, false, Option, none, some, List, [], ◌∷◌,
  arith, All, All-map,
}
use workbuddy_buddy.Edge.Problem.{ok}
use workbuddy_buddy.Edge.Types.{PreparedEdgeReport, normalize_uuid, normalize_nullable_uuid}
use workbuddy_buddy.Edge.Store.{HeadRow, BootRow, PresenceRow, IntervalRow, Store}
use workbuddy_buddy.Edge.Boot.{BootDecision}
use workbuddy_buddy.Edge.Boot.Decision.{Establishes}
use workbuddy_buddy.Edge.Activity.View.{open_view}
use workbuddy_buddy.Edge.Activity.Events.{IsSoundRow, of_row}
use workbuddy_buddy.Edge.Activity.Step.{current_open}
use workbuddy_buddy.Edge.Activity.{move_open_activity_interval_to_boot}
use workbuddy_buddy.Edge.Rollover.{
  can_roll_boot, fence_previous_boot_and_presence, created, roll_boot,
}
use workbuddy_buddy.Edge.Commit.Fence.{create-returns}
use workbuddy_buddy.Edge.Commit.Write.{IsRolled}
use workbuddy_buddy.Edge.Invariant.{CurrentHolds}

-- What the invariant says of a presence, and of the numbers of the boots.
abbrev pub PresenceFacts : ℕ → HeadRow → PresenceRow → Type 0
PresenceFacts now h p =
    IsSoundRow p
    × (p.boot_generation ≡ h.current_boot_generation)
    × ((p.lease_closed_at ≡ none) ⊎ (p.lease_expires_at ≤ now))

pub presence_facts :
    (now : ℕ) (h : HeadRow) (boots : List BootRow) (p : PresenceRow)
    → CurrentHolds now h boots (some p)
    → PresenceFacts now h p
presence_facts now h [] p c = absurd c
presence_facts now h (b ∷ bs) p c = (c.sound, c.presence_generation ∙ sym c.generation, c.lease)

pub boots_below :
    (now : ℕ) (h : HeadRow) (boots : List BootRow) (presence : Option PresenceRow)
    → CurrentHolds now h boots presence
    → All (λ b. b.generation < h.current_boot_generation + 1) boots
boots_below now h [] presence c = tt
boots_below now h (b ∷ bs) none c = absurd c
boots_below now h (b ∷ bs) (some p) c = (
  omega (arith, c.generation),
  All-map (λ o. o.generation < b.generation) (λ o. o.generation < h.current_boot_generation + 1)
      (λ o k. omega (arith, c.generation, k)) bs c.older,
)

module _ (received : ℕ) (h : HeadRow) (d : BootDecision) (report : PreparedEdgeReport)
    (est : Establishes h report d) where
  abbrev pub after : Store → Store
  after t =
      created h (normalize_uuid report.envelope.boot_id)
        (normalize_nullable_uuid report.envelope.previous_boot_id) d.boot_generation received t

  -- A boot that starts afresh.
  pub fresh-IsRolled :
      (t : Store)
      → All (λ b. b.generation < h.current_boot_generation + 1) t.boots
      → open_view t.intervals ≡ []
      → IsRolled received d report (record { store = after t; presence = none; seamless = false })
  fresh-IsRolled t below shown = record {
    head = record h {
      current_boot_id = some (normalize_uuid report.envelope.boot_id);
      current_boot_generation = d.boot_generation;
    };
    boot = record {
      boot_id = normalize_uuid report.envelope.boot_id;
      previous_boot_id = normalize_nullable_uuid report.envelope.previous_boot_id;
      generation = d.boot_generation;
      next_sequence = 1;
      first_accepted_at = received;
      last_accepted_at = received;
      fenced_at = none;
    };
    others = t.boots;
    store_head = refl;
    store_boots = refl;
    current = refl;
    boot_id = refl;
    previous = refl;
    head_generation = refl;
    generation = refl;
    range = rw est.generation (omega (arith, est.room));
    older = rw est.generation below;
    prior = (rw est.is_new refl, shown, est.starts);
  }

  -- A boot that takes a live presence over, with its open interval.
  pub seamless-IsRolled :
      (t : Store) (p : PresenceRow) (rows : List IntervalRow)
      → All (λ b. b.generation < h.current_boot_generation + 1) t.boots
      → IsSoundRow p
      → p.lease_closed_at ≡ none
      → open_view rows ≡ current_open d.boot_generation (of_row p)
      → IsRolled received d report (record {
        store = record (after t) { intervals = rows };
        presence = some p;
        seamless = true;
      })
  seamless-IsRolled t p rows below sound live shown = record {
    head = record h {
      current_boot_id = some (normalize_uuid report.envelope.boot_id);
      current_boot_generation = d.boot_generation;
    };
    boot = record {
      boot_id = normalize_uuid report.envelope.boot_id;
      previous_boot_id = normalize_nullable_uuid report.envelope.previous_boot_id;
      generation = d.boot_generation;
      next_sequence = 1;
      first_accepted_at = received;
      last_accepted_at = received;
      fenced_at = none;
    };
    others = t.boots;
    store_head = refl;
    store_boots = refl;
    current = refl;
    boot_id = refl;
    previous = refl;
    head_generation = refl;
    generation = refl;
    range = rw est.generation (omega (arith, est.room));
    older = rw est.generation below;
    prior = (rw est.is_new refl, sound, rw live shown, inl live);
  }

  -- What roll_boot does once the fence has returned `t`.
  pub fresh-returns :
      (s t : Store)
      → can_roll_boot s.presence report.envelope.events received ≡ false
      → fence_previous_boot_and_presence h.current_boot_id s.presence received false s ≡ ok t
      → roll_boot h d report received s
        ≡ ok (record { store = after t; presence = none; seamless = false })
  unfolding roll_boot
  fresh-returns s t broken fenced =
      rw
        (
          broken,
          fenced,
          create-returns h (normalize_uuid report.envelope.boot_id)
              (normalize_nullable_uuid report.envelope.previous_boot_id) d.boot_generation received
              t est.previous,
        )
        refl

  pub seamless-returns :
      (s t : Store) (rows : List IntervalRow)
      → can_roll_boot s.presence report.envelope.events received ≡ true
      → fence_previous_boot_and_presence h.current_boot_id s.presence received true s ≡ ok t
      → move_open_activity_interval_to_boot d.boot_generation t.intervals ≡ ok rows
      → roll_boot h d report received s
        ≡ ok (record {
          store = record (after t) { intervals = rows };
          presence = s.presence;
          seamless = true;
        })
  unfolding roll_boot
  seamless-returns s t rows can fenced moved =
      rw
        (
          can,
          fenced,
          create-returns h (normalize_uuid report.envelope.boot_id)
              (normalize_nullable_uuid report.envelope.previous_boot_id) d.boot_generation received
              t est.previous,
          moved,
        )
        refl
