-- ===== src/Edge/Commit/Enter.antt =====
-- Entering a boot succeeds from consistent rows, and leaves the rows as write_report wants them.
use mathlib.Core.Path.{subst}
use workbuddy_buddy.Prelude.{
  ℕ, ◌+◌, ◌≤◌, ◌<◌, ◌≡◌, refl, sym, ap, ◌∙◌, ◌⊎◌, inl, inr, true, false, Option, none, some, List,
  ◌∷◌, arith, All, Bool-cases, Option-cases,
}
use workbuddy_buddy.Edge.Problem.{Result, ok}
use workbuddy_buddy.Edge.Types.{Text, PreparedEdgeReport}
use workbuddy_buddy.Edge.Store.{HeadRow, BootRow, PresenceRow, Store}
use workbuddy_buddy.Edge.Boot.{BootDecision}
use workbuddy_buddy.Edge.Boot.Decision.{Continues, Establishes}
use workbuddy_buddy.Edge.Activity.View.{
  open_view, presence_view, presence_view-some, presence_view-live, presence_view-none,
  move-returns,
}
use workbuddy_buddy.Edge.Rollover.{
  Rolled, can_roll_boot, fence_previous_boot, fence_previous_boot_and_presence, roll_boot,
  enter_boot,
}
use workbuddy_buddy.Edge.Commit.Fence.{
  SameDevice, SameDevice-refl, can_roll-live, Fenced, fence-Fenced, fence-older, fence-drops,
  fence-keeps, drop-none, drop-returns,
}
use workbuddy_buddy.Edge.Commit.Roll.{
  PresenceFacts, after, presence_facts, boots_below, fresh-IsRolled, seamless-IsRolled,
  fresh-returns, seamless-returns,
}
use workbuddy_buddy.Edge.Commit.Write.{IsRolled}
use workbuddy_buddy.Edge.Invariant.{CurrentHolds, IsCurrent, Consistent}

-- Entering a boot returns, and touches the device's other rows not at all.
pub record Entered (received : ℕ) (d : BootDecision) (report : PreparedEdgeReport) (s : Store)
    (result : Result Rolled) : Type 0 where
  pub rolled : Rolled
  pub returned : result ≡ ok rolled
  pub is_rolled : IsRolled received d report rolled
  pub device : SameDevice s rolled.store
  pub kept :
      ((d.is_new_boot ≡ false) × (rolled.store ≡ s))
      ⊎ ((d.is_new_boot ≡ true)
          × (o : Option Text) × (rolled.store.receipts
              ≡ (fence_previous_boot o received s).receipts)
          × (rolled.store.fingerprints ≡ (fence_previous_boot o received s).fingerprints))

pub IsCurrent-presence :
    (now : ℕ) (h : HeadRow) (b : BootRow) (bs : List BootRow) (presence : Option PresenceRow)
    → CurrentHolds now h (b ∷ bs) presence
    → (p : PresenceRow) × (presence ≡ some p) × IsCurrent now h b bs p
IsCurrent-presence now h b bs none c = absurd c
IsCurrent-presence now h b bs (some p) c = (p, refl, c)

module _ (now received : ℕ) (h : HeadRow) (d : BootDecision) (report : PreparedEdgeReport)
    (s : Store) (later : now ≤ received) (c : Consistent now h s) where
  abbrev fenced : Store
  fenced = fence_previous_boot h.current_boot_id received s

  is_fenced : Fenced s fenced
  is_fenced = fence-Fenced h.current_boot_id received s

  fenced_below : All (λ b. b.generation < h.current_boot_generation + 1) fenced.boots
  fenced_below =
      fence-older (h.current_boot_generation + 1) h.current_boot_id received s
        (boots_below now h s.boots s.presence c.current)

  facts : (p : PresenceRow) → s.presence ≡ some p → PresenceFacts now h p
  facts p e = presence_facts now h s.boots p (subst (λ o. CurrentHolds now h s.boots o) e c.current)

  -- The rows of the table are as the presence has them, also once the boot is fenced.
  fenced_shown : open_view fenced.intervals ≡ presence_view s.presence
  fenced_shown = ap open_view is_fenced.intervals ∙ c.shown

  first_boot-Entered :
      Establishes h report d
      → s.presence ≡ none
      → Entered received d report s (roll_boot h d report received s)
  first_boot-Entered est e = record {
    rolled = record {
      store = after received h d report est fenced;
      presence = none;
      seamless = false;
    };
    returned =
        fresh-returns received h d report est s fenced (rw e (unfold can_roll_boot in refl)) (
          ap (λ o. fence_previous_boot_and_presence h.current_boot_id o received false s) e
          ∙ fence-drops h.current_boot_id none received s fenced (drop-none received fenced));
    is_rolled =
        fresh-IsRolled received h d report est fenced fenced_below
          (fenced_shown ∙ ap presence_view e ∙ presence_view-none);
    device = record {
      instance_row = is_fenced.device.instance_row;
      agent = is_fenced.device.agent;
      credentials = is_fenced.device.credentials;
      mounts = is_fenced.device.mounts;
      revisions = is_fenced.device.revisions;
    };
    kept = inr (est.is_new, h.current_boot_id, refl, refl);
  }

  seamless-Entered :
      Establishes h report d
      → (p : PresenceRow) → s.presence ≡ some p
      → can_roll_boot s.presence report.envelope.events received ≡ true
      → p.lease_closed_at ≡ none
      → Entered received d report s (roll_boot h d report received s)
  seamless-Entered est p e can live =
      let (rows, returned, shown) =
        move-returns d.boot_generation fenced.intervals
          (fenced_shown ∙ ap presence_view e ∙ presence_view-live p live) in
      record {
        rolled = record {
          store = record (after received h d report est fenced) { intervals = rows };
          presence = some p;
          seamless = true;
        };
        returned =
            seamless-returns received h d report est s fenced rows can
              (fence-keeps h.current_boot_id s.presence received s) returned
            ∙ ap
                (λ o. ok (record {
                  store = record (after received h d report est fenced) { intervals = rows };
                  presence = o;
                  seamless = true;
                }))
                e;
        is_rolled =
            seamless-IsRolled received h d report est fenced p rows fenced_below (facts p e).0 live
              shown;
        device = record {
          instance_row = is_fenced.device.instance_row;
          agent = is_fenced.device.agent;
          credentials = is_fenced.device.credentials;
          mounts = is_fenced.device.mounts;
          revisions = is_fenced.device.revisions;
        };
        kept = inr (est.is_new, h.current_boot_id, refl, refl);
      }

  broken-Entered :
      Establishes h report d
      → (p : PresenceRow) → s.presence ≡ some p
      → can_roll_boot s.presence report.envelope.events received ≡ false
      → Entered received d report s (roll_boot h d report received s)
  broken-Entered est p e cannot =
      let (rows, returned, shown) =
        drop-returns received p fenced (facts p e).0
          (fenced_shown ∙ ap presence_view e ∙ presence_view-some p)
          (elim (facts p e).2 [ inl live ↦ inl live | inr past ↦ inr (omega arith) ]) in
      record {
        rolled = record {
          store =
              after received h d report est (record fenced { intervals = rows; presence = none });
          presence = none;
          seamless = false;
        };
        returned =
            fresh-returns received h d report est s
              (record fenced { intervals = rows; presence = none }) cannot
              (ap (λ o. fence_previous_boot_and_presence h.current_boot_id o received false s) e
                ∙ fence-drops h.current_boot_id (some p) received s
                    (record fenced { intervals = rows; presence = none }) returned);
        is_rolled =
            fresh-IsRolled received h d report est
              (record fenced { intervals = rows; presence = none }) fenced_below shown;
        device = record {
          instance_row = is_fenced.device.instance_row;
          agent = is_fenced.device.agent;
          credentials = is_fenced.device.credentials;
          mounts = is_fenced.device.mounts;
          revisions = is_fenced.device.revisions;
        };
        kept = inr (est.is_new, h.current_boot_id, refl, refl);
      }

  -- A report that establishes a boot enters it, seamlessly or not.
  roll_boot-Entered :
      Establishes h report d → Entered received d report s (roll_boot h d report received s)
  roll_boot-Entered est = elim (Option-cases s.presence) [
    | inl absent ↦ first_boot-Entered est absent
    | inr (p, e) ↦ elim (Bool-cases (can_roll_boot s.presence report.envelope.events received)) [
      | inl can ↦ seamless-Entered est p e can (
          can_roll-live p report.envelope.events received
            (ap (λ o. can_roll_boot o report.envelope.events received) (sym e) ∙ can))
      | inr cannot ↦ broken-Entered est p e cannot
    ]
  ]

  -- A report on the current boot enters it as it is.
  current-Entered :
      Continues s.boots report d → Entered received d report s (enter_boot h d report received s)
  unfolding enter_boot
  current-Entered on =
      let (p, e, k) =
        IsCurrent-presence now h on.boot on.others s.presence
          (subst (λ bs. CurrentHolds now h bs s.presence) on.shape c.current) in
      record {
        rolled = record { store = s; presence = some p; seamless = false };
        returned =
            ap (λ x. enter_boot h x report received s) on.decision
            ∙ ap (λ o. ok (record { store = s; presence = o; seamless = false })) e;
        is_rolled = record {
          head = h;
          boot = on.boot;
          others = on.others;
          store_head = c.head;
          store_boots = on.shape;
          current = k.boot_id;
          boot_id = on.boot_id;
          previous = sym on.previous;
          head_generation = k.generation;
          generation = ap (λ x. x.boot_generation) (sym on.decision);
          range = k.range;
          older = k.older;
          prior = (
            rw on.decision refl,
            k.sound,
            c.shown
                ∙ ap presence_view e
                ∙ presence_view-some p
                ∙ rw (on.decision, k.presence_generation) refl,
            elim k.lease [ inl live ↦ inl live | inr past ↦ inr (omega arith) ],
          );
        };
        device = SameDevice-refl s;
        kept = inl (rw on.decision refl, refl);
      }

  pub enter_boot-Entered :
      Continues s.boots report d ⊎ Establishes h report d
      → Entered received d report s (enter_boot h d report received s)
  unfolding enter_boot
  enter_boot-Entered (inl on) = current-Entered on
  enter_boot-Entered (inr est) = simp est.is_new (roll_boot-Entered est)
