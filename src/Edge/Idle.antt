-- ===== src/Edge/Idle.antt =====
-- apps/control-plane/src/modules/presence/domain/idle-stage.ts: how long an agent has been idle, as
-- the pet shows it.
use workbuddy_buddy.Prelude.{ℕ, ◌-◌, ◌/◌, Option, some, leb, if◌then◌else◌}

pub data IdleStage : Type 0 where
  none fresh salted costume fish : IdleStage

-- deriveIdleStage. `-` stops at zero, and so does `Math.max(0, …)`.
unfoldable pub derive_idle_stage : Option ℕ → ℕ → IdleStage
derive_idle_stage eligible_since now = elim eligible_since [
  | some since ↦
      let seconds = (now - since) / 1000 in
      if leb 3600 seconds
      then fish
      else if leb 2100 seconds
      then costume
      else if leb 1500 seconds
      then salted
      else if leb 900 seconds
      then fresh
      else none
  | _ ↦ none
]
