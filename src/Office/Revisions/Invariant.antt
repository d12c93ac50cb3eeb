-- ===== src/Office/Revisions/Invariant.antt =====
-- What is true of the rows of an office between transactions.
use workbuddy_buddy.Prelude.{ℕ, ◌≤◌, ◌<◌, ◌≡◌, false, Option, none, some, keep, last, All}
use workbuddy_buddy.Edge.Types.{Text, max_safe_sequence}
use workbuddy_buddy.Edge.Store.{is_none}
use workbuddy_buddy.Office.Revisions.{Office, CurrentProjection, RevisionEvent}
use workbuddy_buddy.Office.Revisions.Log.{Log, is_newer}

-- A current projection is the payload of the newest event, which has the office's revision and can
-- be replayed.
abbrev pub IsCurrent : Office → Option CurrentProjection → Type 0
IsCurrent s none = Unit {0}
IsCurrent s (some p) =
    (p.revision ≡ s.revision)
    × (s.minimum_replay_revision < s.revision)
    × ((e : RevisionEvent) × (last s.events ≡ some e)
        × (e.revision ≡ s.revision)
        × (e.canonical_payload ≡ some p.canonical_payload))

-- The events after the minimum are a log up to the office's revision, there is none beyond it, and
-- the outbox is published.
pub record IsReplayable (payload_revision : Text → Option ℕ) (s : Office) : Type 0 where
  pub log :
      Log payload_revision s.minimum_replay_revision
        (keep (is_newer s.minimum_replay_revision) s.events)
        s.revision
  pub bounded : All (λ e. e.revision ≤ s.revision) s.events
  pub low : s.minimum_replay_revision ≤ s.revision
  pub safe : s.revision ≤ max_safe_sequence
  pub current : IsCurrent s s.projection
  pub published : All (λ r. is_none r.published_at ≡ false) s.outbox
