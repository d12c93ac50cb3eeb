-- ===== src/Office/Revisions/Retain.antt =====
-- Retention cuts the log to its last entries.
use workbuddy_buddy.Prelude.{
  ℕ, ◌+◌, ◌-◌, ◌≤◌, ◌<◌, ◌≡◌, refl, ◌∙◌, Bool, true, false, Option, none, List, [], ◌∷◌, arith, leb,
  if◌then◌else◌, All, Bool-cases, inl, inr,
}
use workbuddy_buddy.Edge.Problem.{ok}
use workbuddy_buddy.Edge.Types.{Text, max_safe_sequence}
use workbuddy_buddy.Edge.Store.{is_none}
use workbuddy_buddy.Office.Intervals.{is_safe_integer}
use workbuddy_buddy.Office.Revisions.{
  Office, OutboxRow, first_pending, safe_cutoff, parse_revision, retain_one_office, delete_events,
}
use workbuddy_buddy.Office.Revisions.Invariant.{IsReplayable}
use workbuddy_buddy.Office.Revisions.Record.{cut, cut-IsReplayable}

first_pending-published :
    (cutoff : ℕ) (rows : List OutboxRow)
    → All (λ r. is_none r.published_at ≡ false) rows
    → first_pending cutoff rows ≡ none
unfolding first_pending
first_pending-published cutoff [] h = refl
first_pending-published cutoff (r ∷ rs) h = rw (h.0, first_pending-published cutoff rs h.1) refl

pub parse_revision-ok : (n : ℕ) → n ≤ max_safe_sequence → parse_revision n ≡ ok n
unfolding parse_revision is_safe_integer
parse_revision-ok n h = ground (arith, h)

-- The rows after retention.
abbrev pub retained : ℕ → Office → Bool × Office
retained most s =
    if leb (s.revision - most) s.minimum_replay_revision
    then (false, s)
    else (true, cut (s.revision - most) (λ r. leb r (s.revision - most)) s)

module _ (payload_revision : Text → Option ℕ) where
  retain_one_office-retained :
      (most : ℕ) (s : Office)
      → IsReplayable payload_revision s
      → retain_one_office most s ≡ ok (retained most s)
  unfolding retain_one_office safe_cutoff
  retain_one_office-retained most s w =
      let current = parse_revision-ok s.revision w.safe in
      let minimum = parse_revision-ok s.minimum_replay_revision (omega (arith, w.low, w.safe)) in
      let published = first_pending-published (s.revision - most) s.outbox w.published in
      elim (Bool-cases (leb (s.revision - most) s.minimum_replay_revision)) [
        | inl small ↦ rw (current, minimum, small) refl
        | inr large ↦ rw (current, minimum, large, published, large) refl
      ]

  -- In a replayable state, retention of at least one revision returns, leaves a replayable state
  -- with the same revision and projection, says whether anything was cut, and keeps at most that many
  -- revisions; it cuts nothing that was within the limit.
  pub retain_one_office-IsReplayable :
      (most : ℕ) (s : Office)
      → IsReplayable payload_revision s
      → 0 < most
      → (cut_any : Bool) × (after : Office) × (retain_one_office most s ≡ ok (cut_any, after))
        × IsReplayable payload_revision after
        × (after.revision ≡ s.revision)
        × (after.projection ≡ s.projection)
        × (s.revision ≤ after.minimum_replay_revision + most)
        × (cut_any ≡ true → after.minimum_replay_revision + most ≡ s.revision)
        × (cut_any ≡ false → after ≡ s)
  unfolding delete_events
  retain_one_office-IsReplayable most s w h =
      elim (Bool-cases (leb (s.revision - most) s.minimum_replay_revision)) [
        | inl small ↦ (
          false,
          s,
          retain_one_office-retained most s w ∙ rw small refl,
          w,
          refl,
          refl,
          ground (arith, small),
          λ e. cc,
          λ e. refl,
        )
        | inr large ↦ (
          true,
          cut (s.revision - most) (λ r. leb r (s.revision - most)) s,
          retain_one_office-retained most s w ∙ rw large refl,
          cut-IsReplayable payload_revision (s.revision - most) (λ r. leb r (s.revision - most)) s w
              (ground (arith, large)) (ground (arith, large, h)) (λ r. ground arith),
          refl,
          refl,
          omega arith,
          λ e. ground (arith, large),
          λ e. cc,
        )
      ]
