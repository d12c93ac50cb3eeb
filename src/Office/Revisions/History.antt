-- ===== src/Office/Revisions/History.antt =====
-- The life of an office's rows: revisions of the three kinds and retention, in any order. A transaction
-- that fails leaves the rows as they were, and is no step.
use mathlib.Core.Path.{subst}
use workbuddy_buddy.Prelude.{
  ℕ, ◌≤◌, ◌<◌, ◌≡◌, true, false, Option, none, [], arith, All, All-map, keep, keep-none, sym, ◌∙◌,
}
use workbuddy_buddy.Edge.Problem.{ok, throw_if-eq-ok, fault}
use workbuddy_buddy.Edge.Types.{Text, max_safe_sequence}
use workbuddy_buddy.Office.Snapshot.{PublicOfficeSnapshot}
use workbuddy_buddy.Office.Revisions.{
  Office, ProjectorEnv, RecordPublicRevisionInput, record_revision,
  record_consent_expansion_revision, record_privacy_lowering_revision, retain_one_office,
}
use workbuddy_buddy.Office.Revisions.Log.{is_newer}
use workbuddy_buddy.Office.Revisions.Invariant.{IsReplayable}
use workbuddy_buddy.Office.Revisions.Record.{StatesRevision, record_public_revision-IsReplayable}
use workbuddy_buddy.Office.Revisions.Retain.{retain_one_office-IsReplayable}

-- An office whose log is empty: a new one, or one whose older events are never replayed, since its
-- minimum is its revision.
pub record IsFresh (s : Office) : Type 0 where
  pub at_minimum : s.minimum_replay_revision ≡ s.revision
  pub safe : s.revision ≤ max_safe_sequence
  pub older : All (λ e. e.revision ≤ s.revision) s.events
  pub no_projection : s.projection ≡ none
  pub no_outbox : s.outbox ≡ []

module _ (payload_revision : Text → Option ℕ) where
  pub data Step : Office → Office → Type 0 where
    records :
        (s after : Office) (env : ProjectorEnv) (input : RecordPublicRevisionInput)
        (snapshot : PublicOfficeSnapshot)
        → StatesRevision payload_revision env.canonical_bytes
        → record_revision env input s ≡ ok (snapshot, after)
        → Step s after
    expands :
        (s after : Office) (env : ProjectorEnv) (input : RecordPublicRevisionInput)
        (snapshot : PublicOfficeSnapshot)
        → StatesRevision payload_revision env.canonical_bytes
        → record_consent_expansion_revision env input s ≡ ok (snapshot, after)
        → Step s after
    lowers :
        (s after : Office) (env : ProjectorEnv) (input : RecordPublicRevisionInput)
        (snapshot : PublicOfficeSnapshot)
        → StatesRevision payload_revision env.canonical_bytes
        → record_privacy_lowering_revision env input s ≡ ok (snapshot, after)
        → Step s after
    retains :
        (s after : Office) (most : ℕ) (cut_any : _)
        → 0 < most
        → retain_one_office most s ≡ ok (cut_any, after)
        → Step s after

  pub data Reach (s : Office) : Office → Type 0 where
    here : Reach s s
    next : (t u : Office) → Reach s t → Step t u → Reach s u

  IsFresh-IsReplayable : (s : Office) → IsFresh s → IsReplayable payload_revision s
  IsFresh-IsReplayable s f = record {
    log =
        let none_newer : keep (is_newer s.minimum_replay_revision) s.events ≡ [] =
          keep-none (is_newer s.minimum_replay_revision) s.events (
            All-map (λ e. e.revision ≤ s.revision)
              (λ e. is_newer s.minimum_replay_revision e ≡ false)
              (λ e l. ground (arith, l, f.at_minimum)) s.events f.older) in
        rw none_newer f.at_minimum;
    bounded = f.older;
    low = omega (arith, f.at_minimum);
    safe = f.safe;
    current = rw (f.no_projection) tt;
    published = rw (f.no_outbox) tt;
  }

  Step-IsReplayable :
      (s t : Office) → Step s t → IsReplayable payload_revision s → IsReplayable payload_revision t
  unfolding record_revision record_consent_expansion_revision record_privacy_lowering_revision
  Step-IsReplayable _ _ (records s after env input snapshot f e) w =
      record_public_revision-IsReplayable payload_revision env input false s after snapshot f w
        (throw_if-eq-ok _ fault _ e).1
  Step-IsReplayable _ _ (expands s after env input snapshot f e) w =
      record_public_revision-IsReplayable payload_revision env input false s after snapshot f w e
  Step-IsReplayable _ _ (lowers s after env input snapshot f e) w =
      record_public_revision-IsReplayable payload_revision env input true s after snapshot f w e
  Step-IsReplayable _ _ (retains s after most cut_any h e) w =
      let (_, kept, e', w', _, _, _, _, _) =
        retain_one_office-IsReplayable payload_revision most s w h in
      let same : kept ≡ after = ground (arith, sym e' ∙ e) in
      subst (IsReplayable payload_revision) same w'

  -- From an office with an empty log, after any sequence of recorded revisions (ordinary ones, those
  -- that expand a consent and those that lower one) and of retention of at least one revision, the
  -- rows are replayable: the events after the minimum are one for each revision up to the office's,
  -- the current projection is the newest event's, and the outbox is published. The canonical bytes are
  -- taken to state the revision of their snapshot.
  pub Reach-IsReplayable : (s t : Office) → IsFresh s → Reach s t → IsReplayable payload_revision t
  Reach-IsReplayable s _ f here = IsFresh-IsReplayable s f
  Reach-IsReplayable s _ f (next t u r step) =
      Step-IsReplayable t u step (Reach-IsReplayable s t f r)
