-- ===== src/Office/Revisions/Record.antt =====
-- A revision that is recorded goes to the end of the log.
use mathlib.Core.Path.{subst}
use workbuddy_buddy.Prelude.{
  ℕ, ◌+◌, ◌-◌, ◌≤◌, ◌<◌, ◌≡◌, refl, sym, ap, ◌∙◌, Bool, true, false, not, ◌&&◌, Option, none, some,
  List, [], ◌∷◌, arith, ltb, ◌==◌, any, keep, All-map, All-keep, All-append, All-update_where,
  keep-append, keep-keep, last-append, last-keep,
}
use workbuddy_buddy.Edge.Problem.{ok, fault, >>=-eq-ok, throw_if-eq-ok}
use workbuddy_buddy.Edge.Types.{Text, max_safe_sequence}
use workbuddy_buddy.Edge.Store.{is_none}
use workbuddy_buddy.Office.Snapshot.{
  PublicOfficeSnapshot, View, build_public_office_snapshot, parse_positive, public_agents,
  daily_award_of,
}
use workbuddy_buddy.Office.Revisions.{
  Office, recorded, rejects, write_revision, ProjectorEnv, RecordPublicRevisionInput, RevisionEvent,
  record_public_revision, with_revision, invalidate_replay_history, delete_events, projection_time,
  has_source,
}
use workbuddy_buddy.Office.Revisions.Log.{Log-append, Log-keep, is_newer}
use workbuddy_buddy.Office.Revisions.Invariant.{IsReplayable, IsCurrent}

-- Deleting the events up to `cutoff` and raising the minimum to it.
abbrev pub cut : ℕ → (ℕ → Bool) → Office → Office
cut cutoff p s = record (delete_events p s) { minimum_replay_revision = cutoff }

module _ (payload_revision : Text → Option ℕ) where
  pub cut-IsReplayable :
      (cutoff : ℕ) (p : ℕ → Bool) (s : Office)
      → IsReplayable payload_revision s
      → s.minimum_replay_revision ≤ cutoff
      → cutoff < s.revision
      → ((r : ℕ) → p r ≡ not (ltb cutoff r))
      → IsReplayable payload_revision (cut cutoff p s)
  unfolding delete_events
  cut-IsReplayable cutoff p s w h k f = record {
    log =
        rw
          (
            keep-keep (λ e. not (p e.revision)) (is_newer cutoff) s.events
                (λ e n. ground (arith, n, f e.revision)),
            sym (
                keep-keep (is_newer s.minimum_replay_revision) (is_newer cutoff) s.events
                  (λ e n. ground (arith, n, h))),
          )
          (Log-keep payload_revision s.minimum_replay_revision s.revision cutoff
            (keep (is_newer s.minimum_replay_revision) s.events) w.log h (omega (arith, k)));
    bounded = All-keep (λ e. e.revision ≤ s.revision) (λ e. not (p e.revision)) s.events w.bounded;
    low = omega (arith, k);
    safe = w.safe;
    current = still_current s.projection w.current;
    published = All-keep (λ r. is_none r.published_at ≡ false) _ s.outbox w.published;
  }
    where
      still_current : (c : _) → IsCurrent s c → IsCurrent (cut cutoff p s) c
      still_current none i = tt
      still_current (some c) (same, _, (e, newest, of_office, payload)) = (
        same,
        k,
        (
          e,
          last-keep (λ e. not (p e.revision)) e s.events newest
              (ground (arith, k, of_office, f e.revision)),
          of_office,
          payload,
        ),
      )

  pub with_revision-IsReplayable :
      (input : RecordPublicRevisionInput) (at : ℕ) (snapshot : PublicOfficeSnapshot)
      (payload : Text) (s : Office)
      → IsReplayable payload_revision s
      → s.revision < max_safe_sequence
      → payload_revision payload ≡ some (s.revision + 1)
      → IsReplayable payload_revision (with_revision input (s.revision + 1) at snapshot payload s)
  unfolding with_revision
  with_revision-IsReplayable input at snapshot payload s w h stated =
      let event : RevisionEvent = record {
        revision = s.revision + 1;
        event_type = input.event_type;
        public_payload = some snapshot;
        canonical_payload = some payload;
        created_at = at;
        projection_format_version = 1;
      } in
      let newer : is_newer s.minimum_replay_revision event ≡ true = ground (arith, w.low) in
      record {
        log =
            rw (keep-append (is_newer s.minimum_replay_revision) s.events (event ∷ []), newer)
              (Log-append payload_revision s.minimum_replay_revision s.revision
                (keep (is_newer s.minimum_replay_revision) s.events) event w.log (omega arith)
                (refl, (payload, (refl, stated))));
        bounded =
            All-append (λ e. e.revision ≤ s.revision + 1) s.events (event ∷ [])
              (All-map (λ e. e.revision ≤ s.revision) (λ e. e.revision ≤ s.revision + 1)
                (λ e l. omega (arith, l)) s.events w.bounded)
              (omega arith, tt);
        low = omega (arith, w.low);
        safe = omega (arith, h);
        current = (refl, omega (arith, w.low), (event, last-append event s.events, refl, refl));
        published = (
          ground arith,
          All-update_where (λ r. is_none r.published_at ≡ false)
              (λ r. r.office_revision == s.revision + 1 && is_none r.published_at)
              (λ r. record r { published_at = some at }) s.outbox (λ r l. refl) w.published,
        );
      }

  -- What a call that returns has computed.
  pub record Recorded (env : ProjectorEnv) (input : RecordPublicRevisionInput) (invalidate : Bool)
      (s : Office) (snapshot : PublicOfficeSnapshot) (after : Office) : Type 0 where
    pub room : s.revision < max_safe_sequence
    pub numbered : snapshot.office_revision ≡ s.revision + 1
    pub result :
        after
        ≡ recorded env input invalidate
            (s.revision + 1)
            (projection_time env.clock input.at s.projection)
            snapshot
            s

  write_revision-eq :
      (env : ProjectorEnv) (input : RecordPublicRevisionInput) (invalidate : Bool) (revision at : ℕ)
      (built snapshot : PublicOfficeSnapshot) (s after : Office)
      → write_revision env input invalidate revision at built s ≡ ok (snapshot, after)
      → (built ≡ snapshot) × (recorded env input invalidate revision at built s ≡ after)
  unfolding write_revision
  write_revision-eq env input invalidate revision at built snapshot s after e =
      let (_, e₁) = throw_if-eq-ok (rejects env.validator built) fault _ e in
      let (_, e₂) = throw_if-eq-ok (any (λ d. d.revision == revision) s.events) fault _ e₁ in
      let (_, e₃) = throw_if-eq-ok (any (has_source input) s.outbox) fault _ e₂ in
      (ground (arith, e₃), ground (arith, e₃))

  parse_positive-eq : (value parsed : ℕ) → parse_positive value ≡ ok parsed → parsed ≡ value
  unfolding parse_positive
  parse_positive-eq value parsed e = ground (arith, e)

  build-office_revision :
      (view : View) (stored revision at : ℕ) (snapshot : PublicOfficeSnapshot)
      → build_public_office_snapshot view stored revision at ≡ ok snapshot
      → snapshot.office_revision ≡ revision
  unfolding build_public_office_snapshot
  build-office_revision view stored revision at snapshot e =
      let (parsed, _, e₁) = >>=-eq-ok (parse_positive stored) _ e in
      let (_, e₂) = throw_if-eq-ok (not (parsed == revision)) fault _ e₁ in
      let (agents, _, e₃) = >>=-eq-ok (public_agents at view.agents) _ e₂ in
      let (award, _, e₄) = >>=-eq-ok (daily_award_of view.award) _ e₃ in ground (arith, e₄)

  pub record_public_revision-Recorded :
      (env : ProjectorEnv) (input : RecordPublicRevisionInput) (invalidate : Bool)
      (s after : Office) (snapshot : PublicOfficeSnapshot)
      → record_public_revision env input invalidate s ≡ ok (snapshot, after)
      → Recorded env input invalidate s snapshot after
  unfolding record_public_revision
  record_public_revision-Recorded env input invalidate s after snapshot e =
      let at = projection_time env.clock input.at s.projection in
      let (room, e₁) = throw_if-eq-ok (not (ltb s.revision max_safe_sequence)) fault _ e in
      let (revision, parsed, e₂) = >>=-eq-ok (parse_positive (s.revision + 1)) _ e₁ in
      let (_, _, e₃) = >>=-eq-ok (env.ensure_schedule at) _ e₂ in
      let (built, build, e₄) =
        >>=-eq-ok (build_public_office_snapshot (env.view at) (s.revision + 1) revision at) _ e₃ in
      written (ground (arith, room)) revision built
        (parse_positive-eq (s.revision + 1) revision parsed) build e₄
    where
      written :
          s.revision < max_safe_sequence
          → (revision : ℕ) (built : PublicOfficeSnapshot) → revision ≡ s.revision + 1
          → build_public_office_snapshot
              (env.view (projection_time env.clock input.at s.projection))
              (s.revision + 1)
              revision
              (projection_time env.clock input.at s.projection)
            ≡ ok built
          → write_revision env input invalidate revision
              (projection_time env.clock input.at s.projection)
              built
              s
            ≡ ok (snapshot, after)
          → Recorded env input invalidate s snapshot after
      written room revision built same build e =
          let at = projection_time env.clock input.at s.projection in
          let (shown, result) =
            write_revision-eq env input invalidate revision at built snapshot s after e in
          record {
            room = room;
            numbered =
                ap (λ p. p.office_revision) (sym shown)
                ∙ build-office_revision (env.view at) (s.revision + 1) revision at built build
                ∙ same;
            result =
                sym result
                ∙ ap (λ r. recorded env input invalidate r at built s) same
                ∙ ap (λ p. recorded env input invalidate (s.revision + 1) at p s) shown;
          }

  notified-IsReplayable :
      (s : Office) (sent : List ℕ)
      → IsReplayable payload_revision s
      → IsReplayable payload_revision (record s { notified = sent })
  notified-IsReplayable s sent w = record {
    log = w.log;
    bounded = w.bounded;
    low = w.low;
    safe = w.safe;
    current = still_current s.projection w.current;
    published = w.published;
  }
    where
      still_current : (c : _) → IsCurrent s c → IsCurrent (record s { notified = sent }) c
      still_current none i = tt
      still_current (some c) i = i

  invalidate-IsReplayable :
      (invalidate : Bool) (before : ℕ) (s : Office)
      → IsReplayable payload_revision s
      → s.minimum_replay_revision ≤ before
      → s.revision ≡ before + 1
      → IsReplayable payload_revision (invalidate_replay_history invalidate (before + 1) s)
  unfolding invalidate_replay_history
  invalidate-IsReplayable false before s w h same = w
  invalidate-IsReplayable true before s w h same =
      cut-IsReplayable (before + 1 - 1) (λ r. ltb r (before + 1)) s w (omega (arith, h))
        (omega (arith, same)) (λ r. ground arith)

  -- The bytes of a snapshot state its revision.
  abbrev pub StatesRevision : (PublicOfficeSnapshot → Text) → Type 0
  StatesRevision canonical_bytes =
      (snapshot : PublicOfficeSnapshot)
      → payload_revision (canonical_bytes snapshot) ≡ some snapshot.office_revision

  pub record_public_revision-IsReplayable :
      (env : ProjectorEnv) (input : RecordPublicRevisionInput) (invalidate : Bool)
      (s after : Office) (snapshot : PublicOfficeSnapshot)
      → StatesRevision env.canonical_bytes
      → IsReplayable payload_revision s
      → record_public_revision env input invalidate s ≡ ok (snapshot, after)
      → IsReplayable payload_revision after
  unfolding with_revision
  record_public_revision-IsReplayable env input invalidate s after snapshot f w e =
      let r = record_public_revision-Recorded env input invalidate s after snapshot e in
      let at = projection_time env.clock input.at s.projection in
      subst (IsReplayable payload_revision) (sym r.result) (
        notified-IsReplayable _ ((s.revision + 1) ∷ s.notified) (
          invalidate-IsReplayable invalidate s.revision
            (with_revision input (s.revision + 1) at snapshot (env.canonical_bytes snapshot) s)
            (with_revision-IsReplayable input at snapshot (env.canonical_bytes snapshot) s w r.room
              (f snapshot ∙ ap some r.numbered))
            w.low refl))
