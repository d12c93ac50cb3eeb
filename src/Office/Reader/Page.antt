-- ===== src/Office/Reader/Page.antt =====
-- A page of the replay: the next revisions after the cursor, without a gap.
use workbuddy_buddy.Prelude.{
  suc, zero, limit_rows, ℕ, ◌+◌, ◌≤◌, ◌<◌, ◌≡◌, refl, sym, true, false, Option, some, List, [], ◌∷◌,
  arith, leb, ltb, ◌==◌, keep, All, Bool-cases, inl, inr, min, keep-both, keep-keep, keep-All,
}
use workbuddy_buddy.Edge.Problem.{ok}
use workbuddy_buddy.Edge.Types.{Text, max_safe_sequence}
use workbuddy_buddy.Edge.Store.{is_none}
use workbuddy_buddy.Office.Intervals.{is_safe_integer}
use workbuddy_buddy.Office.Revisions.{Office, RevisionEvent}
use workbuddy_buddy.Office.Revisions.Log.{Log, Log-keep, Log-sort, is_newer}
use workbuddy_buddy.Office.Revisions.Invariant.{IsReplayable}
use workbuddy_buddy.Office.Revisions.Retain.{parse_revision-ok}
use workbuddy_buddy.Office.Reader.{
  PublicCapability, PublicReplayEvent, page, within_bytes, replay_page, replay_events, stream_page,
  acquire_locked_stream_page, grants, projection_of, octet_length, replay_page_max_bytes,
}

within_bytes-over :
    (total : ℕ) (es : List RevisionEvent)
    → replay_page_max_bytes < total
    → within_bytes false total es ≡ []
unfolding within_bytes
within_bytes-over total [] h = refl
within_bytes-over total (e ∷ es) h =
    let over : leb (total + octet_length e.canonical_payload) replay_page_max_bytes ≡ false =
      ground (arith, h) in
    rw over (within_bytes-over (total + octet_length e.canonical_payload) es (omega (arith, h)))

module _ (payload_revision : Text → Option ℕ) where
  -- After `from` come the revisions up to `to`, each with a payload that states it.
  abbrev pub Served : ℕ → List PublicReplayEvent → ℕ → Type 0
  Served from [] to = from ≡ to
  Served from (e ∷ es) to =
      (e.revision ≡ from + 1)
      × (payload_revision e.canonical_payload ≡ some e.revision)
      × Served (from + 1) es to

  Log-replayed :
      (from to : ℕ) (es : List RevisionEvent)
      → Log payload_revision from es to
      → All (λ e. (e.projection_format_version == 1) ≡ true) es
  Log-replayed from to [] h = tt
  Log-replayed from to (e ∷ es) h = (ground (arith, h.1.0), Log-replayed (from + 1) to es h.2)

  Log-le : (from to : ℕ) (es : List RevisionEvent) → Log payload_revision from es to → from ≤ to
  Log-le from to [] h = omega (arith, h)
  Log-le from to (e ∷ es) h = omega (arith, Log-le (from + 1) to es h.2)

  Log-limit_rows :
      (n from to : ℕ) (es : List RevisionEvent)
      → Log payload_revision from es to
      → Log payload_revision from (limit_rows n es) (min (from + n) to)
  Log-limit_rows zero from to es h = omega (arith, Log-le from to es h)
  Log-limit_rows (suc n) from to [] h = omega (arith, h)
  Log-limit_rows (suc n) from to (e ∷ es) h =
      let same : min (from + 1 + n) to ≡ min (from + suc n) to = omega arith in
      rw (sym same) (h.0, h.1, Log-limit_rows n (from + 1) to es h.2)

  -- A log that goes on to `to`, or stops before.
  abbrev Within : ℕ → List RevisionEvent → ℕ → Type 0
  Within from es to = (upto : ℕ) × Log payload_revision from es upto × (upto ≤ to)

  within_bytes-Within :
      (total from to : ℕ) (es : List RevisionEvent)
      → Log payload_revision from es to
      → Within from (within_bytes false total es) to
  unfolding within_bytes
  within_bytes-Within total from to [] h = (to, h, omega arith)
  within_bytes-Within total from to (e ∷ es) h =
      let sum = total + octet_length e.canonical_payload in
      elim (Bool-cases (leb sum replay_page_max_bytes)) [
        | inl fits ↦
            let (upto, log, le) = within_bytes-Within sum (from + 1) to es h.2 in
            rw fits (upto, (h.0, h.1, log), le)
        | inr over ↦
            rw (over, within_bytes-over sum es (ground (arith, over)))
              (from, refl, Log-le from to (e ∷ es) h)
      ]

  first_within-Within :
      (from to : ℕ) (es : List RevisionEvent)
      → Log payload_revision from es to
      → (upto : ℕ) × Log payload_revision from (within_bytes true 0 es) upto
        × (upto ≤ to)
        × (from < to → from < upto)
  unfolding within_bytes
  first_within-Within from to [] h = (to, h, omega arith, λ l. l)
  first_within-Within from to (e ∷ es) h =
      let (upto, log, le) =
        within_bytes-Within (0 + octet_length e.canonical_payload) (from + 1) to es h.2 in
      (upto, (h.0, h.1, log), le, λ l. omega (arith, Log-le (from + 1) upto _ log))

  -- The rows after a cursor are a log.
  rows-Log :
      (cursor : ℕ) (s : Office)
      → IsReplayable payload_revision s
      → s.minimum_replay_revision ≤ cursor
      → cursor ≤ s.revision
      → Log payload_revision cursor (keep (is_newer cursor) s.events) s.revision
  rows-Log cursor s w h k =
      rw
        (sym (
          keep-keep (is_newer s.minimum_replay_revision) (is_newer cursor) s.events
            (λ e n. ground (arith, n, h))))
        (Log-keep payload_revision s.minimum_replay_revision s.revision cursor _ w.log h k)

  replay_page-Within :
      (cursor limit : ℕ) (s : Office)
      → IsReplayable payload_revision s
      → s.minimum_replay_revision ≤ cursor
      → cursor ≤ s.revision
      → 0 < limit
      → (upto : ℕ) × Log payload_revision cursor (replay_page cursor limit s.events) upto
        × (upto ≤ s.revision)
        × (upto ≤ cursor + limit)
        × (cursor < s.revision → cursor < upto)
  unfolding replay_page
  replay_page-Within cursor limit s w h k l =
      let rows = rows-Log cursor s w h k in
      let taken = Log-limit_rows limit cursor s.revision (keep (is_newer cursor) s.events) rows in
      let (upto, log, le, more) =
        first_within-Within cursor (min (cursor + limit) s.revision) _ taken in
      (
        upto,
        rw
            (
              keep-both (is_newer cursor) (λ e. e.projection_format_version == 1) s.events,
              keep-All (λ e. e.projection_format_version == 1) _
                  (Log-replayed cursor s.revision _ rows),
              Log-sort payload_revision cursor s.revision _ rows,
            )
            log,
        omega (arith, le),
        omega (arith, le),
        λ m. more (omega (arith, m, l)),
      )

  replay_events-Served :
      (from to : ℕ) (es : List RevisionEvent)
      → Log payload_revision from es to
      → to ≤ max_safe_sequence
      → (events : List PublicReplayEvent) × (replay_events es ≡ ok events) × Served from events to
  unfolding replay_events
  replay_events-Served from to [] h k = ([], refl, h)
  replay_events-Served from to (e ∷ es) h k =
      let (payload, (shown, stated)) = h.1.1 in
      let parsed =
        parse_revision-ok e.revision (omega (arith, h.0, k, Log-le (from + 1) to es h.2)) in
      let (events, rest, served) = replay_events-Served (from + 1) to es h.2 k in
      (
        record { revision = e.revision; canonical_payload = payload } ∷ events,
        rw (shown, parsed, rest) refl,
        (h.0, stated, served),
      )

  -- When the rows are replayable, the token can be used at both readings of the clock, and there is a
  -- projection of the office's revision, a page for a cursor from the minimum to the office's
  -- revision holds the revisions that follow the cursor, one event for each, without a gap, up to
  -- the limit at most; below the office's revision there is at least one, however long it is.
  pub acquire_locked_stream_page-serves :
      (capability : PublicCapability) (clock head_clock cursor limit : ℕ) (s : Office)
      → IsReplayable payload_revision s
      → s.minimum_replay_revision ≤ cursor
      → cursor ≤ s.revision
      → 0 < limit
      → limit ≤ 1000
      → grants capability clock s ≡ true
      → grants capability head_clock s ≡ true
      → is_none (projection_of s.revision s.projection) ≡ false
      → (upto : ℕ) × (events : List PublicReplayEvent) × (acquire_locked_stream_page capability
            clock head_clock cursor limit s
          ≡ ok (page s.revision s.minimum_replay_revision events))
        × Served cursor events upto
        × (upto ≤ s.revision)
        × (upto ≤ cursor + limit)
        × (cursor < s.revision → cursor < upto)
  unfolding acquire_locked_stream_page stream_page is_safe_integer
  acquire_locked_stream_page-serves capability clock head_clock cursor limit s w h k l m g g' p =
      let (upto, log, le, within, more) = replay_page-Within cursor limit s w h k l in
      let (events, replayed, served) =
        replay_events-Served cursor upto _ log (omega (arith, le, w.safe)) in
      let safe : leb cursor max_safe_sequence ≡ true = ground (arith, k, w.safe) in
      let lower : (limit == 0) ≡ false = ground (arith, l) in
      let upper : ltb 1000 limit ≡ false = ground (arith, m) in
      let current = parse_revision-ok s.revision w.safe in
      let minimum = parse_revision-ok s.minimum_replay_revision (omega (arith, w.low, w.safe)) in
      let known : ltb cursor s.minimum_replay_revision ≡ false = ground (arith, h) in
      (
        upto,
        events,
        rw (safe, lower, upper, g, g', p, current, minimum, known, replayed) refl,
        served,
        le,
        within,
        more,
      )
