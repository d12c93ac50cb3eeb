-- ===== src/Office/Reader.antt =====
-- apps/control-plane/src/modules/public-office/application/public-office-reader.ts: the snapshot and
-- the replay pages that the holder of a token may read, and manage-public-view-token.ts, which
-- replaces and revokes tokens. The rows are those of the token's office.
pub mod Page
pub mod Privacy
pub mod Tokens
use workbuddy_buddy.Prelude.{
  limit_rows, ℕ, ◌+◌, ◌-◌, ◌*◌, Bool, true, false, not, ◌&&◌, ◌||◌, Option, none, some, List, [],
  ◌∷◌, map, leb, ltb, ◌==◌, if◌then◌else◌, any, length, keep, sort, update_where, max, min,
}
use workbuddy_buddy.Edge.Problem.{Result, ok, throws, fault, ◌>>=◌, ◌>>◌, throw_if}
use workbuddy_buddy.Edge.Types.{Text, text_eq}
use workbuddy_buddy.Edge.Store.{is_none}
use workbuddy_buddy.Office.Intervals.{is_safe_integer}
use workbuddy_buddy.Office.Snapshot.{PublicOfficeSnapshot}
use workbuddy_buddy.Office.Revisions.{
  Office, TokenRow, RevisionEvent, CurrentProjection, parse_revision,
}

pub record PublicCapability : Type 0 where
  pub raw_digest : Text
  pub format_valid : Bool

-- A character of TOKEN_PATTERN.
abbrev is_token_character : ℕ → Bool
is_token_character c =
    leb b'A' c && leb c b'Z'
    || leb b'a' c && leb c b'z'
    || leb b'0' c && leb c b'9'
    || c == b'_'
    || c == b'-'

-- PublicOfficeReader.capabilityFor, with the hash function.
unfoldable pub capability_for : (Text → Text) → Text → PublicCapability
capability_for sha256 raw_token = record {
  raw_digest = sha256 raw_token;
  format_valid =
      leb 32 (length raw_token)
      && leb (length raw_token) 256
      && not (any (λ c. not (is_token_character c)) raw_token);
}

abbrev pub runs_after : ℕ → Option ℕ → Bool
runs_after clock none = true
runs_after clock (some expires_at) = ltb clock expires_at

-- The condition of the SELECT statements on a token.
abbrev pub is_usable_token : PublicCapability → ℕ → TokenRow → Bool
is_usable_token capability clock token =
    text_eq token.token_hash capability.raw_digest
    && capability.format_valid
    && is_none token.revoked_at
    && runs_after clock token.expires_at

-- The join of a token with its office, at a reading of the clock.
abbrev pub grants : PublicCapability → ℕ → Office → Bool
grants capability clock s =
    not s.deletion_requested && any (is_usable_token capability clock) s.tokens

-- The join with the projection of the office's revision.
abbrev pub projection_of : ℕ → Option CurrentProjection → Option CurrentProjection
projection_of revision none = none
projection_of revision (some p) = if p.revision == revision then some p else none

pub record PublicSnapshotRecord : Type 0 where
  pub revision : ℕ
  pub minimum_replay_revision : ℕ
  pub snapshot : PublicOfficeSnapshot
  pub canonical_payload : Text

-- PublicOfficeReader.getSnapshot
unfoldable pub get_snapshot : PublicCapability → ℕ → Office → Result (Option PublicSnapshotRecord)
get_snapshot capability clock s =
    if grants capability clock s
    then (elim (projection_of s.revision s.projection) [
      | none ↦ ok none
      | some p ↦ do
        revision ← parse_revision s.revision
        minimum ← parse_revision s.minimum_replay_revision
        ok (
            some (record {
              revision = revision;
              minimum_replay_revision = minimum;
              snapshot = p.snapshot_payload;
              canonical_payload = p.canonical_payload;
            }))
    ])
    else ok none

pub record PublicReplayEvent : Type 0 where
  pub revision : ℕ
  pub canonical_payload : Text

pub data PublicStreamPage : Type 0 where
  not_found : PublicStreamPage
  revision_gap : (current minimum : ℕ) → PublicStreamPage
  page : (current minimum : ℕ) → List PublicReplayEvent → PublicStreamPage

abbrev pub replay_page_max_bytes : ℕ
replay_page_max_bytes = 1048576

abbrev pub octet_length : Option Text → ℕ
octet_length none = 0
octet_length (some payload) = length payload

-- The rows that the window functions let through, after rows of `total` bytes: `ordinal` is one only
-- of the first row.
unfoldable pub within_bytes : Bool → ℕ → List RevisionEvent → List RevisionEvent
within_bytes first total [] = []
within_bytes first total (e ∷ es) =
    let cumulative = total + octet_length e.canonical_payload in
    let rest = within_bytes false cumulative es in
    if first || leb cumulative replay_page_max_bytes then e ∷ rest else rest

-- The statement on office_revision_events.
unfoldable pub replay_page : ℕ → ℕ → List RevisionEvent → List RevisionEvent
replay_page cursor limit events = within_bytes true 0 (
    limit_rows limit (
      sort (λ a b. leb a.revision b.revision)
        (keep (λ e. ltb cursor e.revision && e.projection_format_version == 1) events)))

-- `if (row.canonical_payload === null) throw …`
abbrev pub require_payload : Option Text → Result Text
require_payload none = throws fault
require_payload (some payload) = ok payload

-- `eventResult.rows.map(…)`
unfoldable pub replay_events : List RevisionEvent → Result (List PublicReplayEvent)
replay_events [] = ok []
replay_events (e ∷ es) = do
  payload ← require_payload e.canonical_payload
  revision ← parse_revision e.revision
  rest ← replay_events es
  ok (record { revision = revision; canonical_payload = payload } ∷ rest)

-- The page of an office whose head has been read.
unfoldable pub stream_page : ℕ → ℕ → Office → Result PublicStreamPage
stream_page cursor limit s = do
  current ← parse_revision s.revision
  minimum ← parse_revision s.minimum_replay_revision
  if ltb cursor minimum then ok (revision_gap current minimum) else (do
    events ← replay_events (replay_page cursor limit s.events)
    ok (page current minimum events))

-- PublicOfficeReader.acquireLockedStreamPage. `clock` and `head_clock` are the times at which its two
-- SELECT statements on the token run.
unfoldable pub acquire_locked_stream_page :
    PublicCapability → ℕ → ℕ → ℕ → ℕ → Office → Result PublicStreamPage
unfolding is_safe_integer
acquire_locked_stream_page capability clock head_clock cursor limit s = do
  throw_if (not (is_safe_integer cursor)) fault
  throw_if (limit == 0 || ltb 1000 limit) fault
  if not (grants capability clock s)
        || not (grants capability head_clock s)
        || is_none (projection_of s.revision s.projection)
      then ok not_found
      else stream_page cursor limit s

-- The UPDATE that revokes the tokens of the office.
unfoldable pub revoke_tokens : ℕ → List TokenRow → List TokenRow
revoke_tokens changed_at =
    update_where (λ t. is_none t.revoked_at)
      (λ t. record t { revoked_at = some (max t.created_at changed_at) })

-- assertTokenDates, of dates that are numbers.
unfoldable pub assert_token_dates : ℕ → Option ℕ → Result (Unit {0})
assert_token_dates changed_at none = ok tt
assert_token_dates changed_at (some expires_at) = throw_if (leb expires_at changed_at) fault

-- rotatePublicViewToken, with the hash of the new random token. It returns whether there is a token.
unfoldable pub rotate_public_view_token : Text → ℕ → Option ℕ → Office → Result (Bool × Office)
rotate_public_view_token token_hash changed_at expires_at s = do
  assert_token_dates changed_at expires_at
  if s.deletion_requested then ok (false, s) else (do
    throw_if (any (λ t. text_eq t.token_hash token_hash) s.tokens) fault
    ok (
      true,
      record s {
        tokens =
            record {
              token_hash = token_hash;
              created_at = changed_at;
              expires_at = expires_at;
              revoked_at = none;
            }
            ∷ revoke_tokens changed_at s.tokens;
        notified = s.revision ∷ s.notified;
      },
    ))

-- revokePublicViewToken
unfoldable pub revoke_public_view_token : ℕ → Office → Result (Bool × Office)
revoke_public_view_token changed_at s =
    if s.deletion_requested
    then ok (false, s)
    else if any (λ t. is_none t.revoked_at) s.tokens
    then ok (
      true,
      record s { tokens = revoke_tokens changed_at s.tokens; notified = s.revision ∷ s.notified },
    )
    else ok (false, s)
