-- ===== src/Office/Cursor.antt =====
-- The cursor of a viewer that connects to the stream: parsePublicRevisionCursor of apps/control-plane/
-- src/modules/public-office/application/public-office-reader.ts, the choice of the cursor in
-- public-office-routes.ts, and the decimal id that an event is sent with. `Number` of a decimal text
-- above the safe range is not a safe integer, as is its true value.
pub mod RoundTrip
mod Samples
use workbuddy_buddy.Prelude.{
  ℕ, zero, suc, ◌+◌, ◌-◌, ◌*◌, ◌/◌, ◌%◌, Bool, true, false, not, ◌&&◌, ◌||◌, Option, none, some,
  List, [], ◌∷◌, leb, ◌==◌, if◌then◌else◌,
}
use workbuddy_buddy.Edge.Problem.{Result, ok, throws, fault, ◌>>=◌, ◌>>◌}
use workbuddy_buddy.Edge.Types.{Text}
use workbuddy_buddy.Office.Intervals.{is_safe_integer}

-- A value of a header or a query parameter.
pub data CursorValue : Type 0 where
  undefined : CursorValue
  text : Text → CursorValue
  other : CursorValue

abbrev pub is_digit : ℕ → Bool
is_digit c = leb b'0' c && leb c b'9'

abbrev pub all_digits : Text → Bool
all_digits [] = true
all_digits (c ∷ s) = is_digit c && all_digits s

-- /^(0|[1-9][0-9]*)$/
unfoldable pub is_canonical : Text → Bool
is_canonical [] = false
is_canonical (c ∷ []) = is_digit c
is_canonical (c ∷ d ∷ s) = leb b'1' c && leb c b'9' && (is_digit d && all_digits s)

-- The number that digits spell behind `n`.
unfoldable pub value_from : ℕ → Text → ℕ
value_from n [] = n
value_from n (c ∷ s) = value_from (n * 10 + (c - b'0')) s

-- assertRevision of a natural number.
unfoldable pub assert_revision : ℕ → Result (Unit {0})
assert_revision value = if is_safe_integer value then ok tt else throws fault

-- parsePublicRevisionCursor
unfoldable pub parse_public_revision_cursor : CursorValue → Result (Option ℕ)
parse_public_revision_cursor undefined = ok none
parse_public_revision_cursor other = throws fault
parse_public_revision_cursor (text value) =
    if is_canonical value
    then (do assert_revision (value_from 0 value); ok (some (value_from 0 value)))
    else throws fault

-- The digits of a positive number, before what is written already. One round writes one digit.
unfoldable pub write_digits : ℕ → ℕ → Text → Text
write_digits zero n out = out
write_digits (suc rounds) n out =
    let rest = write_digits rounds (n / 10) ((b'0' + n % 10) ∷ out) in if n == 0 then out else rest

-- `${event.revision}`: a safe integer has at most 16 digits.
unfoldable pub event_id : ℕ → Text
event_id n = if n == 0 then b'0' ∷ [] else write_digits 16 n []

-- The header goes before the parameter, and both must agree; an error is answered with
-- invalid_request.
unfoldable pub choose_cursor : Option ℕ → Option ℕ → Result ℕ
choose_cursor none none = ok 0
choose_cursor none (some query) = ok query
choose_cursor (some header) none = ok header
choose_cursor (some header) (some query) = if not (header == query) then throws fault else ok header

unfoldable pub stream_cursor : CursorValue → CursorValue → Result ℕ
stream_cursor last_event_id after_revision = do
  header ← parse_public_revision_cursor last_event_id
  query ← parse_public_revision_cursor after_revision
  choose_cursor header query
