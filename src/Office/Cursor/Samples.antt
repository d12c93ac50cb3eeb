-- ===== src/Office/Cursor/Samples.antt =====
-- Cursors that are read, and one that is not.
use workbuddy_buddy.Prelude.{◌≡◌, ◌≤◌, ◌↔◌, refl, some, [], ◌∷◌, arith}
use workbuddy_buddy.Edge.Problem.{ok, throws, fault}
use workbuddy_buddy.Edge.Types.{Text, max_safe_sequence}
use workbuddy_buddy.Office.Cursor.{
  undefined, text, is_canonical, parse_public_revision_cursor, event_id, write_digits,
  stream_cursor,
}
use workbuddy_buddy.Office.Cursor.RoundTrip.{
  parse_public_revision_cursor_iff, stream_cursor-resumes,
}

abbrev forty_two : Text
forty_two = b'4' ∷ b'2' ∷ []

writes : event_id 42 ≡ forty_two
unfolding event_id write_digits
writes = refl

leading_zero : parse_public_revision_cursor (text (b'0' ∷ b'7' ∷ [])) ≡ throws fault
unfolding parse_public_revision_cursor is_canonical
leading_zero = refl

parse_public_revision_cursor_iff_example :
    (parse_public_revision_cursor (text forty_two) ≡ ok (some 42))
    ↔ ((forty_two ≡ event_id 42) × (42 ≤ max_safe_sequence))
parse_public_revision_cursor_iff_example = parse_public_revision_cursor_iff forty_two 42

stream_cursor-resumes_example :
    (stream_cursor (text (event_id 42)) undefined ≡ ok 42)
    × (stream_cursor (text (event_id 42)) (text (event_id 42)) ≡ ok 42)
    × (stream_cursor undefined (text (event_id 42)) ≡ ok 42)
stream_cursor-resumes_example = stream_cursor-resumes 42 (omega arith)
