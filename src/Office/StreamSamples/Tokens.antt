-- ===== src/Office/StreamSamples/Tokens.antt =====
-- A token that is revoked or replaced, and the theorems on tokens at these inputs.
use workbuddy_buddy.Prelude.{◌≡◌, refl, true, none, some, [], ◌∷◌, arith}
use workbuddy_buddy.Edge.Problem.{ok}
use workbuddy_buddy.Edge.Types.{text_eq}
use workbuddy_buddy.Office.Revisions.{Office, with_revision, invalidate_replay_history}
use workbuddy_buddy.Office.Reader.{
  PublicCapability, PublicStreamPage, acquire_locked_stream_page, revoke_public_view_token,
  rotate_public_view_token, revoke_tokens, assert_token_dates, get_snapshot,
}
use workbuddy_buddy.Office.Reader.Tokens.{
  revoke_public_view_token-closes, rotate_public_view_token-replaces,
}
use workbuddy_buddy.Office.StreamSamples.{ticked, viewer}

abbrev revoked : Office
revoked = record ticked {
  tokens =
      record { token_hash = b'h' ∷ []; created_at = 0; expires_at = none; revoked_at = some 2000 }
      ∷ [];
  notified = 2 ∷ 2 ∷ 1 ∷ [];
}

token_revoked : revoke_public_view_token 2000 ticked ≡ ok (true, revoked)
unfolding revoke_public_view_token revoke_tokens with_revision invalidate_replay_history
token_revoked = refl

revoke_public_view_token-closes_example :
    (get_snapshot viewer 3000 revoked ≡ ok none)
    × (acquire_locked_stream_page viewer 3000 3000 0 100 revoked ≡ ok PublicStreamPage.not_found)
revoke_public_view_token-closes_example =
    revoke_public_view_token-closes 2000 ticked revoked true viewer 3000 3000 0 100 token_revoked
      (omega arith) (omega arith) (omega arith)

abbrev replacement : PublicCapability
replacement = record { raw_digest = b'n' ∷ []; format_valid = true }

abbrev rotated : Office
rotated = record revoked {
  tokens =
      record { token_hash = b'n' ∷ []; created_at = 2000; expires_at = none; revoked_at = none }
      ∷ revoked.tokens;
}

token_rotated : rotate_public_view_token (b'n' ∷ []) 2000 none ticked ≡ ok (true, rotated)
unfolding rotate_public_view_token assert_token_dates revoke_tokens with_revision
    invalidate_replay_history text_eq
token_rotated = refl

rotate_public_view_token-replaces_example : replacement.raw_digest ≡ b'n' ∷ []
unfolding with_revision invalidate_replay_history text_eq
rotate_public_view_token-replaces_example =
    rotate_public_view_token-replaces (b'n' ∷ []) 2000 none ticked rotated replacement 3000
      token_rotated refl
