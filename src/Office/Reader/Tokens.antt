-- ===== src/Office/Reader/Tokens.antt =====
-- Tokens that are replaced or revoked open nothing any more.
use workbuddy_buddy.Prelude.{
  ℕ, ◌≤◌, ◌<◌, ◌≡◌, refl, sym, ap, ◌∙◌, Bool, true, false, Option, none, List, [], ◌∷◌, arith, leb,
  ltb, ◌==◌, any, Bool-cases, inl, inr, if-cases,
}
use workbuddy_buddy.Edge.Problem.{ok, throw_if-eq-ok, >>=-eq-ok, fault}
use workbuddy_buddy.Edge.Types.{Text, text_eq, text_eq_iff, max_safe_sequence}
use workbuddy_buddy.Edge.Store.{is_none}
use workbuddy_buddy.Office.Intervals.{is_safe_integer}
use workbuddy_buddy.Office.Revisions.{Office, TokenRow}
use workbuddy_buddy.Office.Reader.{
  PublicCapability, not_found, is_usable_token, grants, get_snapshot, acquire_locked_stream_page,
  revoke_tokens, assert_token_dates, rotate_public_view_token, revoke_public_view_token,
}

revoke_tokens-unusable :
    (capability : PublicCapability) (clock changed_at : ℕ) (ts : List TokenRow)
    → any (is_usable_token capability clock) (revoke_tokens changed_at ts) ≡ false
unfolding revoke_tokens
revoke_tokens-unusable capability clock changed_at [] = refl
revoke_tokens-unusable capability clock changed_at (t ∷ ts) =
    let rest = revoke_tokens-unusable capability clock changed_at ts in
    elim (Bool-cases (is_none t.revoked_at)) [
      | inl active ↦ rw (active, rest) (ground arith)
      | inr revoked ↦ rw (revoked, rest) (ground arith)
    ]

unused-unusable :
    (capability : PublicCapability) (clock : ℕ) (ts : List TokenRow)
    → any (λ t. is_none t.revoked_at) ts ≡ false
    → any (is_usable_token capability clock) ts ≡ false
unused-unusable capability clock [] h = refl
unused-unusable capability clock (t ∷ ts) h =
    let revoked : is_none t.revoked_at ≡ false = ground (arith, h) in
    let others : any (λ u. is_none u.revoked_at) ts ≡ false = ground (arith, h) in
    rw (revoked, unused-unusable capability clock ts others) (ground arith)

revoked-grants :
    (changed_at : ℕ) (s after : Office) (revoked : Bool) (capability : PublicCapability) (clock : ℕ)
    → revoke_public_view_token changed_at s ≡ ok (revoked, after)
    → grants capability clock after ≡ false
unfolding revoke_public_view_token
revoked-grants changed_at s after revoked capability clock e =
    elim (if-cases s.deletion_requested _ _ e) [
      | inl (deleted, e₁) ↦ let same : s ≡ after = ground (arith, e₁) in rw (sym same, deleted) refl
      | inr (_, e₁) ↦ elim (if-cases (any (λ t. is_none t.revoked_at) s.tokens) _ _ e₁) [
        | inl (_, e₂) ↦
            let same : record s {
              tokens = revoke_tokens changed_at s.tokens;
              notified = s.revision ∷ s.notified;
            }
                ≡ after =
              ground (arith, e₂) in
            rw (sym same, revoke_tokens-unusable capability clock changed_at s.tokens)
              (ground arith)
        | inr (none_active, e₂) ↦
            let same : s ≡ after = ground (arith, e₂) in
            rw (sym same, unused-unusable capability clock s.tokens none_active) (ground arith)
      ]
    ]

-- Once the token of an office is revoked, no capability reads its snapshot, and none gets a page of its
-- stream (for a cursor and a limit that are in range), at any time.
pub revoke_public_view_token-closes :
    (changed_at : ℕ) (s after : Office) (revoked : Bool) (capability : PublicCapability)
    (clock head_clock cursor limit : ℕ)
    → revoke_public_view_token changed_at s ≡ ok (revoked, after)
    → cursor ≤ max_safe_sequence
    → 0 < limit
    → limit ≤ 1000
    → (get_snapshot capability clock after ≡ ok none)
      × (acquire_locked_stream_page capability clock head_clock cursor limit after ≡ ok not_found)
unfolding get_snapshot acquire_locked_stream_page is_safe_integer
revoke_public_view_token-closes changed_at s after revoked capability clock head_clock cursor limit
      e c l m =
    let shut = revoked-grants changed_at s after revoked capability clock e in
    let safe : leb cursor max_safe_sequence ≡ true = ground (arith, c) in
    let lower : (limit == 0) ≡ false = ground (arith, l) in
    let upper : ltb 1000 limit ≡ false = ground (arith, m) in
    (rw shut refl, rw (safe, lower, upper, shut) refl)

-- The rows after a rotation.
abbrev rotated_office : Text → ℕ → Option ℕ → Office → Office
rotated_office token_hash changed_at expires_at s = record s {
  tokens =
      record {
        token_hash = token_hash;
        created_at = changed_at;
        expires_at = expires_at;
        revoked_at = none;
      }
      ∷ revoke_tokens changed_at s.tokens;
  notified = s.revision ∷ s.notified;
}

-- Once the token of an office is replaced, a capability that reads anything has the digest of the new
-- token: when `rotatePublicViewToken` answers with a token, every other capability is shut out.
pub rotate_public_view_token-replaces :
    (token_hash : Text) (changed_at : ℕ) (expires_at : Option ℕ) (s after : Office)
    (capability : PublicCapability) (clock : ℕ)
    → rotate_public_view_token token_hash changed_at expires_at s ≡ ok (true, after)
    → grants capability clock after ≡ true
    → capability.raw_digest ≡ token_hash
unfolding rotate_public_view_token
rotate_public_view_token-replaces token_hash changed_at expires_at s after capability clock e g =
    let (_, _, e₁) = >>=-eq-ok (assert_token_dates changed_at expires_at) _ e in
    elim (if-cases s.deletion_requested _ _ e₁) [
      | inl (_, e₂) ↦ ground (arith, e₂)
      | inr (_, e₂) ↦
          let (_, e₃) =
            throw_if-eq-ok (any (λ t. text_eq t.token_hash token_hash) s.tokens) fault _ e₂ in
          let same : after ≡ rotated_office token_hash changed_at expires_at s =
            ground (arith, e₃) in
          granted (ap (grants capability clock) (sym same) ∙ g)
    ]
  where
    granted :
        grants capability clock (rotated_office token_hash changed_at expires_at s) ≡ true
        → capability.raw_digest ≡ token_hash
    granted h = ground (
      arith,
      h,
      revoke_tokens-unusable capability clock changed_at s.tokens,
      text_eq_iff token_hash capability.raw_digest,
    )
