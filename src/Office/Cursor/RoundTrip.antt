-- ===== src/Office/Cursor/RoundTrip.antt =====
-- The id of an event is the one text that is read back as its revision.
use mathlib.Core.Path.{subst}
use workbuddy_buddy.Prelude.{
  ℕ, zero, suc, ◌+◌, ◌-◌, ◌*◌, ◌/◌, ◌%◌, ◌≤◌, ◌<◌, ◌≡◌, ◌↔◌, ◌⊎◌, refl, sym, ap, ◌∙◌, inl, inr,
  true, false, none, some, [], ◌∷◌, leb, ◌==◌, Bool-cases, if-cases, length, leb→le, arith,
}
use workbuddy_buddy.Edge.Problem.{ok}
use workbuddy_buddy.Edge.Types.{Text, max_safe_sequence}
use workbuddy_buddy.Office.Intervals.{is_safe_integer}
use workbuddy_buddy.Office.Cursor.{
  undefined, text, is_digit, all_digits, is_canonical, value_from, assert_revision,
  parse_public_revision_cursor, write_digits, event_id, choose_cursor, stream_cursor,
}

power : ℕ → ℕ
power zero = 1
power (suc k) = 10 * power k

write_zero : (k : ℕ) (out : Text) → write_digits k 0 out ≡ out
unfolding write_digits
write_zero zero out = refl
write_zero (suc k) out = refl

-- One round of a positive number.
write_step :
    (k n : ℕ) (out : Text)
    → 0 < n
    → write_digits (suc k) n out ≡ write_digits k (n / 10) ((b'0' + n % 10) ∷ out)
unfolding write_digits
write_step k n out l = let positive : (n == 0) ≡ false = ground (arith, l) in rw positive refl

-- Reading the last digit after the others.
last_digit : (n : ℕ) (out : Text) → value_from (n / 10) ((b'0' + n % 10) ∷ out) ≡ value_from n out
unfolding value_from
last_digit n out =
    let value : n / 10 * 10 + (b'0' + n % 10 - b'0') ≡ n = omega arith in
    ap (λ m. value_from m out) value

value_from-write_digits :
    (k n : ℕ) (out : Text) → n < power k → value_from 0 (write_digits k n out) ≡ value_from n out
unfolding power
value_from-write_digits zero n out l =
    let none_left : n ≡ 0 = omega (arith, l) in rw none_left (unfold write_digits in refl)
value_from-write_digits (suc k) n out l = elim (Bool-cases (n == 0)) [
  | inl e ↦ let nothing : n ≡ 0 = ground (arith, e) in rw (nothing, write_zero (suc k) out) refl
  | inr e ↦ rw (write_step k n out (ground (arith, e))) (
      value_from-write_digits k (n / 10) ((b'0' + n % 10) ∷ out) (omega (arith, l))
      ∙ last_digit n out)
]

-- The digits of a positive number begin with one that is not zero.
abbrev IsNumeral : Text → Type 0
IsNumeral [] = ⊥
IsNumeral (c ∷ s) = ((b'1' ≤ c) × (c ≤ b'9')) × (all_digits s ≡ true)

write_digits-IsNumeral :
    (k n : ℕ) (out : Text)
    → 0 < n
    → n < power k
    → all_digits out ≡ true
    → IsNumeral (write_digits k n out)
unfolding power
write_digits-IsNumeral zero n out l h d = absurd (omega (arith, l, h))
write_digits-IsNumeral (suc k) n out l h d =
    rw (write_step k n out l) (elim (Bool-cases (n / 10 == 0)) [
      | inl e ↦
          let small : n / 10 ≡ 0 = ground (arith, e) in
          rw (small, write_zero k ((b'0' + n % 10) ∷ out))
            ((omega (arith, small, l), omega arith), d)
      | inr e ↦
          write_digits-IsNumeral k (n / 10) ((b'0' + n % 10) ∷ out) (ground (arith, e))
            (omega (arith, h)) (ground (arith, d))
    ])

numeral-canonical : (s : Text) → IsNumeral s → is_canonical s ≡ true
unfolding is_canonical
numeral-canonical [] h = absurd h
numeral-canonical (c ∷ []) h = ground (arith, h.0)
numeral-canonical (c ∷ d ∷ s) h = ground (arith, h.0, h.1)

-- Rounds beyond the last digit write nothing.
write_rounds :
    (k j n : ℕ) (out : Text)
    → n < power k
    → n < power j
    → write_digits k n out ≡ write_digits j n out
unfolding power
write_rounds zero j n out l h =
    let nothing : n ≡ 0 = omega (arith, l) in
    rw (nothing, write_zero zero out, write_zero j out) refl
write_rounds (suc k) zero n out l h =
    let nothing : n ≡ 0 = omega (arith, h) in
    rw (nothing, write_zero (suc k) out, write_zero zero out) refl
write_rounds (suc k) (suc j) n out l h = elim (Bool-cases (n == 0)) [
  | inl e ↦
      let nothing : n ≡ 0 = ground (arith, e) in
      rw (nothing, write_zero (suc k) out, write_zero (suc j) out) refl
  | inr e ↦
      rw (write_step k n out (ground (arith, e)), write_step j n out (ground (arith, e)))
        (write_rounds k j (n / 10) ((b'0' + n % 10) ∷ out) (omega (arith, l)) (omega (arith, h)))
]

-- Digits behind a positive number are written back.
rewritten :
    (j m : ℕ) (s : Text)
    → 0 < m
    → m < power j
    → all_digits s ≡ true
    → (value_from m s < power (length s + j))
      × (write_digits (length s + j) (value_from m s) [] ≡ write_digits j m s)
unfolding value_from
rewritten j m [] l h d = (rw (zero_plus j) h, rw (zero_plus j) refl)
  where
    zero_plus : (j : ℕ) → 0 + j ≡ j
    zero_plus j = omega arith
rewritten j m (c ∷ s) l h d =
    let m' = m * 10 + (c - b'0') in
    let digit : (b'0' ≤ c) × (c ≤ b'9') = ground (arith, d) in
    let (fits, same) =
      rewritten (suc j) m' s (omega (arith, l)) (unfold power in omega (arith, h, digit))
        (ground (arith, d)) in
    let rounds : suc (length s) + j ≡ length s + suc j = omega arith in
    let front : m' / 10 ≡ m = omega (arith, digit) in
    let back : b'0' + m' % 10 ≡ c = omega (arith, digit) in
    rw rounds (fits, same ∙ write_step j m' s (omega (arith, l)) ∙ rw (front, back) refl)

safe-power : (n : ℕ) → n ≤ max_safe_sequence → n < power 16
unfolding power
safe-power n l = omega (arith, l)

value_from-le : (m : ℕ) (s : Text) → m ≤ value_from m s
unfolding value_from
value_from-le m [] = omega arith
value_from-le m (c ∷ s) = omega (arith, value_from-le (m * 10 + (c - b'0')) s)

numeral-id :
    (c : ℕ) (s : Text)
    → b'1' ≤ c
    → c ≤ b'9'
    → all_digits s ≡ true
    → value_from 0 (c ∷ s) ≤ max_safe_sequence
    → event_id (value_from 0 (c ∷ s)) ≡ c ∷ s
unfolding value_from event_id
numeral-id c s low high d safe =
    let m = 0 * 10 + (c - b'0') in
    let n = value_from m s in
    let (fits, same) =
      rewritten 1 m s (omega (arith, low)) (unfold power in omega (arith, high)) d in
    let positive : (n == 0) ≡ false = ground (arith, value_from-le m s, low) in
    let front : b'0' + m % 10 ≡ c = omega (arith, low, high) in
    let over : m / 10 ≡ 0 = omega (arith, low, high) in
    rw positive (
      write_rounds 16 (length s + 1) n [] (safe-power n safe) fits
      ∙ same
      ∙ write_step 0 m s (omega (arith, low))
      ∙ rw (over, front, write_zero 0 (c ∷ s)) refl)

canonical_digit : (c : ℕ) → is_digit c ≡ true → (c ≡ b'0') ⊎ ((b'1' ≤ c) × (c ≤ b'9'))
canonical_digit c e = ground (arith, e)

-- A canonical text is the id of the number that it spells.
canonical-id :
    (s : Text)
    → is_canonical s ≡ true
    → value_from 0 s ≤ max_safe_sequence
    → event_id (value_from 0 s) ≡ s
unfolding is_canonical
canonical-id [] e l = cc e
canonical-id (c ∷ []) e l = elim (canonical_digit c e) [
  | inl digit_zero ↦ rw digit_zero (unfold value_from event_id in refl)
  | inr (low, high) ↦ numeral-id c [] low high refl l
]
canonical-id (c ∷ d ∷ s) e l =
    numeral-id c (d ∷ s) (ground (arith, e)) (ground (arith, e)) (ground (arith, e)) l

-- The id of a number is canonical, and spells it.
id-canonical :
    (n : ℕ)
    → n ≤ max_safe_sequence
    → (is_canonical (event_id n) ≡ true) × (value_from 0 (event_id n) ≡ n)
unfolding event_id
id-canonical n l = elim (Bool-cases (n == 0)) [
  | inl e ↦
      let nothing : n ≡ 0 = ground (arith, e) in
      rw nothing (unfold is_canonical value_from in (refl, refl))
  | inr e ↦
      let positive : 0 < n = ground (arith, e) in
      let bound = safe-power n l in
      rw e (
        numeral-canonical (write_digits 16 n [])
            (write_digits-IsNumeral 16 n [] positive bound refl),
        value_from-write_digits 16 n [] bound ∙ unfold value_from in refl,
      )
]

-- A text is read as a revision exactly if it is the id of that revision, and the revision is in the
-- safe range.
pub parse_public_revision_cursor_iff :
    (s : Text) (n : ℕ)
    → (parse_public_revision_cursor (text s) ≡ ok (some n))
      ↔ ((s ≡ event_id n) × (n ≤ max_safe_sequence))
unfolding parse_public_revision_cursor assert_revision is_safe_integer
parse_public_revision_cursor_iff s n = (λ e. read e, λ h. written h)
  where
    read :
        parse_public_revision_cursor (text s) ≡ ok (some n)
        → (s ≡ event_id n) × (n ≤ max_safe_sequence)
    read e = elim (if-cases (is_canonical s) _ _ e) [
      | inr (_, gone) ↦ cc gone
      | inl (canonical, e) ↦ elim (Bool-cases (leb (value_from 0 s) max_safe_sequence)) [
        | inr over ↦ cc (rw over at e)
        | inl safe ↦
            let fits = leb→le (value_from 0 s) max_safe_sequence safe in
            let same : value_from 0 s ≡ n = cc (rw safe at e) in
            (
              sym (canonical-id s canonical fits) ∙ ap event_id same,
              subst (λ m. m ≤ max_safe_sequence) same fits,
            )
      ]
    ]

    written :
        (s ≡ event_id n) × (n ≤ max_safe_sequence)
        → parse_public_revision_cursor (text s) ≡ ok (some n)
    written (same, fits) =
        let (canonical, value) = id-canonical n fits in
        let safe : leb n max_safe_sequence ≡ true = ground (arith, fits) in
        rw (same, canonical, value, safe) refl

-- A viewer that comes back with the id of an event goes on from its revision, with or without the same
-- revision as a parameter.
pub stream_cursor-resumes :
    (n : ℕ)
    → n ≤ max_safe_sequence
    → (stream_cursor (text (event_id n)) undefined ≡ ok n)
      × (stream_cursor (text (event_id n)) (text (event_id n)) ≡ ok n)
      × (stream_cursor undefined (text (event_id n)) ≡ ok n)
unfolding stream_cursor choose_cursor
stream_cursor-resumes n l =
    let parsed = (parse_public_revision_cursor_iff (event_id n) n).1 (refl, l) in
    let nothing : parse_public_revision_cursor undefined ≡ ok none =
      unfold parse_public_revision_cursor in refl in
    let agree : (n == n) ≡ true = ground arith in
    (rw (parsed, nothing) refl, rw (parsed, agree) refl, rw (parsed, nothing) refl)
