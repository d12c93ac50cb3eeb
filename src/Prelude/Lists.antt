-- ===== src/Prelude/Lists.antt =====
-- Lists measured by native numbers, and the list operations of the source's language.
use Prim.Native.Nat.{ℕ, zero, suc, ◌+◌, ◌≤◌}
use mathlib.Core.Path.{◌≡◌, refl, ap, ◌∙◌}
use mathlib.Core.Logic.{◌⊎◌, inl, inr}
use mathlib.Core.Bool.{Bool, true, false, ◌&&◌, ◌||◌}
use mathlib.Core.Option.{Option, none, some}
use mathlib.Core.List.{List, [], ◌∷◌, ◌++◌}
use native.Mathlib.Omega.{arith}
use workbuddy_buddy.Prelude.Tests.{if◌then◌else◌, Bool-cases}

module _ {ℓ} {A : Type ℓ} where
  abbrev pub length : List A → ℕ
  length [] = 0
  length (x ∷ xs) = suc (length xs)

  -- `xs.some(p)`
  abbrev pub any : (A → Bool) → List A → Bool
  any p [] = false
  any p (x ∷ xs) = p x || any p xs

  -- `xs.filter(p)`, and a DELETE or SELECT by a condition.
  abbrev pub keep : (A → Bool) → List A → List A
  keep p [] = []
  keep p (x ∷ xs) = if p x then x ∷ keep p xs else keep p xs

  -- `xs.find(p)`, and the first row of a SELECT.
  abbrev pub find : (A → Bool) → List A → Option A
  find p [] = none
  find p (x ∷ xs) = if p x then some x else find p xs

  -- An UPDATE of the rows that meet a condition.
  abbrev pub update_where : (A → Bool) → (A → A) → List A → List A
  update_where p f [] = []
  update_where p f (x ∷ xs) = (if p x then f x else x) ∷ update_where p f xs

  -- How many rows meet a condition.
  abbrev pub count_where : (A → Bool) → List A → ℕ
  count_where p [] = 0
  count_where p (x ∷ xs) = if p x then suc (count_where p xs) else count_where p xs

  -- A property of every entry, by recursion.
  abbrev pub All {κ} : (A → Type κ) → List A → Type κ
  All P [] = Unit
  All P (x ∷ xs) = P x × All P xs

  pub All-map {κ ι} :
      (P : A → Type κ) (Q : A → Type ι)
      → ((x : A) → P x → Q x)
      → (xs : List A) → All P xs
      → All Q xs
  All-map P Q f [] h = tt
  All-map P Q f (x ∷ xs) h = (f x h.0, All-map P Q f xs h.1)

  pub All-both {κ ι μ} :
      (P : A → Type κ) (Q : A → Type ι) (R : A → Type μ) (xs : List A)
      → ((x : A) → P x → Q x → R x)
      → All P xs
      → All Q xs
      → All R xs
  All-both P Q R [] f p q = tt
  All-both P Q R (x ∷ xs) f p q = (f x p.0 q.0, All-both P Q R xs f p.1 q.1)

  pub All-append {κ} : (P : A → Type κ) (xs ys : List A) → All P xs → All P ys → All P (xs ++ ys)
  All-append P [] ys h k = k
  All-append P (x ∷ xs) ys h k = (h.0, All-append P xs ys h.1 k)

  pub All-keep {κ} : (P : A → Type κ) (p : A → Bool) (xs : List A) → All P xs → All P (keep p xs)
  All-keep P p [] h = tt
  All-keep P p (x ∷ xs) h = kept (p x) h.0 (All-keep P p xs h.1)
    where
      kept : (b : Bool) → P x → All P (keep p xs) → All P (if b then x ∷ keep p xs else keep p xs)
      kept true k ks = (k, ks)
      kept false k ks = ks

  pub All-update_where {κ} :
      (P : A → Type κ) (p : A → Bool) (f : A → A) (xs : List A)
      → ((x : A) → P x → P (f x))
      → All P xs
      → All P (update_where p f xs)
  All-update_where P p f [] k h = tt
  All-update_where P p f (x ∷ xs) k h =
      (updated (p x) (k x h.0) h.0, All-update_where P p f xs k h.1)
    where
      updated : (b : Bool) → P (f x) → P x → P (if b then f x else x)
      updated true new old = new
      updated false new old = old

  pub length-append : (xs ys : List A) → length (xs ++ ys) ≡ length xs + length ys
  length-append [] ys = omega arith
  length-append (x ∷ xs) ys = omega (arith, length-append xs ys)

  -- `LIMIT` of a SELECT
  abbrev pub limit_rows : ℕ → List A → List A
  limit_rows zero xs = []
  limit_rows (suc n) [] = []
  limit_rows (suc n) (x ∷ xs) = x ∷ limit_rows n xs

  pub All-limit_rows {κ} :
      (P : A → Type κ) (n : ℕ) (xs : List A) → All P xs → All P (limit_rows n xs)
  All-limit_rows P zero xs h = tt
  All-limit_rows P (suc n) [] h = tt
  All-limit_rows P (suc n) (x ∷ xs) h = (h.0, All-limit_rows P n xs h.1)

  -- The rows beyond the limit.
  abbrev pub drop_rows : ℕ → List A → List A
  drop_rows zero xs = xs
  drop_rows (suc n) [] = []
  drop_rows (suc n) (x ∷ xs) = drop_rows n xs

  pub limit_rows-append-drop_rows : (n : ℕ) (xs : List A) → limit_rows n xs ++ drop_rows n xs ≡ xs
  limit_rows-append-drop_rows zero xs = refl
  limit_rows-append-drop_rows (suc n) [] = refl
  limit_rows-append-drop_rows (suc n) (x ∷ xs) = ap (λ r. x ∷ r) (limit_rows-append-drop_rows n xs)

  -- Rows are left out only when the limit is reached.
  pub limit_rows-full :
      (n : ℕ) (xs : List A) → (length (limit_rows n xs) ≡ n) ⊎ (drop_rows n xs ≡ [])
  limit_rows-full zero xs = inl refl
  limit_rows-full (suc n) [] = inr refl
  limit_rows-full (suc n) (x ∷ xs) = elim (limit_rows-full n xs) [
    | inl full ↦ inl (ap suc full)
    | inr done ↦ inr done
  ]

  pub length-limit_rows : (n : ℕ) (xs : List A) → length (limit_rows n xs) ≤ n
  length-limit_rows zero xs = omega arith
  length-limit_rows (suc n) [] = omega arith
  length-limit_rows (suc n) (x ∷ xs) = omega (arith, length-limit_rows n xs)

  -- A relation between any two entries, in the order of the list.
  abbrev pub AllPairs {κ} : (A → A → Type κ) → List A → Type κ
  AllPairs R [] = Unit
  AllPairs R (x ∷ xs) = All (R x) xs × AllPairs R xs

  pub AllPairs-keep {κ} :
      (R : A → A → Type κ) (p : A → Bool) (xs : List A) → AllPairs R xs → AllPairs R (keep p xs)
  AllPairs-keep R p [] h = tt
  AllPairs-keep R p (x ∷ xs) h = kept (p x) (All-keep (R x) p xs h.0) (AllPairs-keep R p xs h.1)
    where
      kept :
          (b : Bool)
          → All (R x) (keep p xs)
          → AllPairs R (keep p xs)
          → AllPairs R (if b then x ∷ keep p xs else keep p xs)
      kept true k ks = (k, ks)
      kept false k ks = ks

  pub AllPairs-limit_rows {κ} :
      (R : A → A → Type κ) (n : ℕ) (xs : List A) → AllPairs R xs → AllPairs R (limit_rows n xs)
  AllPairs-limit_rows R zero xs h = tt
  AllPairs-limit_rows R (suc n) [] h = tt
  AllPairs-limit_rows R (suc n) (x ∷ xs) h =
      (All-limit_rows (R x) n xs h.0, AllPairs-limit_rows R n xs h.1)

  pub keep-append : (p : A → Bool) (xs ys : List A) → keep p (xs ++ ys) ≡ keep p xs ++ keep p ys
  keep-append p [] ys = refl
  keep-append p (x ∷ xs) ys = elim (Bool-cases (p x)) [
    | inl e ↦ rw (e, keep-append p xs ys) refl
    | inr e ↦ rw (e, keep-append p xs ys) refl
  ]

  -- The second of two conditions, when it implies the first.
  pub keep-keep :
      (p q : A → Bool) (xs : List A)
      → ((x : A) → q x ≡ true → p x ≡ true)
      → keep q (keep p xs) ≡ keep q xs
  keep-keep p q [] f = refl
  keep-keep p q (x ∷ xs) f = elim (Bool-cases (q x)) [
    | inl e ↦ rw (f x e, e, keep-keep p q xs f) refl
    | inr e ↦ elim (Bool-cases (p x)) [
      | inl d ↦ rw (d, e) (keep-keep p q xs f)
      | inr d ↦ rw (d, e) (keep-keep p q xs f)
    ]
  ]

  pub any-none : (p : A → Bool) (xs : List A) → All (λ x. p x ≡ false) xs → any p xs ≡ false
  any-none p [] h = refl
  any-none p (x ∷ xs) h = rw (h.0) (any-none p xs h.1)

  abbrev pub last : List A → Option A
  last [] = none
  last (x ∷ []) = some x
  last (x ∷ y ∷ ys) = last (y ∷ ys)

  last-cons : (x z : A) (xs : List A) → last xs ≡ some z → last (x ∷ xs) ≡ some z
  last-cons x z [] e = cc
  last-cons x z (y ∷ ys) e = e

  pub last-append : (x : A) (xs : List A) → last (xs ++ (x ∷ [])) ≡ some x
  last-append x [] = refl
  last-append x (y ∷ ys) = last-cons y x (ys ++ (x ∷ [])) (last-append x ys)

  pub last-keep :
      (p : A → Bool) (x : A) (xs : List A)
      → last xs ≡ some x
      → p x ≡ true
      → last (keep p xs) ≡ some x
  last-keep p x [] e h = cc
  last-keep p x (y ∷ []) e h =
      let same : y ≡ x = ground (arith, e) in
      let kept : p y ≡ true = ap p same ∙ h in rw kept (ap some same)
  last-keep p x (y ∷ z ∷ zs) e h =
      let rest = last-keep p x (z ∷ zs) e h in
      elim (Bool-cases (p y)) [
        | inl kept ↦ rw kept (last-cons y x (keep p (z ∷ zs)) rest)
        | inr dropped ↦ rw dropped rest
      ]

  pub keep-none : (p : A → Bool) (xs : List A) → All (λ x. p x ≡ false) xs → keep p xs ≡ []
  keep-none p [] h = refl
  keep-none p (x ∷ xs) h = rw (h.0) (keep-none p xs h.1)

  pub keep-All : (p : A → Bool) (xs : List A) → All (λ x. p x ≡ true) xs → keep p xs ≡ xs
  keep-All p [] h = refl
  keep-All p (x ∷ xs) h = rw (h.0) (ap (λ r. x ∷ r) (keep-All p xs h.1))

  -- A conjunction of conditions, one after the other.
  pub keep-both : (p q : A → Bool) (xs : List A) → keep (λ x. p x && q x) xs ≡ keep q (keep p xs)
  keep-both p q [] = refl
  keep-both p q (x ∷ xs) = elim (Bool-cases (p x)) [
    | inr d ↦ rw d (keep-both p q xs)
    | inl e ↦ elim (Bool-cases (q x)) [
      | inl f ↦ rw (e, f) (ap (λ r. x ∷ r) (keep-both p q xs))
      | inr f ↦ rw (e, f) (keep-both p q xs)
    ]
  ]
