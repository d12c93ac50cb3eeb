-- ===== src/Prelude/Sort.antt =====
-- `Array.prototype.sort` with a comparator: the stable sort by `le`, which says that the comparator
-- is not positive.
use mathlib.Core.Path.{◌≡◌, refl, ◌∙◌}
use mathlib.Core.Bool.{Bool, true, false}
use mathlib.Core.List.{List, [], ◌∷◌, Perm, Permᴰ}
use mathlib.Core.List.Perm
use mathlib.Core.Logic.{inl, inr}
use native.Mathlib.Omega.{arith}
use workbuddy_buddy.Prelude.Tests.{if◌then◌else◌, Bool-cases}
use workbuddy_buddy.Prelude.Lists.{All, AllPairs}

module _ {ℓ} {A : Type ℓ} (le : A → A → Bool) where
  -- An element goes before those that are equal to it, since it stood before them.
  unfoldable pub place : A → List A → List A
  place x [] = x ∷ []
  place x (y ∷ ys) = if le x y then x ∷ y ∷ ys else y ∷ place x ys

  unfoldable pub sort : List A → List A
  unfolding place
  sort [] = []
  sort (x ∷ xs) = place x (sort xs)

  -- Each element is below all that follow.
  abbrev pub Sorted : List A → Type 0
  Sorted = AllPairs (λ x y. le x y ≡ true)

  pub All-place {κ} : (P : A → Type κ) (x : A) (xs : List A) → P x → All P xs → All P (place x xs)
  unfolding place
  All-place P x [] p h = (p, tt)
  All-place P x (y ∷ ys) p h = elim (Bool-cases (le x y)) [
    | inl e ↦ rw e (p, h)
    | inr e ↦ rw e (h.0, All-place P x ys p h.1)
  ]

  pub All-sort {κ} : (P : A → Type κ) (xs : List A) → All P xs → All P (sort xs)
  unfolding sort
  All-sort P [] h = tt
  All-sort P (x ∷ xs) h = All-place P x (sort xs) h.0 (All-sort P xs h.1)

  place-perm : (x : A) (xs : List A) → Perm (place x xs) (x ∷ xs)
  unfolding place
  place-perm x [] = Perm.rfl
  place-perm x (y ∷ ys) = elim (Bool-cases (le x y)) [
    | inl e ↦ rw e Perm.rfl
    | inr e ↦ rw e (Perm.trans (Perm.cons y (place-perm x ys)) (Perm.swap x y ys))
  ]

  pub sort-perm : (xs : List A) → Perm (sort xs) xs
  unfolding sort
  sort-perm [] = Perm.rfl
  sort-perm (x ∷ xs) = Perm.trans (place-perm x (sort xs)) (Perm.cons x (sort-perm xs))

  -- A relation that holds either way round survives the sort.
  AllPairs-place {κ} :
      (R : A → A → Type κ)
      → ((a b : A) → R a b → R b a)
      → (x : A) (xs : List A) → All (R x) xs
      → AllPairs R xs
      → AllPairs R (place x xs)
  unfolding place
  AllPairs-place R sym x [] h k = (tt, tt)
  AllPairs-place R sym x (y ∷ ys) h k = elim (Bool-cases (le x y)) [
    | inl e ↦ rw e (h, k)
    | inr e ↦ rw e (All-place (R y) x ys (sym x y h.0) k.0, AllPairs-place R sym x ys h.1 k.1)
  ]

  pub AllPairs-sort {κ} :
      (R : A → A → Type κ)
      → ((a b : A) → R a b → R b a)
      → (xs : List A) → AllPairs R xs
      → AllPairs R (sort xs)
  unfolding sort
  AllPairs-sort R sym [] h = tt
  AllPairs-sort R sym (x ∷ xs) h =
      AllPairs-place R sym x (sort xs) (All-sort (R x) xs h.0) (AllPairs-sort R sym xs h.1)

  module _ (trans : (x y z : A) → le x y ≡ true → le y z ≡ true → le x z ≡ true)
      (total : (x y : A) → le x y ≡ false → le y x ≡ true) where
    All-below :
        (x y : A) (ys : List A)
        → le x y ≡ true
        → All (λ z. le y z ≡ true) ys
        → All (λ z. le x z ≡ true) ys
    All-below x y [] e h = tt
    All-below x y (z ∷ zs) e h = (trans x y z e h.0, All-below x y zs e h.1)

    place-Sorted : (x : A) (xs : List A) → Sorted xs → Sorted (place x xs)
    unfolding place
    place-Sorted x [] s = (tt, tt)
    place-Sorted x (y ∷ ys) s = elim (Bool-cases (le x y)) [
      | inl e ↦ rw e ((e, All-below x y ys e s.0), s)
      | inr e ↦ rw e (All-place (λ z. le y z ≡ true) x ys (total x y e) s.0, place-Sorted x ys s.1)
    ]

    pub sort-Sorted : (xs : List A) → Sorted (sort xs)
    unfolding sort
    sort-Sorted [] = tt
    sort-Sorted (x ∷ xs) = place-Sorted x (sort xs) (sort-Sorted xs)

    -- Two elements that are not equal in the order can be placed either way round.
    pub place-place :
        (x y : A) (xs : List A)
        → (le x y ≡ true → le y x ≡ false)
        → place x (place y xs) ≡ place y (place x xs)
    unfolding place
    place-place x y [] d = ground (arith, total x y, total y x, d)
    place-place x y (z ∷ zs) d =
        ground (arith, total x y, total y x, d, trans x y z, trans y x z, place-place x y zs d)

    module _ (antisym : (x y : A) → le x y ≡ true → le y x ≡ true → x ≡ y) where
      place-swap : (x y : A) (xs : List A) → place x (place y xs) ≡ place y (place x xs)
      place-swap x y xs = elim (Bool-cases (le x y)) [
        | inr before ↦ place-place x y xs (λ e. cc)
        | inl e ↦ elim (Bool-cases (le y x)) [
          | inr after ↦ place-place x y xs (λ _. after)
          | inl f ↦ cc (antisym x y e f)
        ]
      ]

      -- The order of the input does not matter if only equal elements are equal in the order.
      pub sort-of_Permᴰ : {xs ys : List A} → Permᴰ xs ys → sort xs ≡ sort ys
      unfolding sort
      sort-of_Permᴰ Permᴰ.nil = refl
      sort-of_Permᴰ (Permᴰ.cons {a} {b} {l₁ = xs} {l₂ = ys} same p) = cc (same, sort-of_Permᴰ p)
      sort-of_Permᴰ (Permᴰ.swap {a} {b} {a' = c} {b' = d} {l = xs} p q) =
          cc (p, q, place-swap a b (sort xs))
      sort-of_Permᴰ (Permᴰ.trans p q) = sort-of_Permᴰ p ∙ sort-of_Permᴰ q
