-- ===== src/Prelude/Comparators.antt =====
-- Comparators: functions into less, equal and greater, and one after another as a tie-break.
use Prim.Native.Nat.{compare, Ordering}
use mathlib.Core.Path.{◌≡◌, refl}
use mathlib.Core.Bool.{Bool, true, false}
use mathlib.Core.Logic.{◌≢◌, ◌⊎◌, inl, inr}
use native.Mathlib.Omega.{arith}

abbrev pub flip : Ordering → Ordering
flip Ordering.lt = Ordering.gt
flip Ordering.eq = Ordering.eq
flip Ordering.gt = Ordering.lt

pub Ordering-cases : (o : Ordering) → (o ≡ Ordering.lt) ⊎ (o ≡ Ordering.eq) ⊎ (o ≡ Ordering.gt)
Ordering-cases Ordering.lt = inl refl
Ordering-cases Ordering.eq = inr (inl refl)
Ordering-cases Ordering.gt = inr (inr refl)

-- The sign of a comparator's result as a sort reads it: not positive.
abbrev pub not_after : Ordering → Bool
not_after Ordering.gt = false
not_after _ = true

-- `next` decides where the first says that two are equal.
abbrev pub first_difference : Ordering → Ordering → Ordering
first_difference Ordering.lt next = Ordering.lt
first_difference Ordering.eq next = next
first_difference Ordering.gt next = Ordering.gt

pub record Lawful {ℓ} {A : Type ℓ} (c : A → A → Ordering) : Type ℓ where
  pub flips : (x y : A) → c y x ≡ flip (c x y)
  pub chains : (x y z : A) → c x y ≡ Ordering.lt → c y z ≡ Ordering.lt → c x z ≡ Ordering.lt
  pub replaces : (x y z : A) → c x y ≡ Ordering.eq → c x z ≡ c y z

pub compare-Lawful : Lawful compare
compare-Lawful = record {
  flips = λ x y. ground arith;
  chains = λ x y z p q. ground arith;
  replaces = λ x y z p. ground arith;
}

module _ {ℓ} {A : Type ℓ} (c d : A → A → Ordering) (p : Lawful c) (q : Lawful d) where
  pub first_difference-Lawful : Lawful (λ x y. first_difference (c x y) (d x y))
  first_difference-Lawful = record {
    flips = λ x y. ground (arith, p.flips x y, q.flips x y);
    chains = λ x y z h k. ground (
      arith,
      p.chains x y z,
      q.chains x y z,
      p.replaces x y z,
      p.flips x y,
      p.flips y z,
      p.replaces y z x,
      p.replaces z y x,
      p.flips x z,
    );
    replaces = λ x y z h. ground (arith, p.replaces x y z, q.replaces x y z);
  }

module _ {ℓ κ} {A : Type ℓ} {B : Type κ} (c : B → B → Ordering) (p : Lawful c) (key : A → B) where
  pub on_key-Lawful : Lawful (λ x y. c (key x) (key y))
  on_key-Lawful = record {
    flips = λ x y. p.flips (key x) (key y);
    chains = λ x y z. p.chains (key x) (key y) (key z);
    replaces = λ x y z. p.replaces (key x) (key y) (key z);
  }

module _ {ℓ} {A : Type ℓ} (c : A → A → Ordering) (p : Lawful c) where
  pub reversed-Lawful : Lawful (λ x y. c y x)
  reversed-Lawful = record {
    flips = λ x y. p.flips y x;
    chains = λ x y z h k. p.chains z y x k h;
    replaces =
        λ x y z h. ground (arith, h, p.flips y x, p.flips x z, p.flips y z, p.replaces x y z);
  }

  pub not_after_trans :
      (x y z : A) → not_after (c x y) ≡ true → not_after (c y z) ≡ true → not_after (c x z) ≡ true
  not_after_trans x y z h k = ground (
    arith,
    p.chains x y z,
    p.replaces x y z,
    p.flips y z,
    p.replaces z y x,
    p.flips x z,
    p.flips x y,
  )

  pub not_after_total : (x y : A) → not_after (c x y) ≡ false → not_after (c y x) ≡ true
  not_after_total x y h = ground (arith, p.flips x y)

  -- Both ways only if they are equal in the order.
  pub not_after_antisymm :
      (x y : A) → c x y ≢ Ordering.eq → not_after (c x y) ≡ true → not_after (c y x) ≡ false
  not_after_antisymm x y d h = ground (arith, p.flips x y)
