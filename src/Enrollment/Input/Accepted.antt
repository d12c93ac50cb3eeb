-- ===== src/Enrollment/Input/Accepted.antt =====
-- Which bodies are accepted as the creation of an office, and with which input.
use mathlib.Core.Logic.{∥∥₁_elim}
use mathlib.Core.Path.{subst}
use mathlib.Core.List.{Perm}
use mathlib.Core.List.Perm
use workbuddy_buddy.Prelude.{
  ℕ, ◌≤◌, ◌≡◌, refl, sym, ap, ◌∙◌, ◌↔◌, Bool, true, false, not, ◌||◌, List, [], ◌∷◌, arith, leb,
  any, sort, sort-perm, sort-of_Permᴰ, not_after_trans, not_after_total, inl, inr, Bool-cases,
}
use workbuddy_buddy.Edge.Types.{Text, text_eq, text_eq_iff}
use workbuddy_buddy.Office.Scoring.{compare_texts}
use workbuddy_buddy.Office.Intervals.{is_untrimmed}
use workbuddy_buddy.Office.Scoring.Order.{compare_texts-Lawful, compare_texts-eq}
use workbuddy_buddy.Enrollment.Problem.{Outcome, returns, refuses, ◌>>=◌, >>=-eq-returns}
use workbuddy_buddy.Enrollment.NewOffice.{CreateOfficeOnboardingInput}
use workbuddy_buddy.Enrollment.Input.{
  Value, string, boolean, other, Body, object, not_object, invalid_request_problem, require,
  code_points, bounded_string, boolean_value, not_after_text, all_equal, keys, exact_object,
  property_of, codes, office_keys, onboarding_pet_ids, is_control, is_barred,
  parse_create_office_onboarding_input,
}

all_equal_iff : (ss ts : List Text) → (all_equal ss ts ≡ true) ↔ (ss ≡ ts)
unfolding all_equal
all_equal_iff [] [] = ground arith
all_equal_iff [] (t ∷ ts) = ground arith
all_equal_iff (s ∷ ss) [] = ground arith
all_equal_iff (s ∷ ss) (t ∷ ts) = ground (arith, text_eq_iff s t, all_equal_iff ss ts)

Texts-set : IsSet (List Text)
Texts-set = hlevel

sort-of_perm : (ss ts : List Text) → Perm ss ts → sort not_after_text ss ≡ sort not_after_text ts
sort-of_perm ss ts perm = ∥∥₁_elim perm (Texts-set _ _) λ p.
    sort-of_Permᴰ not_after_text (not_after_trans compare_texts compare_texts-Lawful)
      (not_after_total compare_texts compare_texts-Lawful)
      (λ s t h k. compare_texts-eq s t (ground (arith, compare_texts-Lawful.flips s t))) p

-- The sorted keys agree exactly if the keys are the expected ones in some order.
exact_object_iff :
    (fields : List (Text × Value)) (expected : List Text)
    → (exact_object (object fields) expected ≡ returns fields) ↔ Perm (keys fields) expected
unfolding exact_object
exact_object_iff fields expected = (
  λ e.
      let same = (all_equal_iff given wanted).0 (ground (arith, e)) in
      Perm.trans (Perm.symm (sort-perm not_after_text (keys fields)))
        (subst (λ ks. Perm ks expected) (sym same) (sort-perm not_after_text expected)),
  λ perm. rw ((all_equal_iff given wanted).1 (sort-of_perm (keys fields) expected perm)) refl,
)
  where
    given : List Text
    given = sort not_after_text (keys fields)

    wanted : List Text
    wanted = sort not_after_text expected

bounded_string_iff :
    (v : Value) (lo hi : ℕ) (s : Text)
    → (bounded_string v lo hi ≡ returns s)
      ↔ ((v ≡ string s) × (lo ≤ code_points s) × (code_points s ≤ hi))
unfolding bounded_string
bounded_string_iff (string t) lo hi s = ground arith
bounded_string_iff (boolean b) lo hi s = ground arith
bounded_string_iff other lo hi s = ground arith

boolean_value_iff : (v : Value) (b : Bool) → (boolean_value v ≡ returns b) ↔ (v ≡ boolean b)
unfolding boolean_value
boolean_value_iff (string t) b = ground arith
boolean_value_iff (boolean c) b = ground arith
boolean_value_iff other b = ground arith

require_iff : (b : Bool) → (require b ≡ returns tt) ↔ (b ≡ true)
unfolding require
require_iff true = ground arith
require_iff false = ground arith

-- A body that creates an office: an object with exactly the six properties, texts of bounded length
-- without spaces at their ends and without control characters, an alias without `@`, a pet of the
-- catalog, and three truth values.
pub record IsOfficeBody (body : Body) (input : CreateOfficeOnboardingInput) : Type 0 where
  pub fields : List (Text × Value)
  pub shape : body ≡ object fields
  pub has_keys : Perm (keys fields) office_keys
  pub name : property_of (codes "office_name") fields ≡ string input.office_name
  pub alias : property_of (codes "alias") fields ≡ string input.alias
  pub pet : property_of (codes "pet_id") fields ≡ string input.pet_id
  pub visible : property_of (codes "presence_visible") fields ≡ boolean input.presence_visible
  pub stats : property_of (codes "stats_opt_in") fields ≡ boolean input.stats_opt_in
  pub poster : property_of (codes "poster_opt_in") fields ≡ boolean input.poster_opt_in
  pub name_length : (1 ≤ code_points input.office_name) × (code_points input.office_name ≤ 80)
  pub alias_length : (1 ≤ code_points input.alias) × (code_points input.alias ≤ 32)
  pub pet_length : (1 ≤ code_points input.pet_id) × (code_points input.pet_id ≤ 64)
  pub name_trimmed : is_untrimmed input.office_name ≡ false
  pub name_printed : any is_control input.office_name ≡ false
  pub alias_trimmed : is_untrimmed input.alias ≡ false
  pub alias_printed : any is_barred input.alias ≡ false
  pub pet_known : any (λ p. text_eq p input.pet_id) onboarding_pet_ids ≡ true

pub parse_create_office_onboarding_input-returns :
    (body : Body) (input : CreateOfficeOnboardingInput)
    → IsOfficeBody body input
    → parse_create_office_onboarding_input body ≡ returns input
unfolding parse_create_office_onboarding_input require
parse_create_office_onboarding_input-returns body input b =
    ap parse_create_office_onboarding_input b.shape
    ∙ rw
        (
          (exact_object_iff b.fields office_keys).1 b.has_keys,
          (bounded_string_iff _ 1 80 input.office_name).1
              (b.name, b.name_length.0, b.name_length.1),
          (bounded_string_iff _ 1 32 input.alias).1 (b.alias, b.alias_length.0, b.alias_length.1),
          (bounded_string_iff _ 1 64 input.pet_id).1 (b.pet, b.pet_length.0, b.pet_length.1),
          b.name_trimmed,
          b.name_printed,
          b.alias_trimmed,
          b.alias_printed,
          b.pet_known,
          (boolean_value_iff _ input.presence_visible).1 b.visible,
          (boolean_value_iff _ input.stats_opt_in).1 b.stats,
          (boolean_value_iff _ input.poster_opt_in).1 b.poster,
        )
        refl

exact_object-fields :
    (body : Body) (expected : List Text) (fields : List (Text × Value))
    → exact_object body expected ≡ returns fields
    → body ≡ object fields
unfolding exact_object
exact_object-fields (object fs) expected fields e = ground (arith, e)
exact_object-fields not_object expected fields e = ground (arith, e)

pub parse_create_office_onboarding_input-IsOfficeBody :
    (body : Body) (input : CreateOfficeOnboardingInput)
    → parse_create_office_onboarding_input body ≡ returns input
    → IsOfficeBody body input
unfolding parse_create_office_onboarding_input
parse_create_office_onboarding_input-IsOfficeBody body input e₀ =
    let (fields, exact, e₁) = >>=-eq-returns (exact_object body office_keys) _ e₀ in
    let (name, name_read, e₂) = >>=-eq-returns (bounded_string _ 1 80) _ e₁ in
    let (alias, alias_read, e₃) = >>=-eq-returns (bounded_string _ 1 32) _ e₂ in
    let (pet, pet_read, e₄) = >>=-eq-returns (bounded_string _ 1 64) _ e₃ in
    let (_, name_fine, e₅) = >>=-eq-returns (require _) _ e₄ in
    let (_, alias_fine, e₆) = >>=-eq-returns (require _) _ e₅ in
    let (_, pet_fine, e₇) =
      >>=-eq-returns (require (any (λ p. text_eq p pet) onboarding_pet_ids)) _ e₆ in
    let (visible, visible_read, e₈) = >>=-eq-returns (boolean_value _) _ e₇ in
    let (stats, stats_read, e₉) = >>=-eq-returns (boolean_value _) _ e₈ in
    let (poster, poster_read, done) = >>=-eq-returns (boolean_value _) _ e₉ in
    let shape = exact_object-fields body office_keys fields exact in
    let name_facts = (bounded_string_iff _ 1 80 name).0 name_read in
    let alias_facts = (bounded_string_iff _ 1 32 alias).0 alias_read in
    let pet_facts = (bounded_string_iff _ 1 64 pet).0 pet_read in
    let name_texts = (require_iff _).0 name_fine in
    let alias_texts = (require_iff _).0 alias_fine in
    subst (IsOfficeBody body) (returned done) (record {
      fields = fields;
      shape = shape;
      has_keys =
          (exact_object_iff fields office_keys).0
            (ap (λ b. exact_object b office_keys) (sym shape) ∙ exact);
      name = name_facts.0;
      alias = alias_facts.0;
      pet = pet_facts.0;
      visible = (boolean_value_iff _ visible).0 visible_read;
      stats = (boolean_value_iff _ stats).0 stats_read;
      poster = (boolean_value_iff _ poster).0 poster_read;
      name_length = (name_facts.1, name_facts.2);
      alias_length = (alias_facts.1, alias_facts.2);
      pet_length = (pet_facts.1, pet_facts.2);
      name_trimmed = ground (arith, name_texts);
      name_printed = ground (arith, name_texts);
      alias_trimmed = ground (arith, alias_texts);
      alias_printed = ground (arith, alias_texts);
      pet_known = (require_iff (any (λ p. text_eq p pet) onboarding_pet_ids)).0 pet_fine;
    })
  where
    returned :
        {a b : CreateOfficeOnboardingInput}
        → ◌≡◌ {A = Outcome CreateOfficeOnboardingInput} (returns a) (returns b)
        → a ≡ b
    returned e = cc

-- A body is read, or refused as invalid.
pub data IsRead {A : Type 0} (o : Outcome A) : Type 0 where
  read : (a : A) → o ≡ returns a → IsRead o
  refused : o ≡ refuses invalid_request_problem → IsRead o

>>=-IsRead :
    {A B : Type 0} (call : Outcome A) (rest : A → Outcome B)
    → IsRead call
    → ((a : A) → IsRead (rest a))
    → IsRead (call >>= rest)
>>=-IsRead call rest (read a e) k = elim (k a) [
  | read b f ↦ read b (ap (λ o. o >>= rest) e ∙ f)
  | refused f ↦ refused (ap (λ o. o >>= rest) e ∙ f)
]
>>=-IsRead call rest (refused e) k = refused (ap (λ o. o >>= rest) e)

exact_object-IsRead : (body : Body) (expected : List Text) → IsRead (exact_object body expected)
unfolding exact_object
exact_object-IsRead (object fields) expected =
    elim (Bool-cases
      (all_equal (sort not_after_text (keys fields)) (sort not_after_text expected))) [
        | inl e ↦ read fields (rw e refl)
        | inr e ↦ refused (rw e refl)
      ]
exact_object-IsRead not_object expected = refused refl

bounded_string-IsRead : (v : Value) (lo hi : ℕ) → IsRead (bounded_string v lo hi)
unfolding bounded_string
bounded_string-IsRead (string s) lo hi =
    elim (Bool-cases (not (leb lo (code_points s)) || not (leb (code_points s) hi))) [
      | inl e ↦ refused (rw e refl)
      | inr e ↦ read s (rw e refl)
    ]
bounded_string-IsRead (boolean b) lo hi = refused refl
bounded_string-IsRead other lo hi = refused refl

boolean_value-IsRead : (v : Value) → IsRead (boolean_value v)
unfolding boolean_value
boolean_value-IsRead (string s) = refused refl
boolean_value-IsRead (boolean b) = read b refl
boolean_value-IsRead other = refused refl

require-IsRead : (b : Bool) → IsRead (require b)
unfolding require
require-IsRead true = read tt refl
require-IsRead false = refused refl

pub parse_create_office_onboarding_input-IsRead :
    (body : Body) → IsRead (parse_create_office_onboarding_input body)
unfolding parse_create_office_onboarding_input
parse_create_office_onboarding_input-IsRead body =
    >>=-IsRead _ _ (exact_object-IsRead body office_keys) λ fields.
      >>=-IsRead _ _ (bounded_string-IsRead _ 1 80) λ name.
        >>=-IsRead _ _ (bounded_string-IsRead _ 1 32) λ alias.
          >>=-IsRead _ _ (bounded_string-IsRead _ 1 64) λ pet.
            >>=-IsRead _ _ (require-IsRead _) λ _. >>=-IsRead _ _ (require-IsRead _) λ _.
              >>=-IsRead _ _ (require-IsRead _) λ _.
                >>=-IsRead _ _ (boolean_value-IsRead _) λ visible.
                  >>=-IsRead _ _ (boolean_value-IsRead _)
                    λ stats. >>=-IsRead _ _ (boolean_value-IsRead _) λ poster. read _ refl
