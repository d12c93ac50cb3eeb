-- ===== src/Enrollment/Input.antt =====
-- apps/control-plane/src/modules/onboarding/domain/input.ts and pet-catalog.ts: the body of a request
-- that creates an office, and the capability of a status request. A body is what the JSON parser
-- gives; of a value the code asks only for its type, its text or its truth.
pub mod Accepted
use Prim.Native.Char.{code}
use Prim.Native.String.{String}
use workbuddy_buddy.Prelude.{
  ℕ, ◌+◌, Bool, true, false, not, ◌&&◌, ◌||◌, none, List, [], ◌∷◌, map, leb, ◌==◌, if◌then◌else◌,
  length, any, sort, not_after,
}
use workbuddy_buddy.Edge.Types.{Text, text_eq}
use workbuddy_buddy.Office.Scoring.{compare_texts}
use workbuddy_buddy.Office.Intervals.{is_untrimmed}
use workbuddy_buddy.Enrollment.Problem.{
  OnboardingProblem, onboarding_problem, invalid_request, Outcome, returns, refuses, fails, ◌>>=◌,
  ◌>>◌,
}
use workbuddy_buddy.Enrollment.NewOffice.{CreateOfficeOnboardingInput}

-- A text literal.
abbrev pub codes : String → Text
codes String.[] = []
codes (String.◌∷◌ c s) = code c ∷ codes s

pub data Value : Type 0 where
  string : Text → Value
  boolean : Bool → Value
  other : Value

-- An object lists its own properties. `not_object` is any other value: `null`, an array, a scalar.
pub data Body : Type 0 where
  object : List (Text × Value) → Body
  not_object : Body

-- invalidRequest
abbrev pub invalid_request_problem : OnboardingProblem
invalid_request_problem =
    onboarding_problem invalid_request 400 "The onboarding request is invalid."

-- `if (…) invalidRequest()`, of the condition's opposite.
unfoldable pub require : Bool → Outcome (Unit {0})
require true = returns tt
require false = refuses invalid_request_problem

abbrev pub is_high_surrogate : ℕ → Bool
is_high_surrogate c = leb 0xd800 c && leb c 0xdbff

abbrev pub is_low_surrogate : ℕ → Bool
is_low_surrogate c = leb 0xdc00 c && leb c 0xdfff

-- The code points of a text; `high` says that a high surrogate stands before it, with which a low one
-- makes a pair.
unfoldable pub code_points_after : Bool → Text → ℕ
code_points_after high [] = 0
code_points_after high (c ∷ s) =
    let rest = code_points_after (is_high_surrogate c) s in
    if high && is_low_surrogate c then rest else rest + 1

-- `[...input].length`
abbrev pub code_points : Text → ℕ
code_points s = code_points_after false s

-- boundedString
unfoldable pub bounded_string : Value → ℕ → ℕ → Outcome Text
bounded_string (string s) minimum maximum =
    if not (leb minimum (code_points s)) || not (leb (code_points s) maximum)
    then refuses invalid_request_problem
    else returns s
bounded_string (boolean b) minimum maximum = refuses invalid_request_problem
bounded_string other minimum maximum = refuses invalid_request_problem

-- booleanValue
unfoldable pub boolean_value : Value → Outcome Bool
boolean_value (string s) = refuses invalid_request_problem
boolean_value (boolean b) = returns b
boolean_value other = refuses invalid_request_problem

-- The order in which `sort` puts texts.
abbrev pub not_after_text : Text → Text → Bool
not_after_text s t = not_after (compare_texts s t)

-- `actual.length !== expected.length || actual.some(…)`, negated.
unfoldable pub all_equal : List Text → List Text → Bool
all_equal [] [] = true
all_equal [] (t ∷ ts) = false
all_equal (s ∷ ss) [] = false
all_equal (s ∷ ss) (t ∷ ts) = text_eq s t && all_equal ss ts

abbrev pub keys : List (Text × Value) → List Text
keys = map (λ f. f.0)

-- exactObject
unfoldable pub exact_object : Body → List Text → Outcome (List (Text × Value))
exact_object not_object expected = refuses invalid_request_problem
exact_object (object fields) expected =
    if all_equal (sort not_after_text (keys fields)) (sort not_after_text expected)
    then returns fields
    else refuses invalid_request_problem

-- A property of an object.
unfoldable pub property_of : Text → List (Text × Value) → Value
property_of key [] = other
property_of key ((k, v) ∷ fields) = if text_eq k key then v else property_of key fields

-- OFFICE_KEYS
abbrev pub office_keys : List Text
office_keys =
    codes "alias"
    ∷ codes "office_name"
    ∷ codes "pet_id"
    ∷ codes "poster_opt_in"
    ∷ codes "presence_visible"
    ∷ codes "stats_opt_in"
    ∷ []

-- ONBOARDING_PET_IDS
abbrev pub onboarding_pet_ids : List Text
onboarding_pet_ids =
    codes "bloop"
    ∷ codes "buzz-bit"
    ∷ codes "comet-lop"
    ∷ codes "gizmo-kernel"
    ∷ codes "kiki-koala"
    ∷ codes "momo-mug"
    ∷ codes "moss-shell"
    ∷ codes "nimbus-noodle"
    ∷ codes "nori-nibble"
    ∷ codes "olli-orbit"
    ∷ codes "pico-patch"
    ∷ codes "pogo-ping"
    ∷ codes "rumi-relay"
    ∷ codes "sora-shiba"
    ∷ codes "taro-tinker"
    ∷ []

-- /[\u0000-\u001f\u007f]/u
abbrev pub is_control : ℕ → Bool
is_control c = leb c 0x1f || c == 0x7f

-- /[@\u0000-\u001f\u007f]/u
abbrev pub is_barred : ℕ → Bool
is_barred c = c == b'@' || is_control c

-- parseCreateOfficeOnboardingInput. A text that is trimmed here is not empty.
unfoldable pub parse_create_office_onboarding_input : Body → Outcome CreateOfficeOnboardingInput
parse_create_office_onboarding_input input = do
  fields ← exact_object input office_keys
  office_name ← bounded_string (property_of (codes "office_name") fields) 1 80
  alias ← bounded_string (property_of (codes "alias") fields) 1 32
  pet_id ← bounded_string (property_of (codes "pet_id") fields) 1 64
  require (not (is_untrimmed office_name || any is_control office_name))
  require (not (is_untrimmed alias || any is_barred alias))
  require (any (λ p. text_eq p pet_id) onboarding_pet_ids)
  presence_visible ← boolean_value (property_of (codes "presence_visible") fields)
  stats_opt_in ← boolean_value (property_of (codes "stats_opt_in") fields)
  poster_opt_in ← boolean_value (property_of (codes "poster_opt_in") fields)
  returns (record {
    office_name = office_name;
    alias = alias;
    pet_id = pet_id;
    presence_visible = presence_visible;
    stats_opt_in = stats_opt_in;
    poster_opt_in = poster_opt_in;
  })

-- /^[A-Za-z0-9_-]{43}$/ of a text of 43 characters.
abbrev pub is_capability_character : ℕ → Bool
is_capability_character c =
    leb b'A' c && leb c b'Z'
    || leb b'a' c && leb c b'z'
    || leb b'0' c && leb c b'9'
    || c == b'_'
    || c == b'-'

-- parseStatusCapability, which is parseCapability.
unfoldable pub parse_status_capability : Value → Outcome Text
parse_status_capability input = do
  value ← bounded_string input 43 43
  require (length value == 43 && not (any (λ c. not (is_capability_character c)) value))
  returns value
