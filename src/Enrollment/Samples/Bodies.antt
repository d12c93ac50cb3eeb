-- ===== src/Enrollment/Samples/Bodies.antt =====
-- A body that creates an office, and bodies that do not.
use workbuddy_buddy.Prelude.{◌≡◌, refl, ◌⊎◌, true, false, none, List, [], ◌∷◌, sort, place}
use workbuddy_buddy.Edge.Types.{Text, text_eq}
use workbuddy_buddy.Office.Scoring.{compare_texts}
use workbuddy_buddy.Enrollment.Problem.{returns, refuses}
use workbuddy_buddy.Enrollment.Service.{create_office}
use workbuddy_buddy.Enrollment.NewOffice.{CreateOfficeOnboardingInput}
use workbuddy_buddy.Enrollment.Input.{
  Value, string, boolean, object, codes, invalid_request_problem,
  parse_create_office_onboarding_input, exact_object, all_equal, bounded_string, code_points_after,
  boolean_value, property_of, require,
}
use workbuddy_buddy.Enrollment.Input.Accepted.{IsOfficeBody}
use workbuddy_buddy.Enrollment.Routes.{post_office, post_office-decides}
use workbuddy_buddy.Enrollment.Samples.{onboarding}
use workbuddy_buddy.Limits.Onboarding.{IpRequest, RateKind}

abbrev lobby : CreateOfficeOnboardingInput
lobby = record {
  office_name = codes "Our office";
  alias = codes "Momo";
  pet_id = codes "momo-mug";
  presence_visible = true;
  stats_opt_in = true;
  poster_opt_in = false;
}

abbrev fields_of : CreateOfficeOnboardingInput → List (Text × Value)
fields_of input =
    (codes "office_name", string input.office_name)
    ∷ (codes "alias", string input.alias)
    ∷ (codes "pet_id", string input.pet_id)
    ∷ (codes "presence_visible", boolean input.presence_visible)
    ∷ (codes "stats_opt_in", boolean input.stats_opt_in)
    ∷ (codes "poster_opt_in", boolean input.poster_opt_in)
    ∷ []

lobby_read : parse_create_office_onboarding_input (object (fields_of lobby)) ≡ returns lobby
unfolding parse_create_office_onboarding_input exact_object all_equal bounded_string
    code_points_after boolean_value property_of require compare_texts text_eq sort place
lobby_read = refl

-- An alias with `@`, a property too many, and a pair of surrogates, which counts once.
refused :
    (parse_create_office_onboarding_input
        (object (fields_of (record lobby { alias = codes "Mo@mo" })))
      ≡ refuses invalid_request_problem)
    × (parse_create_office_onboarding_input
          (object ((codes "admin", boolean true) ∷ fields_of lobby))
        ≡ refuses invalid_request_problem)
    × (bounded_string (string (0xd83d ∷ 0xde00 ∷ [])) 1 1 ≡ returns (0xd83d ∷ 0xde00 ∷ []))
unfolding parse_create_office_onboarding_input exact_object all_equal bounded_string
    code_points_after boolean_value property_of require compare_texts text_eq sort place
refused = (refl, refl, refl)

abbrev request : IpRequest
request = record { ip_hash = b'h' ∷ []; kind = RateKind.create; now = 100; later = 100 }

post_office-decides_example :
    ((input : CreateOfficeOnboardingInput) × IsOfficeBody (object (fields_of lobby)) input
      × (post_office onboarding (object (fields_of lobby)) request none []
          ≡ create_office onboarding input request none []))
    ⊎ (((input : CreateOfficeOnboardingInput) → ¬ IsOfficeBody (object (fields_of lobby)) input)
        × (post_office onboarding (object (fields_of lobby)) request none []
            ≡ (refuses invalid_request_problem, [], none)))
post_office-decides_example =
    post_office-decides onboarding (object (fields_of lobby)) request none []
