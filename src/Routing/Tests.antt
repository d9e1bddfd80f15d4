-- ===== src/Routing/Tests.antt =====
-- Runs of routing/model-router.ts at concrete candidates.
use ultra_fabric.Prelude.{◌≡◌, true, false, none, List, [], ◌∷◌, take, unique}
use ultra_fabric.Routing.{
  Candidate, Consideration, Decision, Input, text, image, fallback, capability_mismatch, preserved,
  requested_key, missing_input, unavailable, route_model,
}
use ultra_fabric.Routing.Choice.{selected, first_eligible, route_model-first_eligible}

abbrev small : Candidate
small = record {
  key = "small";
  available = true;
  authenticated = true;
  input = text ∷ [];
  reasoning = false;
  context_window = 100;
  max_tokens = 10;
  input_cost = 1;
  output_cost = 1;
}

abbrev with_images : Input
with_images = record {
  requested_model = "small";
  fallback_models = "gone" ∷ "large" ∷ [];
  requirements = record {
    input = image ∷ [];
    reasoning = false;
    min_context_window = none;
    min_output_tokens = none;
    max_input_cost = none;
    max_output_cost = none;
  };
  candidates =
      small ∷ record small { key = "large"; input = text ∷ image ∷ []; context_window = 200 } ∷ [];
  allow_quality_downgrade = false;
}

route_model-first_eligible_example :
    selected (route_model with_images)
    ≡ first_eligible with_images true
        (take 9 (unique (requested_key with_images ∷ with_images.fallback_models)))
route_model-first_eligible_example = route_model-first_eligible with_images

abbrev to_large : Decision
to_large = record {
  requested_model = "small";
  selected_model = "large";
  kind = fallback;
  cause = capability_mismatch;
  quality = preserved;
  downgrade_reasons = [];
  requirements = with_images.requirements;
  considered =
      record { model = "small"; is_eligible = false; reasons = missing_input image ∷ [] }
      ∷ record {
        model = "gone";
        is_eligible = false;
        reasons = unavailable ∷ missing_input image ∷ [];
      }
      ∷ record { model = "large"; is_eligible = true; reasons = [] }
      ∷ [];
}

abbrev nothing : Input
nothing = record with_images { fallback_models = "gone" ∷ [] }

abbrev refusals : List Consideration
refusals =
    record { model = "small"; is_eligible = false; reasons = missing_input image ∷ [] }
    ∷ record {
      model = "gone";
      is_eligible = false;
      reasons = unavailable ∷ missing_input image ∷ [];
    }
    ∷ []
