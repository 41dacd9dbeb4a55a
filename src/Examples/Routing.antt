-- ===== src/Examples/Routing.antt =====
-- RUNTIME/router.py with two providers, of which one may not see the data.
use mystery_starter_kit.Common.{
  ℕ, ◌<◌, String, ◌≡◌, refl, false, none, some, List, [], ◌∷◌, All, length, mem, Dict, get,
}
use mystery_starter_kit.Failure.{ok}
use mystery_starter_kit.Json.{
  Value, Fields, text, array, object, nil, cons, end, field, texts, lookup,
}
use mystery_starter_kit.Runtime.{ProviderDescriptor, SelectedRoute}
use mystery_starter_kit.Router.{
  require_mapping, require_string_list, provider_allowed_classes, route_candidates,
}
use mystery_starter_kit.Router.Policy.{IsEligible, route_candidates-IsEligible}

abbrev descriptor : String → ℕ → ProviderDescriptor
descriptor provider_id max_context_tokens = record {
  interface_version = "1.0.0";
  provider_id = provider_id;
  adapter_id = "adapter";
  adapter_version = "1.0.0";
  capabilities = "TEXT_GENERATION" ∷ "JSON_OBJECT" ∷ [];
  max_context_tokens = some max_context_tokens;
  max_output_tokens = none;
}

abbrev providers : Dict ProviderDescriptor
providers = ("open", descriptor "open" 1000) ∷ ("closed", descriptor "closed" 1000) ∷ []

abbrev policy : List String → Value
policy classes =
    object (field "data_policy" (object (field "allowed_classes" (array (texts classes)) end)) end)

abbrev registry : Fields
registry =
    field "providers"
      (object (
        field "open" (policy ("PUBLIC" ∷ []))
          (field "closed" (policy ("PUBLIC" ∷ "INTERNAL" ∷ [])) end)))
      end

abbrev route : String → Value
route provider_id =
    object (field "provider_id" (text provider_id) (field "model_ref" (text "m") end))

abbrev profile : Fields
profile =
    field "required_capabilities" (array (texts ("JSON_OBJECT" ∷ [])))
      (field "routes" (array (cons (route "open") (cons (route "closed") nil))) end)

abbrev model_routes : Fields
model_routes = field "profiles" (object (field "draft" (object profile) end)) end

abbrev closed_route : SelectedRoute
closed_route = record {
  provider_id = "closed";
  model_ref = "m";
  descriptor = descriptor "closed" 1000;
}

internal_routes :
    route_candidates "draft" providers registry model_routes ("INTERNAL" ∷ []) 500 100
    ≡ ok (closed_route ∷ [])
unfolding route_candidates provider_allowed_classes get mem lookup
internal_routes = refl

route_candidates-IsEligible_example :
    (0 < length (closed_route ∷ []))
    × (mem "REFERENCE_RAW" ("INTERNAL" ∷ []) ≡ false)
    × ((profiles : Fields) × (profile : Fields) × (required : List String) × (require_mapping
            model_routes "profiles"
          ≡ ok profiles)
        × (lookup "draft" profiles ≡ some (Value.object profile))
        × (require_string_list profile "required_capabilities" ≡ ok required)
        × All
            (IsEligible providers registry (record {
              required = required;
              data_classes = "INTERNAL" ∷ [];
              input_tokens = 500;
              output_tokens = 100;
            }))
            (closed_route ∷ []))
route_candidates-IsEligible_example =
    route_candidates-IsEligible "draft" providers registry model_routes ("INTERNAL" ∷ []) 500 100
      (closed_route ∷ []) internal_routes
