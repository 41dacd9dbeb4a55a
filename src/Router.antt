-- ===== src/Router.antt =====
-- RUNTIME/router.py: which provider and model a task may be sent to. `Policy` holds what is proved of
-- it. The context of a refusal is left out.
pub mod Policy
use mystery_starter_kit.Common.{
  ℕ, String, Bool, true, false, not, ltb, Option, none, some, List, [], ◌∷◌, mem, subset, Dict, get,
  if◌then◌else◌,
}
use mystery_starter_kit.Failure.{
  Failure, Result, ok, err, runtime_error, runtime_configuration_error, data_policy_violation,
  provider_not_available, or_raise, ◌>>=◌,
}
use mystery_starter_kit.Json.{
  Value, Items, Fields, nil, cons, array, Integer, as_integer, lookup, as_text, as_object, as_texts,
}
use mystery_starter_kit.Runtime.{ProviderDescriptor, SelectedRoute}

-- `configuration_error` of RUNTIME/contracts.py.
abbrev pub contract_error : Failure
contract_error = runtime_error runtime_configuration_error false "RUNTIME" none none

-- `require_mapping` and `require_string_list` of RUNTIME/contracts.py.
unfoldable pub require_mapping : Fields → String → Result Fields
unfolding lookup
require_mapping document key =
    or_raise contract_error (elim (lookup key document) [ none ↦ none | some v ↦ as_object v ])

unfoldable pub require_string_list : Fields → String → Result (List String)
unfolding lookup as_texts
require_string_list document key =
    or_raise contract_error (elim (lookup key document) [ none ↦ none | some v ↦ as_texts v ])

unfoldable pub provider_allowed_classes : Fields → String → Result (List String)
unfolding require_mapping require_string_list
provider_allowed_classes registry_document provider_id = do
  providers ← require_mapping registry_document "providers"
  definition ←
      or_raise contract_error
        (elim (lookup provider_id providers) [ none ↦ none | some v ↦ as_object v ])
  policy ← require_mapping definition "data_policy"
  require_string_list policy "allowed_classes"

-- `limit is not None and tokens > limit`
abbrev pub exceeds : ℕ → Option ℕ → Bool
exceeds tokens none = false
exceeds tokens (some limit) = ltb limit tokens

-- What a task asks of a route.
pub record Demand : Type 0 where
  pub required : List String
  pub data_classes : List String
  pub input_tokens : ℕ
  pub output_tokens : ℕ

module _ (providers : Dict ProviderDescriptor) (registry_document : Fields) (demand : Demand) where
  -- The tests of the loop on a provider that is available.
  unfoldable pub admit : String → String → ProviderDescriptor → List String → Option SelectedRoute
  admit provider_id model_ref descriptor allowed_classes =
      if not (subset demand.data_classes allowed_classes)
      then none
      else if not (subset demand.required descriptor.capabilities)
      then none
      else if exceeds demand.input_tokens descriptor.max_context_tokens
      then none
      else if exceeds demand.output_tokens descriptor.max_output_tokens
      then none
      else some
          (record { provider_id = provider_id; model_ref = model_ref; descriptor = descriptor })

  unfoldable pub try_route : Fields → Result (Option SelectedRoute)
  unfolding admit
  try_route route = do
    provider_id ←
        or_raise contract_error
          (elim (lookup "provider_id" route) [ none ↦ none | some v ↦ as_text v ])
    model_ref ←
        or_raise contract_error
          (elim (lookup "model_ref" route) [ none ↦ none | some v ↦ as_text v ])
    elim (get provider_id providers) [
      | none ↦ ok none
      | some descriptor ↦ do
        allowed_classes ← provider_allowed_classes registry_document provider_id
        ok (admit provider_id model_ref descriptor allowed_classes)
    ]

  unfoldable pub select_routes : List Fields → Result (List SelectedRoute)
  unfolding try_route
  select_routes [] = ok []
  select_routes (route ∷ routes) = do
    found ← try_route route
    rest ← select_routes routes
    ok (elim found [ none ↦ rest | some selected ↦ selected ∷ rest ])

-- `isinstance(routes, list) and all(isinstance(route, Mapping) for route in routes)`
unfoldable pub objects_of : Items → Option (List Fields)
objects_of nil = some []
objects_of (cons v items) = elim (as_object v) [
  | none ↦ none
  | some fs ↦ elim (objects_of items) [ none ↦ none | some rest ↦ some (fs ∷ rest) ]
]

abbrev pub as_objects : Value → Option (List Fields)
as_objects (array items) = objects_of items
as_objects _ = none

abbrev pub refuse_if_empty : List SelectedRoute → Result (List SelectedRoute)
refuse_if_empty [] = err (runtime_error provider_not_available false "TASK" none none)
refuse_if_empty (route ∷ routes) = ok (route ∷ routes)

unfoldable pub route_candidates :
    String
    → Dict ProviderDescriptor
    → Fields
    → Fields
    → List String
    → ℕ
    → ℕ
    → Result (List SelectedRoute)
unfolding select_routes require_mapping require_string_list objects_of
route_candidates model_profile providers registry_document model_routes data_classes input_tokens
      output_tokens =
    if mem "REFERENCE_RAW" data_classes
    then err (runtime_error data_policy_violation false "TASK" none none)
    else do
      profiles ← require_mapping model_routes "profiles"
      profile ←
          or_raise contract_error
            (elim (lookup model_profile profiles) [ none ↦ none | some v ↦ as_object v ])
      required ← require_string_list profile "required_capabilities"
      routes ←
          or_raise contract_error
            (elim (lookup "routes" profile) [ none ↦ none | some v ↦ as_objects v ])
      selected ←
          select_routes providers registry_document
            (record {
              required = required;
              data_classes = data_classes;
              input_tokens = input_tokens;
              output_tokens = output_tokens;
            })
            routes
      refuse_if_empty selected

-- The tuple of three fields, which are all to be integers.
abbrev pub three_integers : Fields → String → String → String → Result (Integer × Integer × Integer)
three_integers document first second third = do
  a ← or_raise contract_error (as_integer (lookup first document))
  b ← or_raise contract_error (as_integer (lookup second document))
  c ← or_raise contract_error (as_integer (lookup third document))
  ok (a, b, c)

abbrev entry_of : Fields → String → Result Fields
entry_of entries name =
    or_raise contract_error (elim (lookup name entries) [ none ↦ none | some v ↦ as_object v ])

unfoldable pub budget_values : Fields → String → Result (Integer × Integer × Integer)
unfolding require_mapping lookup
budget_values model_routes budget_profile = do
  budgets ← require_mapping model_routes "budget_profiles"
  budget ← entry_of budgets budget_profile
  three_integers budget "max_input_tokens" "max_output_tokens" "max_attempts"

unfoldable pub retry_values : Fields → String → Result (Integer × Integer × Integer)
unfolding require_mapping lookup
retry_values model_routes retry_policy = do
  policies ← require_mapping model_routes "retry_policies"
  policy ← entry_of policies retry_policy
  three_integers policy "transport_attempts" "format_attempts" "semantic_attempts"
