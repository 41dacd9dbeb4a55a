-- ===== src/Router/Policy.antt =====
-- A route that the router returns meets the policy, the capabilities and the limits.
use mystery_starter_kit.Common.{
  ℕ, ◌≤◌, String, ◌≡◌, subst, inl, inr, true, false, Option, none, some, List, [], ◌∷◌, arith, All,
  mem, subset, Dict, get, Bool-cases, Option-cases, length, ◌<◌,
}
use mystery_starter_kit.Failure.{ok, or_raise, ◌>>=◌, >>=-eq-ok}
use mystery_starter_kit.Json.{Value, Fields, lookup, as_text, as_object}
use mystery_starter_kit.Runtime.{ProviderDescriptor, SelectedRoute}
use mystery_starter_kit.Router.{
  contract_error, provider_allowed_classes, require_mapping, require_string_list, as_objects,
  refuse_if_empty, exceeds, Demand, admit, try_route, select_routes, route_candidates,
}

-- `tokens` stay within a limit, if there is one.
abbrev pub Fits : ℕ → Option ℕ → Type 0
Fits tokens none = Unit
Fits tokens (some limit) = tokens ≤ limit

not_exceeds : (tokens : ℕ) (limit : Option ℕ) → exceeds tokens limit ≡ false → Fits tokens limit
not_exceeds tokens none h = tt
not_exceeds tokens (some limit) h = ground arith

-- The route's provider is available, may receive every class of the data, has the capabilities, and
-- has room for the input and the output.
pub record IsEligible (providers : Dict ProviderDescriptor) (registry_document : Fields)
    (demand : Demand) (route : SelectedRoute) : Type 0 where
  pub available : get route.provider_id providers ≡ some route.descriptor
  pub allowed : List String
  pub policy : provider_allowed_classes registry_document route.provider_id ≡ ok allowed
  pub data_allowed : subset demand.data_classes allowed ≡ true
  pub capable : subset demand.required route.descriptor.capabilities ≡ true
  pub context_fits : Fits demand.input_tokens route.descriptor.max_context_tokens
  pub output_fits : Fits demand.output_tokens route.descriptor.max_output_tokens

module _ (providers : Dict ProviderDescriptor) (registry_document : Fields) (demand : Demand) where
  admit-IsEligible :
      (provider_id model_ref : String) (descriptor : ProviderDescriptor) (allowed : List String)
      (route : SelectedRoute)
      → get provider_id providers ≡ some descriptor
      → provider_allowed_classes registry_document provider_id ≡ ok allowed
      → admit providers registry_document demand provider_id model_ref descriptor allowed
        ≡ some route
      → IsEligible providers registry_document demand route
  unfolding admit
  admit-IsEligible provider_id model_ref descriptor allowed route found read e =
      let data_ok : subset demand.data_classes allowed ≡ true = ground arith in
      let capable : subset demand.required descriptor.capabilities ≡ true = ground arith in
      let small_in : exceeds demand.input_tokens descriptor.max_context_tokens ≡ false =
        ground arith in
      let small_out : exceeds demand.output_tokens descriptor.max_output_tokens ≡ false =
        ground arith in
      let same : record {
        provider_id = provider_id;
        model_ref = model_ref;
        descriptor = descriptor;
      }
          ≡ route =
        ground arith in
      subst (IsEligible providers registry_document demand) same (record {
        available = found;
        allowed = allowed;
        policy = read;
        data_allowed = data_ok;
        capable = capable;
        context_fits = not_exceeds demand.input_tokens descriptor.max_context_tokens small_in;
        output_fits = not_exceeds demand.output_tokens descriptor.max_output_tokens small_out;
      })

  try_route-IsEligible :
      (route : Fields) (selected : SelectedRoute)
      → try_route providers registry_document demand route ≡ ok (some selected)
      → IsEligible providers registry_document demand selected
  unfolding try_route
  try_route-IsEligible route selected e =
      let (provider_id, _, rest) =
        >>=-eq-ok
          (or_raise contract_error
            (elim (lookup "provider_id" route) [ none ↦ none | some v ↦ as_text v ]))
          _ e in
      let (model_ref, _, more) =
        >>=-eq-ok
          (or_raise contract_error
            (elim (lookup "model_ref" route) [ none ↦ none | some v ↦ as_text v ]))
          _ rest in
      elim (Option-cases (get provider_id providers)) [
        | inl absent ↦ absurd (ground arith)
        | inr (descriptor, found) ↦
            let run : (provider_allowed_classes registry_document provider_id >>= λ allowed.
            ok (admit providers registry_document demand provider_id model_ref descriptor allowed))
                ≡ ok (some selected) =
              ground arith in
            let (allowed, read, last) =
              >>=-eq-ok (provider_allowed_classes registry_document provider_id) _ run in
            admit-IsEligible provider_id model_ref descriptor allowed selected found read
              (ground arith)
      ]

  select_routes-IsEligible :
      (routes : List Fields) (selected : List SelectedRoute)
      → select_routes providers registry_document demand routes ≡ ok selected
      → All (IsEligible providers registry_document demand) selected
  unfolding select_routes
  select_routes-IsEligible [] selected e =
      let none_left : [] ≡ selected = cc in
      subst (All (IsEligible providers registry_document demand)) none_left tt
  select_routes-IsEligible (route ∷ routes) selected e =
      let (found, tried, more) =
        >>=-eq-ok (try_route providers registry_document demand route) _ e in
      let (rest, chosen, last) =
        >>=-eq-ok (select_routes providers registry_document demand routes) _ more in
      elim (Option-cases found) [
        | inl refused ↦
            let same : rest ≡ selected = ground arith in
            subst (All (IsEligible providers registry_document demand)) same
              (select_routes-IsEligible routes rest chosen)
        | inr (first, kept) ↦
            let same : first ∷ rest ≡ selected = ground arith in
            subst (All (IsEligible providers registry_document demand)) same (
              try_route-IsEligible route first (ground arith),
              select_routes-IsEligible routes rest chosen,
            )
      ]

-- Routes that are returned are at least one, they are never for raw reference material, and every one
-- of them meets the data policy of its provider, the capabilities that the model profile asks for, and
-- the provider's limits on input and output.
pub route_candidates-IsEligible :
    (model_profile : String) (providers : Dict ProviderDescriptor)
    (registry_document model_routes : Fields) (data_classes : List String)
    (input_tokens output_tokens : ℕ) (selected : List SelectedRoute)
    → route_candidates model_profile providers registry_document model_routes data_classes
        input_tokens output_tokens
      ≡ ok selected
    → (0 < length selected)
      × (mem "REFERENCE_RAW" data_classes ≡ false)
      × ((profiles : Fields) × (profile : Fields) × (required : List String) × (require_mapping
              model_routes "profiles"
            ≡ ok profiles)
          × (lookup model_profile profiles ≡ some (Value.object profile))
          × (require_string_list profile "required_capabilities" ≡ ok required)
          × All
              (IsEligible providers registry_document (record {
                required = required;
                data_classes = data_classes;
                input_tokens = input_tokens;
                output_tokens = output_tokens;
              }))
              selected)
unfolding route_candidates
route_candidates-IsEligible model_profile providers registry model_routes data_classes input output
      selected e =
    elim (Bool-cases (mem "REFERENCE_RAW" data_classes)) [
      | inl raw ↦ absurd (ground arith)
      | inr clean ↦
          let (profiles, read, e1) =
            >>=-eq-ok (require_mapping model_routes "profiles") _
              (rw (clean, route_candidates) at e) in
          let (profile, known, e2) =
            >>=-eq-ok
              (or_raise contract_error
                (elim (lookup model_profile profiles) [ none ↦ none | some v ↦ as_object v ]))
              _ e1 in
          let (required, wanted, e3) =
            >>=-eq-ok (require_string_list profile "required_capabilities") _ e2 in
          let (routes, listed, e4) =
            >>=-eq-ok
              (or_raise contract_error
                (elim (lookup "routes" profile) [ none ↦ none | some v ↦ as_objects v ]))
              _ e3 in
          let (chosen, run, last) =
            >>=-eq-ok
              (select_routes providers registry
                (record {
                  required = required;
                  data_classes = data_classes;
                  input_tokens = input;
                  output_tokens = output;
                })
                routes)
              _ e4 in
          let (same, some_left) = not_refused chosen selected last in
          (
            some_left,
            clean,
            (
              profiles,
              profile,
              required,
              read,
              ground arith,
              wanted,
              subst (All _) same (select_routes-IsEligible providers registry _ routes chosen run),
            ),
          )
    ]
  where
    not_refused :
        (chosen selected : List SelectedRoute)
        → refuse_if_empty chosen ≡ ok selected
        → (chosen ≡ selected) × (0 < length selected)
    not_refused [] selected h = absurd (cc)
    not_refused (route ∷ routes) selected h = ground arith
