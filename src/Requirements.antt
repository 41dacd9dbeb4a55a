-- ===== src/Requirements.antt =====
-- VALIDATORS/requirements.py: the conditions under which a task runs or an artifact is needed, as
-- JSON expressions, and their evaluation. `Version` is `parse_semantic_version`.
pub mod Version
pub mod Meaning
use mystery_starter_kit.Common.{
  String, Bool, true, false, not, ◌&&◌, ◌||◌, ◌==◌, Option, none, some, List, [], ◌∷◌, is_some, mem,
  all, if◌then◌else◌,
}
use mystery_starter_kit.Failure.{Result, ok, err, configuration_error, ◌>>=◌}
use mystery_starter_kit.Json.{
  Value, Items, Fields, null, boolean, text, array, object, nil, cons, end, field, lookup, py_eq,
  get_or_none, as_text, as_object, as_texts, is_true,
}
use Version.{parse_semantic_version, at_least}

-- The three documents that a condition is read against; `artifacts` maps a name to its document.
pub record Documents : Type 0 where
  pub production_config : Fields
  pub channel : Fields
  pub artifacts : Fields

-- `x.get(key)` of a value that may be no object.
abbrev pub member : String → Option Fields → Option Value
member k none = none
member k (some fs) = lookup k fs

abbrev pub object_at : String → Option Fields → Option Fields
object_at k fs = elim (member k fs) [ none ↦ none | some v ↦ as_object v ]

abbrev pub flag_at : String → Option Fields → Bool
flag_at k fs = elim (member k fs) [ none ↦ false | some v ↦ is_true v ]

unfoldable pub enabled_capability : Fields → String → Bool
unfolding lookup
enabled_capability channel capability_id =
    flag_at "enabled" (object_at capability_id (object_at "capabilities" (some channel)))

unfoldable pub production_footprint_is_enforced : Fields → Bool
unfolding lookup
production_footprint_is_enforced artifacts =
    flag_at "enforce_final_footprint"
      (object_at "production_limits" (object_at "project_constraints" (some artifacts)))

unfoldable pub broadcast_readable_v2_is_active : Fields → Bool
unfolding lookup py_eq
broadcast_readable_v2_is_active artifacts =
    let config = object_at "broadcast_readable_config" (some artifacts) in
    elim config [
      | none ↦ false
      | some fs ↦
          flag_at "enabled" (some fs)
          && py_eq (get_or_none "profile_id" fs) (text "BROADCAST_READABLE_SCRIPT")
          && py_eq (get_or_none "profile_version" fs) (text "2.0.0")
    ]

unfoldable pub production_manifest_required : Fields → Bool
unfolding production_footprint_is_enforced broadcast_readable_v2_is_active
production_manifest_required artifacts =
    production_footprint_is_enforced artifacts || broadcast_readable_v2_is_active artifacts

abbrev pub malformed {ℓ} : {A : Type ℓ} → Result A
malformed = err (configuration_error "requirement")

-- `document.get(key) in names`, for a list of texts.
abbrev pub one_of : Value → List String → Bool
one_of v names = elim (as_text v) [ none ↦ false | some s ↦ mem s names ]

-- `[artifact, status]`
artifact_status : Fields → Value → Result Bool
artifact_status artifacts (array (cons (text name) (cons (text status) nil))) =
    ok (elim (object_at name (some artifacts)) [
      | none ↦ false
      | some fs ↦ py_eq (get_or_none "status" fs) (text status)
    ])
artifact_status artifacts _ = malformed

-- `[artifact, field, value]`
artifact_field_equals : Fields → Value → Result Bool
artifact_field_equals artifacts (array (cons (text name) (cons (text key) (cons expected nil)))) =
    ok (elim (object_at name (some artifacts)) [
      | none ↦ false
      | some fs ↦ py_eq (get_or_none key fs) expected
    ])
artifact_field_equals artifacts _ = malformed

-- `[field, value]`
config_equals : Fields → Value → Result Bool
config_equals config (array (cons (text key) (cons expected nil))) =
    ok (py_eq (get_or_none key config) expected)
config_equals config _ = malformed

config_fields_present : Fields → Value → Result Bool
config_fields_present config value = elim (as_texts value) [
  | none ↦ malformed
  | some names ↦ elim names [
    | [] ↦ malformed
    | name ∷ rest ↦ ok (all (λ key. is_some (lookup key config)) (name ∷ rest))
  ]
]

channel_version_at_least : Fields → Value → Result Bool
channel_version_at_least config value = elim (as_text value) [
  | none ↦ malformed
  | some least ↦ elim (as_text (get_or_none "channel_content_version" config)) [
    | none ↦ malformed
    | some version ↦ do
      actual ← parse_semantic_version version
      bound ← parse_semantic_version least
      ok (at_least actual bound)
  ]
]

abbrev texts_test : Value → (List String → Bool) → Result Bool
texts_test value test = elim (as_texts value) [ none ↦ malformed | some names ↦ ok (test names) ]

abbrev text_test : Value → (String → Bool) → Result Bool
text_test value test = elim (as_text value) [ none ↦ malformed | some name ↦ ok (test name) ]

abbrev true_test : Value → Bool → Result Bool
true_test value answer = if is_true value then ok answer else malformed

-- The operators that do not hold other conditions, in the order of the code.
unfoldable pub operator_matches : Documents → String → Value → Result Bool
unfolding artifact_status artifact_field_equals config_equals config_fields_present
    channel_version_at_least
operator_matches d operator value =
    if operator == "capability_enabled"
    then text_test value (enabled_capability d.channel)
    else if operator == "source_truth_in"
    then texts_test value (one_of (get_or_none "source_truth_classification" d.production_config))
    else if operator == "story_source_mode_in"
    then texts_test value (one_of (get_or_none "story_source_mode" d.production_config))
    else if operator == "config_equals"
    then config_equals d.production_config value
    else if operator == "config_fields_present"
    then config_fields_present d.production_config value
    else if operator == "channel_version_at_least"
    then channel_version_at_least d.production_config value
    else if operator == "artifact_status"
    then artifact_status d.artifacts value
    else if operator == "artifact_exists"
    then text_test value (λ name. is_some (lookup name d.artifacts))
    else if operator == "artifact_field_equals"
    then artifact_field_equals d.artifacts value
    else if operator == "production_footprint_enforced"
    then true_test value (production_footprint_is_enforced d.artifacts)
    else if operator == "production_manifest_required"
    then true_test value (production_manifest_required d.artifacts)
    else malformed

abbrev negate : Result Bool → Result Bool
negate (ok b) = ok (not b)
negate (err e) = err e

-- `predicate == {"always": True}` for a one-field object.
abbrev is_always : String → Value → Bool
is_always operator value = (operator == "always") && py_eq value (boolean true)

-- A generator in `all` or `any` stops at the item that decides: what stands behind is not read.
unfoldable mutual
  pub requirement_matches : Documents → Value → Result Bool
  requirement_matches d (text s) = if s == "ALWAYS" then ok true else malformed
  requirement_matches d (object (field operator value end)) =
      let every = all_of d value in
      let some_one = any_of d value in
      let inner = requirement_matches d value in
      if is_always operator value
      then ok true
      else if operator == "all"
      then every
      else if operator == "any"
      then some_one
      else if operator == "not"
      then negate inner
      else operator_matches d operator value
  requirement_matches d _ = malformed

  pub all_of : Documents → Value → Result Bool
  all_of d (array items) = all_items d items
  all_of d _ = malformed

  pub any_of : Documents → Value → Result Bool
  any_of d (array items) = any_items d items
  any_of d _ = malformed

  pub all_items : Documents → Items → Result Bool
  all_items d nil = ok true
  all_items d (cons item items) =
      let rest = all_items d items in
      do holds ← requirement_matches d item; if holds then rest else ok false

  pub any_items : Documents → Items → Result Bool
  any_items d nil = ok false
  any_items d (cons item items) =
      let rest = any_items d items in
      do holds ← requirement_matches d item; if holds then ok true else rest

unfoldable pub crime_v2_candidate_policy_applies : Fields → Fields → Result Bool
unfolding enabled_capability parse_semantic_version at_least
crime_v2_candidate_policy_applies production_config channel =
    elim (as_text (get_or_none "channel_content_version" production_config)) [
      | none ↦ malformed
      | some version ↦ do
        actual ← parse_semantic_version version
        bound ← parse_semantic_version "2.0.0"
        ok (at_least actual bound && enabled_capability channel "CRIME_PSYCHOLOGY_POLICY")
    ]
