-- ===== src/Requirements/Meaning.antt =====
-- Conditions as an abstract syntax with a total Boolean meaning, and their JSON form. The operators of
-- VALIDATORS/requirements.py are all there but `channel_version_at_least`, which can raise.
use mystery_starter_kit.Common.{
  String, ◌≡◌, refl, Bool, true, false, not, ◌&&◌, ◌||◌, Option, List, [], ◌∷◌, arith, is_some, all,
}
use mystery_starter_kit.Failure.{ok}
use mystery_starter_kit.Json.{
  Value, Items, boolean, text, array, object, nil, cons, end, field, lookup, py_eq, get_or_none,
  as_texts, texts, texts_of,
}
use mystery_starter_kit.Requirements.{
  Documents, enabled_capability, production_footprint_is_enforced, production_manifest_required,
  object_at, one_of, operator_matches, requirement_matches, all_items, any_items,
}

mutual
  pub data Requirement : Type 0 where
    always : Requirement
    every some_one : Requirements → Requirement
    never_holds : Requirement → Requirement
    capability_enabled : String → Requirement
    source_truth_in story_source_mode_in : List String → Requirement
    config_equals : String → Value → Requirement
    config_fields_present : String → List String → Requirement
    artifact_status : String → String → Requirement
    artifact_exists : String → Requirement
    artifact_field_equals : String → String → Value → Requirement
    production_footprint_enforced : Requirement
    manifest_required : Requirement

  pub data Requirements : Type 0 where
    none_left : Requirements
    also : Requirement → Requirements → Requirements

abbrev single : String → Value → Value
single operator value = object (field operator value end)

-- The JSON form.
mutual
  pub encode : Requirement → Value
  encode always = single "always" (boolean true)
  encode (every rs) = single "all" (array (encode_all rs))
  encode (some_one rs) = single "any" (array (encode_all rs))
  encode (never_holds r) = single "not" (encode r)
  encode (capability_enabled c) = single "capability_enabled" (text c)
  encode (source_truth_in ss) = single "source_truth_in" (array (texts ss))
  encode (story_source_mode_in ss) = single "story_source_mode_in" (array (texts ss))
  encode (config_equals k v) = single "config_equals" (array (cons (text k) (cons v nil)))
  encode (config_fields_present k ks) = single "config_fields_present" (array (texts (k ∷ ks)))
  encode (artifact_status a s) =
      single "artifact_status" (array (cons (text a) (cons (text s) nil)))
  encode (artifact_exists a) = single "artifact_exists" (text a)
  encode (artifact_field_equals a k v) =
      single "artifact_field_equals" (array (cons (text a) (cons (text k) (cons v nil))))
  encode production_footprint_enforced = single "production_footprint_enforced" (boolean true)
  encode manifest_required = single "production_manifest_required" (boolean true)

  pub encode_all : Requirements → Items
  encode_all none_left = nil
  encode_all (also r rs) = cons (encode r) (encode_all rs)

field_is : Documents → String → String → Value → Bool
field_is d a k v = elim (object_at a (Option.some d.artifacts)) [
  | Option.none ↦ false
  | Option.some fs ↦ py_eq (get_or_none k fs) v
]

-- The meaning, with no order of evaluation and no errors.
mutual
  pub holds : Documents → Requirement → Bool
  holds d always = true
  holds d (every rs) = all_hold d rs
  holds d (some_one rs) = one_holds d rs
  holds d (never_holds r) = not (holds d r)
  holds d (capability_enabled c) = enabled_capability d.channel c
  holds d (source_truth_in ss) =
      one_of (get_or_none "source_truth_classification" d.production_config) ss
  holds d (story_source_mode_in ss) =
      one_of (get_or_none "story_source_mode" d.production_config) ss
  holds d (config_equals k v) = py_eq (get_or_none k d.production_config) v
  holds d (config_fields_present k ks) =
      all (λ key. is_some (lookup key d.production_config)) (k ∷ ks)
  holds d (artifact_status a s) = field_is d a "status" (text s)
  holds d (artifact_exists a) = is_some (lookup a d.artifacts)
  holds d (artifact_field_equals a k v) = field_is d a k v
  holds d production_footprint_enforced = production_footprint_is_enforced d.artifacts
  holds d manifest_required = production_manifest_required d.artifacts

  pub all_hold : Documents → Requirements → Bool
  all_hold d none_left = true
  all_hold d (also r rs) = holds d r && all_hold d rs

  pub one_holds : Documents → Requirements → Bool
  one_holds d none_left = false
  one_holds d (also r rs) = holds d r || one_holds d rs

texts_of-texts : (ss : List String) → texts_of (texts ss) ≡ Option.some ss
unfolding texts_of
texts_of-texts [] = refl
texts_of-texts (s ∷ ss) = rw (texts_of-texts ss)

as_texts-texts : (ss : List String) → as_texts (array (texts ss)) ≡ Option.some ss
unfolding as_texts
as_texts-texts ss = texts_of-texts ss

mutual
  unfolding requirement_matches operator_matches holds encode field_is py_eq

  matches_means :
      (d : Documents) (r : Requirement) → requirement_matches d (encode r) ≡ ok (holds d r)
  matches_means d always = refl
  matches_means d (every rs) = all_means d rs
  matches_means d (some_one rs) = any_means d rs
  matches_means d (never_holds r) = rw (matches_means d r)
  matches_means d (capability_enabled c) = refl
  matches_means d (source_truth_in ss) = ground (arith, as_texts-texts ss)
  matches_means d (story_source_mode_in ss) = ground (arith, as_texts-texts ss)
  matches_means d (config_equals k v) = refl
  matches_means d (config_fields_present k ks) = ground (arith, as_texts-texts (k ∷ ks))
  matches_means d (artifact_status a s) = refl
  matches_means d (artifact_exists a) = refl
  matches_means d (artifact_field_equals a k v) = refl
  matches_means d production_footprint_enforced = refl
  matches_means d manifest_required = refl

  all_means : (d : Documents) (rs : Requirements) → all_items d (encode_all rs) ≡ ok (all_hold d rs)
  all_means d none_left = refl
  all_means d (also r rs) = ground (arith, matches_means d r, all_means d rs)

  any_means :
      (d : Documents) (rs : Requirements) → any_items d (encode_all rs) ≡ ok (one_holds d rs)
  any_means d none_left = refl
  any_means d (also r rs) = ground (arith, matches_means d r, any_means d rs)

-- The evaluator, run on the JSON form of a condition (nested to any depth, of every operator but
-- `channel_version_at_least`), raises no error, and its answer is the meaning of the condition as a
-- Boolean formula, whatever the three documents hold.
pub requirement_matches-encode :
    (d : Documents) (r : Requirement) → requirement_matches d (encode r) ≡ ok (holds d r)
requirement_matches-encode d r = matches_means d r
