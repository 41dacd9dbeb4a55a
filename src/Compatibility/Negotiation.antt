-- ===== src/Compatibility/Negotiation.antt =====
-- `evaluate_compatibility` of VALIDATORS/compatibility.py and the functions that it calls. The canonical JSON
-- text of a channel and its SHA-256 are one parameter, `channel_dna_sha256`.
use mystery_starter_kit.Common.{
  String, Bool, not, ◌&&◌, ◌==◌, Option, none, some, List, [], ◌∷◌, ◌++◌, mem, all, keep, Dict, put,
  keys, is_some, if◌then◌else◌,
}
use mystery_starter_kit.Failure.{Result, ok, err, configuration_error, ◌>>=◌}
use mystery_starter_kit.Json.{Value, Fields, text, end, field, lookup, entries}
use mystery_starter_kit.Requirements.Version.{Version, parse_semantic_version, at_least}
use mystery_starter_kit.Dependency.Changes.{sorted_set}
use mystery_starter_kit.Compatibility.Report.{
  CompatibilityResult, RequiredCapabilityStatus, OptionalCapabilityStatus, CapabilitySource,
  CompatibilityCode, CompatibilityError, ResolvedCapability, CompatibilityReport, make_error,
  require_mapping, require_string, require_string_list, optional_string, mapping_or_empty,
}

abbrev unsupported : String → String → String → List CompatibilityError
unsupported channel_version minimum_version maximum_version =
    make_error CompatibilityCode.unsupported_schema_version (
      field "schema_version" (text channel_version) (
        field "min_inclusive" (text minimum_version)
          (field "max_exclusive" (text maximum_version) end)))
    ∷ []

-- `minimum <= version < maximum`
abbrev pub in_range : Version → Version → Version → Bool
in_range minimum version maximum = at_least version minimum && not (at_least version maximum)

abbrev pub invalid_version : String → List CompatibilityError
invalid_version channel_version =
    make_error CompatibilityCode.invalid_schema_version
      (field "schema_version" (text channel_version) end)
    ∷ []

-- Behind the `try`, which only `InvalidSemanticVersionError` leaves early.
unfoldable pub evaluate_range :
    String → Version → String → String → Result (List CompatibilityError)
unfolding at_least
evaluate_range channel_version version minimum_version maximum_version = do
  minimum ← parse_semantic_version minimum_version
  maximum ← parse_semantic_version maximum_version
  if at_least minimum maximum
      then err (configuration_error "schema version range")
      else if in_range minimum version maximum
      then ok []
      else ok (unsupported channel_version minimum_version maximum_version)

unfoldable pub evaluate_version : String → String → String → Result (List CompatibilityError)
unfolding evaluate_range
evaluate_version channel_version minimum_version maximum_version =
    elim (parse_semantic_version channel_version) [
      | err _ ↦ ok (invalid_version channel_version)
      | ok version ↦ evaluate_range channel_version version minimum_version maximum_version
    ]

-- `capability in capabilities`
abbrev pub has : String → Fields → Bool
has capability capabilities = is_some (lookup capability capabilities)

abbrev pub status_of : Fields → String → RequiredCapabilityStatus
status_of capabilities capability =
    if has capability capabilities
    then RequiredCapabilityStatus.supported
    else RequiredCapabilityStatus.missing

-- The dictionary of statuses.
unfoldable pub required_statuses :
    List String → Fields → Dict RequiredCapabilityStatus → Dict RequiredCapabilityStatus
required_statuses [] capabilities statuses = statuses
required_statuses (capability ∷ required) capabilities statuses =
    required_statuses required capabilities
      (put capability (status_of capabilities capability) statuses)

abbrev pub capability_error : CompatibilityCode → String → CompatibilityError
capability_error code capability = make_error code (field "capability" (text capability) end)

-- The list of errors.
unfoldable pub missing_errors : Dict RequiredCapabilityStatus → List CompatibilityError
missing_errors [] = []
missing_errors ((capability, RequiredCapabilityStatus.supported) ∷ statuses) =
    missing_errors statuses
missing_errors ((capability, RequiredCapabilityStatus.missing) ∷ statuses) =
    capability_error CompatibilityCode.missing_required_capability capability
    ∷ missing_errors statuses

unfoldable pub evaluate_required_capabilities :
    List String → Fields → Dict RequiredCapabilityStatus × List CompatibilityError
unfolding required_statuses missing_errors
evaluate_required_capabilities required capabilities =
    let statuses = required_statuses required capabilities [] in (statuses, missing_errors statuses)

-- `statuses`, `resolved` and `errors` of the loop.
pub record Negotiated : Type 0 where
  pub statuses : Dict OptionalCapabilityStatus
  pub resolved : Dict ResolvedCapability
  pub errors : List CompatibilityError

abbrev pub resolve :
    String → OptionalCapabilityStatus → CapabilitySource → Value → Negotiated → Negotiated
resolve capability status source value negotiated = record negotiated {
  statuses = put capability status negotiated.statuses;
  resolved = put capability (record { source = source; value = value }) negotiated.resolved;
}

abbrev pub unresolved : String → Negotiated → Negotiated
unresolved capability negotiated = record negotiated {
  statuses = put capability OptionalCapabilityStatus.missing_default negotiated.statuses;
  errors =
      negotiated.errors
      ++ (capability_error CompatibilityCode.missing_optional_default capability ∷ []);
}

abbrev pub settled : String → Option Value → Option Value → Negotiated → Negotiated
settled capability (some value) _ negotiated =
    resolve capability OptionalCapabilityStatus.supported CapabilitySource.channel value negotiated
settled capability none (some value) negotiated =
    resolve capability OptionalCapabilityStatus.missing_use_default
      CapabilitySource.standard_default value negotiated
settled capability none none negotiated = unresolved capability negotiated

-- The loop, from what it has collected so far.
unfoldable pub negotiate : List String → Fields → Fields → Negotiated → Negotiated
negotiate [] capabilities defaults negotiated = negotiated
negotiate (capability ∷ optional) capabilities defaults negotiated =
    negotiate optional capabilities defaults
      (settled capability (lookup capability capabilities) (lookup capability defaults) negotiated)

unfoldable pub evaluate_optional_capabilities : List String → Fields → Fields → Negotiated
unfolding negotiate
evaluate_optional_capabilities optional capabilities defaults =
    negotiate optional capabilities defaults (record { statuses = []; resolved = []; errors = [] })

abbrev pub known_channel_fields : List String
known_channel_fields =
    "$schema" ∷ "schema_family" ∷ "schema_version" ∷ "content_version" ∷ "channel_id" ∷ "identity"
    ∷ "capabilities" ∷ []

unfoldable pub family_errors : String → String → List CompatibilityError
family_errors expected actual =
    if actual == expected
    then []
    else make_error CompatibilityCode.unsupported_schema_family
        (field "expected" (text expected) (field "actual" (text actual) end))
      ∷ []

abbrev pub verdict : List CompatibilityError → CompatibilityResult
verdict [] = CompatibilityResult.pass
verdict (_ ∷ _) = CompatibilityResult.fail

-- `sorted(set(fields) - set(known))`
unfoldable pub unknown : Fields → List String → List String
unfolding sorted_set
unknown fields known = sorted_set (keep (λ name. not (mem name known)) (keys (entries fields)))

abbrev pub disjoint : List String → List String → Bool
disjoint required optional = all (λ capability. not (mem capability optional)) required

module _ (channel_dna_sha256 : Fields → String) where
  -- From the first evaluation to the end, when the documents have been read.
  unfoldable pub compatibility_report :
      Fields
      → List String
      → List String
      → Fields
      → String
      → List CompatibilityError
      → String
      → String
      → CompatibilityReport
  unfolding unknown
  compatibility_report channel required optional default_capabilities expected_family version_errors
        contract_family contract_version =
      let channel_capabilities = mapping_or_empty channel "capabilities" in
      let (statuses, required_errors) =
        evaluate_required_capabilities required channel_capabilities in
      let negotiated =
        evaluate_optional_capabilities optional channel_capabilities default_capabilities in
      let actual_family = optional_string channel "schema_family" in
      let errors =
        family_errors expected_family actual_family
        ++ (version_errors ++ (required_errors ++ negotiated.errors)) in
      record {
        contract_family = contract_family;
        contract_version = contract_version;
        channel = record {
          channel_id = optional_string channel "channel_id";
          schema_family = actual_family;
          schema_version = optional_string channel "schema_version";
          content_version = optional_string channel "content_version";
          channel_dna_sha256 = channel_dna_sha256 channel;
          relative_path = none;
        };
        compatibility = verdict errors;
        required_capabilities = statuses;
        optional_capabilities = negotiated.statuses;
        resolved_optional_capabilities = negotiated.resolved;
        ignored_unknown_fields = unknown channel known_channel_fields;
        ignored_unknown_capabilities = unknown channel_capabilities (required ++ optional);
        errors = errors;
      }

  unfoldable pub evaluate_compatibility : Fields → Fields → Fields → Result CompatibilityReport
  evaluate_compatibility contract defaults channel = do
    interface ← require_mapping contract "channel_dna_interface"
    supported_versions ← require_mapping interface "supported_schema_versions"
    required ← require_string_list interface "required_capabilities"
    optional ← require_string_list interface "optional_capabilities"
    if not (disjoint required optional) then err (configuration_error "capability overlap") else do
      default_capabilities ← require_mapping defaults "optional_capability_defaults"
      expected_family ← require_string interface "schema_family"
      minimum ← require_string supported_versions "min_inclusive"
      maximum ← require_string supported_versions "max_exclusive"
      version_errors ← evaluate_version (optional_string channel "schema_version") minimum maximum
      contract_family ← require_string contract "contract_family"
      contract_version ← require_string contract "contract_version"
      ok (
          compatibility_report channel required optional default_capabilities expected_family
            version_errors contract_family contract_version)
