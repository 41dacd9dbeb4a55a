-- ===== src/Examples/Negotiating.antt =====
-- VALIDATORS/compatibility.py with a contract of one required and two optional capabilities, of which the
-- channel brings one itself and the defaults the other.
use mystery_starter_kit.Common.{String, ◌≡◌, refl, ◌↔◌, none, [], ◌∷◌, mem, get, put, if◌then◌else◌}
use mystery_starter_kit.Failure.{ok}
use mystery_starter_kit.Json.{Fields, text, array, object, nil, cons, end, field, texts, lookup}
use mystery_starter_kit.Requirements.Version.{parse_semantic_version, at_least}
use mystery_starter_kit.Compatibility.Report.{
  CompatibilityResult, RequiredCapabilityStatus, OptionalCapabilityStatus, CapabilitySource,
  CompatibilityReport, optional_string, mapping_or_empty, require_mapping, require_string,
  require_string_list,
}
use mystery_starter_kit.Compatibility.Negotiation.{
  evaluate_compatibility, compatibility_report, evaluate_version, evaluate_required_capabilities,
  evaluate_optional_capabilities, family_errors,
}
use mystery_starter_kit.Compatibility.Binding.{evaluate_channel_binding}
use mystery_starter_kit.Compatibility.Verdict.{
  Terms, Reads, IsCompatible, evaluate_compatibility_iff,
}
use mystery_starter_kit.Compatibility.Resolution.{resolution, evaluate_compatibility-resolution}
use mystery_starter_kit.Compatibility.Pinned.{IsBound, evaluate_channel_binding_iff}

abbrev contract : Fields
contract = field "contract_family" (text "standard") (
    field "contract_version" (text "1.0.0") (
      field "channel_dna_interface"
        (object (
          field "schema_family" (text "channel-dna") (
            field "supported_schema_versions"
              (object
                (field "min_inclusive" (text "2.0.0") (field "max_exclusive" (text "3.0.0") end)))
              (field "required_capabilities" (array (texts ("tone" ∷ [])))
                (field "optional_capabilities" (array (texts ("pacing" ∷ "music" ∷ []))) end)))))
        end))

abbrev defaults : Fields
defaults = field "optional_capability_defaults" (object (field "music" (text "none") end)) end

abbrev channel : Fields
channel = field "schema_family" (text "channel-dna") (
    field "schema_version" (text "2.10.0") (
      field "content_version" (text "1.2.0") (
        field "capabilities"
          (object (field "tone" (text "dark") (field "pacing" (text "slow") end))) end)))

abbrev fingerprint : Fields → String
fingerprint fields = "sha"

abbrev report : CompatibilityReport
report = record {
  contract_family = "standard";
  contract_version = "1.0.0";
  channel = record {
    channel_id = "";
    schema_family = "channel-dna";
    schema_version = "2.10.0";
    content_version = "1.2.0";
    channel_dna_sha256 = "sha";
    relative_path = none;
  };
  compatibility = CompatibilityResult.pass;
  required_capabilities = ("tone", RequiredCapabilityStatus.supported) ∷ [];
  optional_capabilities =
      ("pacing", OptionalCapabilityStatus.supported)
      ∷ ("music", OptionalCapabilityStatus.missing_use_default)
      ∷ [];
  resolved_optional_capabilities =
      ("pacing", record { source = CapabilitySource.channel; value = text "slow" })
      ∷ ("music", record { source = CapabilitySource.standard_default; value = text "none" })
      ∷ [];
  ignored_unknown_fields = [];
  ignored_unknown_capabilities = [];
  errors = [];
}

evaluated : evaluate_compatibility fingerprint contract defaults channel ≡ ok report
unfolding evaluate_compatibility compatibility_report evaluate_version
    evaluate_required_capabilities evaluate_optional_capabilities family_errors require_mapping
    require_string require_string_list optional_string mapping_or_empty parse_semantic_version
    at_least lookup mem put
evaluated = refl

evaluate_compatibility_iff_example :
    (terms : Terms) × Reads contract defaults terms
    × ((report.compatibility ≡ CompatibilityResult.pass) ↔ IsCompatible channel terms)
evaluate_compatibility_iff_example =
    evaluate_compatibility_iff fingerprint contract defaults channel evaluated

evaluate_compatibility-resolution_example :
    (terms : Terms) × Reads contract defaults terms
    × ((c : String)
        → get c report.resolved_optional_capabilities ≡ (
            if mem c terms.optional
            then resolution
                (lookup c (mapping_or_empty channel "capabilities"))
                (lookup c terms.defaults)
            else none))
evaluate_compatibility-resolution_example =
    evaluate_compatibility-resolution fingerprint contract defaults channel evaluated

abbrev config : Fields
config = field "channel_content_version" (text "1.2.0") end

abbrev manifest : Fields
manifest =
    field "available_versions"
      (array (
        cons
          (object
            (field "content_version" (text "1.2.0") (field "channel_dna_sha256" (text "sha") end)))
          nil))
      end

evaluate_channel_binding_iff_example :
    ((evaluate_channel_binding fingerprint report config manifest channel).compatibility
      ≡ CompatibilityResult.pass)
    ↔ ((report.errors ≡ [])
        × IsBound manifest
            (optional_string config "channel_content_version")
            (optional_string channel "content_version")
            (fingerprint channel))
evaluate_channel_binding_iff_example =
    evaluate_channel_binding_iff fingerprint report config manifest channel
