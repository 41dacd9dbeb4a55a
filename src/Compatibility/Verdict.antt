-- ===== src/Compatibility/Verdict.antt =====
-- What `evaluate_compatibility` of VALIDATORS/compatibility.py decides.
use mystery_starter_kit.Common.{
  append-nil_iff, String, true, ◌||◌, ◌≡◌, refl, sym, subst, ◌↔◌, ◌⊎◌, List, [], ◌++◌, Elem,
}
use mystery_starter_kit.Failure.{ok, configuration_error, >>=-eq-ok, guard-eq-ok, ok_injective}
use mystery_starter_kit.Json.{Fields}
use mystery_starter_kit.Compatibility.Report.{
  CompatibilityResult, CompatibilityError, CompatibilityReport, require_mapping, require_string,
  require_string_list, optional_string, mapping_or_empty,
}
use mystery_starter_kit.Compatibility.Negotiation.{
  has, evaluate_required_capabilities, Negotiated, negotiate, evaluate_optional_capabilities,
  family_errors, disjoint, evaluate_compatibility, evaluate_version, compatibility_report,
}
use mystery_starter_kit.Compatibility.Versions.{IsInRange, evaluate_version_iff}
use mystery_starter_kit.Compatibility.Errors.{
  required_errors_iff, negotiate_errors_iff, family_errors_iff, verdict_iff, all_iff, or_iff,
}

-- What a contract and its defaults ask of a channel.
pub record Terms : Type 0 where
  pub family : String
  pub minimum : String
  pub maximum : String
  pub required : List String
  pub optional : List String
  pub defaults : Fields

-- Where these stand in the two documents.
abbrev pub Reads : Fields → Fields → Terms → Type 0
Reads contract defaults terms =
    (interface : Fields) × (versions : Fields) × (require_mapping contract "channel_dna_interface"
      ≡ ok interface)
    × (require_mapping interface "supported_schema_versions" ≡ ok versions)
    × (require_string_list interface "required_capabilities" ≡ ok terms.required)
    × (require_string_list interface "optional_capabilities" ≡ ok terms.optional)
    × (require_mapping defaults "optional_capability_defaults" ≡ ok terms.defaults)
    × (require_string interface "schema_family" ≡ ok terms.family)
    × (require_string versions "min_inclusive" ≡ ok terms.minimum)
    × (require_string versions "max_exclusive" ≡ ok terms.maximum)

abbrev pub Has : String → Fields → Type 0
Has capability capabilities = has capability capabilities ≡ true

abbrev pub IsCompatible : Fields → Terms → Type 0
IsCompatible channel terms =
    (optional_string channel "schema_family" ≡ terms.family)
    × IsInRange terms.minimum (optional_string channel "schema_version") terms.maximum
    × ((c : String) → Elem c terms.required → Has c (mapping_or_empty channel "capabilities"))
    × ((c : String)
        → Elem c terms.optional
        → Has c (mapping_or_empty channel "capabilities") ⊎ Has c terms.defaults)

module _ (channel_dna_sha256 : Fields → String) where
  compatibility_report_iff :
      (channel : Fields) (terms : Terms) (version_errors : List CompatibilityError)
      (name version : String)
      → evaluate_version (optional_string channel "schema_version") terms.minimum terms.maximum
        ≡ ok version_errors
      → ((compatibility_report channel_dna_sha256 channel terms.required terms.optional
            terms.defaults terms.family version_errors name version).compatibility
          ≡ CompatibilityResult.pass)
        ↔ IsCompatible channel terms
  unfolding compatibility_report evaluate_optional_capabilities
  compatibility_report_iff channel terms version_errors name version evaluated =
      let capabilities = mapping_or_empty channel "capabilities" in
      let actual = optional_string channel "schema_family" in
      let start : Negotiated = record { statuses = []; resolved = []; errors = [] } in
      let required_errors = (evaluate_required_capabilities terms.required capabilities).1 in
      let optional_errors = (negotiate terms.optional capabilities terms.defaults start).errors in
      let same_family = family_errors_iff terms.family actual in
      let in_bounds =
        evaluate_version_iff (optional_string channel "schema_version") terms.minimum terms.maximum
          evaluated in
      let all_required = required_errors_iff terms.required capabilities in
      let all_optional = negotiate_errors_iff terms.optional capabilities terms.defaults start in
      let every = all_iff (λ c. has c capabilities) terms.required in
      let each = all_iff (λ c. has c capabilities || has c terms.defaults) terms.optional in
      let first =
        append-nil_iff (family_errors terms.family actual)
          (version_errors ++ (required_errors ++ optional_errors)) in
      let second = append-nil_iff version_errors (required_errors ++ optional_errors) in
      let third = append-nil_iff required_errors optional_errors in
      let passes = verdict_iff (
        family_errors terms.family actual
        ++ (version_errors ++ (required_errors ++ optional_errors))) in
      (
        λ p.
            let (f, rest) = first.0 (passes.0 p) in
            let (v, rest') = second.0 rest in
            let (r, o) = third.0 rest' in
            (
              same_family.0 f,
              in_bounds.0 v,
              every.0 (all_required.0 r),
              λ c m.
                  (or_iff (has c capabilities) (has c terms.defaults)).0
                    (each.0 ((all_optional.0 o).1) c m),
            ),
        λ (f, v, r, o). passes.1 (
            first.1 (
              same_family.1 f,
              second.1 (
                in_bounds.1 v,
                third.1 (
                  all_required.1 (every.1 r),
                  all_optional.1 (
                    refl,
                    each.1 (λ c m. (or_iff (has c capabilities) (has c terms.defaults)).1 (o c m)),
                  ),
                ),
              ),
            )),
      )

  -- What a return of `evaluate_compatibility` says of its steps.
  pub evaluate_compatibility_steps :
      (contract defaults channel : Fields) {report : CompatibilityReport}
      → evaluate_compatibility channel_dna_sha256 contract defaults channel ≡ ok report
      → (terms : Terms) × (version_errors : List CompatibilityError) × (name : String)
        × (version : String) × Reads contract defaults terms
        × (disjoint terms.required terms.optional ≡ true)
        × (evaluate_version (optional_string channel "schema_version") terms.minimum terms.maximum
            ≡ ok version_errors)
        × (report
            ≡ compatibility_report channel_dna_sha256 channel terms.required terms.optional
                terms.defaults terms.family version_errors name version)
  unfolding evaluate_compatibility
  evaluate_compatibility_steps contract defaults channel {report} h =
      let (interface, a, h1) =
        >>=-eq-ok (require_mapping contract "channel_dna_interface") (λ _. _) h in
      let (versions, b, h2) =
        >>=-eq-ok (require_mapping interface "supported_schema_versions") (λ _. _) h1 in
      let (required, c, h3) =
        >>=-eq-ok (require_string_list interface "required_capabilities") (λ _. _) h2 in
      let (optional, d, h4) =
        >>=-eq-ok (require_string_list interface "optional_capabilities") (λ _. _) h3 in
      let (apart, h5) =
        guard-eq-ok (disjoint required optional) (configuration_error "capability overlap") _ h4 in
      let (default_capabilities, e, h6) =
        >>=-eq-ok (require_mapping defaults "optional_capability_defaults") (λ _. _) h5 in
      let (family, f, h7) = >>=-eq-ok (require_string interface "schema_family") (λ _. _) h6 in
      let (minimum, g, h8) = >>=-eq-ok (require_string versions "min_inclusive") (λ _. _) h7 in
      let (maximum, i, h9) = >>=-eq-ok (require_string versions "max_exclusive") (λ _. _) h8 in
      let (version_errors, evaluated, h10) =
        >>=-eq-ok (evaluate_version (optional_string channel "schema_version") minimum maximum)
          (λ _. _) h9 in
      let (name, j, h11) = >>=-eq-ok (require_string contract "contract_family") (λ _. _) h10 in
      let (version, k, last) =
        >>=-eq-ok (require_string contract "contract_version") (λ _. _) h11 in
      (
        record {
          family = family;
          minimum = minimum;
          maximum = maximum;
          required = required;
          optional = optional;
          defaults = default_capabilities;
        },
        version_errors,
        name,
        version,
        (interface, versions, a, b, c, d, e, f, g, i),
        apart,
        evaluated,
        sym (ok_injective last),
      )

  -- When evaluate_compatibility returns a report, contract and defaults can be read, and the report says PASS
  -- exactly when the channel has the family asked for, a version in the half-open range, all required
  -- capabilities, and for each optional capability a value of its own or a default.
  pub evaluate_compatibility_iff :
      (contract defaults channel : Fields) {report : CompatibilityReport}
      → evaluate_compatibility channel_dna_sha256 contract defaults channel ≡ ok report
      → (terms : Terms) × Reads contract defaults terms
        × ((report.compatibility ≡ CompatibilityResult.pass) ↔ IsCompatible channel terms)
  evaluate_compatibility_iff contract defaults channel {report} h =
      let (terms, version_errors, name, version, reads, apart, evaluated, built) =
        evaluate_compatibility_steps contract defaults channel h in
      (
        terms,
        reads,
        subst (λ r. (r.compatibility ≡ CompatibilityResult.pass) ↔ IsCompatible channel terms)
            (sym built)
            (compatibility_report_iff channel terms version_errors name version evaluated),
      )
