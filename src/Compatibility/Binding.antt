-- ===== src/Compatibility/Binding.antt =====
-- `evaluate_channel_binding` of VALIDATORS/compatibility.py: the pin of a project, the channel's manifest,
-- and the DNA that is there.
use mystery_starter_kit.Common.{
  String, Bool, false, ◌&&◌, ◌==◌, eqb, Option, none, some, List, [], ◌∷◌, ◌++◌, if◌then◌else◌,
}
use mystery_starter_kit.Failure.{Result, ok, err}
use mystery_starter_kit.Json.{
  Value, Items, Fields, text, object, array, nil, cons, end, field, lookup, get_or_none,
}
use mystery_starter_kit.Requirements.Version.{Version, parse_semantic_version}
use mystery_starter_kit.Compatibility.Report.{
  CompatibilityCode, CompatibilityError, CompatibilityReport, ProjectCompatibilityReport,
  make_error, optional_string,
}
use mystery_starter_kit.Compatibility.Negotiation.{verdict}

unfoldable pub append_errors : CompatibilityReport → List CompatibilityError → CompatibilityReport
append_errors report additional_errors = record report {
  compatibility = verdict (report.errors ++ additional_errors);
  errors = report.errors ++ additional_errors;
}

-- `==` on tuples.
abbrev pub version_eq : Version → Version → Bool
version_eq a b = eqb a.major b.major && (eqb a.minor b.minor && eqb a.patch b.patch)

abbrev pub both_eq : Result Version → Result Version → Bool
both_eq (ok a) (ok b) = version_eq a b
both_eq _ _ = false

-- The comparison inside a `try` that turns `InvalidSemanticVersionError` into `False`.
unfoldable pub versions_match : String → String → Bool
versions_match pinned actual =
    both_eq (parse_semantic_version pinned) (parse_semantic_version actual)

-- Whether an entry is the one that was asked for.
abbrev pub candidate_matches : Option Value → Version → Bool
candidate_matches (some (text candidate)) requested =
    both_eq (parse_semantic_version candidate) (ok requested)
candidate_matches _ requested = false

unfoldable pub first_entry : Version → Items → Option Fields
unfolding lookup
first_entry requested nil = none
first_entry requested (cons (object entry) entries) =
    let later = first_entry requested entries in
    if candidate_matches (lookup "content_version" entry) requested then some entry else later
first_entry requested (cons _ entries) = first_entry requested entries

abbrev pub entry_in : Version → Option Value → Option Fields
entry_in requested (some (array entries)) = first_entry requested entries
entry_in requested _ = none

abbrev pub entry_for : Result Version → Option Value → Option Fields
entry_for (err _) _ = none
entry_for (ok requested) value = entry_in requested value

unfoldable pub manifest_version_entry : Fields → String → Option Fields
unfolding first_entry
manifest_version_entry manifest content_version =
    entry_for (parse_semantic_version content_version) (lookup "available_versions" manifest)

unfoldable pub entry_errors : Fields → String → Option Fields → List CompatibilityError
entry_errors production_config pinned_version (some _) = []
entry_errors production_config pinned_version none =
    make_error CompatibilityCode.channel_content_version_not_found (
      field "channel_id" (get_or_none "channel_id" production_config)
        (field "channel_content_version" (text pinned_version) end))
    ∷ []

unfoldable pub pin_errors : String → String → List CompatibilityError
unfolding versions_match
pin_errors pinned_version actual_version =
    if versions_match pinned_version actual_version
    then []
    else make_error CompatibilityCode.channel_content_version_mismatch
        (field "expected" (text pinned_version) (field "actual" (text actual_version) end))
      ∷ []

-- `isinstance(expected_hash, str) and expected_hash == actual_hash`
abbrev pub hash_is : Option Value → String → Bool
hash_is (some (text expected)) actual = expected == actual
hash_is _ actual = false

unfoldable pub hash_errors : String → String → Option Fields → List CompatibilityError
hash_errors pinned_version actual_hash none = []
hash_errors pinned_version actual_hash (some entry) =
    if hash_is (lookup "channel_dna_sha256" entry) actual_hash
    then []
    else make_error CompatibilityCode.channel_dna_hash_mismatch (
        field "content_version" (text pinned_version) (
          field "expected" (get_or_none "channel_dna_sha256" entry)
            (field "actual" (text actual_hash) end)))
      ∷ []

module _ (channel_dna_sha256 : Fields → String) where
  unfoldable pub evaluate_channel_binding :
      CompatibilityReport → Fields → Fields → Fields → CompatibilityReport
  unfolding append_errors entry_errors pin_errors hash_errors
  evaluate_channel_binding report production_config channel_manifest channel =
      let pinned_version = optional_string production_config "channel_content_version" in
      let entry = manifest_version_entry channel_manifest pinned_version in
      append_errors report (
        entry_errors production_config pinned_version entry
        ++ (pin_errors pinned_version (optional_string channel "content_version")
            ++ hash_errors pinned_version (channel_dna_sha256 channel) entry))

unfoldable pub make_project_compatibility_report :
    String → CompatibilityReport → String → ProjectCompatibilityReport
make_project_compatibility_report project_id report path = record {
  project_id = project_id;
  report = record report { channel = record (report.channel) { relative_path = some path } };
}
