-- ===== src/Compatibility/Report.antt =====
-- The report of VALIDATORS/compatibility.py (types of VALIDATORS/models.py), and the readers of fields. The
-- message of an error is for people and left out; its context is kept.
use mystery_starter_kit.Common.{String, ◌==◌, Option, none, some, List, Dict, if◌then◌else◌}
use mystery_starter_kit.Failure.{Failure, Result, ok, err, configuration_error, or_raise, ◌>>=◌}
use mystery_starter_kit.Json.{Value, Fields, end, lookup, as_text, as_object, as_texts}

pub data CompatibilityResult : Type 0 where
  pass fail : CompatibilityResult

pub data RequiredCapabilityStatus : Type 0 where
  supported missing : RequiredCapabilityStatus

pub data OptionalCapabilityStatus : Type 0 where
  supported missing_use_default missing_default : OptionalCapabilityStatus

pub data CapabilitySource : Type 0 where
  channel standard_default : CapabilitySource

pub data CompatibilityCode : Type 0 where
  invalid_schema_version unsupported_schema_version unsupported_schema_family : CompatibilityCode
  missing_required_capability missing_optional_default : CompatibilityCode
  channel_content_version_not_found channel_content_version_mismatch : CompatibilityCode
  channel_dna_hash_mismatch : CompatibilityCode

pub record CompatibilityError : Type 0 where
  pub code : CompatibilityCode
  pub context : Fields

pub record ChannelSummary : Type 0 where
  pub channel_id : String
  pub schema_family : String
  pub schema_version : String
  pub content_version : String
  pub channel_dna_sha256 : String
  pub relative_path : Option String

pub record ResolvedCapability : Type 0 where
  pub source : CapabilitySource
  pub value : Value

pub record CompatibilityReport : Type 0 where
  pub contract_family : String
  pub contract_version : String
  pub channel : ChannelSummary
  pub compatibility : CompatibilityResult
  pub required_capabilities : Dict RequiredCapabilityStatus
  pub optional_capabilities : Dict OptionalCapabilityStatus
  pub resolved_optional_capabilities : Dict ResolvedCapability
  pub ignored_unknown_fields : List String
  pub ignored_unknown_capabilities : List String
  pub errors : List CompatibilityError

-- `project_id` besides the fields of the report.
pub record ProjectCompatibilityReport : Type 0 where
  pub project_id : String
  pub report : CompatibilityReport

abbrev pub make_error : CompatibilityCode → Fields → CompatibilityError
make_error code context = record { code = code; context = context }

abbrev pub field_error : Failure
field_error = configuration_error "field"

abbrev object_of : Option Value → Option Fields
object_of none = none
object_of (some value) = as_object value

abbrev text_of : Option Value → Option String
text_of none = none
text_of (some value) = as_text value

abbrev texts_at : Option Value → Option (List String)
texts_at none = none
texts_at (some value) = as_texts value

unfoldable pub require_mapping : Fields → String → Result Fields
unfolding lookup
require_mapping document key = or_raise field_error (object_of (lookup key document))

abbrev non_empty : String → Result String
non_empty value = if value == "" then err field_error else ok value

unfoldable pub require_string : Fields → String → Result String
unfolding lookup
require_string document key = do
  value ← or_raise field_error (text_of (lookup key document))
  non_empty value

unfoldable pub require_string_list : Fields → String → Result (List String)
unfolding lookup as_texts
require_string_list document key = or_raise field_error (texts_at (lookup key document))

abbrev or_empty : Option String → String
or_empty none = ""
or_empty (some value) = value

unfoldable pub optional_string : Fields → String → String
unfolding lookup
optional_string document key = or_empty (text_of (lookup key document))

abbrev or_no_fields : Option Fields → Fields
or_no_fields none = end
or_no_fields (some fields) = fields

unfoldable pub mapping_or_empty : Fields → String → Fields
unfolding lookup
mapping_or_empty document key = or_no_fields (object_of (lookup key document))
