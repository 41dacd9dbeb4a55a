-- ===== src/Failure.antt =====
-- Exceptions as values: RUNTIME/errors.py and VALIDATORS/exceptions.py. A `RuntimeExecutionError`
-- keeps its code, its `retryable` flag, its scope, its task and its artifact. The text of a message
-- and `safe_context` are for people, no code branches on them, and they are left out; a
-- `ConfigurationError` keeps a short tag in place of its text.
use mystery_starter_kit.Common.{
  String, ◌≡◌, refl, ◌⊎◌, inl, inr, Bool, true, false, not, Option, none, some, if◌then◌else◌,
}

pub data ErrorCode : Type 0 where
  runtime_configuration_error provider_not_available provider_rate_limit : ErrorCode
  provider_timeout provider_refusal provider_failure capability_mismatch : ErrorCode
  data_policy_violation context_limit_exceeded output_parse_error : ErrorCode
  output_schema_error artifact_ownership_violation unauthorized_artifact : ErrorCode
  input_hash_changed gate_rejected process_trace_missing budget_exceeded : ErrorCode
  human_approval_required human_input_required human_input_invalid : ErrorCode
  human_input_not_expected human_input_source_truth_mismatch human_input_conflict : ErrorCode
  clinical_subject_mapping_missing clinical_subject_mapping_ambiguous : ErrorCode
  source_truth_bound_artifact_hash_mismatch source_truth_bundle_hash_mismatch : ErrorCode
  source_truth_bundle_incomplete source_truth_contract_hash_mismatch : ErrorCode
  source_truth_contract_reference_broken source_truth_dimension_conflict : ErrorCode
  production_footprint_missing production_footprint_stale : ErrorCode
  production_footprint_mismatch production_limit_exceeded : ErrorCode
  undeclared_production_element run_cancelled project_locked transaction_error : ErrorCode
  tool_not_allowed : ErrorCode

pub record RuntimeExecutionError : Type 0 where
  pub code : ErrorCode
  pub retryable : Bool
  pub scope : String
  pub task_id : Option String
  pub artifact_name : Option String

-- `key_error` and `overflow_error` are Python's own `KeyError` and `OverflowError`. `out_of_fuel` is no exception of the program: it is the
-- answer of a loop whose bound of rounds was too small.
pub data Failure : Type 0 where
  input_file_not_found_error input_file_read_error invalid_json_document_error : Failure
  invalid_document_shape_error output_file_write_error : Failure
  invalid_semantic_version_error state_transition_error : Failure
  configuration_error : String → Failure
  runtime_execution_error : RuntimeExecutionError → Failure
  key_error overflow_error out_of_fuel : Failure

abbrev pub runtime_error : ErrorCode → Bool → String → Option String → Option String → Failure
runtime_error code retryable scope task_id artifact_name = runtime_execution_error (record {
  code = code;
  retryable = retryable;
  scope = scope;
  task_id = task_id;
  artifact_name = artifact_name;
})

-- What a function returns, or the exception that it raises.
pub data Result {ℓ} (V : Type ℓ) : Type ℓ where
  err : Failure → Result V
  ok : V → Result V

infixl 5 ◌>>=◌ ◌>>◌
abbrev pub ◌>>=◌ {ℓ κ} : {V : Type ℓ} {W : Type κ} → Result V → (V → Result W) → Result W
err raised >>= rest = err raised
ok value >>= rest = rest value

abbrev pub ◌>>◌ {ℓ κ} : {A : Type ℓ} {B : Type κ} → Result A → Result B → Result B
m >> k = m >>= λ _. k

-- A subscript `d[k]`: a missing key raises `KeyError`.
abbrev pub or_raise {ℓ} : {A : Type ℓ} → Failure → Option A → Result A
or_raise e none = err e
or_raise e (some a) = ok a

-- What a block of two steps that returned says of them.
pub >>=-eq-ok {ℓ κ} :
    {V : Type ℓ} {W : Type κ} (first : Result V) (rest : V → Result W) {w : W}
    → (first >>= rest) ≡ ok w
    → (v : V) × (first ≡ ok v) × (rest v ≡ ok w)
>>=-eq-ok (err raised) rest returned = cc
>>=-eq-ok (ok value) rest returned = (value, refl, returned)

pub Result-cases {ℓ} :
    {A : Type ℓ} (r : Result A) → ((a : A) × (r ≡ ok a)) ⊎ ((e : Failure) × (r ≡ err e))
Result-cases (ok a) = inl (a, refl)
Result-cases (err e) = inr (e, refl)

-- A guard that raises when its test fails has been passed.
pub guard-eq-ok {ℓ} :
    {A : Type ℓ} (test : Bool) (raised : Failure) (rest : Result A) {a : A}
    → (if not test then err raised else rest) ≡ ok a
    → (test ≡ true) × (rest ≡ ok a)
guard-eq-ok true raised rest h = (refl, h)
guard-eq-ok false raised rest h = absurd (cc)

pub ok_injective {ℓ} : {A : Type ℓ} {a b : A} → ok a ≡ ok b → a ≡ b
ok_injective h = cc
