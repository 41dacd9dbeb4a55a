-- ===== src/Transactions/Next.antt =====
-- `next_project_state` of RUNTIME/transactions.py, and `encoded_artifact` of RUNTIME/output_gateway.py,
-- which it calls. JSON text, UTF-8 and SHA-256 are Python's: they are parameters.
use mystery_starter_kit.Common.{
  String, Bool, true, false, ◌==◌, Option, none, some, List, [], ◌∷◌, Dict, get, put, if◌then◌else◌,
}
use mystery_starter_kit.Failure.{
  Result, ok, err, runtime_error, output_parse_error, transaction_error, or_raise, ◌>>=◌,
}
use mystery_starter_kit.Json.{Value, Fields, text, object}
use mystery_starter_kit.Project.{ProjectState, RevisionTrigger, RevisionTriggerType}
use mystery_starter_kit.Dependency.Changes.{invalidate_artifact_dependents, mark_artifact_clean}
use mystery_starter_kit.StateMachine.{advance_gate}
use Prim.Native.String.{◌++◌ as append}

-- `json.dumps(content, …) + "\n"` in UTF-8, `content.encode("utf-8")`, and `sha256(…).hexdigest()`.
pub record Encoding : Type 1 where
  pub Bytes : Type 0
  pub dumps : Fields → Bytes
  pub utf8 : String → Bytes
  pub sha256 : Bytes → String

-- `{**first, **second}`
unfoldable pub merge {ℓ} : {V : Type ℓ} → Dict V → Dict V → Dict V
merge first [] = first
merge first ((k, v) ∷ second) = merge (put k v first) second

-- `current_artifact["content_hash"] == output_hash`
abbrev pub has_hash : String → Option String → Bool
has_hash hash none = false
has_hash hash (some old) = old == hash

-- A loop over `validated_hashes.items()` that invalidates what has changed.
unfoldable pub invalidate_changed :
    Fields → String → Dict String → ProjectState → Result ProjectState
invalidate_changed graph updated_at [] state = ok state
invalidate_changed graph updated_at ((name, hash) ∷ rest) state = do
  artifact ←
      or_raise (runtime_error transaction_error false "TRANSACTION" none (some name))
        (get name state.artifacts)
  next ←
      (if has_hash hash artifact.content_hash
        then ok state
        else invalidate_artifact_dependents graph state name hash updated_at)
  invalidate_changed graph updated_at rest next

-- The second loop.
unfoldable pub mark_all_clean : String → Dict String → ProjectState → Result ProjectState
mark_all_clean updated_at [] state = ok state
mark_all_clean updated_at ((name, hash) ∷ rest) state = do
  next ← mark_artifact_clean state name hash updated_at
  mark_all_clean updated_at rest next

abbrev pub progress : String → String → RevisionTrigger
progress gate_id updated_at = record {
  type = RevisionTriggerType.normal_gate_progress;
  source_id = append gate_id (append ":" updated_at);
  target_owner_agent = none;
  target_gate = some gate_id;
  target_task_ids = [];
  actor = none;
  triggered_at = updated_at;
  returned_at = none;
}

module _ (encoding : Encoding) where
  open encoding use {Bytes, dumps, utf8, sha256}

  -- With the media type that the callers choose: JSON for an object, Markdown for all else.
  unfoldable pub encoded_artifact : Value → Result Bytes
  encoded_artifact (object fs) = ok (dumps fs)
  encoded_artifact (text s) = ok (utf8 s)
  encoded_artifact _ = err (runtime_error output_parse_error true "TASK_ATTEMPT" none none)

  unfoldable pub output_hashes : Dict Value → Result (Dict String)
  unfolding encoded_artifact
  output_hashes [] = ok []
  output_hashes ((name, content) ∷ rest) = do
    bytes ← encoded_artifact content
    hashes ← output_hashes rest
    ok ((name, sha256 bytes) ∷ hashes)

  unfoldable pub next_project_state :
      ProjectState
      → String
      → Dict String
      → Dict Value
      → Fields
      → String
      → List String
      → Result ProjectState
  unfolding merge output_hashes invalidate_changed mark_all_clean
  next_project_state state gate_id input_hashes outputs graph updated_at required_artifacts = do
    hashes ← output_hashes outputs
    let validated = merge input_hashes hashes
    invalidated ← invalidate_changed graph updated_at validated state
    marked ← mark_all_clean updated_at validated invalidated
    advanced ← advance_gate marked gate_id true updated_at required_artifacts
    ok (record advanced { revision_trigger = some (progress gate_id updated_at) })
