-- ===== src/Dependency/Changes.antt =====
-- VALIDATORS/dependency.py: the artifact states of a project, and what a change of one artifact
-- invalidates.
use Prim.Native.Nat.{Ordering}
use Prim.Native.String.{compare}
use mystery_starter_kit.Common.{
  String, none, some, List, [], ◌∷◌, mem, Dict, get, put, keys, if◌then◌else◌,
}
use mystery_starter_kit.Failure.{Result, ok, configuration_error, key_error, or_raise, ◌>>=◌, ◌>>◌}
use mystery_starter_kit.Json.{Fields}
use mystery_starter_kit.Project.{
  ArtifactState, ProjectState, ArtifactStatus, ProjectStatus, ArtifactCompletionStatus,
  ContractValidationStatus, ProcessConformanceStatus, EditorialStatus,
}
use mystery_starter_kit.Dependency.Graph.{dependency_artifacts, validate_dependency_graph}
use mystery_starter_kit.Dependency.Dependents.{transitive_dependents}

abbrev pub missing_artifact : ArtifactState
missing_artifact = record {
  status = ArtifactStatus.missing;
  content_hash = none;
  invalidated_by = [];
}

abbrev pub all_missing : Dict Fields → Dict ArtifactState
all_missing [] = []
all_missing ((name, definition) ∷ rest) = (name, missing_artifact) ∷ all_missing rest

unfoldable pub build_initial_project_state : Fields → String → String → Result ProjectState
build_initial_project_state graph project_id updated_at = do
  validate_dependency_graph graph
  artifacts ← dependency_artifacts graph
  ok (record {
    schema_family = "project-state";
    schema_version = "1.2.0";
    project_id = project_id;
    state = ProjectStatus.initialized;
    current_gate = "NONE";
    updated_at = updated_at;
    readiness = record {
      artifact_status = ArtifactCompletionStatus.incomplete;
      contract_status = ContractValidationStatus.unvalidated;
      process_status = ProcessConformanceStatus.nonconformant;
      editorial_status = EditorialStatus.not_reviewed;
      process_start_gate = "GATE-00";
      process_revision = 1;
    };
    artifacts = all_missing artifacts;
    revision_trigger = none;
  })

-- The loop of `reconcile_project_state_artifacts`.
unfoldable pub register_missing : List String → Dict ArtifactState → Dict ArtifactState
register_missing [] artifacts = artifacts
register_missing (name ∷ names) artifacts =
    register_missing names
      (if mem name (keys artifacts) then artifacts else put name missing_artifact artifacts)

unfoldable pub reconcile_project_state_artifacts : Fields → ProjectState → Result ProjectState
unfolding register_missing
reconcile_project_state_artifacts graph state = do
  validate_dependency_graph graph
  artifacts ← dependency_artifacts graph
  ok (record state { artifacts = register_missing (keys artifacts) state.artifacts })

-- `sorted(set(…) | {…})`: the names in code point order, each once.
unfoldable pub insert_sorted : String → List String → List String
insert_sorted name [] = name ∷ []
insert_sorted name (other ∷ others) =
    let later = insert_sorted name others in
    elim (compare name other) [
      | Ordering.lt ↦ name ∷ other ∷ others
      | Ordering.eq ↦ other ∷ others
      | Ordering.gt ↦ other ∷ later
    ]

unfoldable pub sorted_set : List String → List String
unfolding insert_sorted
sorted_set [] = []
sorted_set (name ∷ names) = insert_sorted name (sorted_set names)

abbrev pub dirty_by : String → ArtifactState → ArtifactState
dirty_by changed artifact = record artifact {
  status = ArtifactStatus.dirty;
  invalidated_by = sorted_set (changed ∷ artifact.invalidated_by);
}

-- The loop over the dependents.
unfoldable pub mark_dependents :
    String → List String → Dict ArtifactState → Result (Dict ArtifactState)
mark_dependents changed [] artifacts = ok artifacts
mark_dependents changed (name ∷ names) artifacts = do
  artifact ← or_raise key_error (get name artifacts)
  mark_dependents changed names (put name (dirty_by changed artifact) artifacts)

abbrev pub changed_artifact_state : String → ArtifactState
changed_artifact_state changed_hash = record {
  status = ArtifactStatus.dirty;
  content_hash = some changed_hash;
  invalidated_by = [];
}

unfoldable pub invalidate_artifact_dependents :
    Fields → ProjectState → String → String → String → Result ProjectState
unfolding mark_dependents
invalidate_artifact_dependents graph state changed changed_hash updated_at = do
  or_raise (configuration_error "artifact") (get changed state.artifacts)
  dependents ← transitive_dependents graph changed
  artifacts ←
      mark_dependents changed dependents
        (put changed (changed_artifact_state changed_hash) state.artifacts)
  ok (record state {
    state = ProjectStatus.blocked;
    updated_at = updated_at;
    artifacts = artifacts;
  })

abbrev pub clean_artifact_state : String → ArtifactState
clean_artifact_state content_hash = record {
  status = ArtifactStatus.clean;
  content_hash = some content_hash;
  invalidated_by = [];
}

unfoldable pub mark_artifact_clean : ProjectState → String → String → String → Result ProjectState
mark_artifact_clean state name content_hash updated_at = do
  or_raise (configuration_error "artifact") (get name state.artifacts)
  ok (record state {
    artifacts = put name (clean_artifact_state content_hash) state.artifacts;
    updated_at = updated_at;
  })
