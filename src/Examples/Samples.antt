-- ===== src/Examples/Samples.antt =====
-- A graph of three artifacts, and a project over it.
use mystery_starter_kit.Common.{String, none, some, List, [], ◌∷◌, Dict}
use mystery_starter_kit.Json.{Fields, text, array, object, end, field, texts}
use mystery_starter_kit.Project.{
  ArtifactState, ArtifactStatus, ProjectState, ProjectStatus, ArtifactCompletionStatus,
  ContractValidationStatus, ProcessConformanceStatus, EditorialStatus,
}
use mystery_starter_kit.Requirements.{Documents}

abbrev pub definition : String → List String → Fields
definition path depends_on =
    field "path" (text path) (field "depends_on" (array (texts depends_on)) end)

-- The script rests on the story, and the story on the facts.
abbrev pub definitions : Dict Fields
definitions =
    ("facts", definition "facts.json" [])
    ∷ ("story", definition "story.json" ("facts" ∷ []))
    ∷ ("script", definition "script.md" ("story" ∷ []))
    ∷ []

abbrev pub to_fields : Dict Fields → Fields
to_fields [] = end
to_fields ((name, fs) ∷ rest) = field name (object fs) (to_fields rest)

abbrev pub graph : Fields
graph = field "artifacts" (object (to_fields definitions)) end

abbrev pub clean_with : String → ArtifactState
clean_with hash = record {
  status = ArtifactStatus.clean;
  content_hash = some hash;
  invalidated_by = [];
}

abbrev pub project : ProjectState
project = record {
  schema_family = "project-state";
  schema_version = "1.2.0";
  project_id = "PRJ-001";
  state = ProjectStatus.initialized;
  current_gate = "NONE";
  updated_at = "t0";
  readiness = record {
    artifact_status = ArtifactCompletionStatus.incomplete;
    contract_status = ContractValidationStatus.unvalidated;
    process_status = ProcessConformanceStatus.nonconformant;
    editorial_status = EditorialStatus.not_reviewed;
    process_start_gate = "GATE-00";
    process_revision = 1;
  };
  artifacts =
      ("facts", clean_with "f1") ∷ ("story", clean_with "s1") ∷ ("script", clean_with "c1") ∷ [];
  revision_trigger = none;
}

abbrev pub documents : Documents
documents = record {
  production_config = field "story_source_mode" (text "ORIGINAL") end;
  channel = end;
  artifacts = end;
}
