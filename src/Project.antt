-- ===== src/Project.antt =====
-- VALIDATORS/models.py: the state of a project and of its artifacts, as `project_state.json` holds it.
use mystery_starter_kit.Common.{ℕ, String, Bool, true, false, Option, List, Dict}

pub data ArtifactStatus : Type 0 where
  clean dirty invalid missing : ArtifactStatus

pub data ProjectStatus : Type 0 where
  initialized compatibility_validated variation_approved story_designed : ProjectStatus
  case_defined characters_designed mystery_designed story_structured : ProjectStatus
  scenes_designed script_written qa_passed editorial_review_required : ProjectStatus
  editorial_approved production_ready presentation_migration_required blocked : ProjectStatus

pub data ArtifactCompletionStatus : Type 0 where
  incomplete artifact_complete : ArtifactCompletionStatus

pub data ContractValidationStatus : Type 0 where
  unvalidated contract_validated : ContractValidationStatus

pub data ProcessConformanceStatus : Type 0 where
  nonconformant process_conformant : ProcessConformanceStatus

pub data EditorialStatus : Type 0 where
  not_reviewed review_required approved : EditorialStatus

pub data RevisionTriggerType : Type 0 where
  config_admission owner_return human_revision_request : RevisionTriggerType
  semantic_correction normal_gate_progress : RevisionTriggerType

pub record ArtifactState : Type 0 where
  pub status : ArtifactStatus
  pub content_hash : Option String
  pub invalidated_by : List String

pub record ProjectReadiness : Type 0 where
  pub artifact_status : ArtifactCompletionStatus
  pub contract_status : ContractValidationStatus
  pub process_status : ProcessConformanceStatus
  pub editorial_status : EditorialStatus
  pub process_start_gate : String
  pub process_revision : ℕ

-- The text `reason` is left out.
pub record RevisionTrigger : Type 0 where
  pub type : RevisionTriggerType
  pub source_id : String
  pub target_owner_agent : Option String
  pub target_gate : Option String
  pub target_task_ids : List String
  pub actor : Option String
  pub triggered_at : String
  pub returned_at : Option String

pub record ProjectState : Type 0 where
  pub schema_family : String
  pub schema_version : String
  pub project_id : String
  pub state : ProjectStatus
  pub current_gate : String
  pub updated_at : String
  pub readiness : ProjectReadiness
  pub artifacts : Dict ArtifactState
  pub revision_trigger : Option RevisionTrigger

abbrev pub is_clean : ArtifactStatus → Bool
is_clean clean = true
is_clean _ = false
