-- ===== src/Runtime/Records.antt =====
-- RUNTIME/models.py: what a run keeps on disk. The fields `schema_family` and `schema_version`, which are
-- fixed texts, are left out. An error document is the exception that it describes.
use mystery_starter_kit.Common.{ℕ, String, Bool, Option, Dict}
use mystery_starter_kit.Failure.{RuntimeExecutionError}

pub data RunStatus : Type 0 where
  created planned running waiting_provider validating revising waiting_human completed : RunStatus
  failed cancelled : RunStatus

pub data TaskStatus : Type 0 where
  pending ready running retrying succeeded failed blocked skipped cancelled : TaskStatus

pub data ApprovalDecision : Type 0 where
  approved rejected : ApprovalDecision

pub record RuntimeTaskState : Type 0 where
  pub status : TaskStatus
  pub attempt : ℕ
  pub provider_id : Option String
  pub model_resolved : Option String
  pub input_hashes : Dict String
  pub prompt_hash : Option String
  pub error : Option RuntimeExecutionError

pub record RuntimeRun : Type 0 where
  pub run_id : String
  pub project_id : String
  pub project_path : String
  pub status : RunStatus
  pub from_gate : String
  pub to_gate : String
  pub route_profile : String
  pub reference_source : Option String
  pub current_task_id : Option String
  pub tasks : Dict RuntimeTaskState
  pub created_at : String
  pub updated_at : String
  pub cancel_requested : Bool
  pub error : Option RuntimeExecutionError

pub record RuntimeApproval : Type 0 where
  pub approval_id : String
  pub run_id : String
  pub task_id : String
  pub decision : ApprovalDecision
  pub actor : String
  pub reason : String
  pub bound_input_hashes : Dict String
  pub created_at : String

-- An event of RUNTIME/event_store.py, without its identifier and its context, which nothing reads back.
pub record RuntimeEvent : Type 0 where
  pub run_id : String
  pub event_type : String
  pub occurred_at : String
  pub task_id : Option String

-- Whether a document meets its JSON schema, as the schema library answers.
pub record Schemas : Type 0 where
  pub run_is_valid : RuntimeRun → Bool
  pub event_is_valid : RuntimeEvent → Bool
  pub approval_is_valid : RuntimeApproval → Bool
