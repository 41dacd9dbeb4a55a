-- ===== src/Runtime.antt =====
-- RUNTIME/models.py: the data that the runtime's components exchange. Capabilities and data classes
-- are texts there, and are here.
-- `Records` holds what a run keeps on disk, `Store` its files, `Runs` and `Approvals` their operations;
-- the other children hold what is proved of these.
pub mod Records
pub mod Store
pub mod Runs
pub mod Saved
pub mod Kept
pub mod Created
pub mod Approvals
pub mod Equal
pub mod Bound
pub mod Log
use mystery_starter_kit.Common.{ℕ, String, Bool, Option, List, Dict}
use mystery_starter_kit.Json.{Value}
use mystery_starter_kit.Failure.{RuntimeExecutionError}

pub record ProviderDescriptor : Type 0 where
  pub interface_version : String
  pub provider_id : String
  pub adapter_id : String
  pub adapter_version : String
  pub capabilities : List String
  pub max_context_tokens : Option ℕ
  pub max_output_tokens : Option ℕ

-- A provider is known by its descriptor.
pub record SelectedRoute : Type 0 where
  pub provider_id : String
  pub model_ref : String
  pub descriptor : ProviderDescriptor

pub data ExecutorKind : Type 0 where
  core llm hybrid human composite : ExecutorKind

pub record RuntimeTask : Type 0 where
  pub agent_id : String
  pub executor : ExecutorKind
  pub target_gate : String
  pub reads : List String
  pub optional_reads : List String
  pub writes : List String
  pub depends_on_tasks : List String
  pub condition : Value
  pub model_profile : Option String
  pub output_contract : String
  pub commit_policy : String
  pub retry_policy : String
  pub budget_profile : String
  pub standard_resources : List String
  pub allowed_tools : List String
  pub required_data_classes : List String
  pub approval_required : Bool

pub data PlanStatus : Type 0 where
  planned skipped : PlanStatus

pub record PlannedTask : Type 0 where
  pub task_id : String
  pub target_gate : String
  pub executor : ExecutorKind
  pub status : PlanStatus

pub record ExecutionPlan : Type 0 where
  pub project_id : String
  pub current_gate : String
  pub from_gate : String
  pub to_gate : String
  pub tasks : List PlannedTask
