-- ===== src/Runtime/Runs.antt =====
-- RUNTIME/event_store.py: the record of a run and the log of its events. The clock, the new
-- identifiers and the resolved paths are arguments. Whether a document meets its JSON schema is a
-- parameter, since the schema library answers it.
use mystery_starter_kit.Common.{
  ℕ, String, false, not, Option, none, some, List, [], ◌∷◌, ◌++◌, Dict, get, put, is_some,
  if◌then◌else◌,
}
use mystery_starter_kit.Failure.{
  Failure, Result, ok, err, RuntimeExecutionError, runtime_error, runtime_configuration_error,
}
use mystery_starter_kit.Runtime.Records.{
  RuntimeRun, RuntimeTaskState, RunStatus, TaskStatus, RuntimeEvent, Schemas,
}
use mystery_starter_kit.Runtime.Store.{
  JsonFile, whole, torn, EventLog, WriteOutcome, Store, Action, ◌>>◌, give, raise, next_write,
  later_writes, write_json_object, load_json_object,
}

abbrev pub store_error : Option String → Failure
store_error task_id = runtime_error runtime_configuration_error false "RUN" task_id none

abbrev pub initial_task_state : RuntimeTaskState
initial_task_state = record {
  status = TaskStatus.pending;
  attempt = 0;
  provider_id = none;
  model_resolved = none;
  input_hashes = [];
  prompt_hash = none;
  error = none;
}

-- The dictionary comprehension over `task_ids`.
unfoldable pub register_tasks : List String → Dict RuntimeTaskState → Dict RuntimeTaskState
register_tasks [] tasks = tasks
register_tasks (task_id ∷ task_ids) tasks =
    register_tasks task_ids (put task_id initial_task_state tasks)

-- What the caller of `create_run` asks for.
pub record RunRequest : Type 0 where
  pub project_id : String
  pub project_path : String
  pub from_gate : String
  pub to_gate : String
  pub route_profile : String
  pub reference_source : Option String
  pub task_ids : List String

-- What `update_task_state` records of a task.
pub record TaskUpdate : Type 0 where
  pub status : TaskStatus
  pub attempt : ℕ
  pub provider_id : Option String
  pub model_resolved : Option String
  pub input_hashes : Dict String
  pub prompt_hash : Option String
  pub error : Option RuntimeExecutionError

abbrev pub updated_task : TaskUpdate → RuntimeTaskState
updated_task update = record {
  status = update.status;
  attempt = update.attempt;
  provider_id = update.provider_id;
  model_resolved = update.model_resolved;
  input_hashes = update.input_hashes;
  prompt_hash = update.prompt_hash;
  error = update.error;
}

abbrev pub new_run : String → String → RunRequest → RuntimeRun
new_run run_id now request = record {
  run_id = run_id;
  project_id = request.project_id;
  project_path = request.project_path;
  status = RunStatus.created;
  from_gate = request.from_gate;
  to_gate = request.to_gate;
  route_profile = request.route_profile;
  reference_source = request.reference_source;
  current_task_id = none;
  tasks = register_tasks request.task_ids [];
  created_at = now;
  updated_at = now;
  cancel_requested = false;
  error = none;
}

abbrev pub run_event : String → String → Option String → String → RuntimeEvent
run_event run_id event_type task_id now = record {
  run_id = run_id;
  event_type = event_type;
  occurred_at = now;
  task_id = task_id;
}

-- A log that is not there yet is empty.
abbrev pub log_of {ℓ} : {D : Type ℓ} → Option (EventLog D) → EventLog D
log_of none = record { lines = []; tail = none }
log_of (some log) = log

-- What a document makes of the text behind the last newline: with a text that is there already it does not
-- parse.
abbrev pub joined {ℓ} : {D : Type ℓ} → D → Option (JsonFile D) → JsonFile D
joined document none = whole document
joined document (some cut) = torn

abbrev pub add_line {ℓ} : {D : Type ℓ} → D → EventLog D → EventLog D
add_line document log = record { lines = log.lines ++ (joined document log.tail ∷ []); tail = none }

-- The document and its newline in one write at the end of the file.
abbrev pub write_line {ℓ} :
    {D : Type ℓ}
    → WriteOutcome
    → String
    → D
    → Option String
    → Dict (EventLog D)
    → Dict (EventLog D) × Result (Unit {0})
write_line WriteOutcome.succeeds name document task_id logs =
    (put name (add_line document (log_of (get name logs))) logs, ok tt)
write_line WriteOutcome.fails_early name document task_id logs = (logs, err (store_error task_id))
write_line WriteOutcome.fails_midway name document task_id logs = (
  put name (record (log_of (get name logs)) { tail = some torn }) logs,
  err (store_error task_id),
)
write_line WriteOutcome.fails_at_newline name document task_id logs =
    let log = log_of (get name logs) in
    (
      put name (record log { tail = some (joined document log.tail) }) logs,
      err (store_error task_id),
    )
write_line WriteOutcome.fails_late name document task_id logs =
    (put name (add_line document (log_of (get name logs))) logs, err (store_error task_id))

module _ (schemas : Schemas) where
  open schemas use {run_is_valid, event_is_valid}

  unfoldable pub save_run : RuntimeRun → Action (Unit {0})
  unfolding write_json_object
  save_run run store =
      if run_is_valid run
      then (let (runs, result) =
            write_json_object (next_write store.writes) run.run_id run store.runs in
          (record store { runs = runs; writes = later_writes store.writes }, result))
      else (store, err (store_error run.current_task_id))

  unfoldable pub load_run : String → Action RuntimeRun
  unfolding load_json_object
  load_run run_id store = elim (load_json_object run_id store.runs) [
    | err failure ↦ (store, err failure)
    | ok run ↦ if run_is_valid run then (store, ok run) else (store, err (store_error none))
  ]

  unfoldable pub append_event : String → String → Option String → String → Action (Unit {0})
  append_event run_id event_type task_id now store =
      let event = run_event run_id event_type task_id now in
      if event_is_valid event
      then (let (events, result) =
            write_line (next_write store.writes) run_id event task_id store.events in
          (record store { events = events; writes = later_writes store.writes }, result))
      else (store, err (store_error task_id))

  unfoldable pub create_run : String → String → String → RunRequest → Action RuntimeRun
  unfolding save_run append_event register_tasks
  create_run run_id now event_time request = do
    let run = new_run run_id now request
    save_run run
    append_event run_id "RUN_CREATED" none event_time
    give run

  unfoldable pub update_run_status :
      RuntimeRun
      → RunStatus
      → Option String
      → Option RuntimeExecutionError
      → String
      → Action RuntimeRun
  unfolding save_run
  update_run_status run status current_task_id error now = do
    let next_run = record run {
      status = status;
      current_task_id = current_task_id;
      error = error;
      updated_at = now;
    }
    save_run next_run
    give next_run

  unfoldable pub update_task_state : RuntimeRun → String → TaskUpdate → String → Action RuntimeRun
  unfolding save_run
  update_task_state run task_id update now =
      if not (is_some (get task_id run.tasks)) then raise (store_error (some task_id)) else do
        let next_run = record run {
          tasks = put task_id (updated_task update) run.tasks;
          current_task_id = some task_id;
          updated_at = now;
        }
        save_run next_run
        give next_run

  -- The projects that hold a file of the run.
  unfoldable pub run_matches : String → List (String × Store) → List (String × Store)
  run_matches run_id [] = []
  run_matches run_id ((project, store) ∷ projects) =
      let rest = run_matches run_id projects in
      if is_some (get run_id store.runs) then (project, store) ∷ rest else rest

  abbrev only_match : String → List (String × Store) → Result (String × RuntimeRun)
  only_match run_id ((project, store) ∷ []) = elim (load_run run_id store).1 [
    | err failure ↦ err failure
    | ok run ↦ ok (project, run)
  ]
  only_match run_id matches = err (store_error none)

  unfoldable pub find_run : List (String × Store) → String → Result (String × RuntimeRun)
  unfolding run_matches load_run
  find_run projects run_id = only_match run_id (run_matches run_id projects)
