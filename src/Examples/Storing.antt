-- ===== src/Examples/Storing.antt =====
-- RUNTIME/event_store.py: a run of two tasks is created, and one task starts.
use mystery_starter_kit.Common.{
  String, true, false, ◌≡◌, ◌≢◌, refl, ◌⊎◌, none, some, List, [], ◌∷◌, Elem, Dict, get, put,
  is_some,
}
use mystery_starter_kit.Failure.{ok, err, output_file_write_error}
use mystery_starter_kit.Runtime.Records.{
  RuntimeRun, RuntimeTaskState, RunStatus, TaskStatus, RuntimeEvent, Schemas,
}
use mystery_starter_kit.Runtime.Store.{JsonFile, whole, torn, WriteOutcome, Store}
use mystery_starter_kit.Runtime.Runs.{
  RunRequest, TaskUpdate, initial_task_state, updated_task, new_run, run_event, load_run,
  create_run, update_task_state, append_event, store_error,
}
use mystery_starter_kit.Runtime.Log.{IsRecorded, append_event-IsRecorded}
use mystery_starter_kit.Runtime.Kept.{
  next_of, IsOldTornOrNew, update_task_state-effect, update_task_state-failure,
}
use mystery_starter_kit.Runtime.Created.{create_run-effect}

abbrev lenient : Schemas
lenient = record {
  run_is_valid = λ run. true;
  event_is_valid = λ event. true;
  approval_is_valid = λ approval. true;
}

abbrev request : RunRequest
request = record {
  project_id = "PRJ-001";
  project_path = "/PROJECTS/PRJ-001";
  from_gate = "GATE-00";
  to_gate = "GATE-01";
  route_profile = "default";
  reference_source = none;
  task_ids = "plan" ∷ "write" ∷ [];
}

abbrev empty : List WriteOutcome → Store
empty writes = record { runs = []; events = []; approvals = []; writes = writes }

abbrev two_tasks : Dict RuntimeTaskState
two_tasks = ("plan", initial_task_state) ∷ ("write", initial_task_state) ∷ []

abbrev fresh : RuntimeRun
fresh = record (new_run "RUN-1" "t0" request) { tasks = two_tasks }

abbrev first_line : JsonFile RuntimeEvent
first_line = whole (run_event "RUN-1" "RUN_CREATED" none "t1")

abbrev created : Store
created = record {
  runs = ("RUN-1", whole fresh) ∷ [];
  events = ("RUN-1", record { lines = first_line ∷ []; tail = none }) ∷ [];
  approvals = [];
  writes = [];
}

run_created : create_run lenient "RUN-1" "t0" "t1" request (empty []) ≡ (created, ok fresh)
unfolding create_run get put
run_created = refl

create_run-effect_example :
    (load_run lenient "RUN-1" created ≡ (created, ok fresh))
    × (fresh.status ≡ RunStatus.created)
    × (fresh.current_task_id ≡ none)
    × ((task : String)
        → Elem task request.task_ids
        → get task fresh.tasks ≡ some initial_task_state)
    × ((task : String) → ¬ Elem task request.task_ids → get task fresh.tasks ≡ none)
    × ((other : String) → "RUN-1" ≢ other → get other created.runs ≡ get other (empty []).runs)
    × (created.approvals ≡ (empty []).approvals)
create_run-effect_example =
    create_run-effect lenient "RUN-1" "t0" "t1" request (empty []) run_created

abbrev started : TaskUpdate
started = record {
  status = TaskStatus.running;
  attempt = 1;
  provider_id = some "fake";
  model_resolved = none;
  input_hashes = [];
  prompt_hash = none;
  error = none;
}

abbrev running : RuntimeRun
running = record fresh {
  tasks = ("plan", updated_task started) ∷ ("write", initial_task_state) ∷ [];
  current_task_id = some "plan";
  updated_at = "t2";
}

abbrev saved : Store
saved = record created { runs = ("RUN-1", whole running) ∷ [] }

task_started : update_task_state lenient fresh "plan" started "t2" created ≡ (saved, ok running)
unfolding update_task_state get put
task_started = refl

update_task_state-effect_example :
    (is_some (get "plan" fresh.tasks) ≡ true)
    × (get "plan" running.tasks ≡ some (updated_task started))
    × ((other : String) → "plan" ≢ other → get other running.tasks ≡ get other fresh.tasks)
    × (running.current_task_id ≡ some "plan")
    × (load_run lenient "RUN-1" saved ≡ (saved, ok running))
    × ((other : String) → "RUN-1" ≢ other → get other saved.runs ≡ get other created.runs)
update_task_state-effect_example =
    update_task_state-effect lenient fresh "plan" started "t2" created task_started

-- The same with a disk that fails in the middle of the write.
abbrev failing : Store
failing = record created { writes = WriteOutcome.fails_midway ∷ [] }

abbrev broken : Store
broken = record created { runs = ("RUN-1", torn) ∷ [] }

write_failed :
    update_task_state lenient fresh "plan" started "t2" failing
    ≡ (broken, err output_file_write_error)
unfolding update_task_state get put
write_failed = refl

update_task_state-failure_example :
    (((is_some (get "plan" fresh.tasks) ≡ false)
        ⊎ (lenient.run_is_valid (next_of lenient fresh "plan" started "t2") ≡ false))
      × (output_file_write_error ≡ store_error (some "plan"))
      × (broken ≡ failing))
    ⊎ ((is_some (get "plan" fresh.tasks) ≡ true)
        × (lenient.run_is_valid (next_of lenient fresh "plan" started "t2") ≡ true)
        × (output_file_write_error ≡ output_file_write_error)
        × IsOldTornOrNew lenient (next_of lenient fresh "plan" started "t2") failing broken
        × ((other : String) → "RUN-1" ≢ other → get other broken.runs ≡ get other failing.runs)
        × (broken.approvals ≡ failing.approvals)
        × (broken.events ≡ failing.events))
update_task_state-failure_example =
    update_task_state-failure lenient fresh "plan" started "t2" failing write_failed

-- An event whose write fails in the middle.
abbrev logged : Store
logged = record created {
  events = ("RUN-1", record { lines = first_line ∷ []; tail = some torn }) ∷ [];
}

event_failed :
    append_event lenient "RUN-1" "TASK_STARTED" (some "plan") "t2" failing
    ≡ (logged, err (store_error (some "plan")))
unfolding append_event get put
event_failed = refl

-- The next event ends the line that was cut off, and the event after it has a line of its own.
abbrev logged_next : Store
logged_next = record created {
  events = ("RUN-1", record { lines = first_line ∷ torn ∷ []; tail = none }) ∷ [];
}

event_joined :
    append_event lenient "RUN-1" "TASK_FAILED" (some "plan") "t3" logged ≡ (logged_next, ok tt)
unfolding append_event get put
event_joined = refl

event_apart :
    (append_event lenient "RUN-1" "RUN_FAILED" none "t4" logged_next).0.events
    ≡ (
      "RUN-1",
      record {
        lines = first_line ∷ torn ∷ whole (run_event "RUN-1" "RUN_FAILED" none "t4") ∷ [];
        tail = none;
      },
    )
      ∷ []
unfolding append_event get put
event_apart = refl

append_event-IsRecorded_example :
    IsRecorded lenient
      (run_event "RUN-1" "TASK_FAILED" (some "plan") "t3")
      "RUN-1"
      (some "plan")
      logged
      logged_next
      (ok tt)
    × ((other : String) → "RUN-1" ≢ other → get other logged_next.events ≡ get other logged.events)
    × (logged_next.runs ≡ logged.runs)
    × (logged_next.approvals ≡ logged.approvals)
append_event-IsRecorded_example =
    append_event-IsRecorded lenient "RUN-1" "TASK_FAILED" (some "plan") "t3" logged event_joined
