-- ===== src/Runtime/Created.antt =====
-- What `create_run` of RUNTIME/event_store.py leaves on disk.
use mystery_starter_kit.Common.{
  String, Bool-cases, Option, none, Elem, ◌≡◌, ◌≢◌, refl, sym, subst, ap, ◌∙◌, inl, inr, some, List,
  [], ◌∷◌, mem, Dict, get, put, get-put, eq_iff, arith, if◌then◌else◌,
}
use mystery_starter_kit.Failure.{Result, Result-cases, ◌>>=◌, ok, err}
use mystery_starter_kit.Runtime.Records.{RuntimeRun, RuntimeTaskState, RunStatus, Schemas}
use mystery_starter_kit.Runtime.Store.{JsonFile, Store, load_json_object}
use mystery_starter_kit.Runtime.Runs.{
  initial_task_state, register_tasks, save_run, load_run, create_run, RunRequest, new_run,
  append_event, run_event, store_error,
}
use mystery_starter_kit.Runtime.Saved.{IsSaved, save_run-IsSaved, after-eq-ok}

-- The tasks of a new run.
register_tasks-get :
    (task : String) (task_ids : List String) (tasks : Dict RuntimeTaskState)
    → get task (register_tasks task_ids tasks)
      ≡ (if mem task task_ids then some initial_task_state else get task tasks)
unfolding register_tasks mem
register_tasks-get task [] tasks = refl
register_tasks-get task (task_id ∷ task_ids) tasks = ground (
  arith,
  register_tasks-get task task_ids (put task_id initial_task_state tasks),
  get-put task_id task initial_task_state tasks,
  eq_iff task_id task,
  eq_iff task task_id,
)

module _ (schemas : Schemas) where
  open schemas use {run_is_valid, event_is_valid}

  -- What load_run answers, which depends on the files of the runs alone.
  loaded : String → Dict (JsonFile RuntimeRun) → Result RuntimeRun
  loaded run_id files = load_json_object run_id files >>= λ run.
      if run_is_valid run then ok run else err (store_error none)

  load_run-eq-loaded :
      (run_id : String) (store : Store)
      → load_run schemas run_id store ≡ (store, loaded run_id store.runs)
  unfolding loaded load_run
  load_run-eq-loaded run_id store = elim (Result-cases (load_json_object run_id store.runs)) [
    | inr (failure, e) ↦ rw (load_run, e) refl
    | inl (run, e) ↦ elim (Bool-cases (run_is_valid run)) [
      | inl valid ↦ rw (load_run, e, valid) refl
      | inr invalid ↦ rw (load_run, e, invalid) refl
    ]
  ]

  load_run_moved :
      (run_id : String) (before later : Store) (run : RuntimeRun)
      → later.runs ≡ before.runs
      → load_run schemas run_id before ≡ (before, ok run)
      → load_run schemas run_id later ≡ (later, ok run)
  load_run_moved run_id before later run same h =
      load_run-eq-loaded run_id later
      ∙ ap (λ result. (later, result))
          (ap (loaded run_id) same
            ∙ sym (ap (λ o. o.1) (load_run-eq-loaded run_id before))
            ∙ ap (λ o. o.1) h)

  append_event-keeps :
      (run_id event_type : String) (task_id : Option String) (now : String) (store : Store)
      → ((append_event schemas run_id event_type task_id now store).0.runs ≡ store.runs)
        × ((append_event schemas run_id event_type task_id now store).0.approvals ≡ store.approvals)
  unfolding append_event
  append_event-keeps run_id event_type task_id now store =
      elim (Bool-cases (event_is_valid (run_event run_id event_type task_id now))) [
        | inl valid ↦ rw valid (refl, refl)
        | inr invalid ↦ rw invalid (refl, refl)
      ]

  save_run-keeps :
      (run : RuntimeRun) (store : Store)
      → (save_run schemas run store).0.approvals ≡ store.approvals
  unfolding save_run
  save_run-keeps run store = elim (Bool-cases (run_is_valid run)) [
    | inl valid ↦ rw valid refl
    | inr invalid ↦ rw invalid refl
  ]

  register_tasks-unknown :
      (task : String) (task_ids : List String)
      → ¬ Elem task task_ids
      → get task (register_tasks task_ids []) ≡ none
  unfolding get
  register_tasks-unknown task task_ids h =
      ground (arith, register_tasks-get task task_ids [], Bool-cases (mem task task_ids))

  -- When create_run returns, load_run gives back the run that it returned, which is CREATED, has no
  -- current task, and holds exactly the tasks asked for, each PENDING with no attempt; the files of all
  -- other runs are as before, and no file of an approval has changed.
  pub create_run-effect :
      (run_id now event_time : String) (request : RunRequest) (store : Store) {later : Store}
      {run : RuntimeRun}
      → create_run schemas run_id now event_time request store ≡ (later, ok run)
      → (load_run schemas run_id later ≡ (later, ok run))
        × (run.status ≡ RunStatus.created)
        × (run.current_task_id ≡ none)
        × ((task : String)
            → Elem task request.task_ids
            → get task run.tasks ≡ some initial_task_state)
        × ((task : String) → ¬ Elem task request.task_ids → get task run.tasks ≡ none)
        × ((other : String) → run_id ≢ other → get other later.runs ≡ get other store.runs)
        × (later.approvals ≡ store.approvals)
  unfolding create_run
  create_run-effect run_id now event_time request store {later} {run} h =
      let (middle, _, saved, rest) =
        after-eq-ok (save_run schemas (new_run run_id now request) store) _ h in
      let (last, _, appended, given) =
        after-eq-ok (append_event schemas run_id "RUN_CREATED" none event_time middle) _ rest in
      let at_last : last ≡ later = ap (λ o. o.0) given in
      let this : new_run run_id now request ≡ run = cc in
      let (stored, others) =
        subst (IsSaved schemas (new_run run_id now request) store) saved
          (save_run-IsSaved schemas (new_run run_id now request) store) in
      let kept =
        subst (λ o. (o.0.runs ≡ middle.runs) × (o.0.approvals ≡ middle.approvals))
          (appended ∙ ap (λ s. (s, ok tt)) at_last)
          (append_event-keeps run_id "RUN_CREATED" none event_time middle) in
      subst
        (λ r.
          (load_run schemas run_id later ≡ (later, ok r))
          × (r.status ≡ RunStatus.created)
          × (r.current_task_id ≡ none)
          × ((task : String)
              → Elem task request.task_ids
              → get task r.tasks ≡ some initial_task_state)
          × ((task : String) → ¬ Elem task request.task_ids → get task r.tasks ≡ none)
          × ((other : String) → run_id ≢ other → get other later.runs ≡ get other store.runs)
          × (later.approvals ≡ store.approvals))
        this
        (
          load_run_moved run_id middle later (new_run run_id now request) (kept.0) stored,
          refl,
          refl,
          λ task m. register_tasks-get task request.task_ids [] ∙ rw m refl,
          λ task m. register_tasks-unknown task request.task_ids m,
          λ other differs. ap (get other) (kept.0) ∙ others other differs,
          kept.1
              ∙ sym (ap (λ o. o.0.approvals) saved)
              ∙ save_run-keeps (new_run run_id now request) store,
        )
