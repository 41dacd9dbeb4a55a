-- ===== src/Runtime/Kept.antt =====
-- What `update_task_state` of RUNTIME/event_store.py keeps of a run.
use mystery_starter_kit.Common.{
  String, true, false, Bool-cases, is_some, ◌≡◌, ◌≢◌, refl, sym, subst, ap, ◌∙◌, ◌⊎◌, inl, inr,
  some, Dict, get, put, get-put, eq_iff, arith,
}
use mystery_starter_kit.Failure.{
  Failure, Result, ok, err, invalid_json_document_error, output_file_write_error,
}
use mystery_starter_kit.Runtime.Records.{RuntimeRun, Schemas}
use mystery_starter_kit.Runtime.Store.{
  JsonFile, torn, WriteOutcome, Store, Action, after, give, next_write, later_writes,
  write_json_object, load_json_object,
}
use mystery_starter_kit.Runtime.Runs.{
  save_run, load_run, update_task_state, TaskUpdate, updated_task, store_error,
}
use mystery_starter_kit.Runtime.Saved.{IsSaved, save_run-IsSaved, IsSaved-give, give-value}

module _ (schemas : Schemas) where
  -- The run that `update_task_state` saves.
  abbrev pub next_of : RuntimeRun → String → TaskUpdate → String → RuntimeRun
  next_of run task_id update now = record run {
    tasks = put task_id (updated_task update) run.tasks;
    current_task_id = some task_id;
    updated_at = now;
  }

  update_task_state-IsSaved :
      (run : RuntimeRun) (task_id : String) (update : TaskUpdate) (now : String) (store : Store)
      → is_some (get task_id run.tasks) ≡ true
      → IsSaved schemas
          (next_of run task_id update now)
          store
          (update_task_state schemas run task_id update now store)
  unfolding update_task_state
  update_task_state-IsSaved run task_id update now store known = rw known (
      IsSaved-give schemas (next_of run task_id update now) (next_of run task_id update now) store
        (save_run schemas (next_of run task_id update now) store)
        (save_run-IsSaved schemas (next_of run task_id update now) store))

  update_task_state_registered :
      (run : RuntimeRun) (task_id : String) (update : TaskUpdate) (now : String) (store : Store)
      → is_some (get task_id run.tasks) ≡ true
      → update_task_state schemas run task_id update now store
        ≡ after
            (save_run schemas (next_of run task_id update now) store)
            (λ _. give (next_of run task_id update now))
  unfolding update_task_state
  update_task_state_registered run task_id update now store known = rw known refl

  update_task_state_unknown :
      (run : RuntimeRun) (task_id : String) (update : TaskUpdate) (now : String) (store : Store)
      → is_some (get task_id run.tasks) ≡ false
      → update_task_state schemas run task_id update now store
        ≡ (store, err (store_error (some task_id)))
  unfolding update_task_state
  update_task_state_unknown run task_id update now store unknown = rw unknown refl

  update_task_state-known :
      (run : RuntimeRun) (task_id : String) (update : TaskUpdate) (now : String) (store : Store)
      {after : Store} {next : RuntimeRun}
      → update_task_state schemas run task_id update now store ≡ (after, ok next)
      → (is_some (get task_id run.tasks) ≡ true) × (next ≡ next_of run task_id update now)
  update_task_state-known run task_id update now store h =
      elim (Bool-cases (is_some (get task_id run.tasks))) [
        | inl known ↦ (
          known,
          give-value (next_of run task_id update now)
              (save_run schemas (next_of run task_id update now) store)
              (sym (update_task_state_registered run task_id update now store known) ∙ h),
        )
        | inr unknown ↦
            absurd (
              let e = sym (update_task_state_unknown run task_id update now store unknown) ∙ h in
              cc)
      ]

  -- When update_task_state returns a run, the task was registered; in the run that it returns the task
  -- has the new state and every other task its old one, and the task is the current one. load_run then
  -- gives that run back, and the files of all other runs are as before.
  pub update_task_state-effect :
      (run : RuntimeRun) (task_id : String) (update : TaskUpdate) (now : String) (store : Store)
      {later : Store} {next : RuntimeRun}
      → update_task_state schemas run task_id update now store ≡ (later, ok next)
      → (is_some (get task_id run.tasks) ≡ true)
        × (get task_id next.tasks ≡ some (updated_task update))
        × ((other : String) → task_id ≢ other → get other next.tasks ≡ get other run.tasks)
        × (next.current_task_id ≡ some task_id)
        × (load_run schemas run.run_id later ≡ (later, ok next))
        × ((other : String) → run.run_id ≢ other → get other later.runs ≡ get other store.runs)
  update_task_state-effect run task_id update now store {later} {next} h =
      let (known, e) = update_task_state-known run task_id update now store h in
      let (loaded, kept) =
        subst (IsSaved schemas (next_of run task_id update now) store) h
          (update_task_state-IsSaved run task_id update now store known) in
      subst
        (λ n.
          (is_some (get task_id run.tasks) ≡ true)
          × (get task_id (n.tasks) ≡ some (updated_task update))
          × ((other : String) → task_id ≢ other → get other (n.tasks) ≡ get other run.tasks)
          × (n.current_task_id ≡ some task_id)
          × (load_run schemas run.run_id later ≡ (later, ok n))
          × ((other : String) → run.run_id ≢ other → get other later.runs ≡ get other store.runs))
        (sym e)
        (
          known,
          ground (
            arith,
            get-put task_id task_id (updated_task update) run.tasks,
            eq_iff task_id task_id,
          ),
          λ other differs.
              ground (
                arith,
                get-put task_id other (updated_task update) run.tasks,
                eq_iff task_id other,
              ),
          refl,
          loaded,
          kept,
        )

  -- Only the first of two steps can raise, if the second gives a value.
  after-eq-err :
      {E : Type 0} {value : E} (out : Store × Result (Unit {0})) (next : Unit {0} → Action E)
      {later : Store} {failure : Failure}
      → ((s : Store) → next tt s ≡ (s, ok value))
      → after out next ≡ (later, err failure)
      → out ≡ (later, err failure)
  after-eq-err (store, ok tt) next gives h = absurd (let e = sym (gives store) ∙ h in cc)
  after-eq-err (store, err raised) next gives h = cc

  save_run_invalid :
      (run : RuntimeRun) (store : Store)
      → schemas.run_is_valid run ≡ false
      → save_run schemas run store ≡ (store, err (store_error run.current_task_id))
  unfolding save_run
  save_run_invalid run store invalid = rw invalid refl

  write_json_object-err :
      {D : Type 0} (outcome : WriteOutcome) (name : String) (document : D)
      (files : Dict (JsonFile D)) {failure : Failure}
      → (write_json_object outcome name document files).1 ≡ err failure
      → failure ≡ output_file_write_error
  unfolding write_json_object
  write_json_object-err WriteOutcome.succeeds name document files h = absurd (cc)
  write_json_object-err WriteOutcome.fails_early name document files h = cc
  write_json_object-err WriteOutcome.fails_midway name document files h = cc
  write_json_object-err WriteOutcome.fails_at_newline name document files h = cc
  write_json_object-err WriteOutcome.fails_late name document files h = cc

  save_run_valid :
      (run : RuntimeRun) (store : Store) {later : Store} {failure : Failure}
      → schemas.run_is_valid run ≡ true
      → save_run schemas run store ≡ (later, err failure)
      → (failure ≡ output_file_write_error)
        × (later.approvals ≡ store.approvals)
        × (later.events ≡ store.events)
  unfolding save_run
  save_run_valid run store {later} {failure} valid h =
      let (files, result) = write_json_object (next_write store.writes) run.run_id run store.runs in
      let e : ◌≡◌ {A = Store × Result (Unit {0})}
          (record store { runs = files; writes = later_writes store.writes }, result)
          (later, err failure) =
        unfold save_run in ground (arith, valid, h) in
      (
        write_json_object-err (next_write store.writes) run.run_id run store.runs (ap (λ o. o.1) e),
        sym (ap (λ o. o.0.approvals) e),
        sym (ap (λ o. o.0.events) e),
      )

  load_run_torn :
      (run_id : String) (store : Store)
      → get run_id store.runs ≡ some torn
      → load_run schemas run_id store ≡ (store, err invalid_json_document_error)
  unfolding load_run load_json_object
  load_run_torn run_id store cut = rw (load_run, load_json_object, cut) refl

  -- What a call that raised has left of the file of a run.
  abbrev pub IsOldTornOrNew : RuntimeRun → Store → Store → Type 0
  IsOldTornOrNew run before now =
      (get run.run_id now.runs ≡ get run.run_id before.runs)
      ⊎ ((get run.run_id now.runs ≡ some torn)
          × (load_run schemas run.run_id now ≡ (now, err invalid_json_document_error)))
      ⊎ (load_run schemas run.run_id now ≡ (now, ok run))

  -- When update_task_state raises, either the task is not registered or the updated run does not meet its
  -- schema; then the failure is RUNTIME_CONFIGURATION_ERROR with the task, and no file has changed. Or the task is
  -- registered and the updated run meets its schema; then the failure is that of the write, and the file of
  -- the run is as before, or is torn, so that load_run raises, or load_run gives the updated run back;
  -- the files of all other runs, the approvals and the logs are as before.
  pub update_task_state-failure :
      (run : RuntimeRun) (task_id : String) (update : TaskUpdate) (now : String) (store : Store)
      {later : Store} {failure : Failure}
      → update_task_state schemas run task_id update now store ≡ (later, err failure)
      → (((is_some (get task_id run.tasks) ≡ false)
            ⊎ (schemas.run_is_valid (next_of run task_id update now) ≡ false))
          × (failure ≡ store_error (some task_id))
          × (later ≡ store))
        ⊎ ((is_some (get task_id run.tasks) ≡ true)
            × (schemas.run_is_valid (next_of run task_id update now) ≡ true)
            × (failure ≡ output_file_write_error)
            × IsOldTornOrNew (next_of run task_id update now) store later
            × ((other : String) → run.run_id ≢ other → get other later.runs ≡ get other store.runs)
            × (later.approvals ≡ store.approvals)
            × (later.events ≡ store.events))
  update_task_state-failure run task_id update now store {later} {failure} h =
      elim (Bool-cases (is_some (get task_id run.tasks))) [
        | inr unknown ↦
            let e = sym (update_task_state_unknown run task_id update now store unknown) ∙ h in
            inl (inl unknown, cc, sym (ap (λ o. o.0) e))
        | inl known ↦
            let next = next_of run task_id update now in
            let saved =
              after-eq-err (save_run schemas next store) (λ _. give next) (λ s. refl)
                (sym (update_task_state_registered run task_id update now store known) ∙ h) in
            elim (Bool-cases (schemas.run_is_valid next)) [
              | inr invalid ↦
                  let e = sym (save_run_invalid next store invalid) ∙ saved in
                  inl (inr invalid, cc, sym (ap (λ o. o.0) e))
              | inl valid ↦
                  let (left, others) =
                    subst (IsSaved schemas next store) saved
                      (save_run-IsSaved schemas next store) in
                  let kept = save_run_valid next store valid saved in
                  inr (
                    known,
                    valid,
                    kept.0,
                    elim left [
                      | inl same ↦ inl same
                      | inr (inl cut) ↦ inr (inl (cut, load_run_torn run.run_id later cut))
                      | inr (inr new) ↦ inr (inr new)
                    ],
                    others,
                    kept.1,
                    kept.2,
                  )
            ]
      ]
