-- ===== src/Runtime/Saved.antt =====
-- What a call that saves the record of a run in RUNTIME/event_store.py leaves on disk.
use mystery_starter_kit.Common.{
  String, true, Bool-cases, ◌≡◌, ◌≢◌, refl, ◌⊎◌, inl, inr, some, List, Dict, get, get-put, eq_iff,
  arith,
}
use mystery_starter_kit.Failure.{Result, ok, err}
use mystery_starter_kit.Runtime.Records.{RuntimeRun, Schemas}
use mystery_starter_kit.Runtime.Store.{
  JsonFile, whole, torn, WriteOutcome, Store, next_write, Action, after, give, later_writes,
  write_json_object, load_json_object,
}
use mystery_starter_kit.Runtime.Runs.{save_run, load_run}

-- What a write leaves of a file: the new content when it returns; when it raises, the old content, a
-- torn file, or the new content. Every other file is as before.
abbrev pub IsWritten {ℓ} :
    {D : Type ℓ} → String → D → Dict (JsonFile D) → Dict (JsonFile D) → Result (Unit {0}) → Type ℓ
IsWritten name document files written (ok _) =
    (get name written ≡ some (whole document))
    × ((other : String) → name ≢ other → get other written ≡ get other files)
IsWritten name document files written (err failure) =
    ((get name written ≡ get name files)
      ⊎ (get name written ≡ some torn)
      ⊎ (get name written ≡ some (whole document)))
    × ((other : String) → name ≢ other → get other written ≡ get other files)

pub write_json_object-IsWritten {ℓ} :
    {D : Type ℓ} (outcome : WriteOutcome) (name : String) (document : D) (files : Dict (JsonFile D))
    → IsWritten name document files
        (write_json_object outcome name document files).0
        (write_json_object outcome name document files).1
unfolding write_json_object
write_json_object-IsWritten WriteOutcome.succeeds name document files = (
  ground (arith, get-put name name (whole document) files, eq_iff name name),
  λ other differs. ground (arith, get-put name other (whole document) files, eq_iff name other),
)
write_json_object-IsWritten WriteOutcome.fails_early name document files =
    (inl refl, λ other differs. refl)
write_json_object-IsWritten WriteOutcome.fails_midway name document files = (
  inr (inl (ground (arith, get-put name name torn files, eq_iff name name))),
  λ other differs. ground (arith, get-put name other torn files, eq_iff name other),
)
write_json_object-IsWritten WriteOutcome.fails_at_newline name document files = (
  inr (inr (ground (arith, get-put name name (whole document) files, eq_iff name name))),
  λ other differs. ground (arith, get-put name other (whole document) files, eq_iff name other),
)
write_json_object-IsWritten WriteOutcome.fails_late name document files = (
  inr (inr (ground (arith, get-put name name (whole document) files, eq_iff name name))),
  λ other differs. ground (arith, get-put name other (whole document) files, eq_iff name other),
)

-- The value that an action gives behind a step that returned.
pub give-value {ℓ} :
    {E : Type ℓ} (value : E) (out : Store × Result (Unit {0})) {now : Store} {v : E}
    → after out (λ _. give value) ≡ (now, ok v)
    → v ≡ value
give-value value (store, ok _) h = cc
give-value value (store, err failure) h = absurd (cc)

-- What two steps that returned say of them.
pub after-eq-ok {ℓ κ} :
    {D : Type ℓ} {E : Type κ} (out : Store × Result D) (next : D → Action E) {later : Store} {e : E}
    → after out next ≡ (later, ok e)
    → (middle : Store) × (d : D) × (out ≡ (middle, ok d)) × (next d middle ≡ (later, ok e))
after-eq-ok (store, ok d) next h = (store, d, refl, h)
after-eq-ok (store, err failure) next h = absurd (cc)

module _ (schemas : Schemas) where
  open schemas use {run_is_valid, event_is_valid}

  -- The files of the runs, before and after an operation that saves `run`.
  abbrev pub IsSaved {ℓ} : {E : Type ℓ} → RuntimeRun → Store → Store × Result E → Type 0
  IsSaved run before (now, ok _) =
      (load_run schemas run.run_id now ≡ (now, ok run))
      × ((other : String) → run.run_id ≢ other → get other now.runs ≡ get other before.runs)
  IsSaved run before (now, err failure) =
      ((get run.run_id now.runs ≡ get run.run_id before.runs)
        ⊎ (get run.run_id now.runs ≡ some torn)
        ⊎ (load_run schemas run.run_id now ≡ (now, ok run)))
      × ((other : String) → run.run_id ≢ other → get other now.runs ≡ get other before.runs)

  IsSaved-of_write :
      (run : RuntimeRun) (store : Store) (later : List WriteOutcome)
      (written : Dict (JsonFile RuntimeRun) × Result (Unit {0}))
      → run_is_valid run ≡ true
      → IsWritten run.run_id run store.runs written.0 written.1
      → IsSaved run store (record store { runs = written.0; writes = later }, written.1)
  unfolding load_run load_json_object
  IsSaved-of_write run store later (files, ok _) valid h =
      (rw (load_run, load_json_object, h.0, valid) refl, h.1)
  IsSaved-of_write run store later (files, err failure) valid (inl same, others) =
      (inl same, others)
  IsSaved-of_write run store later (files, err failure) valid (inr (inl cut), others) =
      (inr (inl cut), others)
  IsSaved-of_write run store later (files, err failure) valid (inr (inr new), others) =
      (inr (inr (rw (load_run, load_json_object, new, valid) refl)), others)

  pub save_run-IsSaved :
      (run : RuntimeRun) (store : Store) → IsSaved run store (save_run schemas run store)
  unfolding save_run
  save_run-IsSaved run store = elim (Bool-cases (run_is_valid run)) [
    | inr invalid ↦ rw invalid (inl refl, λ other differs. refl)
    | inl valid ↦ rw valid (
        IsSaved-of_write run store (later_writes store.writes)
          (write_json_object (next_write store.writes) run.run_id run store.runs) valid
          (write_json_object-IsWritten (next_write store.writes) run.run_id run store.runs))
  ]

  pub IsSaved-give {ℓ} :
      {E : Type ℓ} (value : E) (run : RuntimeRun) (store : Store) (out : Store × Result (Unit {0}))
      → IsSaved run store out
      → IsSaved run store (after out (λ _. give value))
  IsSaved-give value run store (now, ok _) h = h
  IsSaved-give value run store (now, err failure) h = h
