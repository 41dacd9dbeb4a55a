-- ===== src/Runtime/Log.antt =====
-- What `append_event` of RUNTIME/event_store.py does to the logs of events.
use mystery_starter_kit.Common.{
  String, true, false, Bool-cases, ◌≡◌, ◌≢◌, refl, ◌⊎◌, inl, inr, eq_iff, Option, some, none, List,
  [], ◌∷◌, ◌++◌, Dict, get, put, get-put, subst, arith,
}
use mystery_starter_kit.Failure.{Result, ok, err}
use mystery_starter_kit.Runtime.Records.{Schemas, RuntimeEvent}
use mystery_starter_kit.Runtime.Store.{
  JsonFile, whole, torn, EventLog, WriteOutcome, Store, next_write,
}
use mystery_starter_kit.Runtime.Runs.{
  run_event, joined, log_of, add_line, write_line, append_event, store_error,
}

-- One line more: the document, if the log ended in a newline, and else one that does not parse.
abbrev pub IsAppended {ℓ} : {D : Type ℓ} → D → EventLog D → EventLog D → Type ℓ
IsAppended document before now =
    (now.tail ≡ none)
    × (((before.tail ≡ none) × (now.lines ≡ before.lines ++ (whole document ∷ [])))
        ⊎ ((before.tail ≢ none) × (now.lines ≡ before.lines ++ (torn ∷ []))))

-- The same lines, and behind them a text with no newline: one that does not parse, or the document, if the
-- log ended in a newline.
abbrev pub IsUnended {ℓ} : {D : Type ℓ} → D → EventLog D → EventLog D → Type ℓ
IsUnended document before now =
    (now.lines ≡ before.lines)
    × ((now.tail ≡ some torn) ⊎ ((before.tail ≡ none) × (now.tail ≡ some (whole document))))

-- What an append of a line leaves.
abbrev IsLogged {ℓ} :
    {D : Type ℓ} → D → Option String → EventLog D → EventLog D → Result (Unit {0}) → Type ℓ
IsLogged document task_id before now result =
    ((result ≡ ok tt) × IsAppended document before now)
    ⊎ ((result ≡ err (store_error task_id))
        × ((now ≡ before) ⊎ IsUnended document before now ⊎ IsAppended document before now))

add_line-IsAppended {ℓ} :
    {D : Type ℓ} (document : D) (lines : List (JsonFile D)) (tail : Option (JsonFile D))
    → IsAppended document
        (record { lines = lines; tail = tail })
        (record { lines = lines ++ (joined document tail ∷ []); tail = none })
add_line-IsAppended document lines none = (refl, inl (refl, refl))
add_line-IsAppended document lines (some cut) = (refl, inr (λ e. cc, refl))

joined-IsUnended {ℓ} :
    {D : Type ℓ} (document : D) (lines : List (JsonFile D)) (tail : Option (JsonFile D))
    → IsUnended document
        (record { lines = lines; tail = tail })
        (record { lines = lines; tail = some (joined document tail) })
joined-IsUnended document lines none = (refl, inr (refl, refl))
joined-IsUnended document lines (some cut) = (refl, inl refl)

log_of-put {ℓ} :
    {D : Type ℓ} (name : String) (log : EventLog D) (logs : Dict (EventLog D))
    → log_of (get name (put name log logs)) ≡ log
log_of-put name log logs = ground (arith, get-put name name log logs, eq_iff name name)

write_line-IsLogged {ℓ} :
    {D : Type ℓ} (outcome : WriteOutcome) (name : String) (document : D) (task_id : Option String)
    (logs : Dict (EventLog D))
    → let (now, result) = write_line outcome name document task_id logs in
      IsLogged document task_id (log_of (get name logs)) (log_of (get name now)) result
      × ((other : String) → name ≢ other → get other now ≡ get other logs)
write_line-IsLogged WriteOutcome.fails_early name document task_id logs =
    (inr (refl, inl refl), λ other differs. refl)
write_line-IsLogged WriteOutcome.succeeds name document task_id logs =
    let log = log_of (get name logs) in
    (
      inl (refl, rw (log_of-put name _ logs) (add_line-IsAppended document log.lines log.tail)),
      λ other differs.
          ground (arith, get-put name other (add_line document log) logs, eq_iff name other),
    )
write_line-IsLogged WriteOutcome.fails_midway name document task_id logs =
    let log = log_of (get name logs) in
    (
      inr (
        refl,
        inr (inl (rw (log_of-put name (record log { tail = some torn }) logs) (refl, inl refl))),
      ),
      λ other differs.
          ground
            (arith, get-put name other (record log { tail = some torn }) logs, eq_iff name other),
    )
write_line-IsLogged WriteOutcome.fails_at_newline name document task_id logs =
    let log = log_of (get name logs) in
    let left = record log { tail = some (joined document log.tail) } in
    (
      inr (
        refl,
        inr (inl (rw (log_of-put name left logs) (joined-IsUnended document log.lines log.tail))),
      ),
      λ other differs. ground (arith, get-put name other left logs, eq_iff name other),
    )
write_line-IsLogged WriteOutcome.fails_late name document task_id logs =
    let log = log_of (get name logs) in
    (
      inr (
        refl,
        inr (
            inr (
              rw (log_of-put name (add_line document log) logs)
                (add_line-IsAppended document log.lines log.tail))),
      ),
      λ other differs.
          ground (arith, get-put name other (add_line document log) logs, eq_iff name other),
    )

module _ (schemas : Schemas) where
  open schemas use {event_is_valid}

  -- What append_event has done to the logs: the event was refused, or written as far as it goes.
  abbrev pub IsRecorded :
      RuntimeEvent → String → Option String → Store → Store → Result (Unit {0}) → Type 0
  IsRecorded event run_id task_id before now result =
      let log = log_of (get run_id before.events) in
      let log' = log_of (get run_id now.events) in
      ((event_is_valid event ≡ false) × (result ≡ err (store_error task_id)) × (now ≡ before))
      ⊎ ((event_is_valid event ≡ true) × (result ≡ ok tt) × IsAppended event log log')
      ⊎ ((event_is_valid event ≡ true)
          × (result ≡ err (store_error task_id))
          × ((log' ≡ log) ⊎ IsUnended event log log' ⊎ IsAppended event log log'))

  append_event-records :
      (run_id event_type : String) (task_id : Option String) (now : String) (store : Store)
      → let (later, result) = append_event schemas run_id event_type task_id now store in
        IsRecorded (run_event run_id event_type task_id now) run_id task_id store later result
        × ((other : String) → run_id ≢ other → get other later.events ≡ get other store.events)
        × (later.runs ≡ store.runs)
        × (later.approvals ≡ store.approvals)
  unfolding append_event
  append_event-records run_id event_type task_id now store =
      let event = run_event run_id event_type task_id now in
      elim (Bool-cases (event_is_valid event)) [
        | inr invalid ↦ rw invalid (inl (refl, refl, refl), λ other differs. refl, refl, refl)
        | inl valid ↦
            let (logged, others) =
              write_line-IsLogged (next_write store.writes) run_id event task_id store.events in
            rw valid (
              elim logged [
                | inl (returned, appended) ↦ inr (inl (refl, returned, appended))
                | inr (raised, left) ↦ inr (inr (refl, raised, left))
              ],
              others,
              refl,
              refl,
            )
      ]

  -- When append_event returns, the event meets its schema and the log of the run has exactly one line more, behind
  -- the old ones in their places: the event, if the log was empty or ended in a newline, and a line that does not
  -- parse, if an earlier write was cut off before its newline. When it raises, it raises
  -- RUNTIME_CONFIGURATION_ERROR with the task. Then either the event does not meet its schema and nothing has
  -- changed, or it does and the log is as before, or has the same lines and behind them a text without newline
  -- (the event or a part that does not parse), or has the one line more. In every case the logs of all other runs
  -- and the files of all runs and approvals are as before.
  pub append_event-IsRecorded :
      (run_id event_type : String) (task_id : Option String) (now : String) (store : Store)
      {later : Store} {result : Result (Unit {0})}
      → append_event schemas run_id event_type task_id now store ≡ (later, result)
      → IsRecorded (run_event run_id event_type task_id now) run_id task_id store later result
        × ((other : String) → run_id ≢ other → get other later.events ≡ get other store.events)
        × (later.runs ≡ store.runs)
        × (later.approvals ≡ store.approvals)
  append_event-IsRecorded run_id event_type task_id now store {later} {result} h =
      subst
        (λ o.
          IsRecorded (run_event run_id event_type task_id now) run_id task_id store o.0 o.1
          × ((other : String) → run_id ≢ other → get other o.0.events ≡ get other store.events)
          × (o.0.runs ≡ store.runs)
          × (o.0.approvals ≡ store.approvals))
        h (append_event-records run_id event_type task_id now store)
