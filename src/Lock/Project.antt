-- ===== src/Lock/Project.antt =====
-- RUNTIME/transactions.py: `lock_owner_is_running`, `remove_stale_lock`, `acquire_project_lock` and
-- `release_project_lock`. What `os.kill(pid, 0)` answers is a parameter.
use mystery_starter_kit.Common.{
  ℕ, zero, suc, String, Bool, true, false, not, eqb, ◌==◌, Option, none, some, if◌then◌else◌,
}
use mystery_starter_kit.Failure.{Failure, runtime_error, project_locked, overflow_error}
use mystery_starter_kit.Json.{Value, object, text, integer, end, field, lookup}
use mystery_starter_kit.Lock.Machine.{
  Step, ◌>>=◌, ◌>>◌, give, raise, on_os_error, mkdir, exists, stat, read_document, unlink,
  open_exclusive, write,
}

abbrev pub locked : Bool → Failure
locked retryable = runtime_error project_locked retryable "RUN" none none

-- The process runs, there is none, it belongs to somebody else, any other `OSError`, or the `OverflowError` of
-- a number that is no PID of the system, which no handler catches.
pub data Signal : Type 0 where
  delivered no_such_process not_permitted refused too_large : Signal

abbrev pub running : Signal → Step Bool
running Signal.delivered = give true
running Signal.no_such_process = give false
running Signal.not_permitted = give true
running Signal.refused = raise (locked false)
running Signal.too_large = raise overflow_error

abbrev pub pid_of : Option Value → Option ℕ
pid_of (some (integer (suc n))) = some (suc n)
pid_of _ = none

-- `isinstance(document, Mapping)`, then the PID in it.
abbrev pub owner_of : Option Value → Option ℕ
owner_of (some (object fields)) = pid_of (lookup "pid" fields)
owner_of _ = none

-- What the process of the lock is to write into it.
abbrev pub lock_document : String → ℕ → String → Value
lock_document run_id pid acquired_at = object (
    field "run_id" (text run_id)
      (field "pid" (integer pid) (field "acquired_at" (text acquired_at) end)))

-- `document.get("run_id") == run_id` of an object.
abbrev pub run_is : Option Value → String → Bool
run_is (some (text owner)) run_id = owner == run_id
run_is _ run_id = false

abbrev pub owned_by : Option Value → String → Bool
owned_by (some (object fields)) run_id = run_is (lookup "run_id" fields) run_id
owned_by _ run_id = false

module _ (kill : ℕ → Signal) where
  abbrev pub ask : Option ℕ → Step Bool
  ask none = raise (locked false)
  ask (some pid) = running (kill pid)

  unfoldable pub lock_owner_is_running : Step Bool
  unfolding lookup
  lock_owner_is_running = do
    document ← on_os_error (locked false) read_document
    ask (owner_of document)

  unfoldable pub remove_stale_lock : Step (Unit {0})
  unfolding lock_owner_is_running
  remove_stale_lock = do
    original ← on_os_error (locked true) stat
    alive ← lock_owner_is_running
    if alive
        then raise (locked true)
        else on_os_error (locked true)
            (do current ← stat; if not (eqb current original) then raise (locked true) else unlink)

  -- The loop, with the number of rounds that are left.
  unfoldable pub acquire_rounds : ℕ → Step ℕ
  acquire_rounds zero = raise (locked true)
  acquire_rounds (suc rounds) =
      let next = acquire_rounds rounds in
      open_exclusive >>= λ opened. elim opened [
        | some descriptor ↦ give descriptor
        | none ↦ if eqb rounds 0 then raise (locked true) else (remove_stale_lock >> next)
      ]

  -- `range(2)` is two rounds.
  unfoldable pub acquire_project_lock : String → ℕ → String → Step (Unit {0})
  unfolding acquire_rounds
  acquire_project_lock run_id pid acquired_at = do
    mkdir
    descriptor ← acquire_rounds 2
    write descriptor (lock_document run_id pid acquired_at)

unfoldable pub release_project_lock : String → Step (Unit {0})
unfolding lookup
release_project_lock run_id = do
  present ← exists
  if not present then give tt else do
    document ← on_os_error (locked false) read_document
    if not (owned_by document run_id)
        then raise (locked false)
        else on_os_error (locked false) unlink
