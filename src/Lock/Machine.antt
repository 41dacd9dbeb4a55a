-- ===== src/Lock/Machine.antt =====
-- The file of the lock below RUNTIME/transactions.py. Each operation has a turn: what other processes have
-- done to the file since the operation before, and whether the operation is fine, raises an `OSError`, or the
-- process dies in it. A file is known by its inode, and a turn gives the inode of a file that is created in it.
use mystery_starter_kit.Common.{
  ℕ, Bool, true, false, eqb, Option, none, some, List, [], ◌∷◌, if◌then◌else◌,
}
use mystery_starter_kit.Failure.{Failure}
use mystery_starter_kit.Json.{Value}
use mystery_starter_kit.Transactions.Disk.{Outcome, returned, os_error, crashed, raised}

-- `content` is the JSON document in the file, or `none` if there is none that can be parsed.
pub record LockFile : Type 0 where
  pub inode : ℕ
  pub content : Option Value

pub data Event : Type 0 where
  fine breaks crashes : Event

pub record Turn : Type 0 where
  pub meanwhile : Option LockFile → Option LockFile
  pub event : Event
  pub new_inode : ℕ

pub record Machine : Type 0 where
  pub lock : Option LockFile
  pub turns : List Turn

-- After its end nobody interferes and nothing breaks.
abbrev pub quiet_turn : Turn
quiet_turn = record { meanwhile = λ lock. lock; event = Event.fine; new_inode = 0 }

abbrev pub next_turn : List Turn → Turn
next_turn [] = quiet_turn
next_turn (turn ∷ later) = turn

abbrev pub later_turns : List Turn → List Turn
later_turns [] = []
later_turns (turn ∷ later) = later

abbrev pub Step : Type 0 → Type 0
Step D = Machine → Machine × Outcome D

abbrev pub after : {D E : Type 0} → Machine × Outcome D → (D → Step E) → Machine × Outcome E
after (machine, returned value) next = next value machine
after (machine, os_error) next = (machine, os_error)
after (machine, crashed) next = (machine, crashed)
after (machine, raised failure) next = (machine, raised failure)

infixl 5 ◌>>=◌ ◌>>◌
abbrev pub ◌>>=◌ : {D E : Type 0} → Step D → (D → Step E) → Step E
(action >>= next) machine = after (action machine) next

abbrev pub ◌>>◌ : {D E : Type 0} → Step D → Step E → Step E
action >> next = action >>= λ _. next

abbrev pub give : {D : Type 0} → D → Step D
give value machine = (machine, returned value)

abbrev pub raise : {D : Type 0} → Failure → Step D
raise failure machine = (machine, raised failure)

abbrev pub translated : {D : Type 0} → Failure → Machine × Outcome D → Machine × Outcome D
translated failure (machine, returned value) = (machine, returned value)
translated failure (machine, os_error) = (machine, raised failure)
translated failure (machine, crashed) = (machine, crashed)
translated failure (machine, raised other) = (machine, raised other)

-- `except OSError as error: raise …`
abbrev pub on_os_error : {D : Type 0} → Failure → Step D → Step D
on_os_error failure action machine = translated failure (action machine)

-- The file as an operation finds it.
abbrev pub found : Machine → Option LockFile
found machine = (next_turn machine.turns).meanwhile machine.lock

abbrev pub left : Option LockFile → Machine → Machine
left lock machine = record { lock = lock; turns = later_turns machine.turns }

abbrev pub under : {D : Type 0} → Event → Machine × Outcome D → Machine → Machine × Outcome D
under Event.fine done machine = done
under Event.breaks done machine = (left (found machine) machine, os_error)
under Event.crashes done machine = (left (found machine) machine, crashed)

-- An operation on a file that is there; a missing file is an `OSError` too.
abbrev pub on_file :
    {D : Type 0}
    → Machine
    → Option LockFile
    → (LockFile → Machine × Outcome D)
    → Machine × Outcome D
on_file machine none done = (left none machine, os_error)
on_file machine (some file) done = done file

-- Making the directory of the lock.
unfoldable pub mkdir : Step (Unit {0})
mkdir machine =
    under (next_turn machine.turns).event (left (found machine) machine, returned tt) machine

-- `lock_path.exists()`
abbrev pub there : Option LockFile → Bool
there none = false
there (some _) = true

unfoldable pub exists : Step Bool
exists machine =
    under (next_turn machine.turns).event
      (left (found machine) machine, returned (there (found machine))) machine

-- `lock_path.stat()`, of which the code reads the inode.
unfoldable pub stat : Step ℕ
stat machine =
    under (next_turn machine.turns).event
      (on_file machine (found machine) (λ file. (left (some file) machine, returned file.inode)))
      machine

-- `json.loads(lock_path.read_text())`, where `none` is a `JSONDecodeError`.
unfoldable pub read_document : Step (Option Value)
read_document machine =
    under (next_turn machine.turns).event
      (on_file machine (found machine) (λ file. (left (some file) machine, returned file.content)))
      machine

unfoldable pub unlink : Step (Unit {0})
unlink machine =
    under (next_turn machine.turns).event
      (on_file machine (found machine) (λ file. (left none machine, returned tt))) machine

-- `os.open(path, O_CREAT | O_EXCL | O_WRONLY)`: the inode of the new file, or `none` for `FileExistsError`.
abbrev pub created : ℕ → Option LockFile → Machine → Machine × Outcome (Option ℕ)
created inode none machine =
    (left (some (record { inode = inode; content = none })) machine, returned (some inode))
created inode (some file) machine = (left (some file) machine, returned none)

unfoldable pub open_exclusive : Step (Option ℕ)
open_exclusive machine =
    under (next_turn machine.turns).event
      (created (next_turn machine.turns).new_inode (found machine) machine) machine

-- A write through a descriptor reaches the file that was opened, under whatever name it now is.
abbrev pub written : ℕ → Value → Option LockFile → Option LockFile
written descriptor content none = none
written descriptor content (some file) =
    if eqb file.inode descriptor then some (record file { content = some content }) else some file

unfoldable pub write : ℕ → Value → Step (Unit {0})
write descriptor content machine =
    under (next_turn machine.turns).event
      (left (written descriptor content (found machine)) machine, returned tt) machine
