-- ===== src/Transactions/Disk.antt =====
-- The file system below RUNTIME/transactions.py. A schedule of faults has one entry for each operation
-- on a file: the operation is fine, it raises an `OSError`, or the process dies in it. A write that does
-- not come to its end may leave anything under the path that it writes. `os.replace` and `unlink` are
-- atomic, as POSIX has it: they happen, or leave the directory as it was.
use mystery_starter_kit.Common.{
  String, Bool, Option, none, some, List, [], ◌∷◌, ◌==◌, Dict, put, if◌then◌else◌,
}
use mystery_starter_kit.Failure.{Failure, output_file_write_error}
use mystery_starter_kit.Runtime.Store.{JsonFile, whole, torn}

pub data TransactionStatus : Type 0 where
  prepared committed rolled_back : TransactionStatus

-- One entry of `targets` in a transaction record.
pub record Target : Type 0 where
  pub artifact_name : String
  pub target_path : String
  pub backup_path : Option String
  pub existed_before : Bool
  pub before_hash : Option String
  pub after_hash : String

pub record TransactionRecord : Type 0 where
  pub transaction_id : String
  pub run_id : String
  pub gate_id : String
  pub status : TransactionStatus
  pub prepared_at : String
  pub committed_at : Option String
  pub rolled_back_at : Option String
  pub overlay_path : String
  pub targets : List Target

pub data Outcome {ℓ} (D : Type ℓ) : Type ℓ where
  returned : D → Outcome D
  os_error crashed : Outcome D
  raised : Failure → Outcome D

-- What becomes of an operation: it is fine, or it raises or the process dies, and what it leaves of a file is
-- given. The late ones are for the write of a record: everything is on disk by then.
pub data Fault (B : Type 0) : Type 0 where
  fine : Fault B
  breaks crashes : Option B → Fault B
  breaks_late crashes_late : Fault B

abbrev pub Files : Type 0 → Type 0
Files B = String → Option B

-- `transactions` holds the files `.runtime/transactions/*/transaction.json`.
pub record World (B : Type 0) : Type 0 where
  pub files : Files B
  pub transactions : Dict (JsonFile TransactionRecord)
  pub faults : List (Fault B)

abbrev pub set : {B : Type 0} → String → Option B → Files B → Files B
set path content files = λ other. if path == other then content else files other

abbrev pub next_fault : {B : Type 0} → List (Fault B) → Fault B
next_fault [] = fine
next_fault (fault ∷ later) = fault

abbrev pub later_faults : {B : Type 0} → List (Fault B) → List (Fault B)
later_faults [] = []
later_faults (fault ∷ later) = later

abbrev pub Action : Type 0 → Type 0 → Type 0
Action B D = World B → World B × Outcome D

module _ {B : Type 0} where
  abbrev pub after : {D E : Type 0} → World B × Outcome D → (D → Action B E) → World B × Outcome E
  after (world, returned value) next = next value world
  after (world, os_error) next = (world, os_error)
  after (world, crashed) next = (world, crashed)
  after (world, raised failure) next = (world, raised failure)

  infixl 5 ◌>>=◌ ◌>>◌
  abbrev pub ◌>>=◌ : {D E : Type 0} → Action B D → (D → Action B E) → Action B E
  (action >>= next) world = after (action world) next

  abbrev pub ◌>>◌ : {D E : Type 0} → Action B D → Action B E → Action B E
  action >> next = action >>= λ _. next

  abbrev pub give : {D : Type 0} → D → Action B D
  give value world = (world, returned value)

  abbrev pub raise : {D : Type 0} → Failure → Action B D
  raise failure world = (world, raised failure)

  -- `except OSError as error: raise … from error`
  abbrev pub translated : {D : Type 0} → Failure → World B × Outcome D → World B × Outcome D
  translated failure (world, os_error) = (world, raised failure)
  translated failure (world, returned value) = (world, returned value)
  translated failure (world, crashed) = (world, crashed)
  translated failure (world, raised other) = (world, raised other)

  abbrev pub on_os_error : {D : Type 0} → Failure → Action B D → Action B D
  on_os_error failure action world = translated failure (action world)

  -- The world behind an operation that changed at most one file.
  abbrev pub changed : String → Option B → World B → World B
  changed path content world = record world {
    files = set path content world.files;
    faults = later_faults world.faults;
  }

  abbrev pub passed : World B → World B
  passed world = record world { faults = later_faults world.faults }

  -- An operation under the fault that is due: what it does when it is fine, and the world that it leaves
  -- when it raises or dies.
  abbrev pub under :
      {D : Type 0} → Fault B → World B × Outcome D → (Option B → World B) → World B × Outcome D
  under fine done left = done
  under (breaks content) done left = (left content, os_error)
  under (crashes content) done left = (left content, crashed)
  under breaks_late done left = (left none, os_error)
  under crashes_late done left = (left none, crashed)

  -- A file that has to be there.
  abbrev pub found :
      {D : Type 0} → World B → Option B → (B → World B × Outcome D) → World B × Outcome D
  found world none done = (passed world, os_error)
  found world (some content) done = done content

  -- An operation that changes no file, such as `mkdir`.
  unfoldable pub pass : Action B (Unit {0})
  pass world = under (next_fault world.faults) (passed world, returned tt) (λ left. passed world)

  -- `path.read_bytes()`
  unfoldable pub read_bytes : String → Action B B
  read_bytes path world =
      under (next_fault world.faults)
        (found world (world.files path) (λ content. (passed world, returned content)))
        (λ left. passed world)

  -- `path.write_bytes(content)`
  unfoldable pub write_bytes : String → B → Action B (Unit {0})
  write_bytes path content world =
      under (next_fault world.faults) (changed path (some content) world, returned tt)
        (λ left. changed path left world)

  -- `shutil.copy2(source, path)`
  unfoldable pub copy2 : String → String → Action B (Unit {0})
  copy2 source path world =
      under (next_fault world.faults)
        (found world (world.files source)
          (λ content. (changed path (some content) world, returned tt)))
        (λ left. changed path left world)

  abbrev pub moved : String → String → B → World B → World B
  moved source path content world = record world {
    files = set source none (set path (some content) world.files);
    faults = later_faults world.faults;
  }

  -- `os.replace(source, path)`
  unfoldable pub replace : String → String → Action B (Unit {0})
  replace source path world =
      under (next_fault world.faults)
        (found world (world.files source)
          (λ content. (moved source path content world, returned tt)))
        (λ left. passed world)

  -- `path.unlink(missing_ok=True)`
  unfoldable pub unlink : String → Action B (Unit {0})
  unlink path world =
      under (next_fault world.faults) (changed path none world, returned tt) (λ left. passed world)

  abbrev pub recorded : String → JsonFile TransactionRecord → World B → World B
  recorded transaction_id file world = record world {
    transactions = put transaction_id file world.transactions;
    faults = later_faults world.faults;
  }

  -- What an interrupted `open("w")` and `json.dump` leave: the old file, or one cut short.
  abbrev pub cut_short : String → World B → Option B → World B
  cut_short transaction_id world none = passed world
  cut_short transaction_id world (some left) = recorded transaction_id torn world

  -- The same, and the whole file, when the newline behind it, the flush or the close is interrupted.
  abbrev pub interrupted : Fault B → TransactionRecord → World B → Option B → World B
  interrupted breaks_late document world left =
      recorded document.transaction_id (whole document) world
  interrupted crashes_late document world left =
      recorded document.transaction_id (whole document) world
  interrupted fine document world left = cut_short document.transaction_id world left
  interrupted (breaks _) document world left = cut_short document.transaction_id world left
  interrupted (crashes _) document world left = cut_short document.transaction_id world left

  -- `write_json_object` on the file of a transaction; it turns an `OSError` into a failure of its own.
  unfoldable pub write_record : TransactionRecord → Action B (Unit {0})
  write_record document world = translated output_file_write_error (
      under (next_fault world.faults)
        (recorded document.transaction_id (whole document) world, returned tt)
        (interrupted (next_fault world.faults) document world))
