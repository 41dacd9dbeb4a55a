-- ===== src/Runtime/Store.antt =====
-- The files that the runtime keeps under a project's `.runtime`, as VALIDATORS/io.py reads and writes
-- them. A file is known by the identifiers in its path. What a write leaves behind is the choice of a
-- schedule, one entry for each write: it succeeds; it fails before the file is opened; it fails in the middle
-- of the document; it fails when the document is there and the newline behind it is not; or everything is
-- there and the flush or the close of the file fails.
use mystery_starter_kit.Common.{String, Option, none, some, List, [], ◌∷◌, Dict, get, put}
use mystery_starter_kit.Failure.{
  Failure, Result, ok, err, input_file_not_found_error, invalid_json_document_error,
  output_file_write_error,
}
use mystery_starter_kit.Runtime.Records.{RuntimeRun, RuntimeApproval, RuntimeEvent}

pub data JsonFile {ℓ} (D : Type ℓ) : Type ℓ where
  whole : D → JsonFile D
  torn : JsonFile D

pub data WriteOutcome : Type 0 where
  succeeds fails_early fails_midway fails_at_newline fails_late : WriteOutcome

-- A file that lines are appended to: the lines that end in a newline, and what stands behind the last newline.
pub record EventLog {ℓ} (D : Type ℓ) : Type ℓ where
  pub lines : List (JsonFile D)
  pub tail : Option (JsonFile D)

-- `runs` and `events` by run, `approvals` by run and task.
pub record Store : Type 0 where
  pub runs : Dict (JsonFile RuntimeRun)
  pub events : Dict (EventLog RuntimeEvent)
  pub approvals : Dict (JsonFile RuntimeApproval)
  pub writes : List WriteOutcome

-- Code that reads and changes the files and may raise; what it changed before it raised stays.
abbrev pub Action {ℓ} : Type ℓ → Type ℓ
Action D = Store → Store × Result D

abbrev pub after {ℓ κ} :
    {D : Type ℓ} {E : Type κ} → Store × Result D → (D → Action E) → Store × Result E
after (store, err failure) next = (store, err failure)
after (store, ok value) next = next value store

infixl 5 ◌>>=◌ ◌>>◌
abbrev pub ◌>>=◌ {ℓ κ} : {D : Type ℓ} {E : Type κ} → Action D → (D → Action E) → Action E
(action >>= next) store = after (action store) next

abbrev pub ◌>>◌ {ℓ κ} : {D : Type ℓ} {E : Type κ} → Action D → Action E → Action E
action >> next = action >>= λ _. next

abbrev pub give {ℓ} : {D : Type ℓ} → D → Action D
give value store = (store, ok value)

abbrev pub raise {ℓ} : {D : Type ℓ} → Failure → Action D
raise failure store = (store, err failure)

-- The next entry of the schedule; after its end every write succeeds.
abbrev pub next_write : List WriteOutcome → WriteOutcome
next_write [] = WriteOutcome.succeeds
next_write (outcome ∷ later) = outcome

abbrev pub later_writes : List WriteOutcome → List WriteOutcome
later_writes [] = []
later_writes (outcome ∷ later) = later

module _ {ℓ} {D : Type ℓ} where
  -- `write_json_object` on the files of one kind.
  unfoldable pub write_json_object :
      WriteOutcome → String → D → Dict (JsonFile D) → Dict (JsonFile D) × Result (Unit {0})
  write_json_object WriteOutcome.succeeds name document files =
      (put name (whole document) files, ok tt)
  write_json_object WriteOutcome.fails_early name document files =
      (files, err output_file_write_error)
  write_json_object WriteOutcome.fails_midway name document files =
      (put name torn files, err output_file_write_error)
  write_json_object WriteOutcome.fails_at_newline name document files =
      (put name (whole document) files, err output_file_write_error)
  write_json_object WriteOutcome.fails_late name document files =
      (put name (whole document) files, err output_file_write_error)

  abbrev pub read_file : Option (JsonFile D) → Result D
  read_file none = err input_file_not_found_error
  read_file (some torn) = err invalid_json_document_error
  read_file (some (whole document)) = ok document

  -- `load_json_object`
  unfoldable pub load_json_object : String → Dict (JsonFile D) → Result D
  load_json_object name files = read_file (get name files)
