-- ===== src/Transactions/Settled.antt =====
-- In which states `commit_gate_transaction` of RUNTIME/transactions.py may leave the project, and how its
-- steps lead from one to another.
use mystery_starter_kit.Common.{
  String, true, false, ◌≡◌, ◌≢◌, sym, ap, subst, ◌∙◌, ◌⊎◌, Option, none, some, List, Elem, All, get,
  get-put, get-put_self, eq_false,
}
use mystery_starter_kit.Runtime.Store.{JsonFile, whole, torn}
use mystery_starter_kit.Transactions.Disk.{TransactionRecord, Files, World, recorded}
use mystery_starter_kit.Transactions.Commit.{Spec, is_prepared}
use mystery_starter_kit.Transactions.Saved.{
  target_paths, IsSaved, SameBackups, All-IsSaved-SameBackups,
}
use mystery_starter_kit.Transactions.Install.{spec_paths, AllInstalled}

-- The record of a transaction that recovery has nothing to do with.
abbrev pub IsIdle : Option (JsonFile TransactionRecord) → Type 0
IsIdle none = Unit
IsIdle (some torn) = Unit
IsIdle (some (whole document)) = is_prepared document.status ≡ false

module _ {B : Type 0} (transaction_id : String) (specs : List (Spec B)) (K : List String)
    (start : World B) where
  -- Every target has the content, or the absence, that it had at the start.
  abbrev pub AllAsBefore : Files B → Type 0
  AllAsBefore files = (path : String) → Elem path (spec_paths specs) → files path ≡ start.files path

  -- The record is PREPARED, and says how to restore every target.
  abbrev pub IsPending : World B → Type 0
  IsPending world =
      (document : TransactionRecord) × (get transaction_id world.transactions
        ≡ some (whole document))
      × (is_prepared document.status ≡ true)
      × (document.transaction_id ≡ transaction_id)
      × All (λ e. IsSaved (spec_paths specs) K start.files e world.files) document.targets
      × (target_paths document.targets ≡ spec_paths specs)

  abbrev pub IsSettled : World B → Type 0
  IsSettled world =
      (AllAsBefore world.files × IsIdle (get transaction_id world.transactions))
      ⊎ ((AllInstalled specs world.files × IsIdle (get transaction_id world.transactions))
          ⊎ IsPending world)

  -- The records of all other transactions are as they were.
  abbrev pub SameOthers : World B → Type 0
  SameOthers world =
      (other : String)
      → transaction_id ≢ other
      → get other world.transactions ≡ get other start.transactions

  pub IsPending-SameBackups :
      (world later : World B)
      → SameBackups K world.files later.files
      → later.transactions ≡ world.transactions
      → IsPending world
      → IsPending later
  IsPending-SameBackups world later same kept (document, at, status, named, saved, listed) = (
    document,
    ap (get transaction_id) kept ∙ at,
    status,
    named,
    All-IsSaved-SameBackups (spec_paths specs) K start.files document.targets world.files
        later.files same saved,
    listed,
  )

  pub SameOthers-same :
      (world later : World B)
      → later.transactions ≡ world.transactions
      → SameOthers world
      → SameOthers later
  SameOthers-same world later kept others =
      λ other differs. ap (get other) kept ∙ others other differs

  pub SameOthers-recorded :
      (world : World B) (file : JsonFile TransactionRecord)
      → SameOthers world
      → SameOthers (recorded transaction_id file world)
  SameOthers-recorded world file others = λ other differs.
      get-put transaction_id other file world.transactions
      ∙ rw (eq_false transaction_id other differs) (others other differs)

  pub get-recorded :
      (world : World B) (file : JsonFile TransactionRecord)
      → get transaction_id (recorded transaction_id file world).transactions ≡ some file
  get-recorded world file = get-put_self transaction_id file world.transactions

  pub IsIdle-recorded :
      (world : World B) (file : JsonFile TransactionRecord)
      → IsIdle (some file)
      → IsIdle (get transaction_id (recorded transaction_id file world).transactions)
  IsIdle-recorded world file idle = subst IsIdle (sym (get-recorded world file)) idle
