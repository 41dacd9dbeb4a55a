-- ===== src/Transactions/Recover.antt =====
-- RUNTIME/transactions.py: `recover_prepared_transactions`, which runs before anything else when the
-- runtime starts again.
use mystery_starter_kit.Common.{
  String, not, none, some, Option, List, [], ◌∷◌, ◌++◌, get, keys, if◌then◌else◌,
}
use mystery_starter_kit.Failure.{invalid_json_document_error, input_file_not_found_error}
use mystery_starter_kit.Dependency.Changes.{sorted_set}
use mystery_starter_kit.Runtime.Store.{JsonFile, whole, torn}
use mystery_starter_kit.Transactions.Disk.{
  World, Outcome, TransactionStatus, TransactionRecord, returned, raised, Action, ◌>>=◌, ◌>>◌, give,
  write_record,
}
use mystery_starter_kit.Transactions.Commit.{Paths, is_prepared, restore_transaction_backups}

module _ (paths : Paths) {B : Type 0} where
  abbrev pub read_record :
      World B → Option (JsonFile TransactionRecord) → World B × Outcome TransactionRecord
  read_record world none = (world, raised input_file_not_found_error)
  read_record world (some torn) = (world, raised invalid_json_document_error)
  read_record world (some (whole document)) = (world, returned document)

  -- `load_json_object` on the file of a transaction.
  unfoldable pub load_record : String → Action B TransactionRecord
  load_record transaction_id world = read_record world (get transaction_id world.transactions)

  -- The body of the loop over the files of transactions.
  unfoldable pub recover_one : String → String → Action B (List String)
  unfolding load_record
  recover_one recovered_at transaction_id = do
    document ← load_record transaction_id
    if not (is_prepared document.status) then give [] else do
      restore_transaction_backups paths document
      write_record (record document {
        status = TransactionStatus.rolled_back;
        rolled_back_at = some recovered_at;
      })
      give (document.transaction_id ∷ [])

  unfoldable pub recover_each : String → List String → Action B (List String)
  unfolding recover_one
  recover_each recovered_at [] = give []
  recover_each recovered_at (transaction_id ∷ transaction_ids) = do
    first ← recover_one recovered_at transaction_id
    rest ← recover_each recovered_at transaction_ids
    give (first ++ rest)

  unfoldable pub recover_prepared_transactions : String → Action B (List String)
  unfolding recover_each sorted_set
  recover_prepared_transactions recovered_at world =
      recover_each recovered_at (sorted_set (keys world.transactions)) world
