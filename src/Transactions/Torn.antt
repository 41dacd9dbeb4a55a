-- ===== src/Transactions/Torn.antt =====
-- A transaction record that was cut off, and `recover_prepared_transactions` of RUNTIME/transactions.py.
use mystery_starter_kit.Common.{
  String, is_some, ◌≡◌, refl, sym, ap, ◌∙◌, ◌⊎◌, inl, inr, some, List, [], ◌∷◌, Elem, Elem-head,
  Elem-tail, Elem-cons, not-Elem-nil, get, keys, mem-keys,
}
use mystery_starter_kit.Runtime.Store.{torn}
use mystery_starter_kit.Failure.{invalid_json_document_error}
use mystery_starter_kit.Dependency.Changes.{sorted_set}
use mystery_starter_kit.Dependency.Invalidation.{mem-sorted_set}
use mystery_starter_kit.Transactions.Disk.{raised, World}
use mystery_starter_kit.Transactions.Commit.{Paths}
use mystery_starter_kit.Transactions.Recover.{
  load_record, recover_one, recover_each, recover_prepared_transactions,
}
use mystery_starter_kit.Transactions.Recovery.{IsQuiet, recover_one_quiet}

module _ {B : Type 0} (paths : Paths) (recovered_at : String) where
  recover_one_torn :
      (world : World B) (name : String)
      → get name world.transactions ≡ some torn
      → recover_one paths recovered_at name world ≡ (world, raised invalid_json_document_error)
  unfolding recover_one
  recover_one_torn world name at = rw (load_record, at) refl

  recover_each_torn :
      (world : World B) (names : List String) (cut : String)
      → ((name : String)
          → Elem name names
          → IsQuiet world name ⊎ (get name world.transactions ≡ some torn))
      → Elem cut names
      → get cut world.transactions ≡ some torn
      → recover_each paths recovered_at names world ≡ (world, raised invalid_json_document_error)
  unfolding recover_each
  recover_each_torn world [] cut known m at = absurd (not-Elem-nil cut m)
  recover_each_torn world (name ∷ names) cut known m at = elim (known name (Elem-head name names)) [
    | inr broken ↦ rw (recover_one_torn world name broken) refl
    | inl quiet ↦
        let later : Elem cut names = (elim (Elem-cons cut name names m) [
          | inr k ↦ k
          | inl same ↦
              let (document, there, idle) = quiet in
              absurd (
                let e = sym (ap (λ n. get n world.transactions) same) ∙ at in
                let f = sym there ∙ e in cc)
        ]) in
        rw (recover_one_quiet paths recovered_at world name quiet) (
          rw
            (recover_each_torn world names cut (λ n k. known n (Elem-tail n name names k)) later at)
            refl)
  ]

  -- As long as one record is torn and the others can be read and are not PREPARED, recovery raises
  -- InvalidJsonDocumentError and changes nothing, whatever faults are due.
  pub recover_prepared_transactions_torn :
      (world : World B) (cut : String)
      → ((name : String)
          → Elem name (keys world.transactions)
          → IsQuiet world name ⊎ (get name world.transactions ≡ some torn))
      → get cut world.transactions ≡ some torn
      → recover_prepared_transactions paths recovered_at world
        ≡ (world, raised invalid_json_document_error)
  unfolding recover_prepared_transactions
  recover_prepared_transactions_torn world cut known at =
      recover_each_torn world (sorted_set (keys world.transactions)) cut
        (λ name m. known name (sym (mem-sorted_set name (keys world.transactions)) ∙ m))
        (mem-sorted_set cut (keys world.transactions)
          ∙ mem-keys cut world.transactions
          ∙ ap is_some at)
        at
