-- ===== src/Transactions/Saved.antt =====
-- When the entries of a transaction record of RUNTIME/transactions.py can be restored, and what may happen
-- to the files on the way.
use mystery_starter_kit.Common.{
  String, true, false, Bool-cases, ◌≡◌, sym, ap, ◌∙◌, ◌⊎◌, inl, inr, ◌==◌, eq_iff, none, some, List,
  [], ◌∷◌, mem, Elem, All,
}
use mystery_starter_kit.Transactions.Disk.{Target, Files, World}
use mystery_starter_kit.Transactions.Commit.{Paths, backup_root, temporary_of, rollback_of}

-- The targets `T` of a commit, their backups `K` and the temporary files are different paths, and the paths
-- recorded are resolved ones inside the directories where they belong.
pub record IsApart (paths : Paths) (transaction_id : String) (T K : List String) : Type 0 where
  pub temporary :
      (t : String)
      → Elem t T
      → (mem (temporary_of paths transaction_id t) T ≡ false)
        × (mem (temporary_of paths transaction_id t) K ≡ false)
  pub rollback :
      (t : String)
      → Elem t T
      → (mem (rollback_of paths t) T ≡ false) × (mem (rollback_of paths t) K ≡ false)
  pub target_inside :
      (t : String)
      → Elem t T
      → (paths.resolve t ≡ t) × (paths.within t (paths.resolve paths.project) ≡ true)
  pub backup_inside :
      (k : String)
      → Elem k K
      → (mem k T ≡ false)
        × (paths.resolve k ≡ k)
        × (paths.within k (paths.resolve (backup_root paths transaction_id)) ≡ true)

abbrev pub target_paths : List Target → List String
target_paths [] = []
target_paths (entry ∷ entries) = entry.target_path ∷ target_paths entries

-- The backups `K` are as they were.
abbrev pub SameBackups : {B : Type 0} → List String → Files B → Files B → Type 0
SameBackups K files later = (path : String) → Elem path K → later path ≡ files path

pub eq-absent :
    (p q : String) (names : List String) → mem p names ≡ false → Elem q names → (p == q) ≡ false
eq-absent p q names absent m = elim (Bool-cases (p == q)) [
  | inr other ↦ other
  | inl same ↦ absurd (let e = sym absent ∙ ap (λ x. mem x names) ((eq_iff p q).0 same) ∙ m in cc)
]

pub eq-absent_right :
    (p q : String) (names : List String) → Elem p names → mem q names ≡ false → (p == q) ≡ false
eq-absent_right p q names m absent = elim (Bool-cases (p == q)) [
  | inr other ↦ other
  | inl same ↦ absurd (let e = sym m ∙ ap (λ x. mem x names) ((eq_iff p q).0 same) ∙ absent in cc)
]

module _ {B : Type 0} (T K : List String) (before : Files B) where
  -- The entry can be restored: its backup, or the fact that there was no file, is at hand.
  abbrev pub IsSaved : Target → Files B → Type 0
  IsSaved entry files =
      Elem entry.target_path T
      × (((entry.existed_before ≡ true)
            × ((backup : String) × (entry.backup_path ≡ some backup)
                × Elem backup K
                × ((content : B) × (before entry.target_path ≡ some content)
                    × (files backup ≡ some content))))
          ⊎ ((entry.existed_before ≡ false) × (before entry.target_path ≡ none)))

  -- Backups and records are as they were, and each target is, or has its old content.
  abbrev pub Toward : World B → World B → Type 0
  Toward world later =
      ((path : String)
        → Elem path T
        → (later.files path ≡ world.files path) ⊎ (later.files path ≡ before path))
      × SameBackups K world.files later.files
      × (later.transactions ≡ world.transactions)

  pub Toward-trans : (a b c : World B) → Toward a b → Toward b c → Toward a c
  Toward-trans a b c (t1, k1, r1) (t2, k2, r2) = (
    λ path m. elim (t2 path m) [
      | inr old ↦ inr old
      | inl same ↦ elim (t1 path m) [ inl kept ↦ inl (same ∙ kept) | inr old ↦ inr (same ∙ old) ]
    ],
    λ path m. k2 path m ∙ k1 path m,
    r2 ∙ r1,
  )

  pub Toward-old :
      (a b : World B) (path : String)
      → Toward a b
      → Elem path T
      → a.files path ≡ before path
      → b.files path ≡ before path
  Toward-old a b path (t, k, r) m old = elim (t path m) [
    | inl same ↦ same ∙ old
    | inr there ↦ there
  ]

  pub IsSaved-SameBackups :
      (entry : Target) (files later : Files B)
      → SameBackups K files later
      → IsSaved entry files
      → IsSaved entry later
  IsSaved-SameBackups entry files later same (m, inr fresh) = (m, inr fresh)
  IsSaved-SameBackups entry files later same
        (m, inl (existed, (backup, at, k, (content, old, held)))) =
      (m, inl (existed, (backup, at, k, (content, old, same backup k ∙ held))))

  pub All-IsSaved-SameBackups :
      (entries : List Target) (files later : Files B)
      → SameBackups K files later
      → All (λ e. IsSaved e files) entries
      → All (λ e. IsSaved e later) entries
  All-IsSaved-SameBackups [] files later same h = tt
  All-IsSaved-SameBackups (entry ∷ entries) files later same (h, hs) = (
    IsSaved-SameBackups entry files later same h,
    All-IsSaved-SameBackups entries files later same hs,
  )
