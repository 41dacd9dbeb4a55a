-- ===== src/Transactions/Backup.antt =====
-- The backups that `commit_gate_transaction` of RUNTIME/transactions.py takes before it writes, under any
-- schedule of faults.
use mystery_starter_kit.Common.{
  ℕ, suc, String, true, false, ◌≡◌, refl, sym, ap, subst, ◌∙◌, ◌⊎◌, inl, inr, ◌==◌, eq_refl, Option,
  Option-cases, none, some, List, [], ◌∷◌, mem, Elem, Elem-head, Elem-tail, IsDistinct, All, arith,
}
use mystery_starter_kit.Transactions.Next.{Encoding}
use mystery_starter_kit.Transactions.Disk.{
  Target, returned, Files, World, after, changed, passed, read_bytes, copy2, give, ◌>>=◌, ◌>>◌,
}
use mystery_starter_kit.Transactions.Sat.{
  Sat, Sat-after, Sat-translated, Sat-weaken, read_bytes-Sat, copy2-Sat,
}
use mystery_starter_kit.Transactions.Commit.{
  Paths, Spec, backup_of, commit_error, absent_entry, saved_entry, copy_before, back_up,
  back_up_each,
}
use mystery_starter_kit.Transactions.Saved.{IsApart, target_paths, eq-absent_right, IsSaved}
use mystery_starter_kit.Transactions.Install.{cons_absent, eq_cons_absent, spec_paths}

head_absent : (x y : String) (ys : List String) → mem x (y ∷ ys) ≡ false → mem x (y ∷ []) ≡ false
unfolding mem
head_absent x y ys h = ground arith

single_absent : (x y : String) → (x == y) ≡ false → mem x (y ∷ []) ≡ false
unfolding mem
single_absent x y h = ground arith

module _ (paths : Paths) (encoding : Encoding) (transaction_id : String) where
  open encoding use {Bytes, sha256}

  -- The paths of the backups.
  abbrev pub backups_from : ℕ → List (Spec Bytes) → List String
  backups_from index [] = []
  backups_from index (spec ∷ specs) =
      backup_of paths transaction_id index spec.target ∷ backups_from (suc index) specs

  -- Only the files of `written` have changed, and no record has.
  abbrev pub OnlyWrites : List String → World Bytes → World Bytes → Type 0
  OnlyWrites written world later =
      ((path : String) → mem path written ≡ false → later.files path ≡ world.files path)
      × (later.transactions ≡ world.transactions)

  OnlyWrites-first :
      (backup : String) (rest : List String) (a b : World Bytes)
      → OnlyWrites (backup ∷ []) a b
      → OnlyWrites (backup ∷ rest) a b
  OnlyWrites-first backup rest a b (h, r) =
      (λ path other. h path (head_absent path backup rest other), r)

  OnlyWrites-both :
      (backup : String) (rest : List String) (a b c : World Bytes)
      → OnlyWrites (backup ∷ []) a b
      → OnlyWrites rest b c
      → OnlyWrites (backup ∷ rest) a c
  OnlyWrites-both backup rest a b c (h1, r1) (h2, r2) = (
    λ path other.
        h2 path (cons_absent path backup rest other) ∙ h1 path (head_absent path backup rest other),
    r2 ∙ r1,
  )

  -- The entry of a target says truly whether there was a file, and its backup has the content of it.
  abbrev IsTaken : ℕ → Spec Bytes → Files Bytes → Target → World Bytes → Type 0
  IsTaken index spec before entry later =
      (entry.target_path ≡ spec.target)
      × (((entry.existed_before ≡ true)
            × (entry.backup_path ≡ some (backup_of paths transaction_id index spec.target))
            × ((content : Bytes) × (before spec.target ≡ some content)
                × (later.files (backup_of paths transaction_id index spec.target) ≡ some content)))
          ⊎ ((entry.existed_before ≡ false) × (before spec.target ≡ none)))

  only_backup :
      (world : World Bytes) (index : ℕ) (spec : Spec Bytes) (content : Option Bytes)
      → OnlyWrites
          (backup_of paths transaction_id index spec.target ∷ [])
          world
          (changed (backup_of paths transaction_id index spec.target) content world)
  only_backup world index spec content = (
    λ path other.
        rw (eq_cons_absent path (backup_of paths transaction_id index spec.target) [] other) refl,
    refl,
  )

  OnlyWrites-passed :
      (written : List String) (world : World Bytes) → OnlyWrites written world (passed world)
  OnlyWrites-passed written world = (λ path other. refl, refl)

  copy_before-Sat :
      (world : World Bytes) (index : ℕ) (spec : Spec Bytes) (content : Bytes)
      → world.files spec.target ≡ some content
      → Sat
          (copy_before paths encoding transaction_id index spec world)
          (OnlyWrites (backup_of paths transaction_id index spec.target ∷ []) world)
          (λ before later.
            OnlyWrites (backup_of paths transaction_id index spec.target ∷ []) world later
            × (later.files (backup_of paths transaction_id index spec.target) ≡ some content))
  unfolding copy_before
  copy_before-Sat world index spec content held =
      let backup = backup_of paths transaction_id index spec.target in
      let P = OnlyWrites (backup ∷ []) world in
      let Q =
        λ (bytes : Bytes) (later : World Bytes). P later × (later.files backup ≡ some content) in
      Sat-translated (commit_error false (some spec.artifact_name))
        (after (read_bytes spec.target world) (λ before. copy2 spec.target backup >> give before)) P
        Q
        (Sat-after (read_bytes spec.target world)
          (λ before. copy2 spec.target backup >> give before) P (λ _ later. later ≡ passed world) Q
          (read_bytes-Sat ⊥ world (λ c. absurd c) P (λ _ later. later ≡ passed world) spec.target
            (λ fault. OnlyWrites-passed (backup ∷ []) world)
            (λ missing. OnlyWrites-passed (backup ∷ []) world) (λ bytes e. refl))
          (λ before middle is_passed.
            subst (λ w. Sat ((copy2 spec.target backup >> give before) w) P Q) (sym is_passed)
              (Sat-after (copy2 spec.target backup (passed world)) (λ _. give before) P
                (λ _ later. Q before later) Q
                (copy2-Sat ⊥ (passed world) (λ c. absurd c) P (λ _ later. Q before later)
                  spec.target backup (λ fault left. only_backup (passed world) index spec left)
                  (λ missing. OnlyWrites-passed (backup ∷ []) (passed world))
                  (λ bytes e.
                    let same : bytes ≡ content = (let f = sym e ∙ held in cc) in
                    (
                      only_backup (passed world) index spec (some bytes),
                      rw (eq_refl backup) (ap (λ c. some c) same),
                    )))
                (λ _ later q. q))))

  OnlyWrites-same : (written : List String) (world : World Bytes) → OnlyWrites written world world
  OnlyWrites-same written world = (λ path other. refl, refl)

  back_up_absent :
      (world : World Bytes) (index : ℕ) (spec : Spec Bytes)
      → world.files spec.target ≡ none
      → back_up paths encoding transaction_id index spec world
        ≡ (world, returned (absent_entry paths encoding spec))
  unfolding back_up
  back_up_absent world index spec missing = rw (back_up, missing) refl

  back_up_present :
      (world : World Bytes) (index : ℕ) (spec : Spec Bytes) {content : Bytes}
      → world.files spec.target ≡ some content
      → back_up paths encoding transaction_id index spec world
        ≡ after
            (copy_before paths encoding transaction_id index spec world)
            (λ before. give (saved_entry paths encoding transaction_id index spec before))
  unfolding back_up
  back_up_present world index spec held = rw (back_up, held) refl

  back_up-Sat :
      (world : World Bytes) (index : ℕ) (spec : Spec Bytes)
      → Sat
          (back_up paths encoding transaction_id index spec world)
          (OnlyWrites (backup_of paths transaction_id index spec.target ∷ []) world)
          (λ entry later.
            OnlyWrites (backup_of paths transaction_id index spec.target ∷ []) world later
            × IsTaken index spec world.files entry later)
  back_up-Sat world index spec =
      let backup = backup_of paths transaction_id index spec.target in
      let P = OnlyWrites (backup ∷ []) world in
      let Q = λ (entry : Target) (later : World Bytes).
        P later × IsTaken index spec world.files entry later in
      elim (Option-cases (world.files spec.target)) [
        | inl missing ↦
            subst (λ o. Sat o P Q) (sym (back_up_absent world index spec missing))
              (OnlyWrites-same (backup ∷ []) world, (refl, inr (refl, missing)))
        | inr (content, held) ↦
            subst (λ o. Sat o P Q) (sym (back_up_present world index spec held))
              (Sat-after (copy_before paths encoding transaction_id index spec world)
                (λ before. give (saved_entry paths encoding transaction_id index spec before)) P
                (λ _ later. P later × (later.files backup ≡ some content)) Q
                (copy_before-Sat world index spec content held)
                (λ before later (only, copied).
                  (only, (refl, inl (refl, refl, (content, held, copied))))))
      ]

  module _ (T K : List String) (before : Files Bytes)
      (apart : IsApart paths transaction_id T K) where
    IsTaken-named :
        (index : ℕ) (spec : Spec Bytes) (files : Files Bytes) (entry : Target)
        (middle : World Bytes)
        → IsTaken index spec files entry middle
        → entry.target_path ≡ spec.target
    IsTaken-named index spec files entry middle (named, h) = named

    paths_cons :
        (entry : Target) (spec : Spec Bytes) (entries : List Target) (specs : List (Spec Bytes))
        → entry.target_path ≡ spec.target
        → target_paths entries ≡ spec_paths specs
        → target_paths (entry ∷ entries) ≡ spec_paths (spec ∷ specs)
    paths_cons entry spec entries specs named rest = cc

    IsTaken-IsSaved :
        (index : ℕ) (spec : Spec Bytes) (files later : Files Bytes) (entry : Target)
        (middle : World Bytes)
        → IsTaken index spec files entry middle
        → (later (backup_of paths transaction_id index spec.target)
            ≡ middle.files (backup_of paths transaction_id index spec.target))
        → Elem (backup_of paths transaction_id index spec.target) K
        → Elem spec.target T
        → files spec.target ≡ before spec.target
        → IsSaved T K before entry later
    IsTaken-IsSaved index spec files later entry middle
          (named, inl (existed, at, (content, old, held))) kept k m same =
        let backup = backup_of paths transaction_id index spec.target in
        (
          subst (λ p. Elem p T) (sym named) m,
          inl (existed, (backup, at, k, (content, ap before named ∙ sym same ∙ old, kept ∙ held))),
        )
    IsTaken-IsSaved index spec files later entry middle (named, inr (existed, old)) kept k m same =
        (subst (λ p. Elem p T) (sym named) m, inr (existed, ap before named ∙ sym same ∙ old))

    -- Behind the backups, every entry can be restored, and nothing but the backups was written.
    abbrev pub AllTaken : ℕ → List (Spec Bytes) → World Bytes → List Target → World Bytes → Type 0
    AllTaken index specs world entries later =
        OnlyWrites (backups_from index specs) world later
        × All (λ e. IsSaved T K before e later.files) entries
        × (target_paths entries ≡ spec_paths specs)

    pub back_up_each-Sat :
        (world : World Bytes) (index : ℕ) (specs : List (Spec Bytes))
        → IsDistinct (backups_from index specs)
        → ((path : String) → Elem path (backups_from index specs) → Elem path K)
        → ((path : String) → Elem path (spec_paths specs) → Elem path T)
        → ((path : String) → Elem path T → world.files path ≡ before path)
        → Sat
            (back_up_each paths encoding transaction_id index specs world)
            (OnlyWrites (backups_from index specs) world)
            (AllTaken index specs world)
    unfolding back_up_each
    back_up_each-Sat world index [] distinct in_k in_t old = (OnlyWrites-same [] world, tt, refl)
    back_up_each-Sat world index (spec ∷ specs) (fresh, distinct) in_k in_t old =
        let backup = backup_of paths transaction_id index spec.target in
        let later_ones = backups_from (suc index) specs in
        let k = in_k backup (Elem-head backup later_ones) in
        let m = in_t spec.target (Elem-head spec.target (spec_paths specs)) in
        let P = OnlyWrites (backup ∷ later_ones) world in
        Sat-after (back_up paths encoding transaction_id index spec world)
          (λ entry. back_up_each paths encoding transaction_id (suc index) specs >>= λ entries.
            give (entry ∷ entries))
          P
          (λ entry later.
            OnlyWrites (backup ∷ []) world later × IsTaken index spec world.files entry later)
          (AllTaken index (spec ∷ specs) world)
          (Sat-weaken (back_up paths encoding transaction_id index spec world)
            (OnlyWrites (backup ∷ []) world) P
            (λ entry later.
              OnlyWrites (backup ∷ []) world later × IsTaken index spec world.files entry later)
            (λ entry later.
              OnlyWrites (backup ∷ []) world later × IsTaken index spec world.files entry later)
            (back_up-Sat world index spec)
            (λ later h. OnlyWrites-first backup later_ones world later h) (λ entry later h. h))
          (λ entry middle (first, taken).
            Sat-after (back_up_each paths encoding transaction_id (suc index) specs middle)
              (λ entries. give (entry ∷ entries)) P (AllTaken (suc index) specs middle)
              (AllTaken index (spec ∷ specs) world)
              (Sat-weaken (back_up_each paths encoding transaction_id (suc index) specs middle)
                (OnlyWrites later_ones middle) P (AllTaken (suc index) specs middle)
                (AllTaken (suc index) specs middle)
                (back_up_each-Sat middle (suc index) specs distinct
                  (λ path h. in_k path (Elem-tail path backup later_ones h))
                  (λ path h. in_t path (Elem-tail path spec.target (spec_paths specs) h))
                  (λ path h.
                    (first.0) path (
                      single_absent path backup
                        (eq-absent_right path backup T h ((apart.backup_inside backup k).0)))
                    ∙ old path h))
                (λ later h. OnlyWrites-both backup later_ones world middle later first h)
                (λ entries later h. h))
              (λ entries later (rest, saved, named). (
                OnlyWrites-both backup later_ones world middle later first rest,
                (
                  IsTaken-IsSaved index spec world.files later.files entry middle taken
                      ((rest.0) backup fresh) k m (old spec.target m),
                  saved,
                ),
                paths_cons entry spec entries specs
                    (IsTaken-named index spec world.files entry middle taken) named,
              )))
