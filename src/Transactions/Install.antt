-- ===== src/Transactions/Install.antt =====
-- The writes of `commit_gate_transaction` of RUNTIME/transactions.py, under any schedule of faults.
use mystery_starter_kit.Common.{
  String, false, Bool-cases, ◌≡◌, refl, sym, ap, subst, ◌∙◌, ◌==◌, eq_iff, eq_refl, Option, some,
  List, [], ◌∷◌, mem, Elem, Elem-head, Elem-tail, IsDistinct, All, arith,
}
use mystery_starter_kit.Transactions.Disk.{Files, World, changed, moved, write_bytes, replace}
use mystery_starter_kit.Transactions.Sat.{Sat, Sat-after, Sat-weaken, write_bytes-Sat, replace-Sat}
use mystery_starter_kit.Transactions.Commit.{Paths, Spec, temporary_of, install_one, install_each}
use mystery_starter_kit.Transactions.Saved.{IsApart, eq-absent, eq-absent_right, SameBackups}

pub cons_absent : (x y : String) (ys : List String) → mem x (y ∷ ys) ≡ false → mem x ys ≡ false
unfolding mem
cons_absent x y ys h = ground arith

pub eq_cons_absent : (x y : String) (ys : List String) → mem x (y ∷ ys) ≡ false → (y == x) ≡ false
unfolding mem
eq_cons_absent x y ys h =
    ground (arith, eq_iff x y, eq_iff y x, Bool-cases (y == x), Bool-cases (x == y))

abbrev pub spec_paths : {B : Type 0} → List (Spec B) → List String
spec_paths [] = []
spec_paths (spec ∷ specs) = spec.target ∷ spec_paths specs

-- Every target has the content intended for it.
abbrev pub AllInstalled : {B : Type 0} → List (Spec B) → Files B → Type 0
AllInstalled specs files = All (λ spec. files spec.target ≡ some spec.content) specs

pub AllInstalled-same :
    {B : Type 0} (specs : List (Spec B)) (files later : Files B)
    → ((path : String) → Elem path (spec_paths specs) → later path ≡ files path)
    → AllInstalled specs files
    → AllInstalled specs later
AllInstalled-same [] files later same h = tt
AllInstalled-same (spec ∷ specs) files later same (h, hs) = (
  same spec.target (Elem-head spec.target (spec_paths specs)) ∙ h,
  AllInstalled-same specs files later
      (λ path m. same path (Elem-tail path spec.target (spec_paths specs) m)) hs,
)

module _ {B : Type 0} (paths : Paths) (transaction_id : String) (T K : List String)
    (apart : IsApart paths transaction_id T K) where
  -- Backups and records are as they were, and of the targets only those of `specs` have changed.
  abbrev pub Onward : List (Spec B) → World B → World B → Type 0
  Onward specs world later =
      SameBackups K world.files later.files
      × (later.transactions ≡ world.transactions)
      × ((path : String)
          → Elem path T
          → mem path (spec_paths specs) ≡ false
          → later.files path ≡ world.files path)

  written :
      (world : World B) (spec : Spec B) (specs : List (Spec B)) (content : Option B)
      → Elem spec.target T
      → Onward
          (spec ∷ specs)
          world
          (changed (temporary_of paths transaction_id spec.target) content world)
  written world spec specs content m =
      let temporary = temporary_of paths transaction_id spec.target in
      (
        λ path k. rw (eq-absent temporary path K ((apart.temporary spec.target m).1) k) refl,
        refl,
        λ path k other. rw (eq-absent temporary path T ((apart.temporary spec.target m).0) k) refl,
      )

  replaced :
      (world : World B) (spec : Spec B) (specs : List (Spec B)) (content : B)
      → Elem spec.target T
      → Onward
          (spec ∷ specs)
          world
          (moved (temporary_of paths transaction_id spec.target) spec.target content world)
  replaced world spec specs content m =
      let temporary = temporary_of paths transaction_id spec.target in
      (
        λ path k.
            rw
              (
                eq-absent temporary path K ((apart.temporary spec.target m).1) k,
                eq-absent_right spec.target path T m ((apart.backup_inside path k).0),
              )
              refl,
        refl,
        λ path k other.
            rw
              (
                eq-absent temporary path T ((apart.temporary spec.target m).0) k,
                eq_cons_absent path spec.target (spec_paths specs) other,
              )
              refl,
      )

  Onward_trans :
      (spec : Spec B) (specs : List (Spec B)) (a b c : World B)
      → Onward (spec ∷ specs) a b
      → Onward (spec ∷ specs) b c
      → Onward (spec ∷ specs) a c
  Onward_trans spec specs a b c (k1, r1, t1) (k2, r2, t2) =
      (λ path m. k2 path m ∙ k1 path m, r2 ∙ r1, λ path m other. t2 path m other ∙ t1 path m other)

  Onward-cons :
      (spec : Spec B) (specs : List (Spec B)) (a b : World B)
      → Onward specs a b
      → Onward (spec ∷ specs) a b
  Onward-cons spec specs a b (k, r, t) =
      (k, r, λ path m other. t path m (cons_absent path spec.target (spec_paths specs) other))

  install_one-Sat :
      (world : World B) (spec : Spec B) (specs : List (Spec B))
      → Elem spec.target T
      → Sat (install_one paths transaction_id spec world) (Onward (spec ∷ specs) world) (λ _ later.
        Onward (spec ∷ specs) world later × (later.files spec.target ≡ some spec.content))
  unfolding install_one
  install_one-Sat world spec specs m =
      let temporary = temporary_of paths transaction_id spec.target in
      let filled = changed temporary (some spec.content) world in
      let here : filled.files temporary ≡ some spec.content = rw (eq_refl temporary) refl in
      Sat-after (write_bytes temporary spec.content world) (λ _. replace temporary spec.target)
        (Onward (spec ∷ specs) world) (λ _ later. later ≡ filled)
        (λ _ later.
          Onward (spec ∷ specs) world later × (later.files spec.target ≡ some spec.content))
        (write_bytes-Sat ⊥ world (λ c. absurd c) (Onward (spec ∷ specs) world)
          (λ _ later. later ≡ filled) temporary spec.content
          (λ fault left. written world spec specs left m) refl)
        (λ _ later is_filled.
          subst
            (λ l. Sat (replace temporary spec.target l) (Onward (spec ∷ specs) world) (λ _ later.
              Onward (spec ∷ specs) world later × (later.files spec.target ≡ some spec.content)))
            (sym is_filled)
            (replace-Sat ⊥ filled (λ c. absurd c) (Onward (spec ∷ specs) world)
              (λ _ later.
                Onward (spec ∷ specs) world later × (later.files spec.target ≡ some spec.content))
              temporary spec.target (λ fault. written world spec specs (some spec.content) m)
              (λ missing. written world spec specs (some spec.content) m)
              (λ bytes e.
                let same : bytes ≡ spec.content = (let f = sym e ∙ here in cc) in
                (
                  Onward_trans spec specs world filled (moved temporary spec.target bytes filled)
                      (written world spec specs (some spec.content) m)
                      (replaced filled spec specs bytes m),
                  rw
                      (
                        eq-absent temporary spec.target T ((apart.temporary spec.target m).0) m,
                        eq_refl spec.target,
                      )
                      (ap (λ c. some c) same),
                ))))

  pub install_each-Sat :
      (world : World B) (specs : List (Spec B))
      → IsDistinct (spec_paths specs)
      → ((path : String) → Elem path (spec_paths specs) → Elem path T)
      → Sat
          (install_each paths transaction_id specs world)
          (Onward specs world)
          (λ _ later. Onward specs world later × AllInstalled specs later.files)
  unfolding install_each
  install_each-Sat world [] distinct inside = ((λ path m. refl, refl, λ path m other. refl), tt)
  install_each-Sat world (spec ∷ specs) (fresh, distinct) inside =
      let all = spec ∷ specs in
      let m = inside spec.target (Elem-head spec.target (spec_paths specs)) in
      Sat-after (install_one paths transaction_id spec world)
        (λ _. install_each paths transaction_id specs) (Onward all world)
        (λ _ later. Onward all world later × (later.files spec.target ≡ some spec.content))
        (λ _ later. Onward all world later × AllInstalled all later.files)
        (install_one-Sat world spec specs m)
        (λ _ middle (first, here).
          Sat-weaken (install_each paths transaction_id specs middle) (Onward specs middle)
            (Onward all world)
            (λ _ later. Onward specs middle later × AllInstalled specs later.files)
            (λ _ later. Onward all world later × AllInstalled all later.files)
            (install_each-Sat middle specs distinct
              (λ path k. inside path (Elem-tail path spec.target (spec_paths specs) k)))
            (λ later rest.
              Onward_trans spec specs world middle later first
                (Onward-cons spec specs middle later rest))
            (λ _ later (rest, installed). (
              Onward_trans spec specs world middle later first
                  (Onward-cons spec specs middle later rest),
              ((rest.2) spec.target m fresh ∙ here, installed),
            )))
