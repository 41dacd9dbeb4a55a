-- ===== src/Dependency/Reversal.antt =====
-- `reverse_dependencies` lists an artifact under another exactly when it names the other.
use mystery_starter_kit.Common.{
  IsDistinct, String, ◌≡◌, refl, ap, ◌∙◌, Bool, false, ◌&&◌, ◌||◌, inl, inr, ◌==◌, eq_iff, some,
  List, [], ◌∷◌, arith, Dict, get, put, keys, mem, get-put, Bool-cases,
}
use mystery_starter_kit.Failure.{ok, key_error, or_raise, >>=-eq-ok}
use mystery_starter_kit.Json.{Fields}
use mystery_starter_kit.Dependency.Graph.{dependency_artifacts, dependency_names, names_at}
use mystery_starter_kit.Dependency.Dependents.{
  add, add_dependent, add_all_dependents, no_dependents, reverse_dependencies,
}
use mystery_starter_kit.Dependency.Paths.{points, read_holds, listed}

mem-add :
    (a name : String) (names : List String) → mem a (add name names) ≡ (a == name || mem a names)
unfolding mem
mem-add a name names = elim (Bool-cases (a == name)) [
  | inl same ↦ let e : a ≡ name = (eq_iff a name).0 same in ground (arith, ap (λ x. mem x names) e)
  | inr other ↦ ground arith
]

listed-put :
    (dep b a name : String) (names : List String) (reversed : Dict (List String))
    → get dep reversed ≡ some names
    → listed (put dep (add name names) reversed) b a
      ≡ (listed reversed b a || (a == name && dep == b))
listed-put dep b a name names reversed h = elim (Bool-cases (dep == b)) [
  | inl same ↦ ground (
    arith,
    get-put dep b (add name names) reversed,
    mem-add a name names,
    ap (λ k. get k reversed) ((eq_iff dep b).0 same),
  )
  | inr other ↦ ground (arith, get-put dep b (add name names) reversed)
]

listed-add_dependent :
    (name : String) (deps : List String) (reversed after : Dict (List String)) (b a : String)
    → add_dependent name deps reversed ≡ ok after
    → listed after b a ≡ (listed reversed b a || (a == name && mem b deps))
unfolding add_dependent mem
listed-add_dependent name [] reversed after b a h = ground arith
listed-add_dependent name (dep ∷ deps) reversed after b a h =
    let (names, found, rest) = >>=-eq-ok (or_raise key_error (get dep reversed)) _ h in
    ground (
      arith,
      listed-put dep b a name names reversed (ground arith),
      listed-add_dependent name deps (put dep (add name names) reversed) after b a rest,
      eq_iff dep b,
      eq_iff b dep,
    )

-- An entry of the graph that `a` is and that names `b`.
abbrev entry_points : String → String → Dict Fields → Bool
entry_points a b [] = false
entry_points a b ((name, definition) ∷ rest) =
    (a == name && read_holds (dependency_names definition) b) || entry_points a b rest

listed-add_all :
    (artifacts : Dict Fields) (reversed after : Dict (List String)) (b a : String)
    → add_all_dependents artifacts reversed ≡ ok after
    → listed after b a ≡ (listed reversed b a || entry_points a b artifacts)
unfolding add_all_dependents
listed-add_all [] reversed after b a h = ground arith
listed-add_all ((name, definition) ∷ rest) reversed after b a h =
    let (deps, read, more) = >>=-eq-ok (dependency_names definition) _ h in
    let (next, added, last) = >>=-eq-ok (add_dependent name deps reversed) _ more in
    ground (
      arith,
      listed-add_dependent name deps reversed next b a added,
      listed-add_all rest next after b a last,
    )

listed-no_dependents :
    (artifacts : Dict Fields) (b a : String) → listed (no_dependents artifacts) b a ≡ false
unfolding get mem
listed-no_dependents [] b a = refl
listed-no_dependents ((name, definition) ∷ rest) b a = ground (arith, listed-no_dependents rest b a)

entry_points-absent :
    (artifacts : Dict Fields) (a b : String)
    → mem a (keys artifacts) ≡ false
    → entry_points a b artifacts ≡ false
unfolding mem
entry_points-absent [] a b h = refl
entry_points-absent ((name, definition) ∷ rest) a b h =
    ground (arith, entry_points-absent rest a b (ground arith))

entry_points-eq-points :
    (artifacts : Dict Fields) (a b : String)
    → IsDistinct (keys artifacts)
    → entry_points a b artifacts ≡ points (names_at artifacts) a b
unfolding names_at get
entry_points-eq-points [] a b h = refl
entry_points-eq-points ((name, definition) ∷ rest) a b h = elim (Bool-cases (a == name)) [
  | inl same ↦
      let e : a ≡ name = (eq_iff a name).0 same in
      ground
        (arith, eq_iff name a, entry_points-absent rest a b (ap (λ x. mem x (keys rest)) e ∙ h.0))
  | inr other ↦ ground (arith, eq_iff a name, eq_iff name a, entry_points-eq-points rest a b h.1)
]

-- In the reversed graph `a` is listed under `b` exactly when `a` names `b`.
pub listed-eq-points :
    (graph : Fields) (artifacts : Dict Fields) (reversed : Dict (List String)) (b a : String)
    → dependency_artifacts graph ≡ ok artifacts
    → IsDistinct (keys artifacts)
    → reverse_dependencies graph ≡ ok reversed
    → listed reversed b a ≡ points (names_at artifacts) a b
unfolding reverse_dependencies
listed-eq-points graph artifacts reversed b a read distinct h =
    let all_added : add_all_dependents artifacts (no_dependents artifacts) ≡ ok reversed = cc in
    ground (
      arith,
      listed-add_all artifacts (no_dependents artifacts) reversed b a all_added,
      listed-no_dependents artifacts b a,
      entry_points-eq-points artifacts a b distinct,
    )
