-- ===== src/Dependency/Propagation.antt =====
-- `transitive_dependents` on a graph that `validate_dependency_graph` accepts: it returns, and its
-- answer is the set of artifacts that rest on the given one.
use mystery_starter_kit.Common.{
  IsDistinct, String, ◌≡◌, refl, ap, sym, ◌∙◌, ◌↔◌, inl, inr, Bool, true, ◌==◌, eq_iff, some, List,
  [], ◌∷◌, arith, Dict, get, get-put, put, keys, mem-keys, is_some, subset, Elem, Elem-head,
  Elem-tail, subset-Elem, Bool-cases, Option-cases,
}
use mystery_starter_kit.Failure.{ok, >>=-eq-ok}
use mystery_starter_kit.Json.{Fields}
use mystery_starter_kit.Dependency.Graph.{
  dependency_artifacts, dependency_names, names_at, check_references, validate_dependency_graph,
}
use mystery_starter_kit.Dependency.Dependents.{
  add, add_dependent, add_all_dependents, no_dependents, reverse_dependencies,
  transitive_dependents,
}
use mystery_starter_kit.Dependency.Accepted.{accepted_parts}
use mystery_starter_kit.Dependency.Paths.{points, RestsOn}
use mystery_starter_kit.Dependency.Reversal.{listed-eq-points}
use mystery_starter_kit.Dependency.Reach.{
  AreReversed, IsClosed, dependents_in_total, dependents_in_sound, dependents_in_complete,
}

abbrev has {ℓ} : {V : Type ℓ} → String → Dict V → Bool
has k d = is_some (get k d)

-- Giving a key that is there another value leaves the keys alone.
has-put {ℓ} :
    {V : Type ℓ} (k j : String) (v : V) (d : Dict V) → has k d ≡ true → has j (put k v d) ≡ has j d
has-put k j v d h = elim (Bool-cases (k == j)) [
  | inl same ↦ ground (arith, get-put k j v d, ap (λ x. has x d) ((eq_iff k j).0 same))
  | inr other ↦ ground (arith, get-put k j v d)
]

-- With every dependency a key, the reversal of one artifact's edges ends, and keeps the keys.
add_dependent_total :
    (name : String) (deps : List String) (reversed : Dict (List String))
    → ((x : String) → Elem x deps → has x reversed ≡ true)
    → (after : Dict (List String)) × (add_dependent name deps reversed ≡ ok after)
      × ((x : String) → has x after ≡ has x reversed)
unfolding add_dependent
add_dependent_total name [] reversed known = (reversed, refl, λ x. refl)
add_dependent_total name (dep ∷ deps) reversed known = elim (Option-cases (get dep reversed)) [
  | inl absent ↦ absurd (ground (arith, known dep (Elem-head dep deps)))
  | inr (dependents, found) ↦
      let there : has dep reversed ≡ true = ap is_some found in
      let next = put dep (add name dependents) reversed in
      let (after, e, same) = add_dependent_total name deps next (λ x m.
        has-put dep x (add name dependents) reversed there ∙ known x (Elem-tail x dep deps m)) in
      (after, ground arith, λ x. same x ∙ has-put dep x (add name dependents) reversed there)
]

-- `check_references` accepted the entries: each can be read, and names keys only.
add_all_total :
    (artifacts rest : Dict Fields) (reversed : Dict (List String))
    → check_references artifacts rest ≡ ok tt
    → ((x : String) → has x reversed ≡ has x artifacts)
    → (after : Dict (List String)) × (add_all_dependents rest reversed ≡ ok after)
      × ((x : String) → has x after ≡ has x artifacts)
unfolding add_all_dependents check_references
add_all_total artifacts [] reversed checked same = (reversed, refl, same)
add_all_total artifacts ((name, definition) ∷ rest) reversed checked same =
    let (deps, read, tested) = >>=-eq-ok (dependency_names definition) _ checked in
    elim (Bool-cases (subset deps (keys artifacts))) [
      | inr unknown ↦ absurd (ground arith)
      | inl all_known ↦
          let (next, added, kept) = add_dependent_total name deps reversed (λ x m.
            same x
            ∙ (sym (mem-keys x artifacts) ∙ subset-Elem deps (keys artifacts) all_known x m)) in
          let (after, e, last) =
            add_all_total artifacts rest next (ground arith) (λ x. kept x ∙ same x) in
          (after, ground arith, last)
    ]

has-no_dependents :
    (artifacts : Dict Fields) (x : String) → has x (no_dependents artifacts) ≡ has x artifacts
unfolding get
has-no_dependents [] x = refl
has-no_dependents ((name, definition) ∷ rest) x = ground (arith, has-no_dependents rest x)

points-has :
    (artifacts : Dict Fields) (a b : String)
    → points (names_at artifacts) a b ≡ true
    → has a artifacts ≡ true
unfolding names_at
points-has artifacts a b h = ground arith

found_of {ℓ} :
    {V : Type ℓ} (d : Dict V) (k : String) → has k d ≡ true → (v : V) × (get k d ≡ some v)
found_of d k h = elim (Option-cases (get k d)) [
  | inl absent ↦ absurd (ground arith)
  | inr found ↦ found
]

-- On a graph that the validation accepts, whose artifacts have distinct names, the dependents of an
-- artifact of the graph are computed with no error, and they are exactly the artifacts that rest on
-- it, directly or through others.
pub transitive_dependents_correct :
    (graph : Fields) (artifacts : Dict Fields) (name : String)
    → validate_dependency_graph graph ≡ ok tt
    → dependency_artifacts graph ≡ ok artifacts
    → IsDistinct (keys artifacts)
    → Elem name (keys artifacts)
    → (out : List String) × (transitive_dependents graph name ≡ ok out)
      × ((x : String) → Elem x out ↔ RestsOn (names_at artifacts) name x)
unfolding transitive_dependents reverse_dependencies
transitive_dependents_correct graph artifacts name valid read distinct known =
    let (marks, accepted, walked) = accepted_parts graph artifacts valid read in
    let (reversed, added, kept) =
      add_all_total artifacts artifacts (no_dependents artifacts) accepted
        (has-no_dependents artifacts) in
    let built : reverse_dependencies graph ≡ ok reversed = ground arith in
    let link : AreReversed (names_at artifacts) reversed =
      λ b a. listed-eq-points graph artifacts reversed b a read distinct built in
    let closed : IsClosed reversed =
      λ b a l. found_of reversed a (kept a ∙ points-has artifacts a b (sym (link b a) ∙ l)) in
    let (first, found) =
      found_of reversed name (kept name ∙ (sym (mem-keys name artifacts) ∙ known)) in
    let (out, returned) = dependents_in_total reversed closed name first found in
    (
      out,
      ground arith,
      λ x. (
        dependents_in_sound (names_at artifacts) reversed link name out returned x,
        dependents_in_complete (names_at artifacts) reversed link name out returned,
      ),
    )
