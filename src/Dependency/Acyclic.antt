-- ===== src/Dependency/Acyclic.antt =====
-- The depth-first search of `validate_dependency_graph`: the artifacts that it has visited stand in an
-- order in which each comes after what it names, so an accepted graph has no cycle.
use mystery_starter_kit.Common.{
  ℕ, zero, suc, ◌≤◌, ◌<◌, String, ◌≡◌, sym, subst, ◌⊎◌, inl, inr, true, List, [], ◌∷◌, arith,
  length, Dict, keys, mem, mem-keys, Elem, Elem-head, Elem-tail, Elem-cons, not-Elem-nil,
  Bool-cases, if◌then◌else◌,
}
use mystery_starter_kit.Failure.{Result, ok, ◌>>=◌, >>=-eq-ok}
use mystery_starter_kit.Json.{Fields}
use mystery_starter_kit.Dependency.Graph.{
  Marks, unmarked, remove, visit, visit_each, visit_all, names_at, dependency_artifacts,
  validate_dependency_graph,
}
use mystery_starter_kit.Dependency.Accepted.{accepted_parts}
use mystery_starter_kit.Dependency.Paths.{points, RestsOn, direct, through, IsAcyclic}

module _ (names : String → Result (List String)) where
  -- Each artifact of the list names only artifacts behind it.
  abbrev pub IsLayered : List String → Type 0
  IsLayered [] = Unit
  IsLayered (x ∷ xs) = ((y : String) → points names x y ≡ true → Elem y xs) × IsLayered xs

  -- A call that returned: it forgets nothing, keeps the layers, and has visited what it was asked to.
  pub record Visited (asked : List String) (before after : Marks) : Type 0 where
    pub kept : (x : String) → Elem x before.visited → Elem x after.visited
    pub layered : IsLayered before.visited → IsLayered after.visited
    pub reached : (x : String) → Elem x asked → Elem x after.visited

  visit_step :
      (fuel : ℕ) (name : String) (marks after : Marks)
      → visit names (suc fuel) name marks ≡ ok after
      → Elem name marks.visited × (marks ≡ after)
        ⊎ ((deps : List String) × (mid : Marks) × (names name ≡ ok deps)
            × (visit_each
                  (visit names fuel)
                  deps
                  (record marks { visiting = name ∷ marks.visiting })
                ≡ ok mid)
            × (record { visiting = remove name mid.visiting; visited = name ∷ mid.visited }
                ≡ after))
  unfolding visit
  visit_step fuel name marks after e = elim (Bool-cases (mem name marks.visiting)) [
    | inl again ↦ absurd (ground arith)
    | inr fresh ↦ elim (Bool-cases (mem name marks.visited)) [
      | inl done ↦ inl (done, ground arith)
      | inr undone ↦
          let run : (names name >>= λ deps.
          visit_each (visit names fuel) deps (record marks { visiting = name ∷ marks.visiting })
          >>= λ mid.
              ok (record { visiting = remove name mid.visiting; visited = name ∷ mid.visited }))
              ≡ ok after =
            ground arith in
          let (deps, read, more) = >>=-eq-ok (names name) _ run in
          let (mid, walked, last) = >>=-eq-ok (visit_each (visit names fuel) deps _) _ more in
          inr (deps, mid, read, walked, cc)
    ]
  ]

  pub visit_each-Visited :
      (step : String → Marks → Result Marks)
      → ((name : String) (marks after : Marks)
          → step name marks ≡ ok after
          → Visited (name ∷ []) marks after)
      → (asked : List String) (marks after : Marks) → visit_each step asked marks ≡ ok after
      → Visited asked marks after
  visit_each-Visited step each [] marks after e =
      let same : marks ≡ after = cc in
      subst (Visited [] marks) same
        (record { kept = λ x m. m; layered = λ l. l; reached = λ x m. absurd (not-Elem-nil x m) })
  visit_each-Visited step each (name ∷ asked) marks after e =
      let (mid, stepped, rest) = >>=-eq-ok (step name marks) _ e in
      let one = each name marks mid stepped in
      let more = visit_each-Visited step each asked mid after rest in
      record {
        kept = λ x m. more.kept x (one.kept x m);
        layered = λ l. more.layered (one.layered l);
        reached = λ x m. elim (Elem-cons x name asked m) [
          | inl same ↦
              more.kept x
                (subst (λ y. Elem y mid.visited) (sym same) (one.reached name (Elem-head name [])))
          | inr later ↦ more.reached x later
        ];
      }

  pub visit-Visited :
      (fuel : ℕ) (name : String) (marks after : Marks)
      → visit names fuel name marks ≡ ok after
      → Visited (name ∷ []) marks after
  unfolding visit
  visit-Visited zero name marks after e = absurd (cc)
  visit-Visited (suc fuel) name marks after e = elim (visit_step fuel name marks after e) [
    | inl (done, same) ↦
        subst (Visited (name ∷ []) marks) same (record {
          kept = λ x m. m;
          layered = λ l. l;
          reached = λ x m. only x marks.visited done m;
        })
    | inr (deps, mid, read, walked, last) ↦
        let below =
          visit_each-Visited (visit names fuel) (visit-Visited fuel) deps
            (record marks { visiting = name ∷ marks.visiting }) mid walked in
        subst (Visited (name ∷ []) marks) last (record {
          kept = λ x m. Elem-tail x name mid.visited (below.kept x m);
          layered = λ l. (λ y p. below.reached y (ground arith), below.layered l);
          reached = λ x m. only x (name ∷ mid.visited) (Elem-head name mid.visited) m;
        })
  ]
    where
      only : (x : String) (seen : List String) → Elem name seen → Elem x (name ∷ []) → Elem x seen
      only x seen there m = elim (Elem-cons x name [] m) [
        | inl same ↦ subst (λ y. Elem y seen) (sym same) there
        | inr none_left ↦ absurd (not-Elem-nil x none_left)
      ]

  -- How far from the end of the list a name first stands, counted from the end.
  pub rank : String → List String → ℕ
  rank x [] = 0
  rank x (y ∷ ys) = let deeper = rank x ys in if mem x ys then deeper else suc (length ys)

  rank-le-length : (x : String) (ys : List String) → rank x ys ≤ length ys
  unfolding rank
  rank-le-length x [] = omega arith
  rank-le-length x (y ∷ ys) = ground (arith, rank-le-length x ys)

  rank-lt :
      (x y : String) (l : List String)
      → IsLayered l
      → Elem x l
      → points names x y ≡ true
      → Elem y l × (rank y l < rank x l)
  unfolding rank
  rank-lt x y [] layers m p = absurd (not-Elem-nil x m)
  rank-lt x y (z ∷ zs) layers m p = elim (Bool-cases (mem x zs)) [
    | inl deeper ↦
        let (there, less) = rank-lt x y zs layers.1 deeper p in
        (Elem-tail y z zs there, ground arith)
    | inr last ↦ elim (Elem-cons x z zs m) [
      | inl same ↦
          let there : Elem y zs = layers.0 y (subst (λ a. points names a y ≡ true) same p) in
          (Elem-tail y z zs there, ground (arith, rank-le-length y zs))
      | inr deeper ↦ absurd (ground arith)
    ]
  ]

  pub rests_below :
      (l : List String) {b a : String}
      → IsLayered l
      → ((x y : String) → points names x y ≡ true → Elem x l)
      → RestsOn names b a
      → rank b l < rank a l
  unfolding rank
  rests_below l layers all_in (direct {a = a} p) = (rank-lt a _ l layers (all_in a _ p) p).1
  rests_below l layers all_in (through {a = a} {c = c} p r) =
      omega (arith, (rank-lt a c l layers (all_in a c p) p).1, rests_below l layers all_in r)

-- What `names_at` reads is the definition of an artifact of the graph.
key_of_points :
    (artifacts : Dict Fields) (x y : String)
    → points (names_at artifacts) x y ≡ true
    → Elem x (keys artifacts)
unfolding names_at
key_of_points artifacts x y p = ground (arith, mem-keys x artifacts)

-- A graph that the validation accepts has no cycle: no artifact rests on itself.
pub validate_dependency_graph-IsAcyclic :
    (graph : Fields) (artifacts : Dict Fields)
    → validate_dependency_graph graph ≡ ok tt
    → dependency_artifacts graph ≡ ok artifacts
    → IsAcyclic (names_at artifacts)
unfolding visit_all
validate_dependency_graph-IsAcyclic graph artifacts valid read a cycle =
    let (marks, checked, walked) = accepted_parts graph artifacts valid read in
    let seen = all_visited artifacts marks walked in
    omega (
      arith,
      rests_below (names_at artifacts) marks.visited (seen.layered tt)
          (λ x y p. seen.reached x (key_of_points artifacts x y p)) cycle,
    )
  where
    all_visited :
        (arts : Dict Fields) (marks : Marks)
        → visit_all arts ≡ ok marks
        → Visited (names_at arts) (keys arts) unmarked marks
    all_visited arts marks walked =
        visit_each-Visited (names_at arts) _ (visit-Visited (names_at arts) (suc (length arts)))
          (keys arts) unmarked marks walked
