-- ===== src/Dependency/Cycles.antt =====
-- What `validate_dependency_graph` accepts: it always ends, and if it raises for a cycle, there is one.
use mystery_starter_kit.Common.{
  IsDistinct, suc, String, ◌≡◌, refl, ap, sym, subst, ◌∙◌, ◌↔◌, ◌⊎◌, inl, inr, true, false, ◌==◌,
  eq_iff, some, List, [], ◌∷◌, arith, length, length-keys, Dict, get, keys, mem, mem-keys, subset,
  subset-Elem, Elem-subset, Elem, not-Elem-nil, Bool-cases, Option-cases,
}
use mystery_starter_kit.Failure.{
  Failure, Result, ok, err, configuration_error, ◌>>=◌, >>=-eq-ok, Result-cases,
}
use mystery_starter_kit.Json.{Fields}
use mystery_starter_kit.Dependency.Graph.{
  Marks, unmarked, visit_all, names_at, dependency_artifacts, dependency_names, check_references,
  validate_dependency_graph,
}
use mystery_starter_kit.Dependency.Paths.{RestsOn, IsAcyclic}
use mystery_starter_kit.Dependency.Accepted.{accepted_parts}
use mystery_starter_kit.Dependency.Acyclic.{validate_dependency_graph-IsAcyclic}
use mystery_starter_kit.Dependency.Search.{
  unseen-le-length, AreKnown, Ends, visit_each-Ends, visit-Ends,
}

-- An entry that the first loop has passed.
checked_entry :
    (artifacts rest : Dict Fields) (x : String) (definition : Fields)
    → check_references artifacts rest ≡ ok tt
    → get x rest ≡ some definition
    → (deps : List String) × (dependency_names definition ≡ ok deps)
      × (subset deps (keys artifacts) ≡ true)
unfolding check_references get
checked_entry artifacts [] x definition checked found = absurd (cc)
checked_entry artifacts ((name, first) ∷ rest) x definition checked found =
    let (deps, read, tested) = >>=-eq-ok (dependency_names first) _ checked in
    elim (Bool-cases (subset deps (keys artifacts))) [
      | inr unknown ↦ absurd (ground arith)
      | inl all_known ↦ elim (Bool-cases (name == x)) [
        | inl here ↦
            let same : first ≡ definition = ground arith in
            (deps, ap dependency_names (sym same) ∙ read, all_known)
        | inr later ↦ checked_entry artifacts rest x definition (ground arith) (ground arith)
      ]
    ]

pub keys_known :
    (artifacts : Dict Fields)
    → check_references artifacts artifacts ≡ ok tt
    → AreKnown (names_at artifacts) (keys artifacts)
unfolding names_at
keys_known artifacts checked x m = elim (Option-cases (get x artifacts)) [
  | inl absent ↦ absurd (ground (arith, mem-keys x artifacts))
  | inr (definition, found) ↦
      let (deps, read, all_known) = checked_entry artifacts artifacts x definition checked found in
      (deps, ground arith, subset-Elem deps (keys artifacts) all_known)
]

-- The search over all artifacts.
visit_all-Ends :
    (artifacts : Dict Fields)
    → check_references artifacts artifacts ≡ ok tt
    → Ends (names_at artifacts) unmarked (visit_all artifacts)
unfolding visit_all
visit_all-Ends artifacts checked =
    let known = keys_known artifacts checked in
    visit_each-Ends (names_at artifacts) (keys artifacts) known _ []
      (λ x marks m on_way trail.
        visit-Ends (names_at artifacts) (keys artifacts) known (suc (length artifacts)) x marks m
          (subst (λ vs. (v : String) → Elem v vs → RestsOn (names_at artifacts) x v) (sym on_way)
            trail)
          (omega (arith, unseen-le-length (keys artifacts) marks.visiting, length-keys artifacts)))
      (keys artifacts) unmarked (λ x m. (m, λ v mv. absurd (not-Elem-nil v mv))) refl

-- What an answer of the validation says of the graph.
abbrev pub IsJudged : Dict Fields → Result (Unit {0}) → Type 0
IsJudged artifacts answer =
    (AreKnown (names_at artifacts) (keys artifacts)
      × IsAcyclic (names_at artifacts)
      × (answer ≡ ok tt))
    ⊎ (AreKnown (names_at artifacts) (keys artifacts)
        × ((a : String) × RestsOn (names_at artifacts) a a)
        × (answer ≡ err (configuration_error "cycle")))
    ⊎ ((¬ AreKnown (names_at artifacts) (keys artifacts))
        × ((answer ≡ err (configuration_error "depends_on"))
            ⊎ (answer ≡ err (configuration_error "unknown"))))

-- The search ends within its fuel, and tells a graph with a cycle.
searched-IsJudged :
    (graph : Fields) (artifacts : Dict Fields)
    → dependency_artifacts graph ≡ ok artifacts
    → check_references artifacts artifacts ≡ ok tt
    → IsJudged artifacts (validate_dependency_graph graph)
searched-IsJudged graph artifacts read checked =
    subst (IsJudged artifacts) (sym answer)
      (go (visit_all artifacts) refl (visit_all-Ends artifacts checked))
  where
    answer : validate_dependency_graph graph ≡ (visit_all artifacts >>= λ _. ok tt)
    answer = unfold validate_dependency_graph in rw (read, checked) refl

    go :
        (r : Result Marks)
        → visit_all artifacts ≡ r
        → Ends (names_at artifacts) unmarked r
        → IsJudged artifacts (r >>= λ _. ok tt)
    go (ok after) e h = inl (
      keys_known artifacts checked,
      validate_dependency_graph-IsAcyclic graph artifacts (answer ∙ ap (λ r. r >>= λ _. ok tt) e)
          read,
      refl,
    )
    go (err e) same h = inr (inl (keys_known artifacts checked, h.1, ap err h.0))

-- Dependencies that cannot be read.
dependency_names-err :
    (definition : Fields) (e : Failure)
    → dependency_names definition ≡ err e
    → e ≡ configuration_error "depends_on"
unfolding dependency_names
dependency_names-err definition e h = ground (arith, h)

-- The first loop raises for an entry that cannot be read or names what the graph has not.
check_references-err :
    (artifacts rest : Dict Fields) (e : Failure)
    → check_references artifacts rest ≡ err e
    → (e ≡ configuration_error "depends_on") ⊎ (e ≡ configuration_error "unknown")
unfolding check_references
check_references-err artifacts [] e h = absurd (cc)
check_references-err artifacts ((name, definition) ∷ rest) e h =
    let later = check_references-err artifacts rest e in
    elim (Result-cases (dependency_names definition)) [
      | inr (raised, unread) ↦
          inl (dependency_names-err definition e (unread ∙ ground (arith, unread, h)))
      | inl (deps, read) ↦ elim (Bool-cases (subset deps (keys artifacts))) [
        | inl all_known ↦ later (ground (arith, read, all_known, h))
        | inr unknown ↦ inr (ground (arith, read, unknown, h))
      ]
    ]

get-behind :
    (name x : String) (first definition : Fields) (rest : Dict Fields)
    → mem name (keys rest) ≡ false
    → get x rest ≡ some definition
    → get x ((name, first) ∷ rest) ≡ some definition
unfolding get
get-behind name x first definition rest absent found = elim (Bool-cases (name == x)) [
  | inl same ↦
      let e : name ≡ x = (eq_iff name x).0 same in
      absurd (ground (arith, mem-keys x rest, ap (λ k. mem k (keys rest)) e))
  | inr other ↦ ground arith
]

-- The first loop passes entries that can be read and name known artifacts.
check_references_known :
    (artifacts rest : Dict Fields)
    → IsDistinct (keys rest)
    → AreKnown (names_at artifacts) (keys artifacts)
    → ((x : String) (definition : Fields)
        → get x rest ≡ some definition
        → get x artifacts ≡ some definition)
    → check_references artifacts rest ≡ ok tt
unfolding check_references
check_references_known artifacts [] distinct known agrees = refl
check_references_known artifacts ((name, definition) ∷ rest) distinct known agrees =
    let found : get name artifacts ≡ some definition =
      agrees name definition (unfold get in ground (arith, eq_iff name name)) in
    let (deps, read, closed) = known name (unfold get in ground (arith, mem-keys name artifacts)) in
    let read' : dependency_names definition ≡ ok deps = unfold names_at in ground arith in
    let later =
      check_references_known artifacts rest distinct.1 known
        (λ x d there. agrees x d (get-behind name x definition d rest distinct.0 there)) in
    rw (read', Elem-subset deps (keys artifacts) closed) later

-- For a graph whose artifacts have distinct names, validate_dependency_graph returns exactly when the
-- dependencies of every artifact can be read and are artifacts of the graph, and no artifact rests on itself.
-- In every case its search ends: if the dependencies are known and some artifact rests on itself, it raises the
-- ConfigurationError for a cycle, and if they are not known, the one for a `depends_on` that is no list of texts
-- or the one for an unknown artifact.
pub validate_dependency_graph_iff :
    (graph : Fields) (artifacts : Dict Fields)
    → dependency_artifacts graph ≡ ok artifacts
    → IsDistinct (keys artifacts)
    → ((validate_dependency_graph graph ≡ ok tt)
        ↔ (AreKnown (names_at artifacts) (keys artifacts) × IsAcyclic (names_at artifacts)))
      × IsJudged artifacts (validate_dependency_graph graph)
validate_dependency_graph_iff graph artifacts read distinct = (
  (
    λ valid. (
      keys_known artifacts (accepted_parts graph artifacts valid read).1,
      validate_dependency_graph-IsAcyclic graph artifacts valid read,
    ),
    λ (known, acyclic).
        accepts known acyclic (searched-IsJudged graph artifacts read (references known)),
  ),
  elim (Result-cases (check_references artifacts artifacts)) [
    | inl (_, checked) ↦ searched-IsJudged graph artifacts read checked
    | inr (e, raised) ↦
        let answer : validate_dependency_graph graph ≡ err e =
          unfold validate_dependency_graph in rw (read, raised) refl in
        inr (
          inr (
            λ known. absurd (ground (arith, references known, raised)),
            elim (check_references-err artifacts artifacts e raised) [
              | inl unread ↦ inl (answer ∙ ap err unread)
              | inr unknown ↦ inr (answer ∙ ap err unknown)
            ],
          ))
  ],
)
  where
    references :
        AreKnown (names_at artifacts) (keys artifacts)
        → check_references artifacts artifacts ≡ ok tt
    references known =
        check_references_known artifacts artifacts distinct known (λ x d found. found)

    accepts :
        AreKnown (names_at artifacts) (keys artifacts)
        → IsAcyclic (names_at artifacts)
        → IsJudged artifacts (validate_dependency_graph graph)
        → validate_dependency_graph graph ≡ ok tt
    accepts known acyclic (inl (_, _, valid)) = valid
    accepts known acyclic (inr (inl (_, (a, rests), _))) = absurd (acyclic a rests)
    accepts known acyclic (inr (inr (unknown, _))) = absurd (unknown known)
