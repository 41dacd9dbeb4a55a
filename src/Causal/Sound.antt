-- ===== src/Causal/Sound.antt =====
-- What `validate_causal_graph` of VALIDATORS/causal_validation.py accepts.
use mystery_starter_kit.Common.{
  String, Bool, true, false, ◌||◌, Bool-cases, ◌≡◌, refl, sym, ◌∙◌, ◌↔◌, ◌⊎◌, inl, inr, ◌==◌, List,
  [], ◌∷◌, mem, Elem, not-Elem-nil, all, Dict, keys, arith, if◌then◌else◌,
}
use mystery_starter_kit.Failure.{Result, ok}
use mystery_starter_kit.Json.{Fields}
use mystery_starter_kit.Dependency.Paths.{points, RestsOn, direct, through}
use mystery_starter_kit.Causal.Graph.{
  CausalIssue, causal_path_incomplete, build_node_types, build_edges, adjacency_map, nodes_of_type,
  is_valid_edge, issue_unless, is_empty, all_issues, path_issues, validate_causal_graph,
}
use mystery_starter_kit.Causal.Cycles.{neighbors_at, graph_has_cycle_iff}
use mystery_starter_kit.Causal.Paths.{Leads, path_exists_iff}
use mystery_starter_kit.Causal.Adjacency.{
  valid_targets, adjacency_map-points, adjacency_map-AreKnown, mem-keys-adjacency_map,
}

-- The targets of the edges from a node.
abbrev pub targets_from : List (String × String) → String → List String
targets_from [] a = []
targets_from ((source, target) ∷ edges) a =
    let rest = targets_from edges a in if source == a then target ∷ rest else rest

abbrev pub targets_of : List (String × String) → String → Result (List String)
targets_of edges a = ok (targets_from edges a)

-- All edges join nodes, no node leads back to itself, and from a cause a resolution is reached.
abbrev pub IsSound : Dict String → List (String × String) → Type 0
IsSound node_types edges =
    (all (is_valid_edge (keys node_types)) edges ≡ true)
    × ((a : String) → ¬ RestsOn (targets_of edges) a a)
    × ((root : String) × (end : String) × Elem root (nodes_of_type "ROOT_CAUSE" node_types)
        × Elem end (nodes_of_type "RESOLUTION" node_types)
        × ((root ≡ end) ⊎ RestsOn (targets_of edges) end root))

RestsOn-map :
    (first second : String → Result (List String))
    → ((a b : String) → points first a b ≡ true → points second a b ≡ true)
    → {b a : String} → RestsOn first b a
    → RestsOn second b a
RestsOn-map first second h (direct {a = a} p) = direct (h a _ p)
RestsOn-map first second h (through {a = a} {c = c} p r) =
    through (h a c p) (RestsOn-map first second h r)

mem-valid_targets :
    (node_ids : List String) (edges : List (String × String)) (a b : String)
    → all (is_valid_edge node_ids) edges ≡ true
    → mem b (valid_targets node_ids edges a) ≡ mem b (targets_from edges a)
unfolding mem
mem-valid_targets node_ids [] a b h = refl
mem-valid_targets node_ids ((source, target) ∷ edges) a b h =
    ground (arith, mem-valid_targets node_ids edges a b (ground arith))

nodes_of_type-Elem :
    (wanted : String) (node_types : Dict String) (x : String)
    → Elem x (nodes_of_type wanted node_types)
    → Elem x (keys node_types)
unfolding mem
nodes_of_type-Elem wanted [] x m = cc
nodes_of_type-Elem wanted ((node, node_type) ∷ node_types) x m =
    ground (arith, nodes_of_type-Elem wanted node_types x)

issue_unless_iff :
    (test : Bool) (issue : CausalIssue) → (issue_unless test issue ≡ []) ↔ (test ≡ true)
issue_unless_iff true issue = (λ e. refl, λ e. refl)
issue_unless_iff false issue = (λ e. cc, λ e. cc)

is_empty-Elem : (x : String) (xs : List String) → Elem x xs → is_empty xs ≡ false
is_empty-Elem x [] m = absurd (not-Elem-nil x m)
is_empty-Elem x (y ∷ xs) m = refl

module _ (node_ids : List String) (edges : List (String × String)) (roots ends : List String)
    (fit : (x : String) → Elem x roots → Elem x node_ids) where
  abbrev adjacency : Dict (List String)
  adjacency = adjacency_map node_ids edges

  path_found :
      (path : List CausalIssue) × (path_issues adjacency roots ends ≡ ok path)
      × (((is_empty roots ≡ false) × (is_empty ends ≡ false) × (path ≡ [])) ↔ (
          (x : String) × Elem x roots
          × Leads adjacency (adjacency_map-AreKnown node_ids edges) ends x))
  unfolding path_issues
  path_found =
      let (answer, found, (right, back)) =
        path_exists_iff adjacency (adjacency_map-AreKnown node_ids edges) ends roots
          (λ x m. mem-keys-adjacency_map node_ids edges x ∙ fit x m) in
      elim (Bool-cases (is_empty roots || is_empty ends)) [
        | inl nothing ↦ (
          [],
          rw nothing refl,
          (
            λ (r, e, p). absurd (ground arith),
            λ (x, m, (t, mt, path)).
                absurd (ground (arith, is_empty-Elem x roots m, is_empty-Elem t ends mt)),
          ),
        )
        | inr both ↦ (
          issue_unless answer causal_path_incomplete,
          rw (both, found) refl,
          (
            λ (r, e, p). right ((issue_unless_iff answer causal_path_incomplete).0 p),
            λ hit. (
              ground arith,
              ground arith,
              (issue_unless_iff answer causal_path_incomplete).1 (back hit),
            ),
          ),
        )
      ]

module _ (node_types : Dict String) (edges : List (String × String)) where
  abbrev ids : List String
  ids = keys node_types

  -- On edges that all join nodes, the adjacency is the edges.
  edges_agree :
      all (is_valid_edge ids) edges ≡ true
      → (a b : String)
      → points (neighbors_at (adjacency_map ids edges)) a b ≡ points (targets_of edges) a b
  edges_agree valid a b = adjacency_map-points ids edges a b ∙ mem-valid_targets ids edges a b valid

  to_edges :
      all (is_valid_edge ids) edges ≡ true
      → {b a : String} → RestsOn (neighbors_at (adjacency_map ids edges)) b a
      → RestsOn (targets_of edges) b a
  to_edges valid =
      RestsOn-map (neighbors_at (adjacency_map ids edges)) (targets_of edges)
        (λ a b p. sym (edges_agree valid a b) ∙ p)

  from_edges :
      all (is_valid_edge ids) edges ≡ true
      → {b a : String} → RestsOn (targets_of edges) b a
      → RestsOn (neighbors_at (adjacency_map ids edges)) b a
  from_edges valid =
      RestsOn-map (targets_of edges) (neighbors_at (adjacency_map ids edges))
        (λ a b p. edges_agree valid a b ∙ p)

not_true : (b : Bool) → (b ≡ true) ⊎ (b ≡ false) → ¬ (b ≡ true) → b ≡ false
not_true b (inl h) k = absurd (k h)
not_true b (inr h) k = h

all_issues_iff :
    (valid cyclic rootless endless : Bool) (path : List CausalIssue)
    → (all_issues valid cyclic rootless endless path ≡ [])
      ↔ ((valid ≡ true) × (cyclic ≡ false) × (rootless ≡ false) × (endless ≡ false) × (path ≡ []))
all_issues_iff true false false false path =
    (λ e. (refl, refl, refl, refl, e), λ (a, b, c, d, e). e)
all_issues_iff true false false true path = (λ e. cc, λ (a, b, c, d, e). cc)
all_issues_iff true false true endless path = (λ e. cc, λ (a, b, c, d, e). cc)
all_issues_iff true true rootless endless path = (λ e. cc, λ (a, b, c, d, e). cc)
all_issues_iff false cyclic rootless endless path = (λ e. cc, λ (a, b, c, d, e). cc)

-- When the nodes and the edges can be read, validate_causal_graph returns, and it reports no issue exactly
-- when all edges join nodes, no node leads back to itself, and from a ROOT_CAUSE a RESOLUTION is reached.
pub validate_causal_graph_iff :
    (causal_graph : Fields) (node_types : Dict String) (edges : List (String × String))
    → build_node_types causal_graph ≡ ok node_types
    → build_edges causal_graph ≡ ok edges
    → (issues : List CausalIssue) × (validate_causal_graph causal_graph ≡ ok issues)
      × ((issues ≡ []) ↔ IsSound node_types edges)
unfolding validate_causal_graph
validate_causal_graph_iff causal_graph node_types edges read_nodes read_edges =
    let node_ids = keys node_types in
    let (cyclic, searched, cycle) =
      graph_has_cycle_iff (adjacency_map node_ids edges) (adjacency_map-AreKnown node_ids edges) in
    let (path, looked, leads) =
      path_found node_ids edges (nodes_of_type "ROOT_CAUSE" node_types)
        (nodes_of_type "RESOLUTION" node_types) (nodes_of_type-Elem "ROOT_CAUSE" node_types) in
    let (clear, cleared) =
      all_issues_iff (all (is_valid_edge node_ids) edges) cyclic
        (is_empty (nodes_of_type "ROOT_CAUSE" node_types))
        (is_empty (nodes_of_type "RESOLUTION" node_types)) path in
    (
      all_issues (all (is_valid_edge node_ids) edges) cyclic
          (is_empty (nodes_of_type "ROOT_CAUSE" node_types))
          (is_empty (nodes_of_type "RESOLUTION" node_types)) path,
      rw (read_nodes, read_edges, searched, looked) refl,
      (
        λ e.
            let (valid, acyclic, rooted, ended, on_path) = clear e in
            let (root, m, (end, mt, way)) = leads.0 (rooted, ended, on_path) in
            (
              valid,
              (λ a round.
                  absurd (
                    ground (arith, acyclic, cycle.1 (a, from_edges node_types edges valid round)))),
              (
                root,
                end,
                m,
                mt,
                elim way [
                  | inl same ↦ inl same
                  | inr path' ↦ inr (to_edges node_types edges valid path')
                ],
              ),
            ),
        λ (valid, no_round, (root, end, m, mt, way)).
            let (rooted, ended, on_path) = leads.1 (
              root,
              m,
              (
                end,
                mt,
                elim way [
                  | inl same ↦ inl same
                  | inr path' ↦ inr (from_edges node_types edges valid path')
                ],
              ),
            ) in
            cleared (
              valid,
              not_true cyclic (Bool-cases cyclic) (λ e.
                  let (a, round) = cycle.0 e in no_round a (to_edges node_types edges valid round)),
              rooted,
              ended,
              on_path,
            ),
      ),
    )
