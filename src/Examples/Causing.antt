-- ===== src/Examples/Causing.antt =====
-- VALIDATORS/causal_validation.py with a cause, a turn and a resolution, one after the other.
use mystery_starter_kit.Common.{
  String, Bool, true, ◌≡◌, refl, ◌↔◌, List, [], ◌∷◌, mem, Dict, get, put,
}
use mystery_starter_kit.Failure.{ok}
use mystery_starter_kit.Json.{Fields, text, array, object, nil, cons, end, field, lookup}
use mystery_starter_kit.Dependency.Paths.{RestsOn}
use mystery_starter_kit.Causal.Graph.{
  CausalIssue, build_node_types, build_edges, adjacency_map, graph_has_cycle, validate_causal_graph,
}
use mystery_starter_kit.Causal.Adjacency.{adjacency_map-AreKnown}
use mystery_starter_kit.Causal.Cycles.{neighbors_at, graph_has_cycle_iff}
use mystery_starter_kit.Causal.Sound.{IsSound, validate_causal_graph_iff}

abbrev node : String → String → Fields
node node_id node_type = field "node_id" (text node_id) (field "type" (text node_type) end)

abbrev edge : String → String → Fields
edge source target = field "from" (text source) (field "to" (text target) end)

abbrev story : Fields
story =
    field "nodes"
      (array (
        cons (object (node "debt" "ROOT_CAUSE")) (
          cons (object (node "lie" "EVENT")) (cons (object (node "confession" "RESOLUTION")) nil))))
      (field "edges"
        (array (cons (object (edge "debt" "lie")) (cons (object (edge "lie" "confession")) nil)))
        end)

abbrev node_types : Dict String
node_types = ("debt", "ROOT_CAUSE") ∷ ("lie", "EVENT") ∷ ("confession", "RESOLUTION") ∷ []

abbrev edges : List (String × String)
edges = ("debt", "lie") ∷ ("lie", "confession") ∷ []

nodes_read : build_node_types story ≡ ok node_types
unfolding build_node_types lookup get put
nodes_read = refl

edges_read : build_edges story ≡ ok edges
unfolding build_edges lookup
edges_read = refl

no_issue : validate_causal_graph story ≡ ok []
unfolding validate_causal_graph build_node_types build_edges lookup get put mem
no_issue = refl

validate_causal_graph_iff_example :
    (issues : List CausalIssue) × (validate_causal_graph story ≡ ok issues)
    × ((issues ≡ []) ↔ IsSound node_types edges)
validate_causal_graph_iff_example =
    validate_causal_graph_iff story node_types edges nodes_read edges_read

abbrev adjacency : Dict (List String)
adjacency = adjacency_map ("debt" ∷ "lie" ∷ "confession" ∷ []) edges

graph_has_cycle_iff_example :
    (answer : Bool) × (graph_has_cycle adjacency ≡ ok answer)
    × ((answer ≡ true) ↔ ((a : String) × RestsOn (neighbors_at adjacency) a a))
graph_has_cycle_iff_example =
    graph_has_cycle_iff adjacency
      (adjacency_map-AreKnown ("debt" ∷ "lie" ∷ "confession" ∷ []) edges)
