-- ===== src/Causal/Graph.antt =====
-- `validate_causal_graph` of VALIDATORS/causal_validation.py and the functions that it calls, and the two
-- readers of VALIDATORS/continuity.py. A Python set of names is a list that is read through membership and
-- emptiness; the order in which Python runs through it is not fixed. An issue is its code; its message, its
-- context and the fields that are the same in all of them are left out.
use mystery_starter_kit.Common.{
  ℕ, zero, suc, ◌+◌, String, Bool, true, false, not, ◌&&◌, ◌||◌, ◌==◌, Option, none, some, List, [],
  ◌∷◌, ◌++◌, length, mem, all, Dict, get, put, keys, is_some, if◌then◌else◌,
}
use mystery_starter_kit.Failure.{
  Failure, Result, ok, err, configuration_error, key_error, out_of_fuel, or_raise, ◌>>=◌,
}
use mystery_starter_kit.Json.{Value, Items, Fields, array, object, text, nil, cons, lookup}

pub data CausalIssue : Type 0 where
  broken_causal_edge causal_cycle root_cause_missing : CausalIssue
  causal_resolution_missing causal_path_incomplete : CausalIssue

abbrev pub malformed : Failure
malformed = configuration_error "causal graph"

-- `all(isinstance(item, Mapping) for item in value)`, and the objects.
unfoldable pub objects_of : Items → Result (List Fields)
objects_of nil = ok []
objects_of (cons (object record_fields) items) = do
  rest ← objects_of items
  ok (record_fields ∷ rest)
objects_of (cons _ items) = err malformed

abbrev records_in : Option Value → Result (List Fields)
records_in (some (array items)) = objects_of items
records_in _ = err malformed

unfoldable pub require_records : Fields → String → Result (List Fields)
unfolding lookup objects_of
require_records document key = records_in (lookup key document)

abbrev text_in : Option Value → Result String
text_in (some (text value)) = if value == "" then err malformed else ok value
text_in _ = err malformed

unfoldable pub require_string : Fields → String → Result String
unfolding lookup
require_string document key = text_in (lookup key document)

-- The loop over the nodes.
unfoldable pub add_nodes : List Fields → Dict String → Result (Dict String)
unfolding require_string
add_nodes [] node_types = ok node_types
add_nodes (node ∷ nodes) node_types = do
  node_id ← require_string node "node_id"
  node_type ← require_string node "type"
  if is_some (get node_id node_types)
      then err (configuration_error "duplicate node")
      else add_nodes nodes (put node_id node_type node_types)

unfoldable pub build_node_types : Fields → Result (Dict String)
unfolding require_records add_nodes
build_node_types causal_graph = do nodes ← require_records causal_graph "nodes"; add_nodes nodes []

-- The list comprehension over the edges.
unfoldable pub read_edges : List Fields → Result (List (String × String))
unfolding require_string
read_edges [] = ok []
read_edges (edge ∷ edges) = do
  source ← require_string edge "from"
  target ← require_string edge "to"
  rest ← read_edges edges
  ok ((source, target) ∷ rest)

unfoldable pub build_edges : Fields → Result (List (String × String))
unfolding require_records read_edges
build_edges causal_graph = do edges ← require_records causal_graph "edges"; read_edges edges

abbrev pub no_neighbors : List String → Dict (List String)
no_neighbors [] = []
no_neighbors (node_id ∷ node_ids) = (node_id, []) ∷ no_neighbors node_ids

-- `adjacency[source].append(target)`, where the key is there.
abbrev pub appended : String → Option (List String) → List String
appended target none = target ∷ []
appended target (some targets) = targets ++ (target ∷ [])

unfoldable pub add_edges :
    List String → List (String × String) → Dict (List String) → Dict (List String)
add_edges node_ids [] adjacency = adjacency
add_edges node_ids ((source, target) ∷ edges) adjacency = add_edges node_ids edges (
    if mem source node_ids && mem target node_ids
    then put source (appended target (get source adjacency)) adjacency
    else adjacency)

unfoldable pub adjacency_map : List String → List (String × String) → Dict (List String)
unfolding add_edges
adjacency_map node_ids edges = add_edges node_ids edges (no_neighbors node_ids)

-- 0, 1 and 2 of the source: not visited, on the way, done.
pub data Colour : Type 0 where
  unvisited entered left : Colour

abbrev pub State : Type 0
State = Dict Colour

-- The loop over the neighbors: `none` when a cycle is found.
unfoldable pub visit_neighbors :
    (String → State → Result (Option State)) → List String → State → Result (Option State)
visit_neighbors step [] state = ok (some state)
visit_neighbors step (neighbor ∷ neighbors) state = do
  let further = λ (next : State). visit_neighbors step neighbors next
  colour ← or_raise key_error (get neighbor state)
  elim colour [
    | entered ↦ ok none
    | left ↦ further state
    | unvisited ↦ do
      after ← step neighbor state
      elim after [ none ↦ ok none | some next ↦ further next ]
  ]

abbrev pub settle_node : String → Option State → Result (Option State)
settle_node node_id none = ok none
settle_node node_id (some state) = ok (some (put node_id left state))

-- `any(state[node_id] == 0 and visit(node_id) for node_id in adjacency)`
unfoldable pub any_cycle :
    (String → State → Result (Option State)) → List String → State → Result (Option State)
any_cycle step [] state = ok (some state)
any_cycle step (node_id ∷ node_ids) state = do
  let further = λ (next : State). any_cycle step node_ids next
  colour ← or_raise key_error (get node_id state)
  elim colour [
    | entered ↦ further state
    | left ↦ further state
    | unvisited ↦ do
      after ← step node_id state
      elim after [ none ↦ ok none | some next ↦ further next ]
  ]

module _ (adjacency : Dict (List String)) where
  -- The inner function `visit`, with a level of fuel for each call.
  unfoldable pub visit_node : ℕ → String → State → Result (Option State)
  unfolding visit_neighbors
  visit_node zero node_id state = err out_of_fuel
  visit_node (suc fuel) node_id state = do
    neighbors ← or_raise key_error (get node_id adjacency)
    after ← visit_neighbors (visit_node fuel) neighbors (put node_id entered state)
    settle_node node_id after

abbrev pub all_unvisited : List String → State
all_unvisited [] = []
all_unvisited (node_id ∷ node_ids) = (node_id, unvisited) ∷ all_unvisited node_ids

unfoldable pub graph_has_cycle : Dict (List String) → Result Bool
unfolding visit_node any_cycle
graph_has_cycle adjacency = do
  found ←
      any_cycle (visit_node adjacency (suc (length adjacency))) (keys adjacency)
        (all_unvisited (keys adjacency))
  ok (not (is_some found))

-- `pending.extend(neighbors)`, with the end of the Python list in front.
unfoldable pub extend : List String → List String → List String
extend [] pending = pending
extend (neighbor ∷ neighbors) pending = extend neighbors (neighbor ∷ pending)

-- The `while pending` loop. The end of the Python list is the head of `pending`.
unfoldable pub search_path :
    Dict (List String) → List String → ℕ → List String → List String → Result Bool
unfolding extend
search_path adjacency targets zero [] visited = ok false
search_path adjacency targets zero (node_id ∷ pending) visited = err out_of_fuel
search_path adjacency targets (suc fuel) [] visited = ok false
search_path adjacency targets (suc fuel) (node_id ∷ pending) visited = elim (mem node_id targets) [
  | true ↦ ok true
  | false ↦ elim (mem node_id visited) [
    | true ↦ search_path adjacency targets fuel pending visited
    | false ↦ do
      neighbors ← or_raise key_error (get node_id adjacency)
      search_path adjacency targets fuel (extend neighbors pending) (node_id ∷ visited)
  ]
]

-- Each node is expanded once, so each edge is pushed at most once.
abbrev pub edges_of : Dict (List String) → ℕ
edges_of [] = 0
edges_of ((node_id, neighbors) ∷ rest) = length neighbors + edges_of rest

unfoldable pub path_exists : Dict (List String) → List String → List String → Result Bool
unfolding search_path
path_exists adjacency sources targets =
    search_path adjacency targets (length sources + edges_of adjacency) sources []

-- The nodes of a type.
abbrev pub nodes_of_type : String → Dict String → List String
nodes_of_type wanted [] = []
nodes_of_type wanted ((node_id, node_type) ∷ node_types) =
    let rest = nodes_of_type wanted node_types in
    if node_type == wanted then node_id ∷ rest else rest

abbrev pub is_valid_edge : List String → String × String → Bool
is_valid_edge node_ids (source, target) = mem source node_ids && mem target node_ids

abbrev pub issue_unless : Bool → CausalIssue → List CausalIssue
issue_unless true issue = []
issue_unless false issue = issue ∷ []

abbrev pub is_empty : List String → Bool
is_empty [] = true
is_empty (_ ∷ _) = false

unfoldable pub path_issues :
    Dict (List String) → List String → List String → Result (List CausalIssue)
unfolding path_exists
path_issues adjacency root_nodes resolution_nodes =
    if is_empty root_nodes || is_empty resolution_nodes then ok [] else do
      found ← path_exists adjacency root_nodes resolution_nodes
      ok (issue_unless found causal_path_incomplete)

-- The issues in their order: all edges are valid, there is a cycle, there are no roots, there are no
-- resolutions, and those on the path.
abbrev pub all_issues : Bool → Bool → Bool → Bool → List CausalIssue → List CausalIssue
all_issues valid cyclic rootless endless path =
    issue_unless valid broken_causal_edge
    ++ (issue_unless (not cyclic) causal_cycle
        ++ (issue_unless (not rootless) root_cause_missing
            ++ (issue_unless (not endless) causal_resolution_missing ++ path)))

unfoldable pub validate_causal_graph : Fields → Result (List CausalIssue)
unfolding build_node_types build_edges adjacency_map graph_has_cycle path_issues
validate_causal_graph causal_graph = do
  node_types ← build_node_types causal_graph
  edges ← build_edges causal_graph
  let adjacency = adjacency_map (keys node_types) edges
  cyclic ← graph_has_cycle adjacency
  let root_nodes = nodes_of_type "ROOT_CAUSE" node_types
  let resolution_nodes = nodes_of_type "RESOLUTION" node_types
  path ← path_issues adjacency root_nodes resolution_nodes
  ok (
      all_issues (all (is_valid_edge (keys node_types)) edges) cyclic (is_empty root_nodes)
        (is_empty resolution_nodes) path)
