-- ===== src/Dependency/Dependents.antt =====
-- VALIDATORS/dependency.py: which artifacts rest on an artifact. A Python set is a list read through
-- `mem`; the order in which Python runs through a set is not fixed.
use mystery_starter_kit.Common.{
  ℕ, zero, suc, ◌+◌, String, true, false, List, [], ◌∷◌, ◌++◌, length, mem, Dict, get, put,
  if◌then◌else◌,
}
use mystery_starter_kit.Failure.{
  Result, ok, err, configuration_error, key_error, out_of_fuel, or_raise, ◌>>=◌,
}
use mystery_starter_kit.Json.{Fields}
use mystery_starter_kit.Dependency.Graph.{dependency_artifacts, dependency_names}

abbrev pub add : String → List String → List String
add name names = if mem name names then names else name ∷ names

-- `reversed_graph[dependency_name].add(artifact_name)` for each dependency.
unfoldable pub add_dependent :
    String → List String → Dict (List String) → Result (Dict (List String))
add_dependent name [] reversed = ok reversed
add_dependent name (dep ∷ deps) reversed = do
  dependents ← or_raise key_error (get dep reversed)
  add_dependent name deps (put dep (add name dependents) reversed)

unfoldable pub add_all_dependents : Dict Fields → Dict (List String) → Result (Dict (List String))
unfolding add_dependent
add_all_dependents [] reversed = ok reversed
add_all_dependents ((name, definition) ∷ rest) reversed = do
  names ← dependency_names definition
  after ← add_dependent name names reversed
  add_all_dependents rest after

abbrev pub no_dependents : Dict Fields → Dict (List String)
no_dependents [] = []
no_dependents ((name, definition) ∷ rest) = (name, []) ∷ no_dependents rest

unfoldable pub reverse_dependencies : Fields → Result (Dict (List String))
unfolding add_all_dependents
reverse_dependencies graph = do
  artifacts ← dependency_artifacts graph
  add_all_dependents artifacts (no_dependents artifacts)

-- The `while pending` loop. The end of the Python list is the head of `pending`.
unfoldable pub collect : Dict (List String) → ℕ → List String → List String → Result (List String)
collect reversed zero [] dependents = ok dependents
collect reversed zero (name ∷ pending) dependents = err out_of_fuel
collect reversed (suc fuel) [] dependents = ok dependents
collect reversed (suc fuel) (name ∷ pending) dependents = elim (mem name dependents) [
  | true ↦ collect reversed fuel pending dependents
  | false ↦ do
    next ← or_raise key_error (get name reversed)
    collect reversed fuel (next ++ pending) (name ∷ dependents)
]

-- How many rounds the loop can make: each edge is pushed at most once.
abbrev pub edge_count : Dict (List String) → ℕ
edge_count [] = 0
edge_count ((name, dependents) ∷ rest) = length dependents + edge_count rest

unfoldable pub dependents_in : Dict (List String) → String → Result (List String)
unfolding collect
dependents_in reversed name = do
  first ← or_raise (configuration_error "artifact") (get name reversed)
  collect reversed (length first + edge_count reversed) first []

unfoldable pub transitive_dependents : Fields → String → Result (List String)
unfolding dependents_in
transitive_dependents graph name = do
  reversed ← reverse_dependencies graph
  dependents_in reversed name
