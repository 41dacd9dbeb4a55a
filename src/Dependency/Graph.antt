-- ===== src/Dependency/Graph.antt =====
-- VALIDATORS/dependency.py: the graph of artifacts as the JSON document holds it, and its validation.
use mystery_starter_kit.Common.{
  ℕ, zero, suc, String, Bool, true, false, not, ◌==◌, none, some, List, [], ◌∷◌, length, keep, mem,
  subset, Dict, get, keys, if◌then◌else◌,
}
use mystery_starter_kit.Failure.{
  Result, ok, err, configuration_error, key_error, out_of_fuel, or_raise, ◌>>=◌, ◌>>◌,
}
use mystery_starter_kit.Json.{Fields, boolean, object, end, field, lookup, as_object, as_texts}
use mystery_starter_kit.Requirements.{Documents, requirement_matches}

-- The loop over `artifacts.items()`.
unfoldable pub artifact_definitions : Fields → Result (Dict Fields)
artifact_definitions end = ok []
artifact_definitions (field name v fs) = elim (as_object v) [
  | none ↦ err (configuration_error "artifact_definition")
  | some definition ↦ do rest ← artifact_definitions fs; ok ((name, definition) ∷ rest)
]

unfoldable pub dependency_artifacts : Fields → Result (Dict Fields)
unfolding lookup artifact_definitions
dependency_artifacts graph = elim (lookup "artifacts" graph) [
  | none ↦ err (configuration_error "artifacts")
  | some v ↦ elim (as_object v) [
    | none ↦ err (configuration_error "artifacts")
    | some fs ↦ artifact_definitions fs
  ]
]

unfoldable pub dependency_names : Fields → Result (List String)
unfolding lookup as_texts
dependency_names definition = elim (lookup "depends_on" definition) [
  | none ↦ err (configuration_error "depends_on")
  | some v ↦ or_raise (configuration_error "depends_on") (as_texts v)
]

-- `definition.get("required_when", {"always": True})`
unfoldable pub artifact_required_for_project : Fields → Documents → Result Bool
unfolding lookup
artifact_required_for_project definition documents =
    requirement_matches documents (elim (lookup "required_when" definition) [
      | none ↦ object (field "always" (boolean true) end)
      | some predicate ↦ predicate
    ])

-- `dependency_names(artifacts[artifact_name], artifact_name)`
unfoldable pub names_at : Dict Fields → String → Result (List String)
names_at artifacts name = do
  definition ← or_raise key_error (get name artifacts)
  dependency_names definition

-- The first loop of `validate_dependency_graph`.
unfoldable pub check_references : Dict Fields → Dict Fields → Result (Unit {0})
check_references artifacts [] = ok tt
check_references artifacts ((name, definition) ∷ rest) =
    let later = check_references artifacts rest in
    do
      names ← dependency_names definition
      if subset names (keys artifacts) then later else err (configuration_error "unknown")

pub record Marks : Type 0 where
  pub visiting : List String
  pub visited : List String

-- `for … in names: visit(…)`
abbrev pub visit_each : (String → Marks → Result Marks) → List String → Marks → Result Marks
visit_each visit [] marks = ok marks
visit_each visit (name ∷ names) marks = visit name marks >>= visit_each visit names

-- `visiting.remove(artifact_name)`
abbrev pub remove : String → List String → List String
remove name = keep (λ other. not (other == name))

-- The recursive `visit`, with fuel for its depth; `names` reads the dependencies of an artifact.
unfoldable pub visit : (String → Result (List String)) → ℕ → String → Marks → Result Marks
visit names zero name marks = err out_of_fuel
visit names (suc fuel) name marks = elim (mem name marks.visiting) [
  | true ↦ err (configuration_error "cycle")
  | false ↦ elim (mem name marks.visited) [
    | true ↦ ok marks
    | false ↦ do
      deps ← names name
      after ← visit_each (visit names fuel) deps (record marks { visiting = name ∷ marks.visiting })
      ok (record { visiting = remove name after.visiting; visited = name ∷ after.visited })
  ]
]

abbrev pub unmarked : Marks
unmarked = record { visiting = []; visited = [] }

unfoldable pub visit_all : Dict Fields → Result Marks
unfolding visit names_at
visit_all artifacts =
    visit_each (visit (names_at artifacts) (suc (length artifacts))) (keys artifacts) unmarked

unfoldable pub validate_dependency_graph : Fields → Result (Unit {0})
unfolding visit_all check_references
validate_dependency_graph graph = do
  artifacts ← dependency_artifacts graph
  check_references artifacts artifacts
  visit_all artifacts
  ok tt
