-- ===== src/Examples/Dependency.antt =====
-- VALIDATORS/dependency.py on the sample graph.
use mystery_starter_kit.Common.{
  IsDistinct, String, ◌≡◌, refl, ◌↔◌, ◌≢◌, some, List, [], ◌∷◌, Dict, get, put, keys, mem, Elem,
}
use mystery_starter_kit.Failure.{ok, err, configuration_error}
use mystery_starter_kit.Json.{Fields, object, field, end}
use mystery_starter_kit.Project.{ArtifactState, ArtifactStatus, ProjectState, ProjectStatus}
use mystery_starter_kit.Dependency.Graph.{
  dependency_artifacts, dependency_names, names_at, validate_dependency_graph,
}
use mystery_starter_kit.Dependency.Dependents.{reverse_dependencies, transitive_dependents}
use mystery_starter_kit.Dependency.Changes.{
  changed_artifact_state, sorted_set, invalidate_artifact_dependents,
}
use mystery_starter_kit.Dependency.Paths.{RestsOn, IsAcyclic}
use mystery_starter_kit.Dependency.Search.{AreKnown}
use mystery_starter_kit.Dependency.Cycles.{IsJudged, validate_dependency_graph_iff}
use mystery_starter_kit.Dependency.Propagation.{transitive_dependents_correct}
use mystery_starter_kit.Dependency.Invalidation.{IsDirtied, invalidate_artifact_dependents-effect}
use mystery_starter_kit.Examples.Samples.{definition, to_fields, graph, definitions, project}

graph_read : dependency_artifacts graph ≡ ok definitions
unfolding dependency_artifacts
graph_read = refl

graph-IsDistinct : IsDistinct (keys definitions)
unfolding mem
graph-IsDistinct = (refl, (refl, (refl, tt)))

graph_valid : validate_dependency_graph graph ≡ ok tt
unfolding validate_dependency_graph dependency_artifacts dependency_names get mem
graph_valid = refl

facts_known : Elem "facts" (keys definitions)
unfolding mem
facts_known = refl

-- Two artifacts that depend on each other, and one that depends on one of them.
abbrev entangled : Dict Fields
entangled =
    ("facts", definition "facts.json" ("story" ∷ []))
    ∷ ("story", definition "story.json" ("facts" ∷ []))
    ∷ ("script", definition "script.json" ("story" ∷ []))
    ∷ []

abbrev entangled_graph : Fields
entangled_graph = field "artifacts" (object (to_fields entangled)) end

entangled_read : dependency_artifacts entangled_graph ≡ ok entangled
unfolding dependency_artifacts
entangled_read = refl

entangled-IsDistinct : IsDistinct (keys entangled)
unfolding mem
entangled-IsDistinct = (refl, (refl, (refl, tt)))

entangled_refused : validate_dependency_graph entangled_graph ≡ err (configuration_error "cycle")
unfolding validate_dependency_graph dependency_artifacts dependency_names get mem
entangled_refused = refl

validate_dependency_graph_iff_example :
    ((validate_dependency_graph entangled_graph ≡ ok tt)
      ↔ (AreKnown (names_at entangled) (keys entangled) × IsAcyclic (names_at entangled)))
    × IsJudged entangled (validate_dependency_graph entangled_graph)
validate_dependency_graph_iff_example =
    validate_dependency_graph_iff entangled_graph entangled entangled_read entangled-IsDistinct

transitive_dependents_correct_example :
    (out : List String) × (transitive_dependents graph "facts" ≡ ok out)
    × ((x : String) → Elem x out ↔ RestsOn (names_at definitions) "facts" x)
transitive_dependents_correct_example =
    transitive_dependents_correct graph definitions "facts" graph_valid graph_read graph-IsDistinct
      facts_known

abbrev dirty : String → ArtifactState
dirty hash = record {
  status = ArtifactStatus.dirty;
  content_hash = some hash;
  invalidated_by = "facts" ∷ [];
}

abbrev facts_changed : ProjectState
facts_changed = record project {
  state = ProjectStatus.blocked;
  updated_at = "t1";
  artifacts =
      ("facts", changed_artifact_state "f2") ∷ ("story", dirty "s1") ∷ ("script", dirty "c1") ∷ [];
}

facts_change : invalidate_artifact_dependents graph project "facts" "f2" "t1" ≡ ok facts_changed
unfolding invalidate_artifact_dependents transitive_dependents reverse_dependencies
    dependency_artifacts dependency_names sorted_set get put mem
facts_change = refl

invalidate_artifact_dependents-effect_example :
    (get "facts" facts_changed.artifacts ≡ some (changed_artifact_state "f2"))
    × ((x : String) (before : ArtifactState)
        → RestsOn (names_at definitions) "facts" x
        → get x project.artifacts ≡ some before
        → (now : ArtifactState) × (get x facts_changed.artifacts ≡ some now)
          × IsDirtied "facts" before now)
    × ((x : String) (before : ArtifactState)
        → x ≢ "facts"
        → ¬ RestsOn (names_at definitions) "facts" x
        → get x project.artifacts ≡ some before
        → get x facts_changed.artifacts ≡ some before)
    × (facts_changed.state ≡ ProjectStatus.blocked)
    × (facts_changed.current_gate ≡ project.current_gate)
invalidate_artifact_dependents-effect_example =
    invalidate_artifact_dependents-effect graph definitions project facts_changed "facts" "f2" "t1"
      graph_valid graph_read graph-IsDistinct facts_known facts_change
