-- ===== src/Examples/Progress.antt =====
-- RUNTIME/transactions.py: the state behind the first gate, with texts for bytes and for hashes.
use mystery_starter_kit.Common.{String, ◌≡◌, refl, some, [], ◌∷◌, Dict, get, put, mem}
use mystery_starter_kit.Failure.{ok}
use mystery_starter_kit.Json.{Value, text}
use mystery_starter_kit.Project.{ProjectState, ProjectStatus}
use mystery_starter_kit.Dependency.Graph.{dependency_artifacts, dependency_names}
use mystery_starter_kit.Dependency.Dependents.{reverse_dependencies, transitive_dependents}
use mystery_starter_kit.Dependency.Changes.{
  clean_artifact_state, sorted_set, invalidate_artifact_dependents, mark_artifact_clean,
}
use mystery_starter_kit.StateMachine.{gate_after, gate_index, advance_gate}
use mystery_starter_kit.StateMachine.Advance.{AllClean}
use mystery_starter_kit.Transactions.Next.{
  Encoding, merge, output_hashes, progress, next_project_state,
}
use mystery_starter_kit.Transactions.NextState.{next_project_state-clean}
use mystery_starter_kit.Examples.Samples.{graph, project, clean_with}

abbrev plain : Encoding
plain = record { Bytes = String; dumps = λ fs. "{}"; utf8 = λ s. s; sha256 = λ s. s }

-- The facts are as before, and story and script are written anew.
abbrev after : ProjectState
after = record project {
  state = ProjectStatus.compatibility_validated;
  current_gate = "GATE-00";
  updated_at = "t1";
  artifacts =
      ("facts", clean_with "f1") ∷ ("story", clean_with "s2") ∷ ("script", clean_with "c2") ∷ [];
  revision_trigger = some (progress "GATE-00" "t1");
}

abbrev outputs : Dict Value
outputs = ("story", text "s2") ∷ ("script", text "c2") ∷ []

after_computed :
    next_project_state plain project "GATE-00"
      (("facts", "f1") ∷ [])
      outputs
      graph
      "t1"
      ("facts" ∷ "script" ∷ [])
    ≡ ok after
unfolding next_project_state invalidate_artifact_dependents mark_artifact_clean advance_gate
    gate_after gate_index transitive_dependents reverse_dependencies dependency_artifacts
    dependency_names sorted_set get put mem
after_computed = refl

next_project_state-clean_example :
    (after.current_gate ≡ "GATE-00")
    × ((hashes : Dict String) × (output_hashes plain outputs ≡ ok hashes)
        × ((name hash : String)
            → get name (merge (("facts", "f1") ∷ []) hashes) ≡ some hash
            → get name after.artifacts ≡ some (clean_artifact_state hash)))
    × AllClean after ("facts" ∷ "script" ∷ [])
next_project_state-clean_example =
    next_project_state-clean plain project after "GATE-00" "t1" (("facts", "f1") ∷ []) outputs graph
      ("facts" ∷ "script" ∷ []) (unfold mem in (refl, tt)) after_computed
