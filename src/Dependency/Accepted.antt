-- ===== src/Dependency/Accepted.antt =====
-- What `validate_dependency_graph` has done when it returns.
use mystery_starter_kit.Common.{◌≡◌, Dict}
use mystery_starter_kit.Failure.{ok, >>=-eq-ok}
use mystery_starter_kit.Json.{Fields}
use mystery_starter_kit.Dependency.Graph.{
  Marks, dependency_artifacts, check_references, visit_all, validate_dependency_graph,
}

-- Every definition was read, every reference is known, and the search has returned.
pub accepted_parts :
    (graph : Fields) (artifacts : Dict Fields)
    → validate_dependency_graph graph ≡ ok tt
    → dependency_artifacts graph ≡ ok artifacts
    → (marks : Marks) × (check_references artifacts artifacts ≡ ok tt)
      × (visit_all artifacts ≡ ok marks)
unfolding validate_dependency_graph
accepted_parts graph artifacts valid read =
    let (arts, read', rest) = >>=-eq-ok (dependency_artifacts graph) _ valid in
    let (unit, checked, more) = >>=-eq-ok (check_references arts arts) _ rest in
    let (marks, walked, last) = >>=-eq-ok (visit_all arts) _ more in (marks, cc, cc)
