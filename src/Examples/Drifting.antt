-- ===== src/Examples/Drifting.antt =====
-- RUNTIME/transactions.py: the hashes of two artifacts, taken and verified on files that another file
-- was added to.
use mystery_starter_kit.Common.{
  String, ◌≡◌, refl, ◌↔◌, ◌==◌, Option, none, some, [], ◌∷◌, Elem, Dict, get, put, if◌then◌else◌,
}
use mystery_starter_kit.Failure.{ok}
use mystery_starter_kit.Dependency.Graph.{dependency_artifacts}
use mystery_starter_kit.Transactions.Next.{Encoding}
use mystery_starter_kit.Transactions.Hashes.{
  relative_path, file_hash, capture_artifact_hashes, verify_artifact_hashes,
}
use mystery_starter_kit.Transactions.Drift.{verify_artifact_hashes-capture_artifact_hashes}
use mystery_starter_kit.Examples.Samples.{graph, definitions}

abbrev plain : Encoding
plain = record { Bytes = String; dumps = λ fs. "{}"; utf8 = λ s. s; sha256 = λ s. s }

abbrev files : String → Option String
files path =
    if path == "facts.json" then some "f1" else if path == "story.json" then some "s1" else none

abbrev later : String → Option String
later path = if path == "script.md" then some "c1" else files path

abbrev taken : Dict String
taken = ("facts", "f1") ∷ ("story", "s1") ∷ []

definitions_read : dependency_artifacts graph ≡ ok definitions
unfolding dependency_artifacts
definitions_read = refl

hashes_taken : capture_artifact_hashes plain files ("facts" ∷ "story" ∷ []) graph ≡ ok taken
unfolding capture_artifact_hashes dependency_artifacts file_hash relative_path get put
hashes_taken = refl

verify_artifact_hashes-capture_artifact_hashes_example :
    (verify_artifact_hashes plain later taken graph ≡ ok tt) ↔ (
      (name : String)
      → Elem name ("facts" ∷ "story" ∷ [])
      → file_hash plain later definitions name ≡ file_hash plain files definitions name)
verify_artifact_hashes-capture_artifact_hashes_example =
    verify_artifact_hashes-capture_artifact_hashes plain files later ("facts" ∷ "story" ∷ []) graph
      definitions definitions_read hashes_taken
