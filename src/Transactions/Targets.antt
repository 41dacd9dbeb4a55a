-- ===== src/Transactions/Targets.antt =====
-- RUNTIME/transactions.py: the list of files that `commit_gate_transaction` writes: the outputs of the
-- gate, the project state, and additional targets, which may neither leave the project nor repeat a target.
use mystery_starter_kit.Common.{
  String, false, not, some, none, List, [], ◌∷◌, ◌++◌, mem, Dict, if◌then◌else◌,
}
use mystery_starter_kit.Failure.{Result, ok, err, or_raise, ◌>>=◌}
use mystery_starter_kit.Json.{Value, Fields}
use mystery_starter_kit.Dependency.Graph.{dependency_artifacts}
use mystery_starter_kit.Transactions.Next.{Encoding, encoded_artifact}
use mystery_starter_kit.Transactions.Hashes.{relative_path}
use mystery_starter_kit.Transactions.Commit.{Paths, Spec, commit_error}

module _ (paths : Paths) (encoding : Encoding) where
  open paths use {project, join, resolve, within}
  open encoding use {Bytes}

  -- The loop over `outputs.items()`.
  unfoldable pub output_specs : Dict Fields → Dict Value → Result (List (Spec Bytes))
  unfolding encoded_artifact
  output_specs definitions [] = ok []
  output_specs definitions ((name, content) ∷ outputs) = do
    path ← or_raise (commit_error false (some name)) (relative_path definitions name)
    bytes ← encoded_artifact encoding content
    rest ← output_specs definitions outputs
    ok (record { target = join project path; content = bytes; artifact_name = name } ∷ rest)

  -- The loop over `additional_targets.items()`.
  unfoldable pub additional_specs : List String → Dict Bytes → Result (List (Spec Bytes))
  additional_specs existing [] = ok []
  additional_specs existing ((path, bytes) ∷ additional) =
      let target = resolve (join project path) in
      if not (within target (resolve project))
      then err (commit_error false none)
      else if mem target existing
      then err (commit_error false none)
      else do
        rest ← additional_specs (target ∷ existing) additional
        ok (record { target = target; content = bytes; artifact_name = path } ∷ rest)

  abbrev pub resolved_targets : List (Spec Bytes) → List String
  resolved_targets [] = []
  resolved_targets (spec ∷ specs) = resolve spec.target ∷ resolved_targets specs

  -- `state_bytes` is the serialised project state.
  abbrev pub state_spec : Bytes → Spec Bytes
  state_spec state_bytes = record {
    target = join project "00_PROJECT/project_state.json";
    content = state_bytes;
    artifact_name = "project_state";
  }

  unfoldable pub target_specs :
      Fields → Dict Value → Bytes → Dict Bytes → Result (List (Spec Bytes))
  unfolding output_specs additional_specs
  target_specs graph outputs state_bytes additional = do
    definitions ← dependency_artifacts graph
    specs ← output_specs definitions outputs
    let own = specs ++ (state_spec state_bytes ∷ [])
    others ← additional_specs (resolved_targets own) additional
    ok (own ++ others)
