-- ===== src/Transactions/Hashes.antt =====
-- The input hashes of RUNTIME/transactions.py: `capture_artifact_hashes` before a provider runs and
-- `verify_artifact_hashes` before the commit. The files of a project are a function from relative
-- paths to their bytes, with `none` where `read_bytes` raises an `OSError`.
use mystery_starter_kit.Common.{
  String, true, false, Option, none, some, List, [], ◌∷◌, Dict, get, put, keys, if◌then◌else◌,
}
use mystery_starter_kit.Failure.{
  Failure, Result, ok, err, runtime_error, runtime_configuration_error, input_hash_changed,
  or_raise, ◌>>=◌,
}
use mystery_starter_kit.Json.{Fields, lookup, as_text}
use mystery_starter_kit.Dependency.Graph.{dependency_artifacts}
use mystery_starter_kit.Transactions.Next.{Encoding, has_hash}

abbrev pub input_error : String → Failure
input_error name = runtime_error runtime_configuration_error false "TASK" none (some name)

-- `None if definition is None else definition.get("path")`, and `isinstance(…, str)`.
unfoldable pub relative_path : Dict Fields → String → Option String
unfolding lookup
relative_path definitions name = elim (get name definitions) [
  | none ↦ none
  | some definition ↦ elim (lookup "path" definition) [ none ↦ none | some v ↦ as_text v ]
]

module _ (encoding : Encoding) where
  open encoding use {Bytes, sha256}

  -- The hash of one artifact.
  unfoldable pub file_hash : (String → Option Bytes) → Dict Fields → String → Result String
  file_hash files definitions name = do
    path ← or_raise (input_error name) (relative_path definitions name)
    bytes ← or_raise (input_error name) (files path)
    ok (sha256 bytes)

  unfoldable pub capture_each :
      (String → Option Bytes) → Dict Fields → List String → Dict String → Result (Dict String)
  capture_each files definitions [] hashes = ok hashes
  capture_each files definitions (name ∷ names) hashes = do
    hash ← file_hash files definitions name
    capture_each files definitions names (put name hash hashes)

  unfoldable pub capture_artifact_hashes :
      (String → Option Bytes) → List String → Fields → Result (Dict String)
  unfolding capture_each
  capture_artifact_hashes files names graph = do
    definitions ← dependency_artifacts graph
    capture_each files definitions names []

  -- The names whose hash is not the expected one.
  unfoldable pub changed_names : Dict String → Dict String → List String
  changed_names current [] = []
  changed_names current ((name, expected) ∷ rest) =
      let later = changed_names current rest in
      if has_hash expected (get name current) then later else name ∷ later

  abbrev pub refuse_changed : List String → Result (Unit {0})
  refuse_changed [] = ok tt
  refuse_changed (name ∷ names) =
      err (runtime_error input_hash_changed true "TRANSACTION" none none)

  unfoldable pub verify_artifact_hashes :
      (String → Option Bytes) → Dict String → Fields → Result (Unit {0})
  unfolding capture_artifact_hashes changed_names
  verify_artifact_hashes files expected graph = do
    current ← capture_artifact_hashes files (keys expected) graph
    refuse_changed (changed_names current expected)
