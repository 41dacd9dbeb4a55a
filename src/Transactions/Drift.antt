-- ===== src/Transactions/Drift.antt =====
-- When `verify_artifact_hashes` of RUNTIME/transactions.py lets a commit pass.
use mystery_starter_kit.Common.{
  String, false, Bool-cases, Option-cases, ◌≡◌, refl, sym, subst, ap, ◌∙◌, ◌↔◌, inl, inr, ◌==◌,
  eq_refl, Option, some, List, [], ◌∷◌, mem, Elem, Elem-head, Elem-tail, Elem-cons, not-Elem-nil,
  IsDistinct, Dict, get, put, keys, get-put, mem-keys, eq_iff, arith,
}
use mystery_starter_kit.Failure.{ok, >>=-eq-ok}
use mystery_starter_kit.Json.{Fields}
use mystery_starter_kit.Dependency.Graph.{dependency_artifacts}
use mystery_starter_kit.Transactions.Next.{Encoding}
use mystery_starter_kit.Transactions.NextState.{IsDistinct-put}
use mystery_starter_kit.Transactions.Hashes.{
  file_hash, capture_each, capture_artifact_hashes, changed_names, refuse_changed,
  verify_artifact_hashes,
}

module _ (encoding : Encoding) where
  open encoding use {Bytes, sha256}

  capture_each-other :
      (files : String → Option Bytes) (definitions : Dict Fields) (names : List String)
      (hashes : Dict String) {out : Dict String} (name : String)
      → capture_each encoding files definitions names hashes ≡ ok out
      → mem name names ≡ false
      → get name out ≡ get name hashes
  unfolding capture_each mem
  capture_each-other files definitions [] hashes name h m = ground arith
  capture_each-other files definitions (first ∷ names) hashes name h m =
      let (hash, e, rest) = >>=-eq-ok (file_hash encoding files definitions first) _ h in
      capture_each-other files definitions names (put first hash hashes) name rest (ground arith)
      ∙ ground (arith, get-put first name hash hashes, eq_iff first name, eq_iff name first)

  -- Every captured name has the hash of its file.
  pub capture_each-get :
      (files : String → Option Bytes) (definitions : Dict Fields) (names : List String)
      (hashes : Dict String) {out : Dict String} (name : String)
      → capture_each encoding files definitions names hashes ≡ ok out
      → Elem name names
      → (hash : String) × (file_hash encoding files definitions name ≡ ok hash)
        × (get name out ≡ some hash)
  unfolding capture_each
  capture_each-get files definitions [] hashes name h m = absurd (not-Elem-nil name m)
  capture_each-get files definitions (first ∷ names) hashes name h m =
      let (hash, e, rest) = >>=-eq-ok (file_hash encoding files definitions first) _ h in
      elim (Bool-cases (mem name names)) [
        | inl later ↦
            capture_each-get files definitions names (put first hash hashes) name rest later
        | inr absent ↦ elim (Elem-cons name first names m) [
          | inr later ↦ absurd (cc)
          | inl same ↦ (
            hash,
            ap (file_hash encoding files definitions) same ∙ e,
            capture_each-other files definitions names (put first hash hashes) name rest absent
                ∙ ground (arith, get-put first name hash hashes, eq_iff first name),
          )
        ]
      ]

  capture_each-total :
      (files : String → Option Bytes) (definitions : Dict Fields) (names : List String)
      (hashes : Dict String)
      → ((name : String)
          → Elem name names
          → (hash : String) × (file_hash encoding files definitions name ≡ ok hash))
      → (out : Dict String) × (capture_each encoding files definitions names hashes ≡ ok out)
  unfolding capture_each
  capture_each-total files definitions [] hashes h = (hashes, refl)
  capture_each-total files definitions (first ∷ names) hashes h =
      let (hash, e) = h first (Elem-head first names) in
      let (out, rest) =
        capture_each-total files definitions names (put first hash hashes)
          (λ name m. h name (Elem-tail name first names m)) in
      (out, rw e rest)

  -- No expected hash differs from the current one.
  changed_names_nil :
      (current expected : Dict String) (name : String) {hash : String}
      → changed_names encoding current expected ≡ []
      → get name expected ≡ some hash
      → get name current ≡ some hash
  unfolding changed_names get
  changed_names_nil current [] name h e = absurd (cc)
  changed_names_nil current ((key, first) ∷ expected) name {hash = hash} h e =
      elim (Option-cases (get key current)) [
        | inl absent ↦ absurd (ground arith)
        | inr (found, at) ↦ elim (Bool-cases (found == first)) [
          | inr differs ↦ absurd (ground arith)
          | inl agrees ↦ elim (Bool-cases (key == name)) [
            | inl same ↦ ground (arith, eq_iff key name, eq_iff found first)
            | inr other ↦ changed_names_nil current expected name (ground arith) (ground arith)
          ]
        ]
      ]

  changed_names_same :
      (current expected : Dict String)
      → ((name hash : String) → get name expected ≡ some hash → get name current ≡ some hash)
      → IsDistinct (keys expected)
      → changed_names encoding current expected ≡ []
  unfolding changed_names get
  changed_names_same current [] h d = refl
  changed_names_same current ((key, first) ∷ expected) h d = ground (
    arith,
    h key first (ground (arith, eq_refl key)),
    eq_refl first,
    changed_names_same current expected
        (λ name hash e. elim (Bool-cases (key == name)) [
          | inl same ↦ absurd (ground (arith, eq_iff key name, mem-keys name expected))
          | inr other ↦ h name hash (ground arith)
        ])
        (d.1),
  )

  refuse_changed_nil : (names : List String) → refuse_changed encoding names ≡ ok tt → names ≡ []
  refuse_changed_nil [] h = refl
  refuse_changed_nil (name ∷ names) h = absurd (cc)

  -- Every expected hash is the hash of its file.
  abbrev pub AreCurrent : (String → Option Bytes) → Dict Fields → Dict String → Type 0
  AreCurrent files definitions expected =
      (name hash : String)
      → get name expected ≡ some hash
      → file_hash encoding files definitions name ≡ ok hash

  verify-AreCurrent :
      (files : String → Option Bytes) (expected : Dict String) (graph : Fields)
      (definitions : Dict Fields)
      → dependency_artifacts graph ≡ ok definitions
      → verify_artifact_hashes encoding files expected graph ≡ ok tt
      → AreCurrent files definitions expected
  unfolding verify_artifact_hashes capture_artifact_hashes
  verify-AreCurrent files expected graph definitions g h name hash e =
      let (current, captured, passed) =
        >>=-eq-ok (capture_artifact_hashes encoding files (keys expected) graph) _ h in
      let (found, read, each) = >>=-eq-ok (dependency_artifacts graph) _ captured in
      let (now, at_file, at_current) =
        capture_each-get files found (keys expected) [] name each
          (ground (arith, mem-keys name expected)) in
      let fits =
        changed_names_nil current expected name
          (refuse_changed_nil (changed_names encoding current expected) passed) e in
      let same : found ≡ definitions = cc in
      let hashes : now ≡ hash = cc in
      ap (λ d. file_hash encoding files d name) (sym same) ∙ at_file ∙ ap (λ x. ok x) hashes

  AreCurrent-verify :
      (files : String → Option Bytes) (expected : Dict String) (graph : Fields)
      (definitions : Dict Fields)
      → dependency_artifacts graph ≡ ok definitions
      → IsDistinct (keys expected)
      → AreCurrent files definitions expected
      → verify_artifact_hashes encoding files expected graph ≡ ok tt
  unfolding verify_artifact_hashes capture_artifact_hashes
  AreCurrent-verify files expected graph definitions g d h =
      let (current, each) = capture_each-total files definitions (keys expected) [] (λ name m.
        elim (Option-cases (get name expected)) [
          | inl absent ↦ absurd (ground (arith, mem-keys name expected))
          | inr (hash, e) ↦ (hash, h name hash e)
        ]) in
      let none_changed =
        changed_names_same current expected
          (λ name hash e.
            let (now, at_file, at_current) =
              capture_each-get files definitions (keys expected) [] name each
                (ground (arith, mem-keys name expected)) in
            let same : now ≡ hash = (let e2 = sym at_file ∙ h name hash e in cc) in
            at_current ∙ ap (λ x. some x) same)
          d in
      rw (g, each, none_changed) refl

  capture_each-IsDistinct :
      (files : String → Option Bytes) (definitions : Dict Fields) (names : List String)
      (hashes : Dict String) {out : Dict String}
      → capture_each encoding files definitions names hashes ≡ ok out
      → IsDistinct (keys hashes)
      → IsDistinct (keys out)
  unfolding capture_each
  capture_each-IsDistinct files definitions [] hashes {out = out} h d =
      let same : hashes ≡ out = cc in subst (λ r. IsDistinct (keys r)) same d
  capture_each-IsDistinct files definitions (first ∷ names) hashes h d =
      let (hash, e, rest) = >>=-eq-ok (file_hash encoding files definitions first) _ h in
      capture_each-IsDistinct files definitions names (put first hash hashes) rest
        (IsDistinct-put first hash hashes d)

  -- Hashes that capture_artifact_hashes took of some artifacts pass verify_artifact_hashes at a later time
  -- exactly when each of these artifacts can still be read and has the hash that it had.
  pub verify_artifact_hashes-capture_artifact_hashes :
      (files later : String → Option Bytes) (names : List String) (graph : Fields)
      (definitions : Dict Fields) {hashes : Dict String}
      → dependency_artifacts graph ≡ ok definitions
      → capture_artifact_hashes encoding files names graph ≡ ok hashes
      → (verify_artifact_hashes encoding later hashes graph ≡ ok tt) ↔ (
          (name : String)
          → Elem name names
          → file_hash encoding later definitions name ≡ file_hash encoding files definitions name)
  unfolding capture_artifact_hashes get
  verify_artifact_hashes-capture_artifact_hashes files later names graph definitions {hashes} g h =
      let (found, read, each) = >>=-eq-ok (dependency_artifacts graph) _ h in
      let same : found ≡ definitions = cc in
      let taken = subst (λ d. capture_each encoding files d names [] ≡ ok hashes) same each in
      (
        λ passes name m.
            let (hash, at_file, at_hashes) =
              capture_each-get files definitions names [] name taken m in
            verify-AreCurrent later hashes graph definitions g passes name hash at_hashes
            ∙ sym at_file,
        λ unchanged.
            AreCurrent-verify later hashes graph definitions g
              (capture_each-IsDistinct files definitions names [] taken tt)
              (λ name hash e. elim (Bool-cases (mem name names)) [
                | inr absent ↦ absurd (
                    let other = capture_each-other files definitions names [] name taken absent in
                    ground arith)
                | inl m ↦
                    let (taken_hash, at_file, at_hashes) =
                      capture_each-get files definitions names [] name taken m in
                    let fits : taken_hash ≡ hash = (let e2 = sym at_hashes ∙ e in cc) in
                    unchanged name m ∙ at_file ∙ ap (λ x. ok x) fits
              ]),
      )
