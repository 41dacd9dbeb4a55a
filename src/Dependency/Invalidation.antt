-- ===== src/Dependency/Invalidation.antt =====
-- What `invalidate_artifact_dependents` does to every artifact of a project.
use Prim.Native.Nat.{Ordering}
use Prim.Native.String.{compare}
use text.Mathlib.TextEquality.{path_by_compare}
use mystery_starter_kit.Common.{
  IsDistinct, String, ◌≡◌, refl, ap, sym, subst, ◌∙◌, ◌≢◌, ◌⊎◌, inl, inr, Bool, true, false, ◌||◌,
  ◌==◌, eq_iff, Option, some, List, [], ◌∷◌, arith, Dict, get, get-put, get-put_self, put, keys,
  mem, Elem, Elem-head, not-Elem-nil, Bool-cases, text_cases, eq_false, false≢true,
}
use mystery_starter_kit.Failure.{ok, key_error, configuration_error, or_raise, >>=-eq-ok}
use mystery_starter_kit.Json.{Fields}
use mystery_starter_kit.Project.{ArtifactState, ArtifactStatus, ProjectState, ProjectStatus}
use mystery_starter_kit.Dependency.Graph.{dependency_artifacts, names_at, validate_dependency_graph}
use mystery_starter_kit.Dependency.Dependents.{transitive_dependents}
use mystery_starter_kit.Dependency.Changes.{
  insert_sorted, sorted_set, dirty_by, mark_dependents, changed_artifact_state,
  invalidate_artifact_dependents,
}
use mystery_starter_kit.Dependency.Paths.{RestsOn}
use mystery_starter_kit.Dependency.Propagation.{transitive_dependents_correct}
use mystery_starter_kit.Dependency.Acyclic.{validate_dependency_graph-IsAcyclic}

Ordering-cases : (o : Ordering) → (o ≡ Ordering.lt) ⊎ ((o ≡ Ordering.eq) ⊎ (o ≡ Ordering.gt))
Ordering-cases Ordering.lt = inl refl
Ordering-cases Ordering.eq = inr (inl refl)
Ordering-cases Ordering.gt = inr (inr refl)

mem-insert_sorted :
    (x name : String) (names : List String)
    → mem x (insert_sorted name names) ≡ (x == name || mem x names)
unfolding mem insert_sorted
mem-insert_sorted x name [] = ground arith
mem-insert_sorted x name (other ∷ others) = elim (Ordering-cases (compare name other)) [
  | inl less ↦ ground arith
  | inr (inl same) ↦ ground (arith, ap (λ k. x == k) (path_by_compare name other same))
  | inr (inr greater) ↦ ground (arith, mem-insert_sorted x name others)
]

pub mem-sorted_set : (x : String) (names : List String) → mem x (sorted_set names) ≡ mem x names
unfolding mem sorted_set
mem-sorted_set x [] = refl
mem-sorted_set x (name ∷ names) =
    ground (arith, mem-insert_sorted x name (sorted_set names), mem-sorted_set x names)

-- `after` is `before`, invalidated by `changed`: its content is the same, and the names that it was
-- invalidated by are those of before and `changed`.
pub record IsDirtied (changed : String) (before after : ArtifactState) : Type 0 where
  pub dirty : after.status ≡ ArtifactStatus.dirty
  pub same_content : after.content_hash ≡ before.content_hash
  pub blamed :
      (x : String) → mem x after.invalidated_by ≡ (x == changed || mem x before.invalidated_by)

dirty_by-IsDirtied :
    (changed : String) (before : ArtifactState) → IsDirtied changed before (dirty_by changed before)
unfolding mem
dirty_by-IsDirtied changed before = record {
  dirty = refl;
  same_content = refl;
  blamed = λ x. mem-sorted_set x (changed ∷ before.invalidated_by);
}

IsDirtied-trans :
    {changed : String} {a b c : ArtifactState}
    → IsDirtied changed a b
    → IsDirtied changed b c
    → IsDirtied changed a c
IsDirtied-trans {changed} p q = record {
  dirty = q.dirty;
  same_content = q.same_content ∙ p.same_content;
  blamed = λ x. ground (arith, p.blamed x, q.blamed x);
}

-- An artifact before and after the loop over the dependents.
abbrev Marked : String → List String → String → ArtifactState → Option ArtifactState → Type 0
Marked changed names x before after =
    (state : ArtifactState) × (after ≡ some state)
    × (Elem x names → IsDirtied changed before state)
    × (mem x names ≡ false → state ≡ before)

IsDirtied-again :
    (changed x : String) (names : List String) (artifact state : ArtifactState)
    → (Elem x names → IsDirtied changed (dirty_by changed artifact) state)
    → (mem x names ≡ false → state ≡ dirty_by changed artifact)
    → IsDirtied changed artifact state
IsDirtied-again changed x names artifact state again kept = elim (Bool-cases (mem x names)) [
  | inl later ↦ IsDirtied-trans (dirty_by-IsDirtied changed artifact) (again later)
  | inr last ↦
      subst (IsDirtied changed artifact) (sym (kept last)) (dirty_by-IsDirtied changed artifact)
]

mark_dependents-Marked :
    (changed : String) (names : List String) (artifacts after : Dict ArtifactState) (x : String)
    (before : ArtifactState)
    → mark_dependents changed names artifacts ≡ ok after
    → get x artifacts ≡ some before
    → Marked changed names x before (get x after)
unfolding mark_dependents
mark_dependents-Marked changed [] artifacts after x before e found =
    (before, ground arith, λ m. absurd (not-Elem-nil x m), λ _. refl)
mark_dependents-Marked changed (name ∷ names) artifacts after x before e found =
    let (artifact, there, rest) = >>=-eq-ok (or_raise key_error (get name artifacts)) _ e in
    let next = put name (dirty_by changed artifact) artifacts in
    elim (text_cases x name) [
      | inl same ↦
          let now : get x next ≡ some (dirty_by changed artifact) =
            ap (λ k. get k next) same ∙ get-put_self name (dirty_by changed artifact) artifacts in
          let was : artifact ≡ before =
            unfold get in ground (arith, ap (λ k. get k artifacts) same) in
          let (state, e', dirtied, kept) =
            mark_dependents-Marked changed names next after x (dirty_by changed artifact) rest
              now in
          (
            state,
            e',
            (λ m.
                subst (λ b. IsDirtied changed b state) was
                  (IsDirtied-again changed x names artifact state dirtied kept)),
            λ f.
                absurd
                  (false≢true (sym f ∙ ap (λ k. mem k (name ∷ names)) same ∙ Elem-head name names)),
          )
      | inr other ↦
          let now : get x next ≡ some before = ground (
            arith,
            get-put name x (dirty_by changed artifact) artifacts,
            eq_false x name other,
            eq_iff name x,
            eq_iff x name,
          ) in
          let (state, e', dirtied, kept) =
            mark_dependents-Marked changed names next after x before rest now in
          (
            state,
            e',
            (λ m. dirtied (unfold mem in ground (arith, eq_false x name other))),
            λ f. kept (unfold mem in ground (arith, eq_false x name other)),
          )
    ]

get-put_ne {ℓ} :
    {V : Type ℓ} (k j : String) (v : V) (d : Dict V) → j ≢ k → get j (put k v d) ≡ get j d
get-put_ne k j v d h = ground (arith, get-put k j v d, eq_iff k j)

not_true : {b : Bool} → ¬ (b ≡ true) → b ≡ false
not_true {b} h = elim (Bool-cases b) [
  | inl yes_it_is ↦ absurd (h yes_it_is)
  | inr no_it_is ↦ no_it_is
]

-- The state that the call returns, from the set of dependents.
invalidate_parts :
    (graph : Fields) (state after : ProjectState) (changed hash updated_at : String)
    (out : List String)
    → transitive_dependents graph changed ≡ ok out
    → invalidate_artifact_dependents graph state changed hash updated_at ≡ ok after
    → (mark_dependents changed out (put changed (changed_artifact_state hash) state.artifacts)
        ≡ ok after.artifacts)
      × (after.state ≡ ProjectStatus.blocked)
      × (after.current_gate ≡ state.current_gate)
unfolding invalidate_artifact_dependents
invalidate_parts graph state after changed hash updated_at out returned e =
    let (old, there, rest) =
      >>=-eq-ok (or_raise (configuration_error "artifact") (get changed state.artifacts)) _ e in
    let (out', returned', more) = >>=-eq-ok (transitive_dependents graph changed) _ rest in
    let (marked, run, last) =
      >>=-eq-ok
        (mark_dependents changed out' (put changed (changed_artifact_state hash) state.artifacts)) _
        more in
    (ground arith, ground arith, ground arith)

-- On a graph that the validation accepts, whose artifacts have distinct names, and when the call
-- returns for an artifact of the graph: the changed artifact is DIRTY with the new hash and blames
-- nobody; each artifact that rests on it is DIRTY with its old hash, and is blamed on the changed one
-- and on whatever it was blamed on before; every other artifact is as before; the project is
-- BLOCKED at the gate where it was.
pub invalidate_artifact_dependents-effect :
    (graph : Fields) (artifacts : Dict Fields) (state after : ProjectState)
    (changed changed_hash updated_at : String)
    → validate_dependency_graph graph ≡ ok tt
    → dependency_artifacts graph ≡ ok artifacts
    → IsDistinct (keys artifacts)
    → Elem changed (keys artifacts)
    → invalidate_artifact_dependents graph state changed changed_hash updated_at ≡ ok after
    → (get changed after.artifacts ≡ some (changed_artifact_state changed_hash))
      × ((x : String) (before : ArtifactState)
          → RestsOn (names_at artifacts) changed x
          → get x state.artifacts ≡ some before
          → (now : ArtifactState) × (get x after.artifacts ≡ some now)
            × IsDirtied changed before now)
      × ((x : String) (before : ArtifactState)
          → x ≢ changed
          → ¬ RestsOn (names_at artifacts) changed x
          → get x state.artifacts ≡ some before
          → get x after.artifacts ≡ some before)
      × (after.state ≡ ProjectStatus.blocked)
      × (after.current_gate ≡ state.current_gate)
unfolding invalidate_artifact_dependents
invalidate_artifact_dependents-effect graph artifacts state after changed hash updated_at valid read
      distinct known e =
    let (out, returned, exact) =
      transitive_dependents_correct graph artifacts changed valid read distinct known in
    let acyclic = validate_dependency_graph-IsAcyclic graph artifacts valid read in
    let (run, halted, gate) =
      invalidate_parts graph state after changed hash updated_at out returned e in
    let start = put changed (changed_artifact_state hash) state.artifacts in
    let marked = λ (x : String) (before : ArtifactState) (h : get x start ≡ some before).
      mark_dependents-Marked changed out start after.artifacts x before run h in
    let elsewhere = λ (x : String) (h : x ≢ changed).
      get-put_ne changed x (changed_artifact_state hash) state.artifacts h in
    let (mine, found, _, untouched) =
      marked changed _ (get-put_self changed (changed_artifact_state hash) state.artifacts) in
    (
      found ∙ ap some (untouched (not_true (λ m. acyclic changed ((exact changed).0 m)))),
      (λ x before rests h.
          let other : x ≢ changed =
            λ same. acyclic changed (subst (RestsOn (names_at artifacts) changed) same rests) in
          let (now, e', dirtied, _) = marked x before (elsewhere x other ∙ h) in
          (now, e', dirtied ((exact x).1 rests))),
      (λ x before other apart h.
          let (now, e', _, kept) = marked x before (elsewhere x other ∙ h) in
          e' ∙ ap some (kept (not_true (λ m. apart ((exact x).0 m))))),
      halted,
      gate,
    )
