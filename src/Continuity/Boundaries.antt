-- ===== src/Continuity/Boundaries.antt =====
-- What the checks of knowledge of VALIDATORS/continuity.py decide.
use mystery_starter_kit.Common.{
  append-nil_iff, String, ◌≡◌, sym, subst, ◌∙◌, ◌↔◌, inl, inr, Option, none, some, List, [], ◌∷◌,
  All, arith,
}
use mystery_starter_kit.Failure.{Result, ok, >>=-eq-ok, ok_injective}
use mystery_starter_kit.Continuity.Float.{Float}
use mystery_starter_kit.Continuity.Document.{
  Fields, require_records, require_string, require_number,
}
use mystery_starter_kit.Continuity.Knowledge.{
  Boundary, boundary_of, build_knowledge_boundaries, KnowledgeIssue, claim_issue, check_claims,
  check_scenes, validate_character_knowledge,
}
use mystery_starter_kit.Continuity.Learned.{IsLearned, IsKnown, read_events, learn_each-IsKnown}

-- Each claim of a scene is about a fact that its character has learned by then.
abbrev pub ClaimsHold : List Boundary → Float → List Fields → Type 0
ClaimsHold learned scene_order claims =
    All
      (λ claim.
        (c f : String)
        → require_string claim "character_id" ≡ ok c
        → require_string claim "fact_id" ≡ ok f
        → IsLearned c f scene_order learned)
      claims

-- The same of every scene.
abbrev pub ScenesHold : List Boundary → List Fields → Type 0
ScenesHold learned scenes =
    All
      (λ scene.
        (order : Float) (claims : List Fields)
        → require_number scene "order" ≡ ok order
        → require_records scene "knowledge_claims" ≡ ok claims
        → ClaimsHold learned order claims)
      scenes

claim_issue_iff :
    (scene_id : String) (order : Float) (c f : String) (found : Option Float)
    → (claim_issue scene_id order c f found ≡ []) ↔ IsKnown order found
claim_issue_iff scene_id order c f none = (λ e. cc, λ h. absurd h)
claim_issue_iff scene_id order c f (some learned_order) = (λ e. ground arith, λ h. ground arith)

same_value : {A : Type 0} {r : Result A} {a b : A} → r ≡ ok a → r ≡ ok b → a ≡ b
same_value h k = ok_injective (sym h ∙ k)

module _ (boundaries learned : List Boundary)
    (known : (c f : String) (order : Float)
      → IsKnown order (boundary_of c f boundaries) ↔ IsLearned c f order learned) where
  check_claims_iff :
      (scene_id : String) (order : Float) (claims : List Fields) (issues : List KnowledgeIssue)
      → check_claims boundaries scene_id order claims ≡ ok issues
      → (issues ≡ []) ↔ ClaimsHold learned order claims
  unfolding check_claims
  check_claims_iff scene_id order [] issues h = (λ e. tt, λ e. sym (ok_injective h))
  check_claims_iff scene_id order (claim ∷ claims) issues h =
      let (c, who, h1) = >>=-eq-ok (require_string claim "character_id") (λ _. _) h in
      let (f, what, h2) = >>=-eq-ok (require_string claim "fact_id") (λ _. _) h1 in
      let (rest, checked, last) =
        >>=-eq-ok (check_claims boundaries scene_id order claims) (λ _. _) h2 in
      let found = boundary_of c f boundaries in
      let (ahead, back) = check_claims_iff scene_id order claims rest checked in
      let (clear, cleared) = claim_issue_iff scene_id order c f found in
      let (apart, joined) = append-nil_iff (claim_issue scene_id order c f found) rest in
      subst (λ i. (i ≡ []) ↔ ClaimsHold learned order (claim ∷ claims)) (ok_injective last)
        (
          λ e.
              let (first, second) = apart e in
              (
                λ c' f' who' what'.
                    subst (λ x. IsLearned x f' order learned) (same_value who who')
                      (subst (λ y. IsLearned c y order learned) (same_value what what')
                        ((known c f order).0 (clear first))),
                ahead second,
              ),
          λ (first, second).
              joined (cleared ((known c f order).1 (first c f who what)), back second),
        )

  check_scenes_iff :
      (scenes : List Fields) (issues : List KnowledgeIssue)
      → check_scenes boundaries scenes ≡ ok issues
      → (issues ≡ []) ↔ ScenesHold learned scenes
  unfolding check_scenes
  check_scenes_iff [] issues h = (λ e. tt, λ e. sym (ok_injective h))
  check_scenes_iff (scene ∷ scenes) issues h =
      let (scene_id, named, h1) = >>=-eq-ok (require_string scene "scene_id") (λ _. _) h in
      let (order, placed, h2) = >>=-eq-ok (require_number scene "order") (λ _. _) h1 in
      let (claims, listed, h3) = >>=-eq-ok (require_records scene "knowledge_claims") (λ _. _) h2 in
      let (here_issues, checked, h4) =
        >>=-eq-ok (check_claims boundaries scene_id order claims) (λ _. _) h3 in
      let (rest, checked', last) = >>=-eq-ok (check_scenes boundaries scenes) (λ _. _) h4 in
      let (now, now') = check_claims_iff scene_id order claims here_issues checked in
      let (ahead, back) = check_scenes_iff scenes rest checked' in
      let (apart, joined) = append-nil_iff here_issues rest in
      subst (λ i. (i ≡ []) ↔ ScenesHold learned (scene ∷ scenes)) (ok_injective last)
        (
          λ e.
              let (first, second) = apart e in
              (
                λ order' claims' placed' listed'.
                    subst (λ o. ClaimsHold learned o claims') (same_value placed placed')
                      (subst (ClaimsHold learned order) (same_value listed listed') (now first)),
                ahead second,
              ),
          λ (first, second). joined (now' (first order claims placed listed), back second),
        )

-- When validate_character_knowledge returns on documents without NaN, the events and the scenes can be read, and
-- it reports no issue exactly when for every claim of every scene there is an event in which the character of
-- the claim learns its fact, no later than in that scene by the floats of the two orders.
pub validate_character_knowledge_iff :
    (knowledge_matrix scene_cards : Fields) (issues : List KnowledgeIssue)
    → validate_character_knowledge knowledge_matrix scene_cards ≡ ok issues
    → (events scenes : List Fields) × (learned : List Boundary) × (require_records knowledge_matrix
          "knowledge_events"
        ≡ ok events)
      × (read_events events ≡ ok learned)
      × (require_records scene_cards "scenes" ≡ ok scenes)
      × ((issues ≡ []) ↔ ScenesHold learned scenes)
unfolding validate_character_knowledge build_knowledge_boundaries
validate_character_knowledge_iff knowledge_matrix scene_cards issues h =
    let (boundaries, built, h1) =
      >>=-eq-ok (build_knowledge_boundaries knowledge_matrix) (λ _. _) h in
    let (events, listed, learnt) =
      >>=-eq-ok (require_records knowledge_matrix "knowledge_events") (λ _. _) built in
    let (scenes, staged, checked) = >>=-eq-ok (require_records scene_cards "scenes") (λ _. _) h1 in
    let (learned, read, known) = learn_each-IsKnown events [] boundaries learnt in
    (
      events,
      scenes,
      learned,
      listed,
      read,
      staged,
      check_scenes_iff boundaries learned
          (λ c f order. (
            λ k. elim ((known c f order).0 k) [
              | inl event ↦ event
              | inr never ↦ absurd (unfold boundary_of in never)
            ],
            λ event. (known c f order).1 (inl event),
          ))
          scenes issues checked,
    )
