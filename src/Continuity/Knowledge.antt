-- ===== src/Continuity/Knowledge.antt =====
-- `build_knowledge_boundaries` and `validate_character_knowledge` of VALIDATORS/continuity.py. An issue
-- keeps its code and the names in its context.
use mystery_starter_kit.Common.{
  String, Bool, true, ◌&&◌, ◌==◌, Option, none, some, List, [], ◌∷◌, ◌++◌, if◌then◌else◌,
}
use mystery_starter_kit.Failure.{Result, ok, ◌>>=◌}
use mystery_starter_kit.Continuity.Float.{Float, float_lt}
use mystery_starter_kit.Continuity.Document.{
  Fields, require_records, require_string, require_number,
}

-- `learned_scene_order` by character and fact; the keys are pairs of texts.
pub record Boundary : Type 0 where
  pub character_id : String
  pub fact_id : String
  pub learned_order : Float

abbrev pub is_about : String → String → Boundary → Bool
is_about character_id fact_id boundary =
    (boundary.character_id == character_id) && (boundary.fact_id == fact_id)

-- `boundaries.get(key)`
unfoldable pub boundary_of : String → String → List Boundary → Option Float
boundary_of character_id fact_id [] = none
boundary_of character_id fact_id (boundary ∷ boundaries) =
    let later = boundary_of character_id fact_id boundaries in
    if is_about character_id fact_id boundary then some boundary.learned_order else later

-- `boundaries[key] = learned_order`
unfoldable pub set_boundary : Boundary → List Boundary → List Boundary
set_boundary new [] = new ∷ []
set_boundary new (boundary ∷ boundaries) =
    let later = set_boundary new boundaries in
    if is_about new.character_id new.fact_id boundary then new ∷ boundaries else boundary ∷ later

abbrev pub is_earlier : Float → Option Float → Bool
is_earlier order none = true
is_earlier order (some previous) = float_lt order previous

unfoldable pub learn : Boundary → List Boundary → List Boundary
unfolding set_boundary boundary_of float_lt
learn new boundaries =
    if is_earlier new.learned_order (boundary_of new.character_id new.fact_id boundaries)
    then set_boundary new boundaries
    else boundaries

unfoldable pub read_event : Fields → Result Boundary
unfolding require_string require_number
read_event event = do
  character_id ← require_string event "character_id"
  fact_id ← require_string event "fact_id"
  learned_order ← require_number event "learned_scene_order"
  ok (record { character_id = character_id; fact_id = fact_id; learned_order = learned_order })

-- The loop over the events.
unfoldable pub learn_each : List Fields → List Boundary → Result (List Boundary)
unfolding read_event learn
learn_each [] boundaries = ok boundaries
learn_each (event ∷ events) boundaries = do
  new ← read_event event
  learn_each events (learn new boundaries)

unfoldable pub build_knowledge_boundaries : Fields → Result (List Boundary)
unfolding require_records learn_each
build_knowledge_boundaries knowledge_matrix = do
  events ← require_records knowledge_matrix "knowledge_events"
  learn_each events []

pub data KnowledgeIssue : Type 0 where
  undeclared_character_knowledge : String → String → String → KnowledgeIssue
  knowledge_boundary_violation : String → String → String → Float → KnowledgeIssue

abbrev pub claim_issue : String → Float → String → String → Option Float → List KnowledgeIssue
claim_issue scene_id scene_order character_id fact_id none =
    undeclared_character_knowledge scene_id character_id fact_id ∷ []
claim_issue scene_id scene_order character_id fact_id (some learned_order) =
    if float_lt scene_order learned_order
    then knowledge_boundary_violation scene_id character_id fact_id learned_order ∷ []
    else []

module _ (boundaries : List Boundary) where
  -- The loop over the claims of a scene.
  unfoldable pub check_claims : String → Float → List Fields → Result (List KnowledgeIssue)
  unfolding require_string boundary_of float_lt
  check_claims scene_id scene_order [] = ok []
  check_claims scene_id scene_order (claim ∷ claims) = do
    character_id ← require_string claim "character_id"
    fact_id ← require_string claim "fact_id"
    rest ← check_claims scene_id scene_order claims
    ok (
        claim_issue scene_id scene_order character_id fact_id
          (boundary_of character_id fact_id boundaries)
        ++ rest)

  -- The loop over the scenes.
  unfoldable pub check_scenes : List Fields → Result (List KnowledgeIssue)
  unfolding require_string require_number require_records check_claims
  check_scenes [] = ok []
  check_scenes (scene ∷ scenes) = do
    scene_id ← require_string scene "scene_id"
    scene_order ← require_number scene "order"
    claims ← require_records scene "knowledge_claims"
    issues ← check_claims scene_id scene_order claims
    rest ← check_scenes scenes
    ok (issues ++ rest)

unfoldable pub validate_character_knowledge : Fields → Fields → Result (List KnowledgeIssue)
unfolding build_knowledge_boundaries check_scenes require_records
validate_character_knowledge knowledge_matrix scene_cards = do
  boundaries ← build_knowledge_boundaries knowledge_matrix
  scenes ← require_records scene_cards "scenes"
  check_scenes boundaries scenes
