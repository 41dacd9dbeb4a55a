-- ===== src/Examples/Knowing.antt =====
-- VALIDATORS/continuity.py: a detective who learns of the letter in the second scene, and speaks of it in the third.
use Prim.Native.Nat.{◌^◌}
use mystery_starter_kit.Common.{◌-◌, ◌≡◌, refl, ◌↔◌, List, []}
use mystery_starter_kit.Failure.{ok, err, overflow_error}
use mystery_starter_kit.Json.{at, below}
use mystery_starter_kit.Continuity.Float.{finite, scaled, float_of}
use mystery_starter_kit.Continuity.Document.{
  Fields, text, integer, array, object, nil, cons, end, field, value_at, require_records,
}
use mystery_starter_kit.Continuity.Knowledge.{
  Boundary, KnowledgeIssue, build_knowledge_boundaries, validate_character_knowledge,
}
use mystery_starter_kit.Continuity.Learned.{read_events}
use mystery_starter_kit.Continuity.Boundaries.{ScenesHold, validate_character_knowledge_iff}

-- 2 ^ 53 + 1 is rounded to the even number below it, and the float of the number after it is exact.
rounded_down : float_of (at 9007199254740993) ≡ float_of (at 9007199254740992)
unfolding float_of
rounded_down = refl

exact : float_of (below 9007199254740993) ≡ ok (finite (below (scaled 9007199254740994 - 1)))
unfolding float_of
exact = refl

-- The first number that does not fit raises.
too_large : float_of (at (2 ^ 1024)) ≡ err overflow_error
unfolding float_of
too_large = refl

abbrev matrix : Fields
matrix =
    field "knowledge_events"
      (array (
        cons
          (object (
            field "character_id" (text "detective")
              (field "fact_id" (text "letter") (field "learned_scene_order" (integer 2) end))))
          nil))
      end

abbrev cards : Fields
cards =
    field "scenes"
      (array (
        cons
          (object (
            field "scene_id" (text "S3") (
              field "order" (integer 3) (
                field "knowledge_claims"
                  (array (
                    cons
                      (object (
                        field "character_id" (text "detective")
                          (field "fact_id" (text "letter") end)))
                      nil))
                  end))))
          nil))
      end

validated : validate_character_knowledge matrix cards ≡ ok []
unfolding validate_character_knowledge build_knowledge_boundaries value_at float_of
validated = refl

validate_character_knowledge_iff_example :
    (events scenes : List Fields) × (learned : List Boundary) × (require_records matrix
        "knowledge_events"
      ≡ ok events)
    × (read_events events ≡ ok learned)
    × (require_records cards "scenes" ≡ ok scenes)
    × ((◌≡◌ {A = List KnowledgeIssue} [] []) ↔ ScenesHold learned scenes)
validate_character_knowledge_iff_example =
    validate_character_knowledge_iff matrix cards [] validated
