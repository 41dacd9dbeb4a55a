-- ===== src/Examples/Conditions.antt =====
-- VALIDATORS/requirements.py on a small condition.
use mystery_starter_kit.Common.{◌≡◌, [], ◌∷◌}
use mystery_starter_kit.Failure.{ok}
use mystery_starter_kit.Requirements.{requirement_matches}
use mystery_starter_kit.Requirements.Meaning.{
  Requirement, Requirements, encode, holds, requirement_matches-encode,
}
use mystery_starter_kit.Examples.Samples.{documents}

-- Original stories, unless some artifact exists.
abbrev condition : Requirement
condition = Requirement.every (
    Requirements.also (Requirement.story_source_mode_in ("ORIGINAL" ∷ [])) (
      Requirements.also (Requirement.never_holds (Requirement.artifact_exists "facts"))
        Requirements.none_left))

requirement_matches-encode_example :
    requirement_matches documents (encode condition) ≡ ok (holds documents condition)
requirement_matches-encode_example = requirement_matches-encode documents condition
