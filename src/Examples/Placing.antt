-- ===== src/Examples/Placing.antt =====
-- VALIDATORS/continuity.py: a heir who dines in the hall, and is in the garden as soon as the dinner ends.
use Prim.Native.Nat.{◌*◌, ◌^◌}
use mystery_starter_kit.Common.{String, ◌≡◌, refl, ◌↔◌, List, [], ◌∷◌, All, mem}
use mystery_starter_kit.Failure.{ok}
use mystery_starter_kit.Json.{at}
use mystery_starter_kit.Continuity.Float.{finite, float_of}
use mystery_starter_kit.Continuity.Document.{
  Fields, Value, text, integer, real, array, object, nil, cons, end, field, strings, value_at,
  require_records,
}
use mystery_starter_kit.Continuity.Timeline.{
  TimelineEvent, LocationIssue, normalize_each, validate_timeline_locations,
}
use mystery_starter_kit.Continuity.Places.{IsRange, ArePairsApart, validate_timeline_locations_iff}

-- 30.5 minutes.
abbrev half_past : Value
half_past = real (finite (at (61 * 2 ^ 1073)))

abbrev event : String → Value → Value → String → Fields
event event_id start stop location_id = field "event_id" (text event_id) (
    field "start_minute" start (
      field "end_minute" stop (
        field "location_id" (text location_id)
          (field "participant_ids" (array (strings ("heir" ∷ []))) end))))

abbrev evening : Fields
evening =
    field "events"
      (array (
        cons (object (event "dinner" (integer 0) half_past "hall"))
          (cons (object (event "walk" half_past (integer 45) "garden")) nil)))
      end

validated : validate_timeline_locations evening ≡ ok []
unfolding validate_timeline_locations value_at float_of mem
validated = refl

validate_timeline_locations_iff_example :
    (events : List Fields) × (timeline : List TimelineEvent) × (require_records evening "events"
      ≡ ok events)
    × (normalize_each events ≡ ok timeline)
    × All IsRange timeline
    × ((◌≡◌ {A = List LocationIssue} [] []) ↔ ArePairsApart timeline)
validate_timeline_locations_iff_example = validate_timeline_locations_iff evening [] validated
