-- ===== src/Continuity/Timeline.antt =====
-- `validate_timeline_locations` of VALIDATORS/continuity.py. An issue keeps the names in its context.
use mystery_starter_kit.Common.{
  String, Bool, not, ◌&&◌, ◌==◌, List, [], ◌∷◌, ◌++◌, mem, keep, if◌then◌else◌,
}
use mystery_starter_kit.Failure.{Result, ok, err, configuration_error, ◌>>=◌}
use mystery_starter_kit.Continuity.Float.{Float, float_lt}
use mystery_starter_kit.Continuity.Document.{
  Fields, require_records, require_string, require_number, require_string_array,
}
use mystery_starter_kit.Dependency.Changes.{sorted_set}

pub record TimelineEvent : Type 0 where
  pub event_id : String
  pub start : Float
  pub stop : Float
  pub location_id : String
  pub participant_ids : List String

unfoldable pub time_ranges_overlap : Float → Float → Float → Float → Bool
unfolding float_lt
time_ranges_overlap first_start first_end second_start second_end =
    float_lt first_start second_end && float_lt second_start first_end

unfoldable pub normalize : Fields → Result TimelineEvent
unfolding require_string require_number require_string_array float_lt
normalize event = do
  event_id ← require_string event "event_id"
  start ← require_number event "start_minute"
  stop ← require_number event "end_minute"
  if not (float_lt start stop) then err (configuration_error "event range") else do
    location_id ← require_string event "location_id"
    participant_ids ← require_string_array event "participant_ids"
    ok (record {
      event_id = event_id;
      start = start;
      stop = stop;
      location_id = location_id;
      participant_ids = participant_ids;
    })

-- The first loop.
unfoldable pub normalize_each : List Fields → Result (List TimelineEvent)
unfolding normalize
normalize_each [] = ok []
normalize_each (event ∷ events) = do
  first ← normalize event
  rest ← normalize_each events
  ok (first ∷ rest)

pub data LocationIssue : Type 0 where
  simultaneous_location_conflict : String → String → List String → LocationIssue

abbrev pub conflict : String → String → List String → List LocationIssue
conflict first second [] = []
conflict first second (name ∷ names) =
    simultaneous_location_conflict first second (name ∷ names) ∷ []

-- The names that stand in both lists.
abbrev pub shared : List String → List String → List String
shared first second = keep (λ name. mem name second) first

-- The body of the inner loop.
unfoldable pub pair_issues : TimelineEvent → TimelineEvent → List LocationIssue
unfolding sorted_set time_ranges_overlap
pair_issues first second =
    if first.location_id == second.location_id
    then []
    else if not (time_ranges_overlap first.start first.stop second.start second.stop)
    then []
    else conflict first.event_id second.event_id
        (sorted_set (shared first.participant_ids second.participant_ids))

unfoldable pub issues_with : TimelineEvent → List TimelineEvent → List LocationIssue
unfolding pair_issues
issues_with first [] = []
issues_with first (second ∷ later) = pair_issues first second ++ issues_with first later

-- The two loops over the pairs.
unfoldable pub all_pair_issues : List TimelineEvent → List LocationIssue
unfolding issues_with
all_pair_issues [] = []
all_pair_issues (first ∷ later) = issues_with first later ++ all_pair_issues later

unfoldable pub validate_timeline_locations : Fields → Result (List LocationIssue)
unfolding require_records normalize_each all_pair_issues
validate_timeline_locations actual_timeline = do
  events ← require_records actual_timeline "events"
  normalized_events ← normalize_each events
  ok (all_pair_issues normalized_events)
