-- ===== src/Continuity/Places.antt =====
-- What `validate_timeline_locations` of VALIDATORS/continuity.py decides.
use mystery_starter_kit.Common.{
  append-nil_iff, String, true, false, ◌&&◌, Bool-cases, text_cases, eq_false, ◌≡◌, refl, sym,
  subst, ◌∙◌, ◌↔◌, inl, inr, eq_iff, List, [], ◌∷◌, mem, mem-keep, Elem, Elem-head, All, arith,
}
use mystery_starter_kit.Failure.{ok, configuration_error, >>=-eq-ok, guard-eq-ok, ok_injective}
use mystery_starter_kit.Continuity.Float.{Float, float_lt, float_irrefl, float_asym, lt_of_le-lt}
use mystery_starter_kit.Continuity.Document.{
  Fields, require_records, require_string, require_number, require_string_array,
}
use mystery_starter_kit.Dependency.Changes.{sorted_set}
use mystery_starter_kit.Dependency.Invalidation.{mem-sorted_set}
use mystery_starter_kit.Continuity.Timeline.{
  TimelineEvent, time_ranges_overlap, normalize, normalize_each, LocationIssue, conflict, shared,
  pair_issues, issues_with, all_pair_issues, validate_timeline_locations,
}

-- A moment of an event: not before its start, and before its end.
abbrev pub IsDuring : Float → TimelineEvent → Type 0
IsDuring moment event = (float_lt moment event.start ≡ false) × (float_lt moment event.stop ≡ true)

abbrev pub IsRange : TimelineEvent → Type 0
IsRange event = float_lt event.start event.stop ≡ true

-- Two ranges overlap exactly when they have a moment in common.
time_ranges_overlap_iff :
    (first second : TimelineEvent)
    → IsRange first
    → IsRange second
    → (time_ranges_overlap first.start first.stop second.start second.stop ≡ true)
      ↔ ((moment : Float) × IsDuring moment first × IsDuring moment second)
unfolding time_ranges_overlap
time_ranges_overlap_iff first second range range' = (
  λ h. elim (Bool-cases (float_lt first.start second.start)) [
    | inl later ↦ (
      second.start,
      (float_asym first.start second.start later, ground (arith, h)),
      (float_irrefl second.start, range'),
    )
    | inr sooner ↦ (first.start, (float_irrefl first.start, range), (sooner, ground (arith, h)))
  ],
  λ (moment, (after, before), (after', before')). ground (
    arith,
    lt_of_le-lt first.start moment second.stop after before',
    lt_of_le-lt second.start moment first.stop after' before,
  ),
)

-- Nobody who takes part in both events is at two places at one moment.
abbrev pub IsApart : TimelineEvent → TimelineEvent → Type 0
IsApart first second =
    (person : String) (moment : Float)
    → Elem person first.participant_ids
    → Elem person second.participant_ids
    → IsDuring moment first
    → IsDuring moment second
    → first.location_id ≡ second.location_id

-- The same of any two events of a list.
abbrev pub ArePairsApart : List TimelineEvent → Type 0
ArePairsApart [] = Unit
ArePairsApart (first ∷ later) = All (IsApart first) later × ArePairsApart later

mem-shared :
    (x : String) (first second : List String)
    → mem x (sorted_set (shared first second)) ≡ (mem x first && mem x second)
mem-shared x first second =
    mem-sorted_set x (shared first second) ∙ mem-keep (λ name. mem name second) x first

conflict_iff : (a b : String) (names : List String) → (conflict a b names ≡ []) ↔ (names ≡ [])
conflict_iff a b [] = (λ e. refl, λ e. refl)
conflict_iff a b (name ∷ names) = (λ e. cc, λ e. cc)

shared_none :
    (names first second : List String)
    → ((x : String) → mem x names ≡ (mem x first && mem x second))
    → (names ≡ []) ↔ ((x : String) → Elem x first → ¬ Elem x second)
unfolding mem
shared_none [] first second same = (λ e x m k. ground (arith, same x), λ h. refl)
shared_none (name ∷ names) first second same = (
  λ e. cc,
  λ h.
      let both : (mem name first && mem name second) ≡ true =
        sym (same name) ∙ Elem-head name names in
      absurd (h name (ground arith) (ground arith)),
)

pair_issues_iff :
    (first second : TimelineEvent)
    → IsRange first
    → IsRange second
    → (pair_issues first second ≡ []) ↔ IsApart first second
unfolding pair_issues
pair_issues_iff first second range range' =
    let names = sorted_set (shared first.participant_ids second.participant_ids) in
    let (clear, cleared) = conflict_iff first.event_id second.event_id names in
    let (none, none') =
      shared_none names first.participant_ids second.participant_ids
        (λ x. mem-shared x first.participant_ids second.participant_ids) in
    let (meet, met) = time_ranges_overlap_iff first second range range' in
    let overlap = time_ranges_overlap first.start first.stop second.start second.stop in
    elim (text_cases first.location_id second.location_id) [
      | inl same ↦ (
        λ e person moment m k d d'. same,
        λ h. ground (arith, eq_iff first.location_id second.location_id),
      )
      | inr other ↦
          rw (eq_false first.location_id second.location_id other) (elim (Bool-cases overlap) [
            | inr apart ↦ (
              λ e person moment m k d d'. absurd (ground (arith, met (moment, d, d'))),
              λ h. rw apart refl,
            )
            | inl meeting ↦
                let (moment, d, d') = meet meeting in
                (
                  λ e person when m k.
                      absurd (none (clear (ground (arith, e, meeting))) person m k),
                  λ h. rw meeting (cleared (none' (λ x m k. other (h x moment m k d d')))),
                )
          ])
    ]

issues_with_iff :
    (first : TimelineEvent) (later : List TimelineEvent)
    → IsRange first
    → All IsRange later
    → (issues_with first later ≡ []) ↔ All (IsApart first) later
unfolding issues_with
issues_with_iff first [] range ranges = (λ e. tt, λ e. refl)
issues_with_iff first (second ∷ later) range (range', ranges) =
    let (now, now') = pair_issues_iff first second range range' in
    let (ahead, back) = issues_with_iff first later range ranges in
    let (apart, joined) = append-nil_iff (pair_issues first second) (issues_with first later) in
    (λ e. let (a, b) = apart e in (now a, ahead b), λ (a, b). joined (now' a, back b))

all_pair_issues_iff :
    (events : List TimelineEvent)
    → All IsRange events
    → (all_pair_issues events ≡ []) ↔ ArePairsApart events
unfolding all_pair_issues
all_pair_issues_iff [] ranges = (λ e. tt, λ e. refl)
all_pair_issues_iff (first ∷ later) (range, ranges) =
    let (now, now') = issues_with_iff first later range ranges in
    let (ahead, back) = all_pair_issues_iff later ranges in
    let (apart, joined) = append-nil_iff (issues_with first later) (all_pair_issues later) in
    (λ e. let (a, b) = apart e in (now a, ahead b), λ (a, b). joined (now' a, back b))

normalize-IsRange :
    (event : Fields) {normal : TimelineEvent} → normalize event ≡ ok normal → IsRange normal
unfolding normalize
normalize-IsRange event {normal} h =
    let (event_id, a, h1) = >>=-eq-ok (require_string event "event_id") (λ _. _) h in
    let (start, b, h2) = >>=-eq-ok (require_number event "start_minute") (λ _. _) h1 in
    let (stop, c, h3) = >>=-eq-ok (require_number event "end_minute") (λ _. _) h2 in
    let (range, h4) = guard-eq-ok (float_lt start stop) (configuration_error "event range") _ h3 in
    let (location, d, h5) = >>=-eq-ok (require_string event "location_id") (λ _. _) h4 in
    let (participants, e, last) =
      >>=-eq-ok (require_string_array event "participant_ids") (λ _. _) h5 in
    subst IsRange (ok_injective last) range

normalize_each-IsRange :
    (events : List Fields) (normal : List TimelineEvent)
    → normalize_each events ≡ ok normal
    → All IsRange normal
unfolding normalize_each
normalize_each-IsRange [] normal h = subst (All IsRange) (ok_injective h) tt
normalize_each-IsRange (event ∷ events) normal h =
    let (first, read, h1) = >>=-eq-ok (normalize event) (λ _. _) h in
    let (rest, read', last) = >>=-eq-ok (normalize_each events) (λ _. _) h1 in
    subst (All IsRange) (ok_injective last)
      (normalize-IsRange event read, normalize_each-IsRange events rest read')

-- When validate_timeline_locations returns on a document without NaN, the events can be read and each ends after
-- its start, by the floats of its minutes, and it reports no issue exactly when nobody takes part in two events at
-- different places that have a moment, a float, in common.
pub validate_timeline_locations_iff :
    (actual_timeline : Fields) (issues : List LocationIssue)
    → validate_timeline_locations actual_timeline ≡ ok issues
    → (events : List Fields) × (timeline : List TimelineEvent) × (require_records actual_timeline
          "events"
        ≡ ok events)
      × (normalize_each events ≡ ok timeline)
      × All IsRange timeline
      × ((issues ≡ []) ↔ ArePairsApart timeline)
unfolding validate_timeline_locations
validate_timeline_locations_iff actual_timeline issues h =
    let (events, listed, h1) = >>=-eq-ok (require_records actual_timeline "events") (λ _. _) h in
    let (timeline, read, last) = >>=-eq-ok (normalize_each events) (λ _. _) h1 in
    let ranges = normalize_each-IsRange events timeline read in
    (
      events,
      timeline,
      listed,
      read,
      ranges,
      subst (λ i. (i ≡ []) ↔ ArePairsApart timeline) (ok_injective last)
          (all_pair_issues_iff timeline ranges),
    )
