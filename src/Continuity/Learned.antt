-- ===== src/Continuity/Learned.antt =====
-- What `build_knowledge_boundaries` of VALIDATORS/continuity.py has learned from a list of events.
use mystery_starter_kit.Common.{
  String, true, false, Bool-cases, ◌≡◌, refl, sym, ap, subst, ◌∙◌, ◌↔◌, ◌⊎◌, inl, inr, eq_iff,
  Option, none, some, List, [], ◌∷◌, arith, if◌then◌else◌,
}
use mystery_starter_kit.Failure.{Result, ok, >>=-eq-ok, ok_injective, ◌>>=◌}
use mystery_starter_kit.Continuity.Float.{Float, IsAtMost, float_trans, float_asym}
use mystery_starter_kit.Continuity.Document.{Fields}
use mystery_starter_kit.Continuity.Knowledge.{
  Boundary, is_about, boundary_of, set_boundary, is_earlier, learn, read_event, learn_each,
}

-- Some event of the list lets the character know the fact at the time of the scene.
pub data IsLearned (character_id fact_id : String) (scene_order : Float)
    : List Boundary → Type 0 where
  here :
      {event : Boundary} {events : List Boundary}
      → event.character_id ≡ character_id
      → event.fact_id ≡ fact_id
      → IsAtMost event.learned_order scene_order
      → IsLearned character_id fact_id scene_order (event ∷ events)
  there :
      {event : Boundary} {events : List Boundary}
      → IsLearned character_id fact_id scene_order events
      → IsLearned character_id fact_id scene_order (event ∷ events)

-- What a lookup says of a scene.
abbrev pub IsKnown : Float → Option Float → Type 0
IsKnown scene_order none = ⊥
IsKnown scene_order (some learned_order) = IsAtMost learned_order scene_order

boundary_of-set_boundary :
    (new : Boundary) (boundaries : List Boundary) (c f : String)
    → boundary_of c f (set_boundary new boundaries)
      ≡ (if is_about c f new then some new.learned_order else boundary_of c f boundaries)
unfolding boundary_of set_boundary
boundary_of-set_boundary new [] c f = refl
boundary_of-set_boundary new (boundary ∷ boundaries) c f = ground (
  arith,
  boundary_of-set_boundary new boundaries c f,
  eq_iff new.character_id c,
  eq_iff new.fact_id f,
  eq_iff boundary.character_id c,
  eq_iff boundary.fact_id f,
  eq_iff boundary.character_id new.character_id,
  eq_iff boundary.fact_id new.fact_id,
)

abbrev IsNow : String → String → Float → Boundary → Type 0
IsNow c f order new = (is_about c f new ≡ true) × IsAtMost new.learned_order order

learn-boundary_of :
    (new : Boundary) (boundaries : List Boundary) (c f : String)
    → is_about c f new ≡ true
    → boundary_of new.character_id new.fact_id boundaries ≡ boundary_of c f boundaries
learn-boundary_of new boundaries c f h =
    let same : new.character_id ≡ c = ground (arith, eq_iff new.character_id c) in
    let same' : new.fact_id ≡ f = ground (arith, eq_iff new.fact_id f) in
    ap (λ x. boundary_of x new.fact_id boundaries) same ∙ ap (λ y. boundary_of c y boundaries) same'

-- What is known after an event: what it tells, and what was known before it.
learn-IsKnown :
    (new : Boundary) (boundaries : List Boundary) (c f : String) (order : Float)
    → IsKnown order (boundary_of c f (learn new boundaries))
      ↔ (IsNow c f order new ⊎ IsKnown order (boundary_of c f boundaries))
unfolding learn
learn-IsKnown new boundaries c f order =
    let old = boundary_of new.character_id new.fact_id boundaries in
    let placed = boundary_of-set_boundary new boundaries c f in
    elim (Bool-cases (is_about c f new)) [
      | inr other ↦ elim (Bool-cases (is_earlier new.learned_order old)) [
        | inl first ↦
            rw (first, placed, other)
              (
                λ h. inr h,
                λ h. elim h [
                  | inl now ↦ absurd (ground (arith, other, now.0))
                  | inr before ↦ before
                ],
              )
        | inr later ↦ rw later (
          λ h. inr h,
          λ h. elim h [ inl now ↦ absurd (ground (arith, other, now.0)) | inr before ↦ before ],
        )
      ]
      | inl about ↦
          let same = learn-boundary_of new boundaries c f about in
          elim (Bool-cases (is_earlier new.learned_order old)) [
            | inl first ↦
                rw (first, placed, about)
                  (
                    λ h. inl (refl, h),
                    λ h. elim h [
                      | inl now ↦ now.1
                      | inr before ↦
                          sooner new.learned_order order (boundary_of c f boundaries)
                            (sym (ap (is_earlier new.learned_order) same) ∙ first) before
                    ],
                  )
            | inr later ↦ rw later (
              λ h. inr h,
              λ h. elim h [
                | inl now ↦
                    still new.learned_order order (boundary_of c f boundaries)
                      (sym (ap (is_earlier new.learned_order) same) ∙ later) (now.1)
                | inr before ↦ before
              ],
            )
          ]
    ]
  where
    sooner :
        (told order : Float) (old : Option Float)
        → is_earlier told old ≡ true
        → IsKnown order old
        → IsAtMost told order
    sooner told order none e h = absurd h
    sooner told order (some previous) e h =
        float_trans told previous order (float_asym told previous e) h

    still :
        (told order : Float) (old : Option Float)
        → is_earlier told old ≡ false
        → IsAtMost told order
        → IsKnown order old
    still told order none e h = absurd (cc)
    still told order (some previous) e h = float_trans previous told order e h

-- The events of a matrix, in their order.
unfoldable pub read_events : List Fields → Result (List Boundary)
read_events [] = ok []
read_events (event ∷ events) = do
  first ← read_event event
  rest ← read_events events
  ok (first ∷ rest)

abbrev IsFull : List Boundary → Type 0
IsFull [] = ⊥
IsFull (_ ∷ _) = Unit

-- Whoever has learned something has learned it in an event.
IsLearned-IsFull :
    {c f : String} {order : Float} {events : List Boundary}
    → IsLearned c f order events
    → IsFull events
IsLearned-IsFull (here who what soon) = tt
IsLearned-IsFull (there later) = tt

pub learn_each-IsKnown :
    (events : List Fields) (boundaries out : List Boundary)
    → learn_each events boundaries ≡ ok out
    → (learned : List Boundary) × (read_events events ≡ ok learned)
      × ((c f : String) (order : Float)
          → IsKnown order (boundary_of c f out)
            ↔ (IsLearned c f order learned ⊎ IsKnown order (boundary_of c f boundaries)))
unfolding learn_each read_events
learn_each-IsKnown [] boundaries out h =
    let same : boundaries ≡ out = ok_injective h in
    (
      [],
      refl,
      λ c f order.
          subst
            (λ o.
              IsKnown order (boundary_of c f o)
              ↔ (IsLearned c f order [] ⊎ IsKnown order (boundary_of c f boundaries)))
            same
            (
              λ k. inr k,
              λ k. elim k [ inl never ↦ absurd (IsLearned-IsFull never) | inr before ↦ before ],
            ),
    )
learn_each-IsKnown (event ∷ events) boundaries out h =
    let (new, read, rest) =
      >>=-eq-ok (read_event event) (λ b. learn_each events (learn b boundaries)) h in
    let (learned, read_rest, known) = learn_each-IsKnown events (learn new boundaries) out rest in
    (
      new ∷ learned,
      rw (read, read_rest) refl,
      λ c f order.
          let (ahead, back) = known c f order in
          let (ahead', back') = learn-IsKnown new boundaries c f order in
          (
            λ k. elim (ahead k) [
              | inl later ↦ inl (there later)
              | inr before ↦ elim (ahead' before) [
                | inl now ↦ inl (
                    here (ground (arith, eq_iff new.character_id c, now.0))
                      (ground (arith, eq_iff new.fact_id f, now.0)) (now.1))
                | inr old ↦ inr old
              ]
            ],
            λ k. elim k [
              | inr old ↦ back (inr (back' (inr old)))
              | inl some_event ↦
                  split c f order new learned (λ now. back (inr (back' (inl now))))
                    (λ later. back (inl later)) some_event
            ],
          ),
    )
  where
    split :
        (c f : String) (order : Float) (new : Boundary) (learned : List Boundary) {R : Type 0}
        → (IsNow c f order new → R)
        → (IsLearned c f order learned → R)
        → IsLearned c f order (new ∷ learned)
        → R
    split c f order new learned first second (here who what soon) =
        first (ground (arith, eq_iff new.character_id c, eq_iff new.fact_id f, who, what), soon)
    split c f order new learned first second (there later) = second later
