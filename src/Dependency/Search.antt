-- ===== src/Dependency/Search.antt =====
-- The depth-first search of `validate_dependency_graph`: it ends within its fuel, and raises nothing
-- from a node that lies on no cycle.
use mystery_starter_kit.Common.{
  ℕ, zero, suc, ◌+◌, ◌≤◌, ◌<◌, String, ◌≡◌, refl, ap, sym, subst, ◌∙◌, inl, inr, true, false, ◌==◌,
  eq_iff, List, [], ◌∷◌, arith, length, mem, Elem, Elem-head, Elem-tail, Elem-cons, Bool-cases,
  if◌then◌else◌,
}
use mystery_starter_kit.Failure.{Result, ok, err, configuration_error, ◌>>=◌}
use mystery_starter_kit.Dependency.Graph.{Marks, remove, visit, visit_each}
use mystery_starter_kit.Dependency.Paths.{points, RestsOn, direct, through}

-- One more edge at the far end.
RestsOn-extend :
    (names : String → Result (List String)) (c : String) {b a : String}
    → RestsOn names b a
    → points names b c ≡ true
    → RestsOn names c a
RestsOn-extend names c (direct p) q = through p (direct q)
RestsOn-extend names c (through p r) q = through p (RestsOn-extend names c r q)

remove-absent : (x : String) (xs : List String) → mem x xs ≡ false → remove x xs ≡ xs
unfolding mem
remove-absent x [] h = refl
remove-absent x (y ∷ xs) h =
    ground (arith, eq_iff x y, eq_iff y x, remove-absent x xs (ground arith))

remove-head : (x : String) (xs : List String) → mem x xs ≡ false → remove x (x ∷ xs) ≡ xs
remove-head x xs h = ground (arith, eq_iff x x, remove-absent x xs h)

-- The names of a list that are not marked yet.
pub unseen : List String → List String → ℕ
unseen [] marked = 0
unseen (x ∷ xs) marked = (if mem x marked then 0 else 1) + unseen xs marked

pub unseen-le-length : (xs marked : List String) → unseen xs marked ≤ length xs
unfolding unseen
unseen-le-length [] marked = omega arith
unseen-le-length (x ∷ xs) marked = ground (arith, unseen-le-length xs marked)

unseen-cons-le : (x : String) (xs marked : List String) → unseen xs (x ∷ marked) ≤ unseen xs marked
unfolding unseen mem
unseen-cons-le x [] marked = omega arith
unseen-cons-le x (y ∷ xs) marked = ground (arith, unseen-cons-le x xs marked)

unseen-cons-lt :
    (x : String) (xs marked : List String)
    → Elem x xs
    → mem x marked ≡ false
    → unseen xs (x ∷ marked) < unseen xs marked
unfolding unseen mem
unseen-cons-lt x [] marked m fresh = absurd (cc)
unseen-cons-lt x (y ∷ xs) marked m fresh = elim (Bool-cases (x == y)) [
  | inl same ↦ ground (
    arith,
    eq_iff x y,
    eq_iff y x,
    unseen-cons-le x xs marked,
    ap (λ z. mem z marked) ((eq_iff x y).0 same),
  )
  | inr other ↦
      ground (arith, unseen-cons-le x xs marked, unseen-cons-lt x xs marked (ground arith) fresh)
]

-- Every artifact of `ks` can be read, and names artifacts of `ks`.
abbrev pub AreKnown : (String → Result (List String)) → List String → Type 0
AreKnown names ks =
    (x : String)
    → Elem x ks
    → (deps : List String) × (names x ≡ ok deps) × ((y : String) → Elem y deps → Elem y ks)

module _ (names : String → Result (List String)) where
  -- A call that started at `marks` returns and leaves the marks on the way as they were, or has found
  -- a cycle.
  abbrev pub Ends : Marks → Result Marks → Type 0
  Ends marks (ok after) = after.visiting ≡ marks.visiting
  Ends marks (err e) = (e ≡ configuration_error "cycle") × ((a : String) × RestsOn names a a)

  Ends-from :
      (marks mid : Marks) (r : Result Marks)
      → mid.visiting ≡ marks.visiting
      → Ends mid r
      → Ends marks r
  Ends-from marks mid (ok after) same h = h ∙ same
  Ends-from marks mid (err e) same h = h

  Ends-bind :
      (marks : Marks) (r : Result Marks) (f : Marks → Result Marks)
      → Ends marks r
      → ((mid : Marks) → mid.visiting ≡ marks.visiting → Ends mid (f mid))
      → Ends marks (r >>= f)
  Ends-bind marks (ok mid) f h k = Ends-from marks mid (f mid) h (k mid h)
  Ends-bind marks (err e) f h k = h

module _ (names : String → Result (List String)) (ks : List String)
    (known : AreKnown names ks) where
  -- Every name on the way rests on the one that is visited next.
  abbrev Trail : List String → String → Type 0
  Trail visiting name = (v : String) → Elem v visiting → RestsOn names name v

  pub visit_each-Ends :
      (step : String → Marks → Result Marks) (visiting : List String)
      → ((name : String) (marks : Marks)
          → Elem name ks
          → marks.visiting ≡ visiting
          → Trail visiting name
          → Ends names marks (step name marks))
      → (asked : List String) (marks : Marks)
      → ((x : String) → Elem x asked → Elem x ks × Trail visiting x)
      → marks.visiting ≡ visiting
      → Ends names marks (visit_each step asked marks)
  visit_each-Ends step visiting each [] marks fit on_way = refl
  visit_each-Ends step visiting each (name ∷ asked) marks fit on_way =
      let here = fit name (Elem-head name asked) in
      Ends-bind names marks (step name marks) (visit_each step asked)
        (each name marks here.0 on_way here.1)
        (λ mid same.
          visit_each-Ends step visiting each asked mid (λ x m. fit x (Elem-tail x name asked m))
            (same ∙ on_way))

  abbrev pub inside : String → Marks → Marks
  inside name marks = record marks { visiting = name ∷ marks.visiting }

  abbrev pub leave : String → Marks → Result Marks
  leave name after =
      ok (record { visiting = remove name after.visiting; visited = name ∷ after.visited })

  pub visit_fresh :
      (fuel : ℕ) (name : String) (marks : Marks) {deps : List String}
      → mem name marks.visiting ≡ false
      → mem name marks.visited ≡ false
      → names name ≡ ok deps
      → visit names (suc fuel) name marks
        ≡ (visit_each (visit names fuel) deps (inside name marks) >>= leave name)
  unfolding visit
  visit_fresh fuel name marks fresh undone read = rw (fresh, undone, read, visit)

  Ends-leave :
      (name : String) (marks : Marks) (r : Result Marks)
      → mem name marks.visiting ≡ false
      → Ends names (inside name marks) r
      → Ends names marks (r >>= leave name)
  Ends-leave name marks (ok after) fresh h =
      ap (remove name) h ∙ remove-head name marks.visiting fresh
  Ends-leave name marks (err e) fresh h = h

  -- The dependencies of a name that is visited are known, and all on the way rest on them.
  Trail-below :
      (name : String) (visiting : List String) {deps : List String}
      → names name ≡ ok deps
      → Trail visiting name
      → (x : String) → Elem x deps
      → Trail (name ∷ visiting) x
  Trail-below name visiting read trail x m v mv =
      let edge : points names name x ≡ true = ground arith in
      elim (Elem-cons v name visiting mv) [
        | inl same ↦ direct (subst (λ z. points names z x ≡ true) (sym same) edge)
        | inr old ↦ RestsOn-extend names x (trail v old) edge
      ]

  pub visit-Ends :
      (fuel : ℕ) (name : String) (marks : Marks)
      → Elem name ks
      → Trail marks.visiting name
      → unseen ks marks.visiting < fuel
      → Ends names marks (visit names fuel name marks)
  visit-Ends zero name marks key trail enough = absurd (omega arith)
  visit-Ends (suc fuel) name marks key trail enough = elim (Bool-cases (mem name marks.visiting)) [
    | inl again ↦
        let raised : visit names (suc fuel) name marks ≡ err (configuration_error "cycle") =
          unfold visit in ground arith in
        subst (Ends names marks) (sym raised) (refl, (name, trail name again))
    | inr fresh ↦ elim (Bool-cases (mem name marks.visited)) [
      | inl done ↦
          let same : visit names (suc fuel) name marks ≡ ok marks = unfold visit in ground arith in
          subst (Ends names marks) (sym same) refl
      | inr undone ↦
          let (deps, read, closed) = known name key in
          let below = Trail-below name marks.visiting read trail in
          subst (Ends names marks) (sym (visit_fresh fuel name marks fresh undone read)) (
            Ends-leave name marks _ fresh (
              visit_each-Ends (visit names fuel) (name ∷ marks.visiting)
                (λ x m kx on_way way.
                  visit-Ends fuel x m kx (subst (λ vs. Trail vs x) (sym on_way) way)
                    (rw on_way (omega (arith, unseen-cons-lt name ks marks.visiting key fresh))))
                deps (inside name marks) (λ x m. (closed x m, below x m)) refl))
    ]
  ]
