-- ===== src/Dependency/Reach.antt =====
-- The worklist of `transitive_dependents`: what it returns, and that it ends within its rounds.
use mystery_starter_kit.Common.{
  ℕ, zero, suc, ◌+◌, ◌≤◌, String, ◌≡◌, refl, ap, sym, subst, ◌⊎◌, inl, inr, true, false, ◌==◌,
  eq_iff, some, List, [], ◌∷◌, ◌++◌, arith, length, length-append, Dict, get, mem, Elem, Elem-head,
  Elem-tail, Elem-cons, Elem-append, Elem-append_left, Elem-append_right, not-Elem-nil, Bool-cases,
  Option-cases, if◌then◌else◌,
}
use mystery_starter_kit.Failure.{Result, ok, configuration_error, or_raise, >>=-eq-ok}
use mystery_starter_kit.Dependency.Dependents.{collect, edge_count, dependents_in}
use mystery_starter_kit.Dependency.Paths.{points, listed, RestsOn, direct, through}

-- The edges of the reversed graph are those of the graph.
abbrev pub AreReversed : (String → Result (List String)) → Dict (List String) → Type 0
AreReversed names reversed = (b a : String) → listed reversed b a ≡ points names a b

-- One round that did not raise.
collect_step :
    (reversed : Dict (List String)) (fuel : ℕ) (name : String)
    (pending dependents out : List String)
    → collect reversed (suc fuel) (name ∷ pending) dependents ≡ ok out
    → (mem name dependents ≡ true) × (collect reversed fuel pending dependents ≡ ok out)
      ⊎ ((next : List String) × (get name reversed ≡ some next)
          × (collect reversed fuel (next ++ pending) (name ∷ dependents) ≡ ok out))
unfolding collect
collect_step reversed fuel name pending dependents out e = elim (Bool-cases (mem name dependents)) [
  | inl known ↦ inl (known, ground arith)
  | inr fresh ↦ elim (Option-cases (get name reversed)) [
    | inl absent ↦ absurd (ground arith)
    | inr (next, found) ↦ inr (next, found, ground arith)
  ]
]

-- Taking `name` from the worklist and putting `next` on it loses no name.
moved :
    (name : String) (next pending dependents : List String) (a : String)
    → Elem a (name ∷ pending) ⊎ Elem a dependents
    → Elem a (next ++ pending) ⊎ Elem a (name ∷ dependents)
moved name next pending dependents a (inl waits) = elim (Elem-cons a name pending waits) [
  | inl same ↦ inr (subst (λ x. Elem x (name ∷ dependents)) (sym same) (Elem-head name dependents))
  | inr later ↦ inl (Elem-append_right a next pending later)
]
moved name next pending dependents a (inr old) = inr (Elem-tail a name dependents old)

module _ (reversed : Dict (List String)) where
  collect_done :
      (dependents out : List String)
      → ((b a : String)
          → Elem b dependents
          → listed reversed b a ≡ true
          → Elem a [] ⊎ Elem a dependents)
      → Result.ok dependents ≡ ok out
      → ((x : String) → Elem x [] ⊎ Elem x dependents → Elem x out)
        × ((b a : String) → Elem b out → listed reversed b a ≡ true → Elem a out)
  collect_done dependents out closed e =
      subst
        (λ o.
          ((x : String) → Elem x [] ⊎ Elem x dependents → Elem x o)
          × ((b a : String) → Elem b o → listed reversed b a ≡ true → Elem a o))
        ok_eq ((λ x m. settle x m), (λ b a mb l. settle a (closed b a mb l)))
    where
      ok_eq : dependents ≡ out
      ok_eq = cc

      settle : (x : String) → Elem x [] ⊎ Elem x dependents → Elem x dependents
      settle x (inl m) = absurd (not-Elem-nil x m)
      settle x (inr m) = m

module _ (names : String → Result (List String)) (reversed : Dict (List String))
    (link : AreReversed names reversed) (start : String) where
  -- What the loop adds rests on the start, if what it was given does.
  collect_sound :
      (fuel : ℕ) (pending dependents out : List String)
      → ((x : String) → Elem x pending → RestsOn names start x)
      → ((x : String) → Elem x dependents → RestsOn names start x)
      → collect reversed fuel pending dependents ≡ ok out
      → (x : String) → Elem x out
      → RestsOn names start x
  unfolding collect
  collect_sound zero [] dependents out hp hd e x m = hd x (ground arith)
  collect_sound zero (name ∷ pending) dependents out hp hd e x m = cc
  collect_sound (suc fuel) [] dependents out hp hd e x m = hd x (ground arith)
  collect_sound (suc fuel) (name ∷ pending) dependents out hp hd e x m =
      elim (collect_step reversed fuel name pending dependents out e) [
        | inl (known, rest) ↦
            collect_sound fuel pending dependents out (λ y my. hp y (Elem-tail y name pending my))
              hd rest x m
        | inr (next, found, rest) ↦
            collect_sound fuel (next ++ pending) (name ∷ dependents) out
              (λ y my. elim (Elem-append y next pending my) [
                | inl new ↦ through (ground (arith, link name y)) (hp name (Elem-head name pending))
                | inr old ↦ hp y (Elem-tail y name pending old)
              ])
              (λ y my. elim (Elem-cons y name dependents my) [
                | inl same ↦
                    subst (RestsOn names start) (sym same) (hp name (Elem-head name pending))
                | inr old ↦ hd y old
              ])
              rest x m
      ]

  -- What the loop returns holds what it was given, and all that is listed under a name it holds.
  collect_complete :
      (fuel : ℕ) (pending dependents out : List String)
      → ((b a : String)
          → Elem b dependents
          → listed reversed b a ≡ true
          → Elem a pending ⊎ Elem a dependents)
      → collect reversed fuel pending dependents ≡ ok out
      → ((x : String) → Elem x pending ⊎ Elem x dependents → Elem x out)
        × ((b a : String) → Elem b out → listed reversed b a ≡ true → Elem a out)
  unfolding collect
  collect_complete zero [] dependents out closed e = collect_done reversed dependents out closed e
  collect_complete zero (name ∷ pending) dependents out closed e = cc
  collect_complete (suc fuel) [] dependents out closed e =
      collect_done reversed dependents out closed e
  collect_complete (suc fuel) (name ∷ pending) dependents out closed e =
      elim (collect_step reversed fuel name pending dependents out e) [
        | inl (known, rest) ↦
            let (kept, all_in) =
              collect_complete fuel pending dependents out
                (λ b a mb l. elim (closed b a mb l) [
                  | inl waits ↦ elim (Elem-cons a name pending waits) [
                    | inl same ↦ inr (subst (λ x. Elem x dependents) (sym same) known)
                    | inr later ↦ inl later
                  ]
                  | inr done ↦ inr done
                ])
                rest in
            (
              λ x. λ m. kept x (elim m [
                | inl waits ↦ elim (Elem-cons x name pending waits) [
                  | inl same ↦ inr (subst (λ y. Elem y dependents) (sym same) known)
                  | inr later ↦ inl later
                ]
                | inr done ↦ inr done
              ]),
              all_in,
            )
        | inr (next, found, rest) ↦
            let (kept, all_in) =
              collect_complete fuel (next ++ pending) (name ∷ dependents) out
                (λ b a mb l. elim (Elem-cons b name dependents mb) [
                  | inl same ↦ inl (
                      Elem-append_left a next pending
                        (ground (arith, ap (λ k. get k reversed) same)))
                  | inr old ↦ moved name next pending dependents a (closed b a old l)
                ])
                rest in
            (λ x m. kept x (moved name next pending dependents x m), all_in)
      ]

-- The edges that start at names which are not collected yet.
pub edges_left : Dict (List String) → List String → ℕ
edges_left [] dependents = 0
edges_left ((name, names) ∷ rest) dependents =
    (if mem name dependents then 0 else length names) + edges_left rest dependents

pub edges_left-cons :
    (reversed : Dict (List String)) (name : String) (dependents : List String)
    → edges_left reversed (name ∷ dependents) ≤ edges_left reversed dependents
unfolding edges_left mem
edges_left-cons [] name dependents = omega arith
edges_left-cons ((other, names) ∷ rest) name dependents =
    ground (arith, edges_left-cons rest name dependents)

pub edges_left-fresh :
    (reversed : Dict (List String)) (name : String) (next dependents : List String)
    → get name reversed ≡ some next
    → mem name dependents ≡ false
    → edges_left reversed (name ∷ dependents) + length next ≤ edges_left reversed dependents
unfolding edges_left mem get
edges_left-fresh [] name next dependents found fresh = cc
edges_left-fresh ((other, names) ∷ rest) name next dependents found fresh =
    elim (Bool-cases (other == name)) [
      | inl same ↦
          let e : other ≡ name = (eq_iff other name).0 same in
          let listed_there : names ≡ next = ground arith in
          ground (
            arith,
            edges_left-cons rest name dependents,
            ap (λ k. mem k dependents) e,
            ap (λ (l : List String). length l) listed_there,
          )
      | inr differs ↦
          ground (arith, edges_left-fresh rest name next dependents (ground arith) fresh)
    ]

pub edges_left-nil : (reversed : Dict (List String)) → edges_left reversed [] ≡ edge_count reversed
unfolding edges_left mem
edges_left-nil [] = refl
edges_left-nil ((name, names) ∷ rest) = omega (arith, edges_left-nil rest)

-- Every name that the reversed graph lists is one of its keys.
abbrev pub IsClosed : Dict (List String) → Type 0
IsClosed reversed =
    (b a : String)
    → listed reversed b a ≡ true
    → (names : List String) × (get a reversed ≡ some names)

abbrev AllKeys : Dict (List String) → List String → Type 0
AllKeys reversed pending =
    (a : String) → Elem a pending → (names : List String) × (get a reversed ≡ some names)

module _ (reversed : Dict (List String)) (closed : IsClosed reversed) where
  collect_total :
      (fuel : ℕ) (pending dependents : List String)
      → AllKeys reversed pending
      → length pending + edges_left reversed dependents ≤ fuel
      → (out : List String) × (collect reversed fuel pending dependents ≡ ok out)
  unfolding collect
  collect_total zero [] dependents known enough = (dependents, refl)
  collect_total zero (name ∷ pending) dependents known enough = absurd (omega arith)
  collect_total (suc fuel) [] dependents known enough = (dependents, refl)
  collect_total (suc fuel) (name ∷ pending) dependents known enough =
      elim (Bool-cases (mem name dependents)) [
        | inl old ↦
            let (out, e) =
              collect_total fuel pending dependents (λ a m. known a (Elem-tail a name pending m))
                (omega arith) in
            (out, ground arith)
        | inr fresh ↦
            let (next, found) = known name (Elem-head name pending) in
            let (out, e) =
              collect_total fuel (next ++ pending) (name ∷ dependents)
                (λ a m. elim (Elem-append a next pending m) [
                  | inl new ↦ closed name a (ground arith)
                  | inr later ↦ known a (Elem-tail a name pending later)
                ])
                (omega (
                  arith,
                  length-append next pending,
                  edges_left-fresh reversed name next dependents found fresh,
                )) in
            (out, ground arith)
      ]

  pub dependents_in_total :
      (start : String) (first : List String)
      → get start reversed ≡ some first
      → (out : List String) × (dependents_in reversed start ≡ ok out)
  unfolding dependents_in
  dependents_in_total start first found =
      let (out, e) =
        collect_total (length first + edge_count reversed) first []
          (λ a m. closed start a (ground arith)) (omega (arith, edges_left-nil reversed)) in
      (out, ground arith)

module _ (names : String → Result (List String)) (reversed : Dict (List String))
    (link : AreReversed names reversed) (start : String) (out : List String)
    (returned : dependents_in reversed start ≡ ok out) where
  pub dependents_in_sound : (x : String) → Elem x out → RestsOn names start x
  unfolding dependents_in
  dependents_in_sound =
      let (first, found, looped) =
        >>=-eq-ok (or_raise (configuration_error "artifact") (get start reversed)) _ returned in
      collect_sound names reversed link start (length first + edge_count reversed) first [] out
        (λ x m. direct (ground (arith, link start x))) (λ x m. absurd (not-Elem-nil x m)) looped

  pub dependents_in_complete : {x : String} → RestsOn names start x → Elem x out
  unfolding dependents_in
  dependents_in_complete {x} rests =
      let (first, found, looped) =
        >>=-eq-ok (or_raise (configuration_error "artifact") (get start reversed)) _ returned in
      let (kept, all_in) =
        collect_complete names reversed link start (length first + edge_count reversed) first [] out
          (λ b a m l. absurd (not-Elem-nil b m)) looped in
      climb (λ y e. kept y (inl (ground (arith, link start y))))
        (λ y c e m. all_in c y m (ground (arith, link c y))) rests
    where
      climb :
          ((y : String) → points names y start ≡ true → Elem y out)
          → ((y c : String) → points names y c ≡ true → Elem c out → Elem y out)
          → {y : String} → RestsOn names start y
          → Elem y out
      climb base up (direct {a = a} e) = base a e
      climb base up (through {a = a} {c = c} e r) = up a c e (climb base up r)
