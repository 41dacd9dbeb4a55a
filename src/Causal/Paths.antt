-- ===== src/Causal/Paths.antt =====
-- The search for a path from causes to resolutions of VALIDATORS/causal_validation.py.
use mystery_starter_kit.Common.{
  ℕ, zero, suc, ◌+◌, ◌≤◌, String, Bool, true, false, Bool-cases, ◌≡◌, refl, sym, ap, subst, ◌↔◌,
  ◌⊎◌, inl, inr, some, List, [], ◌∷◌, length, mem, Elem, Elem-head, Elem-tail, Elem-cons,
  not-Elem-nil, Dict, get, keys, arith,
}
use mystery_starter_kit.Failure.{Result, ok}
use mystery_starter_kit.Dependency.Paths.{points, RestsOn, direct, through}
use mystery_starter_kit.Dependency.Search.{AreKnown}
use mystery_starter_kit.Dependency.Dependents.{edge_count}
use mystery_starter_kit.Dependency.Reach.{edges_left, edges_left-fresh, edges_left-nil}
use mystery_starter_kit.Causal.Graph.{extend, search_path, edges_of, path_exists}
use mystery_starter_kit.Causal.Cycles.{neighbors_at}

length-extend : (xs ys : List String) → length (extend xs ys) ≡ length xs + length ys
unfolding extend
length-extend [] ys = omega arith
length-extend (x ∷ xs) ys = omega (arith, length-extend xs (x ∷ ys))

Elem-extend : (z : String) (xs ys : List String) → Elem z (extend xs ys) → Elem z xs ⊎ Elem z ys
unfolding extend
Elem-extend z [] ys m = inr m
Elem-extend z (x ∷ xs) ys m = elim (Elem-extend z xs (x ∷ ys) m) [
  | inl later ↦ inl (Elem-tail z x xs later)
  | inr rest ↦ elim (Elem-cons z x ys rest) [
    | inl same ↦ inl (subst (λ y. Elem z (y ∷ xs)) same (Elem-head z xs))
    | inr old ↦ inr old
  ]
]

Elem-extend_right : (z : String) (xs ys : List String) → Elem z ys → Elem z (extend xs ys)
unfolding extend
Elem-extend_right z [] ys m = m
Elem-extend_right z (x ∷ xs) ys m = Elem-extend_right z xs (x ∷ ys) (Elem-tail z x ys m)

Elem-extend_left : (z : String) (xs ys : List String) → Elem z xs → Elem z (extend xs ys)
unfolding extend
Elem-extend_left z [] ys m = absurd (not-Elem-nil z m)
Elem-extend_left z (x ∷ xs) ys m = elim (Elem-cons z x xs m) [
  | inl same ↦ Elem-extend_right z xs (x ∷ ys) (subst (λ y. Elem z (y ∷ ys)) same (Elem-head z ys))
  | inr later ↦ Elem-extend_left z xs (x ∷ ys) later
]

edges_of_lem : (adjacency : Dict (List String)) → edges_of adjacency ≡ edge_count adjacency
edges_of_lem [] = refl
edges_of_lem ((node, neighbors) ∷ rest) = ap (λ n. length neighbors + n) (edges_of_lem rest)

module _ (adjacency : Dict (List String))
    (known : AreKnown (neighbors_at adjacency) (keys adjacency)) (targets : List String) where
  abbrev names : String → Result (List String)
  names = neighbors_at adjacency

  -- From the node, a target is reached along the edges, in no step or more.
  abbrev pub Leads : String → Type 0
  Leads x = (t : String) × Elem t targets × ((x ≡ t) ⊎ RestsOn names t x)

  -- All that was waiting or visited stands in a list that the edges do not leave, and that has no target.
  abbrev IsSealed : List String → List String → Type 0
  IsSealed pending visited =
      (out : List String) × ((x : String) → Elem x pending ⊎ Elem x visited → Elem x out)
      × ((b a : String) → Elem b out → points names b a ≡ true → Elem a out)
      × ((x : String) → Elem x out → mem x targets ≡ false)

  abbrev IsAnswered : List String → List String → Result Bool → Type 0
  IsAnswered pending visited found =
      (answer : Bool) × (found ≡ ok answer)
      × (answer ≡ true → (x : String) × Elem x pending × Leads x)
      × (answer ≡ false → IsSealed pending visited)

  Leads-on : (x y : String) → points names x y ≡ true → Leads y → Leads x
  Leads-on x y edge (t, m, inl same) =
      (t, m, inr (direct (subst (λ z. points names x z ≡ true) same edge)))
  Leads-on x y edge (t, m, inr path) = (t, m, inr (through edge path))

  IsAnswered-empty :
      (visited : List String)
      → ((b a : String) → Elem b visited → points names b a ≡ true → Elem a [] ⊎ Elem a visited)
      → ((x : String) → Elem x visited → mem x targets ≡ false)
      → IsAnswered [] visited (ok false)
  IsAnswered-empty visited closed clear =
      (false, refl, (λ e. cc), (λ e. (visited, kept, (λ b a m p. kept a (closed b a m p)), clear)))
    where
      kept : (x : String) → Elem x [] ⊎ Elem x visited → Elem x visited
      kept x (inl m) = absurd (not-Elem-nil x m)
      kept x (inr m) = m

  path_hit :
      (fuel : ℕ) (node : String) (pending visited : List String)
      → mem node targets ≡ true
      → search_path adjacency targets (suc fuel) (node ∷ pending) visited ≡ ok true
  unfolding search_path
  path_hit fuel node pending visited hit = ground arith

  path_old :
      (fuel : ℕ) (node : String) (pending visited : List String)
      → mem node targets ≡ false
      → mem node visited ≡ true
      → search_path adjacency targets (suc fuel) (node ∷ pending) visited
        ≡ search_path adjacency targets fuel pending visited
  unfolding search_path
  path_old fuel node pending visited missed old = ground arith

  path_fresh :
      (fuel : ℕ) (node : String) (pending visited neighbors : List String)
      → mem node targets ≡ false
      → mem node visited ≡ false
      → get node adjacency ≡ some neighbors
      → search_path adjacency targets (suc fuel) (node ∷ pending) visited
        ≡ search_path adjacency targets fuel (extend neighbors pending) (node ∷ visited)
  unfolding search_path
  path_fresh fuel node pending visited neighbors missed fresh stored = ground arith

  search_path-IsAnswered :
      (fuel : ℕ) (pending visited : List String)
      → ((x : String) → Elem x pending → Elem x (keys adjacency))
      → length pending + edges_left adjacency visited ≤ fuel
      → ((b a : String)
          → Elem b visited
          → points names b a ≡ true
          → Elem a pending ⊎ Elem a visited)
      → ((x : String) → Elem x visited → mem x targets ≡ false)
      → IsAnswered pending visited (search_path adjacency targets fuel pending visited)
  unfolding search_path
  search_path-IsAnswered zero [] visited fit enough closed clear =
      IsAnswered-empty visited closed clear
  search_path-IsAnswered zero (node ∷ pending) visited fit enough closed clear =
      absurd (omega arith)
  search_path-IsAnswered (suc fuel) [] visited fit enough closed clear =
      IsAnswered-empty visited closed clear
  search_path-IsAnswered (suc fuel) (node ∷ pending) visited fit enough closed clear =
      elim (Bool-cases (mem node targets)) [
        | inl hit ↦
            subst (IsAnswered (node ∷ pending) visited)
              (sym (path_hit fuel node pending visited hit))
              (true, refl, (λ e. (node, Elem-head node pending, (node, hit, inl refl))), (λ e. cc))
        | inr missed ↦ elim (Bool-cases (mem node visited)) [
          | inl old ↦
              let (answer, found, right, wrong) =
                search_path-IsAnswered fuel pending visited
                  (λ x m. fit x (Elem-tail x node pending m)) (omega arith)
                  (λ b a m p. elim (closed b a m p) [
                    | inl waits ↦ elim (Elem-cons a node pending waits) [
                      | inl same ↦ inr (subst (λ z. Elem z visited) (sym same) old)
                      | inr later ↦ inl later
                    ]
                    | inr done ↦ inr done
                  ])
                  clear in
              subst (IsAnswered (node ∷ pending) visited)
                (sym (path_old fuel node pending visited missed old))
                (
                  answer,
                  found,
                  (λ e. let (x, m, leads) = right e in (x, Elem-tail x node pending m, leads)),
                  (λ e.
                      let (out, kept, sealed, free) = wrong e in
                      (out, (λ x m. kept x (settled x old m)), sealed, free)),
                )
          | inr fresh ↦
              let (neighbors, read, inside) = known node (fit node (Elem-head node pending)) in
              let stored : get node adjacency ≡ some neighbors = ground arith in
              let (answer, found, right, wrong) =
                search_path-IsAnswered fuel (extend neighbors pending) (node ∷ visited)
                  (λ x m. elim (Elem-extend x neighbors pending m) [
                    | inl new ↦ inside x new
                    | inr later ↦ fit x (Elem-tail x node pending later)
                  ])
                  (omega (
                    arith,
                    length-extend neighbors pending,
                    edges_left-fresh adjacency node neighbors visited stored fresh,
                  ))
                  (λ b a m p. elim (Elem-cons b node visited m) [
                    | inl same ↦ inl (
                        Elem-extend_left a neighbors pending
                          (ground (arith, subst (λ z. points names z a ≡ true) same p, stored)))
                    | inr old ↦ moved a neighbors (closed b a old p)
                  ])
                  (λ x m. elim (Elem-cons x node visited m) [
                    | inl same ↦ subst (λ z. mem z targets ≡ false) (sym same) missed
                    | inr old ↦ clear x old
                  ]) in
              subst (IsAnswered (node ∷ pending) visited)
                (sym (path_fresh fuel node pending visited neighbors missed fresh stored))
                (
                  answer,
                  found,
                  (λ e.
                      let (x, m, leads) = right e in
                      elim (Elem-extend x neighbors pending m) [
                        | inl new ↦ (
                          node,
                          Elem-head node pending,
                          Leads-on node x (ground (arith, stored)) leads,
                        )
                        | inr later ↦ (x, Elem-tail x node pending later, leads)
                      ]),
                  (λ e.
                      let (out, kept, sealed, free) = wrong e in
                      (out, (λ x m. kept x (moved x neighbors m)), sealed, free)),
                )
        ]
      ]
    where
      settled :
          (x : String)
          → mem node visited ≡ true
          → Elem x (node ∷ pending) ⊎ Elem x visited
          → Elem x pending ⊎ Elem x visited
      settled x old (inr m) = inr m
      settled x old (inl m) = elim (Elem-cons x node pending m) [
        | inl same ↦ inr (subst (λ z. Elem z visited) (sym same) old)
        | inr later ↦ inl later
      ]

      moved :
          (x : String) (neighbors : List String)
          → Elem x (node ∷ pending) ⊎ Elem x visited
          → Elem x (extend neighbors pending) ⊎ Elem x (node ∷ visited)
      moved x neighbors (inr m) = inr (Elem-tail x node visited m)
      moved x neighbors (inl m) = elim (Elem-cons x node pending m) [
        | inl same ↦ inr (subst (λ z. Elem z (node ∷ visited)) (sym same) (Elem-head node visited))
        | inr later ↦ inl (Elem-extend_right x neighbors pending later)
      ]

  -- When the neighbors of every node are nodes, and the sources are nodes, path_exists returns, its rounds
  -- suffice, and it answers whether a target is reached from a source, in no step or more.
  pub path_exists_iff :
      (sources : List String)
      → ((x : String) → Elem x sources → Elem x (keys adjacency))
      → (answer : Bool) × (path_exists adjacency sources targets ≡ ok answer)
        × ((answer ≡ true) ↔ ((x : String) × Elem x sources × Leads x))
  unfolding path_exists
  path_exists_iff sources fit =
      let (answer, found, right, wrong) =
        search_path-IsAnswered (length sources + edges_of adjacency) sources [] fit
          (omega (arith, edges_left-nil adjacency, edges_of_lem adjacency))
          (λ b a m. absurd (not-Elem-nil b m)) (λ x m. absurd (not-Elem-nil x m)) in
      (answer, found, (right, λ hit. decided answer wrong hit))
    where
      climb :
          (out : List String)
          → ((b a : String) → Elem b out → points names b a ≡ true → Elem a out)
          → {t x : String} → RestsOn names t x
          → Elem x out
          → Elem t out
      climb out sealed (direct {a = a} p) m = sealed a _ m p
      climb out sealed (through {a = a} {c = c} p r) m = climb out sealed r (sealed a c m p)

      decided :
          (answer : Bool)
          → (answer ≡ false → IsSealed sources [])
          → (x : String) × Elem x sources × Leads x
          → answer ≡ true
      decided true wrong hit = refl
      decided false wrong (x, m, (t, mt, inl same)) =
          let (out, kept, sealed, free) = wrong refl in
          absurd
            (ground (arith, free x (kept x (inl m)), subst (λ z. Elem z targets) (sym same) mt))
      decided false wrong (x, m, (t, mt, inr path)) =
          let (out, kept, sealed, free) = wrong refl in
          absurd (ground (arith, free t (climb out sealed path (kept x (inl m))), mt))
