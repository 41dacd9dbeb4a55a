-- ===== src/Causal/Cycles.antt =====
-- The search for cycles of VALIDATORS/causal_validation.py, beside the one of VALIDATORS/dependency.py: the
-- colours of the one are the marks of the other.
use mystery_starter_kit.Common.{
  ℕ, zero, suc, String, Bool, true, false, not, Bool-cases, ◌≡◌, refl, sym, subst, ◌∙◌, ◌↔◌, ◌⊎◌,
  inl, inr, ◌==◌, eq_iff, Option, none, some, List, [], ◌∷◌, length, length-keys, mem, mem-keep,
  mem-keys, Elem, Elem-head, Elem-tail, not-Elem-nil, Dict, get, put, get-put, keys, arith,
}
use mystery_starter_kit.Failure.{
  Result, ok, err, configuration_error, key_error, out_of_fuel, or_raise, Result-cases, ◌>>=◌,
}
use mystery_starter_kit.Dependency.Graph.{Marks, unmarked, remove, visit, visit_each}
use mystery_starter_kit.Dependency.Paths.{points, RestsOn}
use mystery_starter_kit.Dependency.Search.{
  AreKnown, Ends, visit_fresh, visit_each-Ends, visit-Ends, unseen-le-length, inside, leave,
}
use mystery_starter_kit.Dependency.Acyclic.{visit_each-Visited, visit-Visited, rests_below}
use mystery_starter_kit.Causal.Graph.{
  Colour, unvisited, entered, left, State, visit_neighbors, settle_node, visit_node, any_cycle,
  all_unvisited, graph_has_cycle,
}

-- The neighbors of a node.
abbrev pub neighbors_at : Dict (List String) → String → Result (List String)
neighbors_at adjacency node_id = or_raise key_error (get node_id adjacency)

abbrev colour_of : Bool → Bool → Colour
colour_of true done = entered
colour_of false true = left
colour_of false false = unvisited

module _ (adjacency : Dict (List String))
    (known : AreKnown (neighbors_at adjacency) (keys adjacency)) where
  abbrev names : String → Result (List String)
  names = neighbors_at adjacency

  -- The colours of the nodes are the marks.
  abbrev Matches : State → Marks → Type 0
  Matches state marks =
      (x : String)
      → Elem x (keys adjacency)
      → get x state ≡ some (colour_of (mem x marks.visiting) (mem x marks.visited))

  abbrev Sim : Result (Option State) → Result Marks → Type 0
  Sim found (err e) = (e ≡ out_of_fuel) ⊎ ((e ≡ configuration_error "cycle") × (found ≡ ok none))
  Sim found (ok marks) = (state : State) × (found ≡ ok (some state)) × Matches state marks

  Matches-inside :
      (node : String) (state : State) (marks : Marks)
      → Matches state marks
      → Matches (put node entered state) (inside names (keys adjacency) known node marks)
  unfolding mem
  Matches-inside node state marks match x m =
      ground (arith, match x m, get-put node x entered state, eq_iff node x, eq_iff x node)

  Matches-leave :
      (node : String) (state : State) (after : Marks)
      → Matches state after
      → Matches
          (put node left state)
          (record { visiting = remove node after.visiting; visited = node ∷ after.visited })
  unfolding mem
  Matches-leave node state after match x m = ground (
    arith,
    match x m,
    get-put node x left state,
    mem-keep (λ other. not (other == node)) x after.visiting,
    eq_iff node x,
    eq_iff x node,
  )

  Sim-leave :
      (node : String) (found : Result (Option State)) (r : Result Marks)
      → Sim found r
      → Sim (found >>= settle_node node) (r >>= leave names (keys adjacency) known node)
  Sim-leave node found (err e) (inl spent) = inl spent
  Sim-leave node found (err e) (inr (cycle, hit)) = inr (cycle, rw hit refl)
  Sim-leave node found (ok after) (state, returned, match) =
      (put node left state, rw returned refl, Matches-leave node state after match)

  -- A step of the search below a node that has no mark yet.
  abbrev Step-Sim : ℕ → Type 0
  Step-Sim fuel =
      (node : String) (state : State) (marks : Marks)
      → Matches state marks
      → Elem node (keys adjacency)
      → mem node marks.visiting ≡ false
      → mem node marks.visited ≡ false
      → Sim (visit_node adjacency fuel node state) (visit names fuel node marks)

  visit_again :
      (fuel : ℕ) (node : String) (marks : Marks)
      → mem node marks.visiting ≡ true
      → (visit names fuel node marks ≡ err out_of_fuel)
        ⊎ (visit names fuel node marks ≡ err (configuration_error "cycle"))
  unfolding visit
  visit_again zero node marks again = inl refl
  visit_again (suc fuel) node marks again = inr (unfold visit in ground arith)

  visit_done :
      (fuel : ℕ) (node : String) (marks : Marks)
      → mem node marks.visiting ≡ false
      → mem node marks.visited ≡ true
      → (visit names fuel node marks ≡ err out_of_fuel) ⊎ (visit names fuel node marks ≡ ok marks)
  unfolding visit
  visit_done zero node marks fresh done = inl refl
  visit_done (suc fuel) node marks fresh done = inr (unfold visit in ground arith)

  -- The rest of a search, behind a step.
  Sim-next :
      (found : Result (Option State)) (r : Result Marks) (further : State → Result (Option State))
      (rest : Marks → Result Marks)
      → Sim found r
      → ((state : State) (marks : Marks)
          → r ≡ ok marks
          → Matches state marks
          → Sim (further state) (rest marks))
      → Sim
          (found >>= λ after. elim after [ none ↦ ok none | some next ↦ further next ])
          (r >>= rest)
  Sim-next found (err e) further rest (inl spent) later = inl spent
  Sim-next found (err e) further rest (inr (cycle, hit)) later = inr (cycle, rw hit refl)
  Sim-next found (ok marks) further rest (state, returned, match) later =
      subst
        (λ f.
          Sim (f >>= λ after. elim after [ none ↦ ok none | some next ↦ further next ])
            (rest marks))
        (sym returned) (later state marks refl match)

  neighbors-Sim :
      (fuel : ℕ)
      → Step-Sim fuel
      → (asked : List String) (state : State) (marks : Marks) → Matches state marks
      → ((x : String) → Elem x asked → Elem x (keys adjacency))
      → Sim
          (visit_neighbors (visit_node adjacency fuel) asked state)
          (visit_each (visit names fuel) asked marks)
  unfolding visit_neighbors
  neighbors-Sim fuel step [] state marks match fit = (state, refl, match)
  neighbors-Sim fuel step (node ∷ asked) state marks match fit =
      let further = λ (next : State) (after : Marks) (m : Matches next after).
        neighbors-Sim fuel step asked next after m (λ x k. fit x (Elem-tail x node asked k)) in
      let here = match node (fit node (Elem-head node asked)) in
      elim (Bool-cases (mem node marks.visiting)) [
        | inl again ↦
            rw (here, again)
              (elim (visit_again fuel node marks again) [
                | inl spent ↦ rw spent (inl refl)
                | inr cycle ↦ rw cycle (inr (refl, refl))
              ])
        | inr fresh ↦ elim (Bool-cases (mem node marks.visited)) [
          | inl done ↦
              rw (here, fresh, done)
                (elim (visit_done fuel node marks fresh done) [
                  | inl spent ↦ rw spent (inl refl)
                  | inr same ↦ rw same (further state marks match)
                ])
          | inr undone ↦
              rw (here, fresh, undone)
                (Sim-next (visit_node adjacency fuel node state) (visit names fuel node marks)
                  (visit_neighbors (visit_node adjacency fuel) asked)
                  (visit_each (visit names fuel) asked)
                  (step node state marks match (fit node (Elem-head node asked)) fresh undone)
                  (λ next after same m. further next after m))
        ]
      ]

  visit_node-Sim : (fuel : ℕ) → Step-Sim fuel
  unfolding visit_node visit
  visit_node-Sim zero node state marks match key fresh undone = inl refl
  visit_node-Sim (suc fuel) node state marks match key fresh undone =
      let (deps, read, closed) = known node key in
      let below =
        neighbors-Sim fuel (visit_node-Sim fuel) deps (put node entered state)
          (inside names (keys adjacency) known node marks) (Matches-inside node state marks match)
          closed in
      subst (Sim _)
        (sym (visit_fresh names (keys adjacency) known fuel node marks fresh undone read))
        (rw read (Sim-leave node _ _ below))

  abbrev top : ℕ
  top = suc (length adjacency)

  -- The search from a node that is not on the way of another.
  visit-top :
      (node : String) (marks : Marks)
      → Elem node (keys adjacency)
      → marks.visiting ≡ []
      → Ends names marks (visit names top node marks)
  visit-top node marks key outside =
      visit-Ends names (keys adjacency) known top node marks key
        (subst (λ vs. (v : String) → Elem v vs → RestsOn names node v) (sym outside)
          (λ v m. absurd (not-Elem-nil v m)))
        (omega (arith, unseen-le-length (keys adjacency) marks.visiting, length-keys adjacency))

  any-Sim :
      (asked : List String) (state : State) (marks : Marks)
      → Matches state marks
      → marks.visiting ≡ []
      → ((x : String) → Elem x asked → Elem x (keys adjacency))
      → Sim
          (any_cycle (visit_node adjacency top) asked state)
          (visit_each (visit names top) asked marks)
  unfolding any_cycle
  any-Sim [] state marks match outside fit = (state, refl, match)
  any-Sim (node ∷ asked) state marks match outside fit =
      let key = fit node (Elem-head node asked) in
      let further =
        λ (next : State) (after : Marks) (m : Matches next after) (o : after.visiting ≡ []).
          any-Sim asked next after m o (λ x k. fit x (Elem-tail x node asked k)) in
      let fresh : mem node marks.visiting ≡ false = unfold mem in rw outside refl in
      let here = match node key in
      elim (Bool-cases (mem node marks.visited)) [
        | inl done ↦
            rw (here, fresh, done)
              (elim (visit_done top node marks fresh done) [
                | inl spent ↦ rw spent (inl refl)
                | inr same ↦ rw same (further state marks match outside)
              ])
        | inr undone ↦
            rw (here, fresh, undone)
              (Sim-next (visit_node adjacency top node state) (visit names top node marks)
                (any_cycle (visit_node adjacency top) asked) (visit_each (visit names top) asked)
                (visit_node-Sim top node state marks match key fresh undone)
                (λ next after same m.
                  further next after m
                    (subst (Ends names marks) same (visit-top node marks key outside) ∙ outside)))
      ]

  Matches-all_unvisited :
      (nodes : List String) (x : String)
      → Elem x nodes
      → get x (all_unvisited nodes) ≡ some unvisited
  unfolding get mem
  Matches-all_unvisited [] x m = cc
  Matches-all_unvisited (node ∷ nodes) x m =
      ground (arith, eq_iff x node, eq_iff node x, Matches-all_unvisited nodes x)

  -- The search over all nodes, as the other search makes it.
  searched : Result Marks
  searched = visit_each (visit names top) (keys adjacency) unmarked

  searched-Sim :
      Sim
        (any_cycle (visit_node adjacency top) (keys adjacency) (all_unvisited (keys adjacency)))
        searched
  unfolding searched mem
  searched-Sim =
      any-Sim (keys adjacency) (all_unvisited (keys adjacency)) unmarked
        (Matches-all_unvisited (keys adjacency)) refl (λ x m. m)

  searched-Ends : Ends names unmarked searched
  unfolding searched
  searched-Ends =
      visit_each-Ends names (keys adjacency) known (visit names top) []
        (λ x marks m on_way trail. visit-top x marks m on_way) (keys adjacency) unmarked
        (λ x m. (m, λ v mv. absurd (not-Elem-nil v mv))) refl

  key_of_points : (x y : String) → points names x y ≡ true → Elem x (keys adjacency)
  key_of_points x y p = ground (arith, mem-keys x adjacency)

  no_cycle : (marks : Marks) → searched ≡ ok marks → (a : String) → ¬ RestsOn names a a
  unfolding searched
  no_cycle marks returned a cycle =
      let seen =
        visit_each-Visited names (visit names top) (visit-Visited names top) (keys adjacency)
          unmarked marks returned in
      omega (
        arith,
        rests_below names marks.visited (seen.layered tt)
            (λ x y p. seen.reached x (key_of_points x y p)) cycle,
      )

  -- When the neighbors of every node are nodes, graph_has_cycle returns, its fuel suffices, and it answers
  -- whether there is a node from which a path of one edge or more leads back to it.
  pub graph_has_cycle_iff :
      (answer : Bool) × (graph_has_cycle adjacency ≡ ok answer)
      × ((answer ≡ true) ↔ ((a : String) × RestsOn names a a))
  unfolding graph_has_cycle
  graph_has_cycle_iff = elim (Result-cases searched) [
    | inl (marks, returned) ↦
        let (state, found, match) = subst (Sim _) returned searched-Sim in
        (false, rw found refl, (λ e. cc, λ (a, cycle). absurd (no_cycle marks returned a cycle)))
    | inr (failure, raised) ↦
        let (cycle, path) = subst (Ends names unmarked) raised searched-Ends in
        elim (subst (Sim _) raised searched-Sim) [
          | inl spent ↦ absurd (cc)
          | inr (e, found) ↦ (true, rw found refl, (λ e'. path, λ path'. refl))
        ]
  ]
