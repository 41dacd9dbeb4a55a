-- ===== src/Causal/Adjacency.antt =====
-- What `adjacency_map` of VALIDATORS/causal_validation.py holds.
use mystery_starter_kit.Common.{
  String, false, ◌&&◌, ◌||◌, Bool-cases, Option-cases, ◌≡◌, refl, sym, ap, subst, ◌∙◌, inl, inr,
  ◌==◌, eq_iff, eq_refl, eq_false, text_cases, Option, none, some, List, [], ◌∷◌, mem, mem-append,
  mem-keys, Elem, Dict, get, put, get-put, get-put_self, keys, arith, if◌then◌else◌,
}
use mystery_starter_kit.Failure.{key_error, or_raise}
use mystery_starter_kit.Dependency.Paths.{points}
use mystery_starter_kit.Dependency.Search.{AreKnown}
use mystery_starter_kit.Causal.Graph.{
  no_neighbors, appended, add_edges, adjacency_map, is_valid_edge,
}
use mystery_starter_kit.Causal.Cycles.{neighbors_at}

-- The targets of the edges from a node, of which both ends are nodes.
abbrev pub valid_targets : List String → List (String × String) → String → List String
valid_targets node_ids [] a = []
valid_targets node_ids ((source, target) ∷ edges) a =
    let rest = valid_targets node_ids edges a in
    if is_valid_edge node_ids (source, target) && (source == a) then target ∷ rest else rest

-- One more target in a list that may be missing.
mem-appended :
    (b target : String) (targets : Option (List String))
    → mem b (appended target targets)
      ≡ (points (λ _. or_raise key_error targets) "" b || (b == target))
unfolding mem
mem-appended b target none = ground arith
mem-appended b target (some targets) = mem-append b targets (target ∷ []) ∙ ground arith

points-put :
    (source target a b : String) (adjacency : Dict (List String))
    → points (neighbors_at (put source (appended target (get source adjacency)) adjacency)) a b
      ≡ (points (neighbors_at adjacency) a b || ((source == a) && (b == target)))
points-put source target a b adjacency = elim (text_cases source a) [
  | inl same ↦
      subst
        (λ x.
          points (neighbors_at (put source (appended target (get source adjacency)) adjacency)) x b
          ≡ (points (neighbors_at adjacency) x b || ((source == x) && (b == target))))
        same
        (rw (get-put_self source (appended target (get source adjacency)) adjacency, eq_refl source)
          (mem-appended b target (get source adjacency)))
  | inr other ↦
      rw
        (
          get-put source a (appended target (get source adjacency)) adjacency,
          eq_false source a other,
        )
        (ground arith)
]

points-add_edges :
    (node_ids : List String) (edges : List (String × String)) (adjacency : Dict (List String))
    (a b : String)
    → points (neighbors_at (add_edges node_ids edges adjacency)) a b
      ≡ (points (neighbors_at adjacency) a b || mem b (valid_targets node_ids edges a))
unfolding add_edges mem
points-add_edges node_ids [] adjacency a b = ground arith
points-add_edges node_ids ((source, target) ∷ edges) adjacency a b =
    elim (Bool-cases (mem source node_ids && mem target node_ids)) [
      | inl valid ↦ rw valid (
          points-add_edges node_ids edges
            (put source (appended target (get source adjacency)) adjacency) a b
          ∙ rw (points-put source target a b adjacency) (ground arith))
      | inr broken ↦ rw broken (points-add_edges node_ids edges adjacency a b)
    ]

points-no_neighbors :
    (node_ids : List String) (a b : String)
    → points (neighbors_at (no_neighbors node_ids)) a b ≡ false
unfolding get mem
points-no_neighbors [] a b = refl
points-no_neighbors (node ∷ node_ids) a b = ground (arith, points-no_neighbors node_ids a b)

-- The adjacency of a node is the targets of its edges, of which both ends are nodes.
pub adjacency_map-points :
    (node_ids : List String) (edges : List (String × String)) (a b : String)
    → points (neighbors_at (adjacency_map node_ids edges)) a b
      ≡ mem b (valid_targets node_ids edges a)
unfolding adjacency_map
adjacency_map-points node_ids edges a b =
    points-add_edges node_ids edges (no_neighbors node_ids) a b
    ∙ rw (points-no_neighbors node_ids a b) refl

valid_targets-Elem :
    (node_ids : List String) (edges : List (String × String)) (a b : String)
    → Elem b (valid_targets node_ids edges a)
    → Elem b node_ids
unfolding mem
valid_targets-Elem node_ids [] a b m = cc
valid_targets-Elem node_ids ((source, target) ∷ edges) a b m =
    let later = valid_targets-Elem node_ids edges a b in
    elim (Bool-cases (b == target)) [
      | inl same ↦ elim (Bool-cases (mem source node_ids && mem target node_ids)) [
        | inl valid ↦ subst (λ z. Elem z node_ids) (sym ((eq_iff b target).0 same)) (ground arith)
        | inr broken ↦ later (ground arith)
      ]
      | inr other ↦ later (ground arith)
    ]

mem-keys-add_edges :
    (node_ids : List String) (edges : List (String × String)) (adjacency : Dict (List String))
    (x : String)
    → ((y : String) → Elem y node_ids → Elem y (keys adjacency))
    → mem x (keys (add_edges node_ids edges adjacency)) ≡ mem x (keys adjacency)
unfolding add_edges
mem-keys-add_edges node_ids [] adjacency x h = refl
mem-keys-add_edges node_ids ((source, target) ∷ edges) adjacency x h =
    elim (Bool-cases (mem source node_ids && mem target node_ids)) [
      | inl valid ↦
          let stored = appended target (get source adjacency) in
          let same : (y : String)
              → mem y (keys (put source stored adjacency)) ≡ mem y (keys adjacency) =
            λ y. elim (text_cases source y) [
              | inl e ↦
                  mem-keys y (put source stored adjacency)
                  ∙ rw (get-put source y stored adjacency) (
                      ground (
                        arith,
                        eq_iff source y,
                        e,
                        h source (ground arith),
                        ap (λ z. mem z (keys adjacency)) e,
                      ))
              | inr other ↦
                  mem-keys y (put source stored adjacency)
                  ∙ rw (get-put source y stored adjacency, eq_false source y other)
                      (sym (mem-keys y adjacency))
            ] in
          rw valid (
            mem-keys-add_edges node_ids edges (put source stored adjacency) x
              (λ y m. same y ∙ h y m)
            ∙ same x)
      | inr broken ↦ rw broken (mem-keys-add_edges node_ids edges adjacency x h)
    ]

mem-keys-no_neighbors :
    (node_ids : List String) (x : String) → mem x (keys (no_neighbors node_ids)) ≡ mem x node_ids
unfolding mem
mem-keys-no_neighbors [] x = refl
mem-keys-no_neighbors (node ∷ node_ids) x = ground (arith, mem-keys-no_neighbors node_ids x)

-- The keys are the nodes.
pub mem-keys-adjacency_map :
    (node_ids : List String) (edges : List (String × String)) (x : String)
    → mem x (keys (adjacency_map node_ids edges)) ≡ mem x node_ids
unfolding adjacency_map
mem-keys-adjacency_map node_ids edges x =
    mem-keys-add_edges node_ids edges (no_neighbors node_ids) x
      (λ y m. mem-keys-no_neighbors node_ids y ∙ m)
    ∙ mem-keys-no_neighbors node_ids x

-- The neighbors of a node are nodes.
pub adjacency_map-AreKnown :
    (node_ids : List String) (edges : List (String × String))
    → AreKnown (neighbors_at (adjacency_map node_ids edges)) (keys (adjacency_map node_ids edges))
adjacency_map-AreKnown node_ids edges x m =
    elim (Option-cases (get x (adjacency_map node_ids edges))) [
      | inl absent ↦ absurd (ground (arith, mem-keys x (adjacency_map node_ids edges)))
      | inr (targets, found) ↦ (
        targets,
        rw found refl,
        λ y k.
            mem-keys-adjacency_map node_ids edges y
            ∙ valid_targets-Elem node_ids edges x y
                (sym (adjacency_map-points node_ids edges x y) ∙ rw found k),
      )
    ]
