-- ===== src/Runtime/Equal.antt =====
-- When two dictionaries compare equal, as RUNTIME/approvals.py compares the hashes.
use mystery_starter_kit.Common.{
  String, true, Bool-cases, Option-cases, ◌≡◌, sym, ◌∙◌, inl, inr, ◌==◌, some, [], ◌∷◌, IsDistinct,
  Elem-back, Dict, get, keys, mem-keys, length-keys, eq_iff, arith,
}
use mystery_starter_kit.Runtime.Approvals.{includes, dict_eq}

includes-get :
    (name : String) (first second : Dict String) {hash : String}
    → includes first second ≡ true
    → get name first ≡ some hash
    → IsDistinct (keys first)
    → get name second ≡ some hash
unfolding includes get
includes-get name [] second h e d = absurd (cc)
includes-get name ((key, hash) ∷ first) second {hash = wanted} h e d =
    elim (Option-cases (get key second)) [
      | inl missing ↦ absurd (ground arith)
      | inr (found, at_key) ↦ elim (Bool-cases (key == name)) [
        | inl same ↦ ground (arith, eq_iff key name, eq_iff hash found)
        | inr other ↦ includes-get name first second (ground arith) (ground arith) (d.1)
      ]
    ]

-- Dictionaries that compare equal have the same value, or none, at every key.
pub dict_eq-get :
    (first second : Dict String)
    → IsDistinct (keys first)
    → dict_eq first second ≡ true
    → (name : String) → get name first ≡ get name second
unfolding dict_eq
dict_eq-get first second d h name = elim (Option-cases (get name first)) [
  | inr (hash, e) ↦ e ∙ sym (includes-get name first second (ground arith) e d)
  | inl absent ↦ elim (Option-cases (get name second)) [
    | inl missing ↦ absent ∙ sym missing
    | inr (hash, e) ↦ absurd (
        let back =
          Elem-back (keys first) (keys second) d
            (λ k m. elim (Option-cases (get k first)) [
              | inl none_there ↦ absurd (ground (arith, mem-keys k first))
              | inr (there, at) ↦
                  ground (arith, mem-keys k second, includes-get k first second (ground arith) at d)
            ])
            (ground (arith, length-keys first, length-keys second)) name
            (ground (arith, mem-keys name second)) in
        ground (arith, mem-keys name first))
  ]
]
