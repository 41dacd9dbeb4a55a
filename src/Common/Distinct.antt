-- ===== src/Common/Distinct.antt =====
-- Lists of names without repetition, and how long they can be.
use Prim.Native.Nat.{suc, ◌≤◌}
use Prim.Native.String.{String}
use mathlib.Core.Path.{◌≡◌}
use mathlib.Core.Logic.{inl, inr}
use mathlib.Core.Bool.{false}
use mathlib.Core.List.{List, [], ◌∷◌}
use native.Mathlib.Omega.{arith}
use text.Mathlib.Text.{◌==◌}
use text.Mathlib.TextEquality.{eq_iff}
use mystery_starter_kit.Common.Tests.{Bool-cases, if◌then◌else◌}
use mystery_starter_kit.Common.Lists.{length}
use mystery_starter_kit.Common.Sets.{mem, Elem, Elem-head, Elem-tail, Elem-cons, not-Elem-nil}

abbrev pub IsDistinct : List String → Type 0
IsDistinct [] = Unit
IsDistinct (x ∷ xs) = (mem x xs ≡ false) × IsDistinct xs

-- A list less the first place of a name.
unfoldable without : String → List String → List String
without x [] = []
without x (y ∷ ys) = let rest = without x ys in if x == y then ys else y ∷ rest

length-without :
    (x : String) (ys : List String) → Elem x ys → suc (length (without x ys)) ≡ length ys
unfolding without mem
length-without x [] m = absurd (not-Elem-nil x m)
length-without x (y ∷ ys) m = elim (Bool-cases (x == y)) [
  | inl same ↦ ground arith
  | inr other ↦ ground (arith, length-without x ys (ground arith))
]

Elem-without :
    (x z : String) (ys : List String) → (x == z) ≡ false → Elem z ys → Elem z (without x ys)
unfolding without mem
Elem-without x z [] differs m = m
Elem-without x z (y ∷ ys) differs m = elim (Bool-cases (x == y)) [
  | inl same ↦ ground (arith, eq_iff x y, eq_iff z y, eq_iff x z)
  | inr other ↦ ground (arith, Elem-without x z ys differs, Bool-cases (z == y))
]

pub length-le_of_subset :
    (xs ys : List String)
    → IsDistinct xs
    → ((x : String) → Elem x xs → Elem x ys)
    → length xs ≤ length ys
length-le_of_subset [] ys d h = omega arith
length-le_of_subset (x ∷ xs) ys d h = omega (
  arith,
  length-without x ys (h x (Elem-head x xs)),
  length-le_of_subset xs (without x ys) (d.1) (λ z m. elim (Bool-cases (x == z)) [
    | inl same ↦ absurd (ground (arith, eq_iff x z, d.0))
    | inr other ↦ Elem-without x z ys other (h z (Elem-tail z x xs m))
  ]),
)

-- A list without repetition that lies in a list no longer than it holds all of that list.
pub Elem-back :
    (xs ys : List String)
    → IsDistinct xs
    → ((x : String) → Elem x xs → Elem x ys)
    → length ys ≤ length xs
    → (y : String) → Elem y ys
    → Elem y xs
Elem-back xs ys d h short y m = elim (Bool-cases (mem y xs)) [
  | inl inside ↦ inside
  | inr outside ↦ absurd (
      let long =
        length-le_of_subset (y ∷ xs) ys (outside, d)
          (λ z k. elim (Elem-cons z y xs k) [
            | inl same ↦ ground (arith, m, same)
            | inr later ↦ h z later
          ]) in
      omega arith)
]
