-- ===== src/Common/Sets.antt =====
-- Python sets of names, and `in` on lists of names. A set is a list that nothing reads but
-- through `mem`; `add` puts a name in front.
use Prim.Native.Nat.{ℕ, ◌+◌, ◌≤◌, ◌<◌}
use Prim.Native.String.{String}
use mathlib.Core.Path.{◌≡◌, refl, ap, ◌∙◌}
use mathlib.Core.Logic.{◌⊎◌, inl, inr}
use mathlib.Core.Bool.{Bool, true, false, ◌&&◌, ◌||◌}
use mathlib.Core.List.{List, [], ◌∷◌, ◌++◌}
use native.Mathlib.Omega.{arith}
use text.Mathlib.Text.{◌==◌}
use text.Mathlib.TextEquality.{eq_iff}
use mystery_starter_kit.Common.Tests.{Bool-cases, if◌then◌else◌}
use mystery_starter_kit.Common.Lists.{all, keep, length}

unfoldable pub mem : String → List String → Bool
mem x [] = false
mem x (y ∷ ys) = (x == y) || mem x ys

-- `set(xs) <= set(ys)`
abbrev pub subset : List String → List String → Bool
subset xs ys = all (λ x. mem x ys) xs

abbrev pub Elem : String → List String → Type 0
Elem x xs = mem x xs ≡ true

pub mem-append : (x : String) (xs ys : List String) → mem x (xs ++ ys) ≡ (mem x xs || mem x ys)
unfolding mem
mem-append x [] ys = refl
mem-append x (y ∷ xs) ys = ground (arith, mem-append x xs ys)

pub Elem-head : (x : String) (xs : List String) → Elem x (x ∷ xs)
unfolding mem
Elem-head x xs = ground (arith, eq_iff x x)

pub Elem-tail : (x y : String) (xs : List String) → Elem x xs → Elem x (y ∷ xs)
unfolding mem
Elem-tail x y xs h = ground arith

pub Elem-cons : (x y : String) (xs : List String) → Elem x (y ∷ xs) → (x ≡ y) ⊎ Elem x xs
unfolding mem
Elem-cons x y xs h = elim (Bool-cases (x == y)) [
  | inl same ↦ inl ((eq_iff x y).0 same)
  | inr other ↦ inr (ground arith)
]

pub Elem-append : (x : String) (xs ys : List String) → Elem x (xs ++ ys) → Elem x xs ⊎ Elem x ys
Elem-append x xs ys h = elim (Bool-cases (mem x xs)) [
  | inl left ↦ inl left
  | inr other ↦ inr (ground (arith, mem-append x xs ys))
]

pub Elem-append_left : (x : String) (xs ys : List String) → Elem x xs → Elem x (xs ++ ys)
Elem-append_left x xs ys h = ground (arith, mem-append x xs ys)

pub Elem-append_right : (x : String) (xs ys : List String) → Elem x ys → Elem x (xs ++ ys)
Elem-append_right x xs ys h = ground (arith, mem-append x xs ys)

pub not-Elem-nil : (x : String) → ¬ Elem x []
unfolding mem
not-Elem-nil x h = cc

-- A filtered list holds what it held and passes the test.
pub mem-keep :
    (test : String → Bool) (x : String) (xs : List String)
    → mem x (keep test xs) ≡ (mem x xs && test x)
unfolding mem
mem-keep test x [] = refl
mem-keep test x (y ∷ xs) = elim (Bool-cases (x == y)) [
  | inl same ↦ let e : x ≡ y = (eq_iff x y).0 same in ground (arith, mem-keep test x xs, ap test e)
  | inr other ↦ ground (arith, mem-keep test x xs)
]

pub subset-Elem : (xs ys : List String) → subset xs ys ≡ true → (x : String) → Elem x xs → Elem x ys
unfolding mem
subset-Elem [] ys h x m = cc
subset-Elem (y ∷ xs) ys h x m = elim (Bool-cases (x == y)) [
  | inl same ↦ ground (arith, eq_iff x y)
  | inr other ↦ subset-Elem xs ys (ground arith) x (ground arith)
]

pub Elem-subset :
    (xs ys : List String) → ((x : String) → Elem x xs → Elem x ys) → subset xs ys ≡ true
Elem-subset [] ys h = refl
Elem-subset (y ∷ xs) ys h =
    ground (arith, h y (Elem-head y xs), Elem-subset xs ys (λ x m. h x (Elem-tail x y xs m)))

pub all-Elem :
    (test : String → Bool) (x : String) (xs : List String)
    → all test xs ≡ true
    → Elem x xs
    → test x ≡ true
all-Elem test x [] h m = absurd (not-Elem-nil x m)
all-Elem test x (y ∷ xs) h m = elim (Elem-cons x y xs m) [
  | inl same ↦ ap test same ∙ ground arith
  | inr later ↦ all-Elem test x xs (ground arith) later
]

-- A test that fails on a list fails on one of its elements.
pub all-false :
    (test : String → Bool) (xs : List String)
    → all test xs ≡ false
    → (x : String) × Elem x xs × (test x ≡ false)
all-false test [] h = absurd (cc)
all-false test (y ∷ xs) h = elim (Bool-cases (test y)) [
  | inr fails ↦ (y, Elem-head y xs, fails)
  | inl passes ↦
      let (x, m, fails) = all-false test xs (ground arith) in (x, Elem-tail x y xs m, fails)
]

-- How often a name stands in a list.
unfoldable pub count : String → List String → ℕ
count x [] = 0
count x (y ∷ ys) = (if x == y then 1 else 0) + count x ys

pub count-append : (x : String) (xs ys : List String) → count x (xs ++ ys) ≡ count x xs + count x ys
unfolding count
count-append x [] ys = omega arith
count-append x (y ∷ xs) ys = omega (arith, count-append x xs ys)

pub count_pos : (x : String) (xs : List String) → Elem x xs → 0 < count x xs
unfolding count mem
count_pos x [] m = absurd (cc)
count_pos x (y ∷ xs) m = elim (Bool-cases (x == y)) [
  | inl same ↦ ground arith
  | inr other ↦ ground (arith, count_pos x xs (ground arith))
]

pub Elem-of_count : (x : String) (xs : List String) → 0 < count x xs → Elem x xs
unfolding count mem
Elem-of_count x [] h = absurd (omega arith)
Elem-of_count x (y ∷ xs) h = elim (Bool-cases (x == y)) [
  | inl same ↦ ground arith
  | inr other ↦ ground (arith, Elem-of_count x xs (ground arith))
]

pub count-keep-le :
    (test : String → Bool) (x : String) (xs : List String) → count x (keep test xs) ≤ count x xs
unfolding count
count-keep-le test x [] = omega arith
count-keep-le test x (y ∷ xs) = ground (arith, count-keep-le test x xs)

pub count_zero : (x : String) (xs : List String) → mem x xs ≡ false → count x xs ≡ 0
unfolding count mem
count_zero x [] h = refl
count_zero x (y ∷ xs) h = ground (arith, count_zero x xs (ground arith))

pub length_pos : (x : String) (xs : List String) → 0 < count x xs → 0 < length xs
unfolding count
length_pos x [] h = omega arith
length_pos x (y ∷ xs) h = omega arith

pub kept_in :
    (test : String → Bool) (x : String) (xs : List String) → Elem x (keep test xs) → Elem x xs
kept_in test x xs m = ground (arith, mem-keep test x xs)
