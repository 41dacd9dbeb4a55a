-- ===== src/Continuity/Float.antt =====
-- The numbers of VALIDATORS/continuity.py, which are Python's floats: binary64 of IEEE 754. A finite one is an
-- integer in units of 2 ^ -1074; NaN, which is no number of JSON, is left out.
use Prim.Native.Nat.{◌/◌, ◌%◌, ◌^◌}
use mystery_starter_kit.Common.{
  ℕ, zero, suc, Bool, true, false, ◌+◌, ◌*◌, ◌&&◌, ◌||◌, eqb, ltb, leb, ◌≡◌, refl, arith,
  Bool-cases, inl, inr, if◌then◌else◌,
}
use mystery_starter_kit.Failure.{Result, ok, err, overflow_error}
use mystery_starter_kit.Json.{Integer, at, below}

pub data Float : Type 0 where
  minus_infinity infinity : Float
  finite : Integer → Float

unfoldable pub integer_lt : Integer → Integer → Bool
integer_lt (at m) (at n) = ltb m n
integer_lt (at m) (below n) = false
integer_lt (below m) (at n) = true
integer_lt (below m) (below n) = ltb n m

-- `a < b`
unfoldable pub float_lt : Float → Float → Bool
unfolding integer_lt
float_lt minus_infinity minus_infinity = false
float_lt minus_infinity infinity = true
float_lt minus_infinity (finite b) = true
float_lt infinity b = false
float_lt (finite a) minus_infinity = false
float_lt (finite a) infinity = true
float_lt (finite a) (finite b) = integer_lt a b

-- How many binary digits a number has above 53. No number below 2 ^ 1024 has more than 971.
unfoldable pub digits_above : ℕ → ℕ → ℕ
digits_above zero n = 0
digits_above (suc fuel) n = elim (ltb n (2 ^ 53)) [
  | true ↦ 0
  | false ↦ suc (digits_above fuel (n / 2))
]

-- The multiple of a unit that is next to a number; of two that are as near, the even multiple.
unfoldable pub round_half_even : ℕ → ℕ → ℕ
round_half_even unit n =
    let quotient = n / unit in
    let twice = 2 * (n % unit) in
    if ltb unit twice || (eqb unit twice && eqb (quotient % 2) 1)
    then (quotient + 1) * unit
    else quotient * unit

unfoldable pub rounded : ℕ → ℕ
unfolding digits_above round_half_even
rounded n = round_half_even (2 ^ digits_above 971 n) n

abbrev pub negated : ℕ → Integer
negated zero = at 0
negated (suc n) = below n

unfoldable pub scaled : ℕ → ℕ
scaled n = n * 2 ^ 1074

-- `float(value)` of an integer: rounded to 53 binary digits, or an `OverflowError`.
unfoldable pub float_of : Integer → Result Float
unfolding rounded scaled
float_of (at n) =
    if leb (2 ^ 1024) (rounded n) then err overflow_error else ok (finite (at (scaled (rounded n))))
float_of (below n) =
    if leb (2 ^ 1024) (rounded (n + 1))
    then err overflow_error
    else ok (finite (negated (scaled (rounded (n + 1)))))

-- `a <= b`
abbrev pub IsAtMost : Float → Float → Type 0
IsAtMost a b = float_lt b a ≡ false

integer_trans :
    (a b c : Integer) → integer_lt b a ≡ false → integer_lt c b ≡ false → integer_lt c a ≡ false
unfolding integer_lt
integer_trans (at a) (at b) (at c) h k = ground arith
integer_trans (at a) (at b) (below c) h k = cc
integer_trans (at a) (below b) c h k = cc
integer_trans (below a) (at b) (at c) h k = refl
integer_trans (below a) (at b) (below c) h k = cc
integer_trans (below a) (below b) (at c) h k = refl
integer_trans (below a) (below b) (below c) h k = ground arith

integer_asym : (a b : Integer) → integer_lt a b ≡ true → integer_lt b a ≡ false
unfolding integer_lt
integer_asym (at a) (at b) h = ground arith
integer_asym (at a) (below b) h = cc
integer_asym (below a) (at b) h = refl
integer_asym (below a) (below b) h = ground arith

integer_irrefl : (a : Integer) → integer_lt a a ≡ false
unfolding integer_lt
integer_irrefl (at a) = ground arith
integer_irrefl (below a) = ground arith

pub float_trans : (a b c : Float) → IsAtMost a b → IsAtMost b c → IsAtMost a c
unfolding float_lt
float_trans minus_infinity b minus_infinity h k = refl
float_trans minus_infinity b infinity h k = refl
float_trans minus_infinity b (finite c) h k = refl
float_trans infinity minus_infinity c h k = absurd (cc)
float_trans infinity infinity c h k = k
float_trans infinity (finite b) c h k = absurd (cc)
float_trans (finite a) minus_infinity c h k = absurd (cc)
float_trans (finite a) infinity minus_infinity h k = absurd (cc)
float_trans (finite a) infinity infinity h k = refl
float_trans (finite a) infinity (finite c) h k = absurd (cc)
float_trans (finite a) (finite b) minus_infinity h k = absurd (cc)
float_trans (finite a) (finite b) infinity h k = refl
float_trans (finite a) (finite b) (finite c) h k = integer_trans a b c h k

pub float_asym : (a b : Float) → float_lt a b ≡ true → IsAtMost a b
unfolding float_lt
float_asym minus_infinity minus_infinity h = refl
float_asym minus_infinity infinity h = refl
float_asym minus_infinity (finite b) h = refl
float_asym infinity b h = absurd (cc)
float_asym (finite a) minus_infinity h = absurd (cc)
float_asym (finite a) infinity h = refl
float_asym (finite a) (finite b) h = integer_asym a b h

pub float_irrefl : (a : Float) → IsAtMost a a
unfolding float_lt
float_irrefl minus_infinity = refl
float_irrefl infinity = refl
float_irrefl (finite a) = integer_irrefl a

-- What is not after a number that is before another is before the other too.
pub lt_of_le-lt : (a b c : Float) → IsAtMost a b → float_lt b c ≡ true → float_lt a c ≡ true
lt_of_le-lt a b c h k = elim (Bool-cases (float_lt a c)) [
  | inl less ↦ less
  | inr other ↦ absurd (ground (arith, float_trans c a b other h, k))
]
