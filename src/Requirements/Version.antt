-- ===== src/Requirements/Version.antt =====
-- `parse_semantic_version` of VALIDATORS/compatibility.py: the pattern
-- (0|[1-9][0-9]*)\.(0|[1-9][0-9]*)\.(0|[1-9][0-9]*), matched over code points, and the order of
-- the resulting triples.
use Prim.Native.Char.{code}
use mystery_starter_kit.Common.{
  ℕ, ◌+◌, ◌-◌, ◌*◌, String, Bool, ◌&&◌, Option, none, some, List, [], ◌∷◌, ◌≡◌, refl, ltb, leb, eqb,
  if◌then◌else◌,
}
use mystery_starter_kit.Failure.{Result, ok, err, invalid_semantic_version_error}

pub record Version : Type 0 where
  pub major : ℕ
  pub minor : ℕ
  pub patch : ℕ

abbrev codes : String → List ℕ
codes String.[] = []
codes (String.◌∷◌ c s) = code c ∷ codes s

abbrev is_digit : ℕ → Bool
is_digit c = leb b'0' c && leb c b'9'

-- `[0-9]*` behind a first digit, as a number with what is left of the text.
digits : ℕ → List ℕ → ℕ × List ℕ
digits n [] = (n, [])
digits n (c ∷ cs) =
    let more = digits (n * 10 + (c - b'0')) cs in if is_digit c then more else (n, c ∷ cs)

-- `0|[1-9][0-9]*`
component : List ℕ → Option (ℕ × List ℕ)
component [] = none
component (c ∷ cs) =
    if eqb c b'0' then some (0, cs) else if is_digit c then some (digits (c - b'0') cs) else none

-- A `.`, then a component.
dotted : List ℕ → Option (ℕ × List ℕ)
dotted [] = none
dotted (c ∷ cs) = if eqb c b'.' then component cs else none

abbrev all_read : ℕ → ℕ → ℕ → List ℕ → Result Version
all_read major minor patch [] = ok (record { major = major; minor = minor; patch = patch })
all_read major minor patch (c ∷ cs) = err invalid_semantic_version_error

unfoldable pub parse_semantic_version : String → Result Version
unfolding digits component dotted
parse_semantic_version value = elim (component (codes value)) [
  | none ↦ err invalid_semantic_version_error
  | some (major, rest) ↦ elim (dotted rest) [
    | none ↦ err invalid_semantic_version_error
    | some (minor, rest') ↦ elim (dotted rest') [
      | none ↦ err invalid_semantic_version_error
      | some (patch, rest'') ↦ all_read major minor patch rest''
    ]
  ]
]

-- `actual >= bound` on tuples.
unfoldable pub at_least : Version → Version → Bool
at_least actual bound =
    if eqb actual.major bound.major
    then (if eqb actual.minor bound.minor
        then leb bound.patch actual.patch
        else ltb bound.minor actual.minor)
    else ltb bound.major actual.major

parse_two : parse_semantic_version "2.10.0" ≡ ok (record { major = 2; minor = 10; patch = 0 })
unfolding parse_semantic_version
parse_two = refl

parse_leading_zero : parse_semantic_version "2.01.0" ≡ err invalid_semantic_version_error
unfolding parse_semantic_version
parse_leading_zero = refl
