-- ===== src/Compatibility/Versions.antt =====
-- The range of versions of VALIDATORS/compatibility.py, against the lexicographic order of triples.
use mystery_starter_kit.Common.{
  ◌<◌, String, true, false, Bool-cases, ◌≡◌, ◌↔◌, ◌⊎◌, inl, inr, subst, List, [], arith,
}
use mystery_starter_kit.Failure.{ok, >>=-eq-ok, Result-cases}
use mystery_starter_kit.Requirements.Version.{Version, parse_semantic_version, at_least}
use mystery_starter_kit.Compatibility.Report.{CompatibilityError}
use mystery_starter_kit.Compatibility.Negotiation.{in_range, evaluate_range, evaluate_version}

-- The order of versions: by major, then by minor, then by patch.
abbrev pub IsBefore : Version → Version → Type 0
IsBefore a b =
    (a.major < b.major)
    ⊎ ((a.major ≡ b.major) × ((a.minor < b.minor) ⊎ ((a.minor ≡ b.minor) × (a.patch < b.patch))))

pub at_least_iff : (a b : Version) → (at_least a b ≡ false) ↔ IsBefore a b
unfolding at_least
at_least_iff a b = (λ h. ground arith, λ h. ground arith)

-- The text is a version, and it lies in the half-open range from `minimum` to `maximum`.
abbrev pub IsInRange : String → String → String → Type 0
IsInRange minimum_version channel_version maximum_version =
    (minimum : Version) × (version : Version) × (maximum : Version) × (parse_semantic_version
        minimum_version
      ≡ ok minimum)
    × (parse_semantic_version channel_version ≡ ok version)
    × (parse_semantic_version maximum_version ≡ ok maximum)
    × (¬ IsBefore version minimum)
    × IsBefore version maximum

in_range_iff :
    (minimum version maximum : Version)
    → (in_range minimum version maximum ≡ true)
      ↔ ((¬ IsBefore version minimum) × IsBefore version maximum)
in_range_iff minimum version maximum =
    let (below, before) = at_least_iff version minimum in
    let (below', before') = at_least_iff version maximum in
    (
      λ h. (λ earlier. ground (arith, before earlier), below' (ground arith)),
      λ (not_earlier, later). elim (Bool-cases (at_least version minimum)) [
        | inl reached ↦ ground (arith, before' later)
        | inr short ↦ absurd (not_earlier (below short))
      ],
    )

same_version :
    (value : String) {a b : Version}
    → parse_semantic_version value ≡ ok a
    → parse_semantic_version value ≡ ok b
    → a ≡ b
same_version value h k = cc

range_errors :
    (channel_version : String) (version : Version) (minimum_version maximum_version : String)
    {errors : List CompatibilityError}
    → evaluate_range channel_version version minimum_version maximum_version ≡ ok errors
    → (minimum : Version) × (maximum : Version) × (parse_semantic_version minimum_version
        ≡ ok minimum)
      × (parse_semantic_version maximum_version ≡ ok maximum)
      × ((errors ≡ []) ↔ (in_range minimum version maximum ≡ true))
unfolding evaluate_range
range_errors channel_version version minimum_version maximum_version {errors} h =
    let (minimum, read_minimum, h') =
      >>=-eq-ok (parse_semantic_version minimum_version) (λ _. _) h in
    let (maximum, read_maximum, h'') =
      >>=-eq-ok (parse_semantic_version maximum_version) (λ _. _) h' in
    (minimum, maximum, read_minimum, read_maximum, (λ e. ground arith, λ e. ground arith))

pub evaluate_version_iff :
    (channel_version minimum_version maximum_version : String) {errors : List CompatibilityError}
    → evaluate_version channel_version minimum_version maximum_version ≡ ok errors
    → (errors ≡ []) ↔ IsInRange minimum_version channel_version maximum_version
unfolding evaluate_version
evaluate_version_iff channel_version minimum_version maximum_version {errors} h =
    elim (Result-cases (parse_semantic_version channel_version)) [
      | inr (failure, refused) ↦ (
        λ e. ground arith,
        λ (minimum, version, maximum, first, second, third, not_earlier, later). ground arith,
      )
      | inl (version, read) ↦
          let (minimum, maximum, read_minimum, read_maximum, decides) =
            range_errors channel_version version minimum_version maximum_version
              (ground (arith, h, read)) in
          let (inside, within) = in_range_iff minimum version maximum in
          (
            λ e.
                let (not_earlier, later) = inside (decides.0 e) in
                (minimum, version, maximum, read_minimum, read, read_maximum, not_earlier, later),
            λ (minimum', version', maximum', first, second, third, not_earlier, later). decides.1 (
                within (
                  subst (λ v. ¬ IsBefore v minimum) (same_version channel_version second read)
                      (subst (λ v. ¬ IsBefore version' v)
                        (same_version minimum_version first read_minimum) not_earlier),
                  subst (λ v. IsBefore v maximum) (same_version channel_version second read)
                      (subst (IsBefore version') (same_version maximum_version third read_maximum)
                        later),
                )),
          )
    ]
