-- ===== src/Compatibility/Resolution.antt =====
-- What `evaluate_compatibility` of VALIDATORS/compatibility.py resolves the optional capabilities to.
use mystery_starter_kit.Common.{
  String, text_cases, eq_false, ◌≡◌, refl, sym, ap, subst, ◌∙◌, ◌==◌, eq_iff, inl, inr, Option,
  none, some, List, [], ◌∷◌, mem, get, get-put, arith, if◌then◌else◌,
}
use mystery_starter_kit.Failure.{ok}
use mystery_starter_kit.Json.{Value, Fields, lookup}
use mystery_starter_kit.Compatibility.Report.{
  CapabilitySource, ResolvedCapability, CompatibilityReport, mapping_or_empty,
}
use mystery_starter_kit.Compatibility.Negotiation.{
  Negotiated, settled, negotiate, evaluate_optional_capabilities, evaluate_compatibility,
  compatibility_report,
}
use mystery_starter_kit.Compatibility.Verdict.{Terms, Reads, evaluate_compatibility_steps}

-- The channel's own value comes first, the default second.
abbrev pub resolution : Option Value → Option Value → Option ResolvedCapability
resolution (some value) _ = some (record { source = CapabilitySource.channel; value = value })
resolution none (some value) =
    some (record { source = CapabilitySource.standard_default; value = value })
resolution none none = none

first_of : {A : Type 0} → Option A → Option A → Option A
first_of (some a) _ = some a
first_of none b = b

first_of-first_of : {A : Type 0} (a b : Option A) → first_of a (first_of a b) ≡ first_of a b
unfolding first_of
first_of-first_of none b = refl
first_of-first_of (some a) b = refl

first_of-none : {A : Type 0} (a : Option A) → first_of a none ≡ a
unfolding first_of
first_of-none none = refl
first_of-none (some a) = refl

get-settled :
    (c x : String) (own fallback : Option Value) (start : Negotiated)
    → get x (settled c own fallback start).resolved ≡ (
        if c == x
        then first_of (resolution own fallback) (get x start.resolved)
        else get x start.resolved)
unfolding first_of
get-settled c x (some v) fallback start = get-put c x _ (start.resolved)
get-settled c x none (some v) start = get-put c x _ (start.resolved)
get-settled c x none none start = ground arith

module _ (capabilities defaults : Fields) where
  get-negotiate :
      (x : String) (optional : List String) (start : Negotiated)
      → get x (negotiate optional capabilities defaults start).resolved ≡ (
          if mem x optional
          then first_of
              (resolution (lookup x capabilities) (lookup x defaults))
              (get x start.resolved)
          else get x start.resolved)
  unfolding negotiate mem
  get-negotiate x [] start = refl
  get-negotiate x (c ∷ optional) start =
      let later =
        get-negotiate x optional (settled c (lookup c capabilities) (lookup c defaults) start) in
      let now = get-settled c x (lookup c capabilities) (lookup c defaults) start in
      elim (text_cases x c) [
        | inl same ↦
            let e = ap (λ y. resolution (lookup y capabilities) (lookup y defaults)) same in
            ground (
              arith,
              later,
              now,
              eq_iff x c,
              eq_iff c x,
              e,
              first_of-first_of (resolution (lookup x capabilities) (lookup x defaults))
                  (get x start.resolved),
            )
        | inr other ↦
            rw (eq_false x c other) (later ∙ rw (now, eq_false c x (λ e. other (sym e))) refl)
      ]

module _ (channel_dna_sha256 : Fields → String) where
  -- When evaluate_compatibility returns a report, each optional capability of the contract is resolved to the
  -- channel's own value, to the default if the channel has none, and to nothing if there is no default either;
  -- nothing else is resolved.
  pub evaluate_compatibility-resolution :
      (contract defaults channel : Fields) {report : CompatibilityReport}
      → evaluate_compatibility channel_dna_sha256 contract defaults channel ≡ ok report
      → (terms : Terms) × Reads contract defaults terms
        × ((c : String)
            → get c report.resolved_optional_capabilities ≡ (
                if mem c terms.optional
                then resolution
                    (lookup c (mapping_or_empty channel "capabilities"))
                    (lookup c terms.defaults)
                else none))
  unfolding compatibility_report evaluate_optional_capabilities get
  evaluate_compatibility-resolution contract defaults channel {report} h =
      let (terms, version_errors, name, version, reads, apart, evaluated, built) =
        evaluate_compatibility_steps channel_dna_sha256 contract defaults channel h in
      let capabilities = mapping_or_empty channel "capabilities" in
      (
        terms,
        reads,
        λ c.
            subst
              (λ r. get c r.resolved_optional_capabilities ≡ (
                if mem c terms.optional
                then resolution (lookup c capabilities) (lookup c terms.defaults)
                else none))
              (sym built)
              (get-negotiate capabilities terms.defaults c terms.optional
                  (record { statuses = []; resolved = []; errors = [] })
                ∙ rw (first_of-none (resolution (lookup c capabilities) (lookup c terms.defaults)))
                    refl),
      )
