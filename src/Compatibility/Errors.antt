-- ===== src/Compatibility/Errors.antt =====
-- When the lists of errors of VALIDATORS/compatibility.py are empty.
use mystery_starter_kit.Common.{
  String, Bool, true, ◌||◌, Bool-cases, Option-cases, ◌≡◌, refl, sym, ap, ◌↔◌, ◌⊎◌, inl, inr, ◌==◌,
  eq_iff, List, [], ◌∷◌, ◌++◌, ◌∙◌, mem, Elem, mem-keys, get-put, not-Elem-nil, all, all-Elem,
  all-false, All, Dict, put, keys, arith,
}
use mystery_starter_kit.Json.{Fields, lookup}
use mystery_starter_kit.Compatibility.Report.{
  CompatibilityResult, CompatibilityCode, RequiredCapabilityStatus, CompatibilityError,
}
use mystery_starter_kit.Compatibility.Negotiation.{
  has, status_of, capability_error, required_statuses, missing_errors,
  evaluate_required_capabilities, Negotiated, settled, negotiate, family_errors, verdict,
}

module _ (capabilities : Fields) where
  -- Each status is that of its capability.
  abbrev AreStatuses : Dict RequiredCapabilityStatus → Type 0
  AreStatuses statuses = All (λ entry. entry.1 ≡ status_of capabilities (entry.0)) statuses

  put-AreStatuses :
      (c : String) (d : Dict RequiredCapabilityStatus)
      → AreStatuses d
      → AreStatuses (put c (status_of capabilities c) d)
  unfolding put
  put-AreStatuses c [] h = (refl, tt)
  put-AreStatuses c ((j, s) ∷ d) (h, hs) = elim (Bool-cases (j == c)) [
    | inl same ↦ rw same (sym (ap (status_of capabilities) ((eq_iff j c).0 same)), hs)
    | inr other ↦ rw other (h, put-AreStatuses c d hs)
  ]

  required_statuses-AreStatuses :
      (required : List String) (d : Dict RequiredCapabilityStatus)
      → AreStatuses d
      → AreStatuses (required_statuses required capabilities d)
  unfolding required_statuses
  required_statuses-AreStatuses [] d h = h
  required_statuses-AreStatuses (c ∷ required) d h =
      required_statuses-AreStatuses required (put c (status_of capabilities c) d)
        (put-AreStatuses c d h)

  mem-keys-required_statuses :
      (x : String) (required : List String) (d : Dict RequiredCapabilityStatus)
      → mem x (keys (required_statuses required capabilities d))
        ≡ (mem x required || mem x (keys d))
  unfolding required_statuses mem
  mem-keys-required_statuses x [] d = refl
  mem-keys-required_statuses x (c ∷ required) d = ground (
    arith,
    mem-keys-required_statuses x required (put c (status_of capabilities c) d),
    mem-keys x (put c (status_of capabilities c) d),
    mem-keys x d,
    get-put c x (status_of capabilities c) d,
    eq_iff c x,
    eq_iff x c,
  )

  missing_errors_iff :
      (d : Dict RequiredCapabilityStatus)
      → AreStatuses d
      → (missing_errors d ≡ []) ↔ (all (λ c. has c capabilities) (keys d) ≡ true)
  unfolding missing_errors
  missing_errors_iff [] h = (λ e. refl, λ e. refl)
  missing_errors_iff ((c, RequiredCapabilityStatus.supported) ∷ d) (h, hs) =
      let later = missing_errors_iff d hs in
      (λ e. ground (arith, later.0 e), λ e. later.1 (ground arith))
  missing_errors_iff ((c, RequiredCapabilityStatus.missing) ∷ d) (h, hs) =
      (λ e. ground arith, λ e. ground arith)

all_of_Elem :
    (test : String → Bool) (xs ys : List String)
    → ((x : String) → mem x xs ≡ mem x ys)
    → all test ys ≡ true
    → all test xs ≡ true
all_of_Elem test xs ys same h = elim (Bool-cases (all test xs)) [
  | inl holds ↦ holds
  | inr fails ↦
      let (x, m, fails') = all-false test xs fails in
      absurd (ground (arith, all-Elem test x ys h (sym (same x) ∙ m)))
]

pub required_errors_iff :
    (required : List String) (capabilities : Fields)
    → ((evaluate_required_capabilities required capabilities).1 ≡ [])
      ↔ (all (λ c. has c capabilities) required ≡ true)
unfolding evaluate_required_capabilities
required_errors_iff required capabilities =
    let statuses = required_statuses required capabilities [] in
    let (clear, back) =
      missing_errors_iff capabilities statuses
        (required_statuses-AreStatuses capabilities required [] tt) in
    let same = λ (x : String). mem-keys-required_statuses capabilities x required [] in
    (
      λ e.
          all_of_Elem (λ c. has c capabilities) required (keys statuses)
            (λ x. ground (arith, same x, not-Elem-nil x)) (clear e),
      λ e. back (
          all_of_Elem (λ c. has c capabilities) (keys statuses) required
            (λ x. ground (arith, same x, not-Elem-nil x)) e),
    )

no_end : {A : Type 0} (xs : List A) (x : A) → ¬ (xs ++ (x ∷ []) ≡ [])
no_end [] x h = cc
no_end (y ∷ xs) x h = cc

pub negotiate_errors_iff :
    (optional : List String) (capabilities defaults : Fields) (start : Negotiated)
    → ((negotiate optional capabilities defaults start).errors ≡ [])
      ↔ ((start.errors ≡ []) × (all (λ c. has c capabilities || has c defaults) optional ≡ true))
unfolding negotiate
negotiate_errors_iff [] capabilities defaults start = (λ e. (e, refl), λ e. e.0)
negotiate_errors_iff (c ∷ optional) capabilities defaults start =
    let (ahead, back) =
      negotiate_errors_iff optional capabilities defaults
        (settled c (lookup c capabilities) (lookup c defaults) start) in
    elim (Option-cases (lookup c capabilities)) [
      | inr (v, offered) ↦
          (λ e. ground (arith, ahead e, offered), λ e. back (ground (arith, offered)))
      | inl absent ↦ elim (Option-cases (lookup c defaults)) [
        | inr (v, defaulted) ↦ (
          λ e. ground (arith, ahead e, absent, defaulted),
          λ e. back (ground (arith, absent, defaulted)),
        )
        | inl nothing ↦ (
          λ e. absurd (
              no_end (start.errors) (capability_error CompatibilityCode.missing_optional_default c)
                (ground (arith, (ahead e).0, absent, nothing))),
          λ e. back (ground (arith, absent, nothing)),
        )
      ]
    ]

pub family_errors_iff :
    (expected actual : String) → (family_errors expected actual ≡ []) ↔ (actual ≡ expected)
unfolding family_errors
family_errors_iff expected actual =
    (λ e. ground (arith, eq_iff actual expected), λ e. ground (arith, eq_iff actual expected))

pub verdict_iff :
    (errors : List CompatibilityError) → (verdict errors ≡ CompatibilityResult.pass) ↔ (errors ≡ [])
verdict_iff [] = (λ e. refl, λ e. refl)
verdict_iff (x ∷ errors) = (λ e. cc, λ e. cc)

pub all_iff :
    (test : String → Bool) (xs : List String)
    → (all test xs ≡ true) ↔ ((x : String) → Elem x xs → test x ≡ true)
all_iff test xs = (
  λ h x m. all-Elem test x xs h m,
  λ h. elim (Bool-cases (all test xs)) [
    | inl holds ↦ holds
    | inr fails ↦ let (x, m, fails') = all-false test xs fails in absurd (ground (arith, h x m))
  ],
)

pub or_iff : (a b : Bool) → ((a || b) ≡ true) ↔ ((a ≡ true) ⊎ (b ≡ true))
or_iff a b = (λ h. ground arith, λ h. ground arith)
