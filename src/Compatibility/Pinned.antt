-- ===== src/Compatibility/Pinned.antt =====
-- What `evaluate_channel_binding` of VALIDATORS/compatibility.py decides.
use mystery_starter_kit.Common.{
  append-nil_iff, String, true, Bool-cases, ◌≡◌, refl, sym, ap, subst, ◌∙◌, ◌↔◌, eq_iff, Option,
  none, some, [], ◌++◌, inl, inr, arith,
}
use mystery_starter_kit.Failure.{Result, ok, err, ok_injective, Result-cases}
use mystery_starter_kit.Json.{
  Value, Items, Fields, text, object, array, integer, negative, boolean, null, nil, cons, lookup,
}
use mystery_starter_kit.Requirements.Version.{Version, parse_semantic_version}
use mystery_starter_kit.Compatibility.Report.{
  CompatibilityResult, CompatibilityReport, optional_string,
}
use mystery_starter_kit.Compatibility.Binding.{
  append_errors, version_eq, versions_match, candidate_matches, both_eq, entry_in, first_entry,
  manifest_version_entry, entry_errors, pin_errors, hash_is, hash_errors, evaluate_channel_binding,
}
use mystery_starter_kit.Compatibility.Errors.{verdict_iff}

-- Two texts that name the same version.
abbrev pub SameVersion : String → String → Type 0
SameVersion a b =
    (version : Version) × (parse_semantic_version a ≡ ok version)
    × (parse_semantic_version b ≡ ok version)

version_eq_iff : (a b : Version) → version_eq a b ≡ true → a ≡ b
version_eq_iff a b h = ground arith

both_eq_lem :
    (r s : Result Version)
    → both_eq r s ≡ true
    → (version : Version) × (r ≡ ok version) × (s ≡ ok version)
both_eq_lem (ok a) (ok b) h = (a, refl, ap ok (sym (version_eq_iff a b h)))
both_eq_lem (ok a) (err e) h = absurd (cc)
both_eq_lem (err e) s h = absurd (cc)

version_eq_refl : (a : Version) → version_eq a a ≡ true
version_eq_refl a = ground arith

versions_match_iff : (a b : String) → (versions_match a b ≡ true) ↔ SameVersion a b
unfolding versions_match
versions_match_iff a b = (
  both_eq_lem (parse_semantic_version a) (parse_semantic_version b),
  λ (version, first, second). rw (first, second, version_eq_refl version) refl,
)

-- An entry that is registered for the version that a text names.
abbrev pub Names : String → Fields → Type 0
Names pinned entry =
    (candidate : String) × (lookup "content_version" entry ≡ some (text candidate))
    × SameVersion candidate pinned

-- The first entry of that kind in a list.
pub data FirstEntry (pinned : String) : Items → Fields → Type 0 where
  here :
      {entry : Fields} {items : Items}
      → Names pinned entry
      → FirstEntry pinned (cons (object entry) items) entry
  there :
      {value : Value} {items : Items} {entry : Fields}
      → ((other : Fields) → value ≡ object other → ¬ Names pinned other)
      → FirstEntry pinned items entry
      → FirstEntry pinned (cons value items) entry

module _ (pinned : String) (requested : Version)
    (read : parse_semantic_version pinned ≡ ok requested) where
  candidate_lem :
      (value : Option Value)
      → candidate_matches value requested ≡ true
      → (candidate : String) × (value ≡ some (text candidate)) × SameVersion candidate pinned
  candidate_lem (some (text candidate)) h =
      let (version, first, second) =
        both_eq_lem (parse_semantic_version candidate) (ok requested) h in
      (candidate, refl, (version, first, read ∙ second))
  candidate_lem (some (object fields)) h = absurd (cc)
  candidate_lem (some (array items)) h = absurd (cc)
  candidate_lem (some (integer n)) h = absurd (cc)
  candidate_lem (some (negative n)) h = absurd (cc)
  candidate_lem (some (boolean b)) h = absurd (cc)
  candidate_lem (some null) h = absurd (cc)
  candidate_lem none h = absurd (cc)

  Names-candidate_matches :
      (entry : Fields)
      → Names pinned entry
      → candidate_matches (lookup "content_version" entry) requested ≡ true
  Names-candidate_matches entry (candidate, stands, (version, first, second)) =
      let same : version ≡ requested = ok_injective (sym second ∙ read) in
      rw (stands, first, same, version_eq_refl requested) refl

  first_entry-FirstEntry :
      (items : Items) (entry : Fields)
      → first_entry requested items ≡ some entry
      → FirstEntry pinned items entry
  unfolding first_entry
  first_entry-FirstEntry nil entry h = absurd (cc)
  first_entry-FirstEntry (cons (object other) items) entry h =
      elim (Bool-cases (candidate_matches (lookup "content_version" other) requested)) [
        | inl matches ↦
            subst (FirstEntry pinned (cons (object other) items)) (ground (arith, h, matches))
              (here (candidate_lem (lookup "content_version" other) matches))
        | inr differs ↦
            there
              (λ fields same names.
                ground (arith, Names-candidate_matches fields names, same, differs))
              (first_entry-FirstEntry items entry (ground (arith, h, differs)))
      ]
  first_entry-FirstEntry (cons (array x) items) entry h =
      there (λ fields same. cc) (first_entry-FirstEntry items entry h)
  first_entry-FirstEntry (cons (text x) items) entry h =
      there (λ fields same. cc) (first_entry-FirstEntry items entry h)
  first_entry-FirstEntry (cons (integer x) items) entry h =
      there (λ fields same. cc) (first_entry-FirstEntry items entry h)
  first_entry-FirstEntry (cons (negative x) items) entry h =
      there (λ fields same. cc) (first_entry-FirstEntry items entry h)
  first_entry-FirstEntry (cons (boolean x) items) entry h =
      there (λ fields same. cc) (first_entry-FirstEntry items entry h)
  first_entry-FirstEntry (cons null items) entry h =
      there (λ fields same. cc) (first_entry-FirstEntry items entry h)

  FirstEntry-first_entry :
      {items : Items} {entry : Fields}
      → FirstEntry pinned items entry
      → first_entry requested items ≡ some entry
  unfolding first_entry
  FirstEntry-first_entry (here {entry = entry} names) =
      rw (Names-candidate_matches entry names) refl
  FirstEntry-first_entry (there {value = object other} others later) =
      elim (Bool-cases (candidate_matches (lookup "content_version" other) requested)) [
        | inl matches ↦
            absurd (others other refl (candidate_lem (lookup "content_version" other) matches))
        | inr differs ↦ rw differs (FirstEntry-first_entry later)
      ]
  FirstEntry-first_entry (there {value = array x} others later) = FirstEntry-first_entry later
  FirstEntry-first_entry (there {value = text x} others later) = FirstEntry-first_entry later
  FirstEntry-first_entry (there {value = integer x} others later) = FirstEntry-first_entry later
  FirstEntry-first_entry (there {value = negative x} others later) = FirstEntry-first_entry later
  FirstEntry-first_entry (there {value = boolean x} others later) = FirstEntry-first_entry later
  FirstEntry-first_entry (there {value = null} others later) = FirstEntry-first_entry later

-- The pinned entry of a manifest: the first one for the version that the project pins.
abbrev pub IsPinnedEntry : Fields → String → Fields → Type 0
IsPinnedEntry manifest pinned entry =
    (items : Items) × (lookup "available_versions" manifest ≡ some (array items))
    × FirstEntry pinned items entry

entry_in_lem :
    (requested : Version) (value : Option Value) (entry : Fields)
    → entry_in requested value ≡ some entry
    → (items : Items) × (value ≡ some (array items)) × (first_entry requested items ≡ some entry)
entry_in_lem requested (some (array items)) entry h = (items, refl, h)
entry_in_lem requested (some (object fields)) entry h = absurd (cc)
entry_in_lem requested (some (text x)) entry h = absurd (cc)
entry_in_lem requested (some (integer n)) entry h = absurd (cc)
entry_in_lem requested (some (negative n)) entry h = absurd (cc)
entry_in_lem requested (some (boolean b)) entry h = absurd (cc)
entry_in_lem requested (some null) entry h = absurd (cc)
entry_in_lem requested none entry h = absurd (cc)

manifest_version_entry_iff :
    (manifest : Fields) (pinned : String) (entry : Fields)
    → (manifest_version_entry manifest pinned ≡ some entry) ↔ (
        ((version : Version) × (parse_semantic_version pinned ≡ ok version))
        × IsPinnedEntry manifest pinned entry)
unfolding manifest_version_entry
manifest_version_entry_iff manifest pinned entry = (
  λ h. elim (Result-cases (parse_semantic_version pinned)) [
    | inl (version, read) ↦
        let (items, listed, first) =
          entry_in_lem version (lookup "available_versions" manifest) entry
            (ground (arith, h, read)) in
        (
          (version, read),
          (items, listed, first_entry-FirstEntry pinned version read items entry first),
        )
    | inr (failure, refused) ↦ absurd (ground (arith, h, refused))
  ],
  λ ((version, read), (items, listed, first)).
      rw (read, listed, FirstEntry-first_entry pinned version read first) refl,
)

-- The project pins a version that the DNA has, and the manifest's entry for it has the hash of the DNA.
abbrev pub IsBound : Fields → String → String → String → Type 0
IsBound manifest pinned actual hash =
    SameVersion pinned actual
    × ((entry : Fields) × IsPinnedEntry manifest pinned entry
        × (lookup "channel_dna_sha256" entry ≡ some (text hash)))

hash_is_iff :
    (value : Option Value) (hash : String)
    → (hash_is value hash ≡ true) ↔ (value ≡ some (text hash))
hash_is_iff (some (text x)) hash =
    (λ h. rw ((eq_iff x hash).0 h) refl, λ h. ground (arith, eq_iff x hash))
hash_is_iff (some (object x)) hash = (λ h. absurd (cc), λ h. absurd (cc))
hash_is_iff (some (array x)) hash = (λ h. absurd (cc), λ h. absurd (cc))
hash_is_iff (some (integer x)) hash = (λ h. absurd (cc), λ h. absurd (cc))
hash_is_iff (some (negative x)) hash = (λ h. absurd (cc), λ h. absurd (cc))
hash_is_iff (some (boolean x)) hash = (λ h. absurd (cc), λ h. absurd (cc))
hash_is_iff (some null) hash = (λ h. absurd (cc), λ h. absurd (cc))
hash_is_iff none hash = (λ h. absurd (cc), λ h. absurd (cc))

pin_errors_iff :
    (pinned actual : String) → (pin_errors pinned actual ≡ []) ↔ SameVersion pinned actual
unfolding pin_errors
pin_errors_iff pinned actual =
    let (ahead, back) = versions_match_iff pinned actual in
    (λ e. ahead (ground arith), λ same. ground (arith, back same))

some_injective : {A : Type 0} {a b : A} → some a ≡ some b → a ≡ b
some_injective h = cc

-- The errors on the entry, and on its hash.
entry_found :
    (config : Fields) (pinned hash : String) (found : Option Fields)
    → ((entry_errors config pinned found ≡ []) × (hash_errors pinned hash found ≡ [])) ↔ (
        (entry : Fields) × (found ≡ some entry)
        × (lookup "channel_dna_sha256" entry ≡ some (text hash)))
unfolding entry_errors hash_errors
entry_found config pinned hash none = (λ (e, e'). absurd (cc), λ (entry, e, e'). absurd (cc))
entry_found config pinned hash (some entry) =
    let (ahead, back) = hash_is_iff (lookup "channel_dna_sha256" entry) hash in
    (
      λ (e, e'). (entry, refl, ahead (ground arith)),
      λ (other, e, e'). (
        refl,
        ground (
          arith,
          back (
              subst (λ o. lookup "channel_dna_sha256" o ≡ some (text hash)) (sym (some_injective e))
                e'),
        ),
      ),
    )

module _ (channel_dna_sha256 : Fields → String) where
  -- The report that evaluate_channel_binding returns says PASS exactly when the report before it has no errors,
  -- the version that the project pins is the one of the DNA, and the first entry of the manifest for that version
  -- has the hash of the DNA.
  pub evaluate_channel_binding_iff :
      (report : CompatibilityReport) (production_config manifest channel : Fields)
      → ((evaluate_channel_binding channel_dna_sha256 report production_config manifest
            channel).compatibility
          ≡ CompatibilityResult.pass)
        ↔ ((report.errors ≡ [])
            × IsBound manifest
                (optional_string production_config "channel_content_version")
                (optional_string channel "content_version")
                (channel_dna_sha256 channel))
  unfolding evaluate_channel_binding append_errors
  evaluate_channel_binding_iff report production_config manifest channel =
      let pinned = optional_string production_config "channel_content_version" in
      let actual = optional_string channel "content_version" in
      let hash = channel_dna_sha256 channel in
      let found = manifest_version_entry manifest pinned in
      let first = entry_errors production_config pinned found in
      let second = pin_errors pinned actual in
      let third = hash_errors pinned hash found in
      let (passes, passes') = verdict_iff (report.errors ++ (first ++ (second ++ third))) in
      let (outer, outer') = append-nil_iff (report.errors) (first ++ (second ++ third)) in
      let (middle, middle') = append-nil_iff first (second ++ third) in
      let (inner, inner') = append-nil_iff second third in
      let (entry, entry') = entry_found production_config pinned hash found in
      (
        λ h.
            let (clear, rest) = outer (passes h) in
            let (e, rest') = middle rest in
            let (p, s) = inner rest' in
            let (own, stands, hashed) = entry (e, s) in
            (
              clear,
              (
                (pin_errors_iff pinned actual).0 p,
                (own, ((manifest_version_entry_iff manifest pinned own).0 stands).1, hashed),
              ),
            ),
        λ (clear, ((version, pins, has), (own, listed, hashed))).
            let stands =
              (manifest_version_entry_iff manifest pinned own).1 ((version, pins), listed) in
            let (e, s) = entry' (own, stands, hashed) in
            passes' (
              outer' (
                clear,
                middle' (e, inner' ((pin_errors_iff pinned actual).1 (version, pins, has), s)),
              )),
      )
