-- ===== src/Dependency/Paths.antt =====
-- What the graph of artifacts means: which artifact rests on which. Both the validation of
-- VALIDATORS/dependency.py and its propagation of changes are stated against these relations.
use mystery_starter_kit.Common.{String, ◌≡◌, Bool, true, false, none, some, List, Dict, get, mem}
use mystery_starter_kit.Failure.{Result, ok, err}

abbrev pub read_holds : Result (List String) → String → Bool
read_holds (ok deps) b = mem b deps
read_holds (err e) b = false

-- `a` names `b` among its dependencies, where `names` reads the dependencies of an artifact.
abbrev pub points : (String → Result (List String)) → String → String → Bool
points names a b = read_holds (names a) b

-- `a` rests on `b`: it names `b`, or it names an artifact that rests on `b`.
pub data RestsOn (names : String → Result (List String)) (b : String) : String → Type 0 where
  direct : {a : String} → points names a b ≡ true → RestsOn names b a
  through : {a c : String} → points names a c ≡ true → RestsOn names b c → RestsOn names b a

-- No artifact rests on itself.
abbrev pub IsAcyclic : (String → Result (List String)) → Type 0
IsAcyclic names = (a : String) → ¬ RestsOn names a a

-- `a` stands among the dependents that the reversed graph lists for `b`.
abbrev pub listed : Dict (List String) → String → String → Bool
listed reversed b a = elim (get b reversed) [ none ↦ false | some names ↦ mem a names ]
