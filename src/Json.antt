-- ===== src/Json.antt =====
-- JSON documents as `json.load` builds them: Python objects, lists, texts, Booleans, `None` and
-- integers. Fractional numbers are left out, since no code that reads these documents computes with one;
-- Continuity/Document has the documents with floats. An object is a dictionary, so its keys are taken to be
-- distinct.
use mystery_starter_kit.Common.{
  ℕ, suc, String, Bool, true, false, ◌&&◌, ◌==◌, eqb, Option, none, some, List, [], ◌∷◌, Dict,
  if◌then◌else◌,
}

mutual
  pub data Value : Type 0 where
    object : Fields → Value
    array : Items → Value
    text : String → Value
    -- `negative n` is -(n + 1)
    integer negative : ℕ → Value
    boolean : Bool → Value
    null : Value

  pub data Items : Type 0 where
    nil : Items
    cons : Value → Items → Items

  pub data Fields : Type 0 where
    end : Fields
    field : String → Value → Fields → Fields

-- `document.get(key)`
unfoldable pub lookup : String → Fields → Option Value
lookup k end = none
lookup k (field j v fs) = if j == k then some v else lookup k fs

unfoldable pub size : Fields → ℕ
size end = 0
size (field k v fs) = suc (size fs)

-- `True == 1` and `False == 0` in Python.
abbrev bool_eq_int : Bool → ℕ → Bool
bool_eq_int true n = eqb n 1
bool_eq_int false n = eqb n 0

abbrev bool_eq : Bool → Bool → Bool
bool_eq true b = b
bool_eq false true = false
bool_eq false false = true

-- Python's `==` on such values: lists item by item, dictionaries by content.
unfoldable mutual
  unfolding lookup size

  pub py_eq : Value → Value → Bool
  py_eq null null = true
  py_eq (boolean a) (boolean b) = bool_eq a b
  py_eq (boolean a) (integer n) = bool_eq_int a n
  py_eq (integer n) (boolean b) = bool_eq_int b n
  py_eq (integer m) (integer n) = eqb m n
  py_eq (negative m) (negative n) = eqb m n
  py_eq (text s) (text t) = s == t
  py_eq (array xs) (array ys) = items_eq xs ys
  py_eq (object fs) (object gs) = eqb (size fs) (size gs) && fields_in fs gs
  py_eq _ _ = false

  pub items_eq : Items → Items → Bool
  items_eq nil nil = true
  items_eq (cons x xs) (cons y ys) = py_eq x y && items_eq xs ys
  items_eq _ _ = false

  pub fields_in : Fields → Fields → Bool
  fields_in end gs = true
  fields_in (field k v fs) gs = elim (lookup k gs) [
    | none ↦ false
    | some w ↦ py_eq v w && fields_in fs gs
  ]

-- `document.get(key) == value` where a missing key gives `None`.
abbrev pub get_or_none : String → Fields → Value
get_or_none k fs = elim (lookup k fs) [ none ↦ null | some v ↦ v ]

-- `isinstance(value, str)` and the text.
abbrev pub as_text : Value → Option String
as_text (text s) = some s
as_text _ = none

-- `isinstance(value, Mapping)` and the object.
abbrev pub as_object : Value → Option Fields
as_object (object fs) = some fs
as_object _ = none

-- `isinstance(value, list) and all(isinstance(item, str) for item in value)`, and the texts.
unfoldable pub texts_of : Items → Option (List String)
texts_of nil = some []
texts_of (cons (text s) xs) = elim (texts_of xs) [ none ↦ none | some ts ↦ some (s ∷ ts) ]
texts_of (cons _ xs) = none

unfoldable pub as_texts : Value → Option (List String)
unfolding texts_of
as_texts (array xs) = texts_of xs
as_texts _ = none

-- `value is True`
abbrev pub is_true : Value → Bool
is_true (boolean true) = true
is_true _ = false

-- The fields of an object, in order.
abbrev pub entries : Fields → Dict Value
entries end = []
entries (field k v fs) = (k, v) ∷ entries fs

abbrev pub texts : List String → Items
texts [] = nil
texts (s ∷ ss) = cons (text s) (texts ss)

-- An integer of a document; `below n` is -(n + 1).
pub data Integer : Type 0 where
  at below : ℕ → Integer

-- `isinstance(value, int) and not isinstance(value, bool)`, and the number.
abbrev pub as_integer : Option Value → Option Integer
as_integer (some (integer n)) = some (at n)
as_integer (some (negative n)) = some (below n)
as_integer _ = none
