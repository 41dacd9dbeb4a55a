-- ===== src/Continuity/Document.antt =====
-- The documents that VALIDATORS/continuity.py reads, with the numbers that Python's `json` makes floats, and its
-- readers `require_records`, `require_string`, `require_number` and `require_string_array`.
use mystery_starter_kit.Common.{
  ℕ, String, Bool, ◌==◌, Option, none, some, List, [], ◌∷◌, if◌then◌else◌,
}
use mystery_starter_kit.Failure.{Failure, Result, ok, err, configuration_error, ◌>>=◌}
use mystery_starter_kit.Json.{at, below}
use mystery_starter_kit.Continuity.Float.{Float, float_of}

mutual
  pub data Value : Type 0 where
    object : Fields → Value
    array : Items → Value
    text : String → Value
    -- `negative n` is -(n + 1)
    integer negative : ℕ → Value
    real : Float → Value
    boolean : Bool → Value
    null : Value

  pub data Items : Type 0 where
    nil : Items
    cons : Value → Items → Items

  pub data Fields : Type 0 where
    end : Fields
    field : String → Value → Fields → Fields

-- `document.get(key)`
unfoldable pub value_at : String → Fields → Option Value
value_at k end = none
value_at k (field j v fs) = let later = value_at k fs in if j == k then some v else later

abbrev malformed : Failure
malformed = configuration_error "malformed"

unfoldable pub records_of : Items → Result (List Fields)
records_of nil = ok []
records_of (cons (object record_fields) items) = do
  rest ← records_of items
  ok (record_fields ∷ rest)
records_of (cons _ items) = err malformed

abbrev records_in : Option Value → Result (List Fields)
records_in (some (array items)) = records_of items
records_in _ = err malformed

unfoldable pub require_records : Fields → String → Result (List Fields)
unfolding value_at records_of
require_records document key = records_in (value_at key document)

abbrev text_in : Option Value → Result String
text_in (some (text value)) = if value == "" then err malformed else ok value
text_in _ = err malformed

unfoldable pub require_string : Fields → String → Result String
unfolding value_at
require_string document key = text_in (value_at key document)

abbrev number_in : Option Value → Result Float
number_in (some (integer n)) = float_of (at n)
number_in (some (negative n)) = float_of (below n)
number_in (some (real value)) = ok value
number_in _ = err malformed

unfoldable pub require_number : Fields → String → Result Float
unfolding value_at float_of
require_number document key = number_in (value_at key document)

unfoldable pub strings_of : Items → Result (List String)
strings_of nil = ok []
strings_of (cons (text value) items) = do rest ← strings_of items; ok (value ∷ rest)
strings_of (cons _ items) = err malformed

abbrev strings_in : Option Value → Result (List String)
strings_in (some (array items)) = strings_of items
strings_in _ = err malformed

unfoldable pub require_string_array : Fields → String → Result (List String)
unfolding value_at strings_of
require_string_array document key = strings_in (value_at key document)

-- An array of texts.
abbrev pub strings : List String → Items
strings [] = nil
strings (s ∷ ss) = cons (text s) (strings ss)
