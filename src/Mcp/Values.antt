-- ===== src/Mcp/Values.antt =====
-- The arguments of a request: what package json makes of them, as Go's `any`.
use text.Mathlib.Text.{◌==◌ as str_eq}
use ideate.Common.{String, Bool, Option, none, some, List, [], ◌∷◌, if◌then◌else◌}

-- A number is not read by the tools that walk their arguments.
mutual
  pub data Value : Type 0 where
    null number : Value
    boolean : Bool → Value
    string : String → Value
    array : Values → Value
    object : Fields → Value

  pub data Values : Type 0 where
    nil : Values
    cons : Value → Values → Values

  pub data Fields : Type 0 where
    end : Fields
    field : String → Value → Fields → Fields

unfoldable pub elements : Values → List Value
elements nil = []
elements (cons v vs) = v ∷ elements vs

-- m[key]
unfoldable pub get : String → Fields → Option Value
get key end = none
get key (field k v fs) = if str_eq k key then some v else get key fs

-- v.(string)
abbrev pub as_string : Option Value → Option String
as_string (some (string s)) = some s
as_string _ = none

abbrev pub string_or_empty : Option Value → String
string_or_empty (some (string s)) = s
string_or_empty _ = ""

-- v.([]any)
abbrev pub as_array : Option Value → Option (List Value)
as_array (some (array vs)) = some (elements vs)
as_array _ = none

unfoldable pub strings : List Value → List String
strings [] = []
strings (string s ∷ vs) = s ∷ strings vs
strings (_ ∷ vs) = strings vs

-- stringSliceFromMap
unfoldable pub string_slice_from_map : Fields → String → Option (List String)
string_slice_from_map fields key = elim (as_array (get key fields)) [
  | none ↦ none
  | some vs ↦ some (strings vs)
]
