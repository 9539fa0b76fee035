-- ===== src/Mcp/Typed.antt =====
-- What holds of arguments that pass the check.
use doppel_agent.Prelude.{String, ◌≡◌, true, List, [], ◌∷◌, arith, eq_iff, str_eq, mem}
use doppel_agent.Py.{
  Value, none_value, bool, str, int, negative, dict, list, tuple, opaque, Fields, keys,
}

-- The names that a schema has for a value: an integer is a number too, a float only a number, and true
-- and false are neither.
unfoldable pub kinds : Value → List String
kinds none_value = "null" ∷ []
kinds (bool b) = "boolean" ∷ []
kinds (str s) = "string" ∷ []
kinds (int n) = "integer" ∷ "number" ∷ []
kinds (negative n) = "integer" ∷ "number" ∷ []
kinds (dict d) = "object" ∷ []
kinds (list vs) = "array" ∷ []
kinds (tuple vs) = []
kinds (opaque n) = "number" ∷ []

abbrev pub json_types : List String
json_types = "string" ∷ "integer" ∷ "number" ∷ "boolean" ∷ "object" ∷ "array" ∷ "null" ∷ []

str_eq_comm : (a b : String) → str_eq a b ≡ str_eq b a
str_eq_comm a b = ground (arith, eq_iff a b, eq_iff b a)

-- the tests against the fixed names, the other way round
abbrev AreTested : String → List String → Type 0
AreTested t [] = Unit
AreTested t (x ∷ xs) = (str_eq t x ≡ str_eq x t) × AreTested t xs

names : (t : String) → AreTested t json_types
names t = (
  str_eq_comm t "string",
  (
    str_eq_comm t "integer",
    (
      str_eq_comm t "number",
      (
        str_eq_comm t "boolean",
        (str_eq_comm t "object", (str_eq_comm t "array", (str_eq_comm t "null", tt))),
      ),
    ),
  ),
)

abbrev pub IsPresent : Fields → Value → Type 0
IsPresent arguments v = (name : String) × (v ≡ str name) × (mem name (keys arguments) ≡ true)
