-- ===== src/Mcp.antt =====
-- mcp/executor.py: `validate_arguments`, the check of a tool call's arguments against the input schema
-- of its descriptor. Schema and arguments are decoded JSON.
pub mod Typed
pub mod Tests
use doppel_agent.Prelude.{
  ℕ, zero, suc, String, Bool, true, false, not, ◌&&◌, ◌||◌, Option, none, some, List, [], ◌∷◌,
  str_eq, if◌then◌else◌, mem, all, ◌==◌, Result, ok, err,
}
use doppel_agent.Py.{
  Value, none_value, bool, str, int, negative, dict, list, tuple, opaque, Fields, end, field, Items,
  nil, cons, keys, elements, get_field, get_or, keys_within,
}

pub data ArgumentError : Type 0 where
  arguments_not_object root_not_object invalid_schema missing_arguments : ArgumentError
  unhashable_name unknown_arguments wrong_type : ArgumentError

abbrev is_str : Value → Bool
is_str (str s) = true
is_str _ = false

abbrev is_integer : Value → Bool
is_integer (int n) = true
is_integer (negative n) = true
is_integer _ = false

abbrev is_number : Value → Bool
is_number (int n) = true
is_number (negative n) = true
is_number (opaque n) = true
is_number _ = false

abbrev is_bool : Value → Bool
is_bool (bool b) = true
is_bool _ = false

abbrev is_dict : Value → Bool
is_dict (dict d) = true
is_dict _ = false

abbrev is_list : Value → Bool
is_list (list vs) = true
is_list _ = false

abbrev is_none : Value → Bool
is_none none_value = true
is_none _ = false

-- `_validate_type`; in decoded JSON an opaque value is a float, whose tag is 0 where it is zero
unfoldable pub of_type : String → Value → Bool
of_type expected v =
    if str_eq expected "string"
    then is_str v
    else if str_eq expected "integer"
    then is_integer v
    else if str_eq expected "number"
    then is_number v
    else if str_eq expected "boolean"
    then is_bool v
    else if str_eq expected "object"
    then is_dict v
    else if str_eq expected "array"
    then is_list v
    else if str_eq expected "null"
    then is_none v
    else true

-- whether `x or default` is the default; the tag 0 stands for a float that is zero
abbrev is_falsy : Value → Bool
is_falsy none_value = true
is_falsy (bool b) = not b
is_falsy (str s) = str_eq s ""
is_falsy (int n) = n == 0
is_falsy (opaque n) = n == 0
is_falsy (dict end) = true
is_falsy (list nil) = true
is_falsy _ = false

-- `schema.get(key) or default`
abbrev pub or_default : String → Value → Fields → Value
or_default key default schema =
    if is_falsy (get_or key none_value schema) then default else get_or key none_value schema

abbrev is_unhashable : Value → Bool
is_unhashable (dict d) = true
is_unhashable (list vs) = true
is_unhashable _ = false

-- `name in arguments`, whose keys are strings
abbrev pub is_key : Fields → Value → Bool
is_key arguments (str s) = mem s (keys arguments)
is_key arguments _ = false

-- `missing`; a name that cannot be hashed raises
abbrev pub check_required : List Value → Fields → Result ArgumentError (Unit {0})
check_required names arguments =
    if not (all (λ v. not (is_unhashable v)) names)
    then err unhashable_name
    else if all (is_key arguments) names
    then ok tt
    else err missing_arguments

-- the type that the schema gives a field, where it gives one
abbrev pub declared : Option Value → Option String
declared (some (dict f)) = elim (get_field "type" f) [ some (str t) ↦ some t | _ ↦ none ]
declared _ = none

abbrev pub is_typed : Fields → String → Value → Bool
is_typed properties name v = elim (declared (get_field name properties)) [
  | none ↦ true
  | some t ↦ of_type t v
]

-- the loop over the arguments
unfoldable pub check_types : Fields → Fields → Result ArgumentError (Unit {0})
check_types properties end = ok tt
check_types properties (field name v rest) =
    let later = check_types properties rest in
    if is_typed properties name v then later else err wrong_type

abbrev is_false : Option Value → Bool
is_false (some (bool b)) = not b
is_false _ = false

abbrev check_fields : Fields → List Value → Bool → Fields → Result ArgumentError (Unit {0})
check_fields properties required closed arguments = elim (check_required required arguments) [
  | err e ↦ err e
  | ok done ↦
      if closed && not (keys_within (keys properties) arguments)
      then err unknown_arguments
      else check_types properties arguments
]

abbrev check_schema : Value → Value → Bool → Fields → Result ArgumentError (Unit {0})
check_schema (dict properties) (list required) closed arguments =
    check_fields properties (elements required) closed arguments
check_schema _ _ closed arguments = err invalid_schema

abbrev is_object : Value → Bool
is_object (str s) = str_eq s "object"
is_object _ = false

-- `validate_arguments`
unfoldable pub validate_arguments : Fields → Value → Result ArgumentError (Unit {0})
validate_arguments schema (dict arguments) =
    if not (is_object (get_or "type" (str "object") schema))
    then err root_not_object
    else check_schema (or_default "properties" (dict end) schema)
        (or_default "required" (list nil) schema)
        (is_false (get_field "additionalProperties" schema)) arguments
validate_arguments schema _ = err arguments_not_object
