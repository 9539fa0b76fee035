-- ===== src/Mcp/Tests.antt =====
-- A tool that takes a path and an optional limit.
use doppel_agent.Prelude.{◌≡◌, refl, true, false, mem, ok, err}
use doppel_agent.Py.{opaque, bool, str, int, dict, list, Fields, end, field, nil, cons}
use doppel_agent.Mcp.{
  of_type, check_types, validate_arguments, missing_arguments, invalid_schema, wrong_type,
}

abbrev properties : Fields
properties =
    field "path" (dict (field "type" (str "string") end))
      (field "limit" (dict (field "type" (str "integer") end)) end)

abbrev schema : Fields
schema = field "type" (str "object") (
    field "properties" (dict properties) (
      field "required" (list (cons (str "path") nil))
        (field "additionalProperties" (bool false) end)))

abbrev arguments : Fields
arguments = field "path" (str "a.txt") (field "limit" (int 5) end)

no_path : validate_arguments schema (dict (field "limit" (int 5) end)) ≡ err missing_arguments
unfolding validate_arguments check_types of_type mem
no_path = refl

bad_limit :
    validate_arguments schema (dict (field "path" (str "a") (field "limit" (bool true) end)))
    ≡ err wrong_type
unfolding validate_arguments check_types of_type mem
bad_limit = refl

-- properties that are the float zero are none, and any other float is refused
no_properties : validate_arguments (field "properties" (opaque 0) end) (dict arguments) ≡ ok tt
unfolding validate_arguments check_types of_type mem
no_properties = refl

float_properties :
    validate_arguments (field "properties" (opaque 1) end) (dict arguments) ≡ err invalid_schema
unfolding validate_arguments check_types of_type mem
float_properties = refl
