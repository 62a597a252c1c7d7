-- ===== src/Tests/Parameters.antt =====
-- An agent whose parameters have an array of objects, and one that nests its parameters.
use nora_fleet.Common.{
  String, ◌≡◌, refl, ◌↔◌, some, [], ◌∷◌, Dict, get, Value, str, obj, arr, nil, cons, end, field,
  All,
}
use nora_fleet.Network.Parameters.{
  nested_parameters, undefined_props, validate_parameters, locate_parameters, found, walk,
  check_nested, find_nested_parameters_keys, check_required_refs, check_required, check_located,
  required_in, undefined, undefined_errors, function_parameters, or_else,
}
use nora_fleet.Network.Parameters.Sound.{HasSound, validate_parameters_lem}

-- a schema with an array of objects, which have a property `x` and require another
abbrev points : String → Value
points required = obj (
    field "properties"
      (obj (
        field "points"
          (obj (
            field "items"
              (obj (
                field "properties" (obj (field "x" (obj end) end))
                  (field "required" (arr (cons (str required) nil)) end)))
              end))
          end))
      end)

abbrev agent : Value → Value
agent parameters = obj (field "function" (obj (field "parameters" parameters end)) end)

abbrev agents : Dict Value
agents = ("draw", agent (points "x")) ∷ ("plain", obj end) ∷ []

agents-pass : validate_parameters agents ≡ some []
unfolding validate_parameters check_located locate_parameters function_parameters or_else
    find_nested_parameters_keys check_required_refs check_nested check_required required_in
    undefined undefined_errors walk found get
agents-pass = refl

wrong-found :
    validate_parameters (
      ("draw", agent (points "y"))
      ∷ ("wrap", agent (obj (field "parameters" (points "x") end)))
      ∷ [])
    ≡ some (
        undefined_props "draw" "parameters.properties.points.items" (str "y" ∷ [])
        ∷ nested_parameters "wrap" "parameters"
        ∷ [])
unfolding validate_parameters check_located locate_parameters function_parameters or_else
    find_nested_parameters_keys check_required_refs check_nested check_required required_in
    undefined undefined_errors walk found get
wrong-found = refl

validate_parameters_lem_example : (validate_parameters agents ≡ some []) ↔ All HasSound agents
validate_parameters_lem_example = validate_parameters_lem agents
