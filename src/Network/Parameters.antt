-- ===== src/Network/Parameters.antt =====
-- semantic_parameters_network_validator.py, and how abstract_network_validator.py finds the parameters
-- of an agent: a JSON schema, of which the nested ones are walked too. `none` is an exception.
pub mod Schemas
pub mod Sound
use Prim.Native.String as Text
use nora_fleet.Common.{
  String, Bool, true, false, Option, none, some, List, [], ◌∷◌, ◌++◌, if◌then◌else◌, ◌==◌, is_empty,
  is_some, Dict, get, contains, Value, Fields, null, str, bool, num, obj, arr, end, field, elements,
  entries, ◌>>=◌,
}

-- `errors.extend(...)` of what two steps find
unfoldable pub found : {E : Type 0} → Option (List E) → Option (List E) → Option (List E)
found a b = a >>= λ these. b >>= λ others. some (these ++ others)

-- `function.parameters`
unfoldable pub function_parameters : Option Value → Option Value
function_parameters (some (obj fs)) = get "parameters" (entries fs)
function_parameters _ = none

unfoldable pub or_else : Option Value → Option Value → Option Value
or_else none other = other
or_else (some v) other = some v

-- `_locate_parameters`, whose sentinel is `none` here
unfoldable pub locate_parameters : Value → Option Value
unfolding function_parameters or_else
locate_parameters (obj fs) =
    or_else (function_parameters (get "function" (entries fs))) (get "parameters" (entries fs))
locate_parameters _ = none

abbrev pub property_path : String → String → String
property_path path name = Text.◌++◌ path (Text.◌++◌ ".properties." name)

abbrev pub items_path : String → String
items_path path = Text.◌++◌ path ".items"

-- A check of every schema with its path: of the schema itself, and then, as `_iter_subschemas` yields
-- them, of those of its properties and of its items. What is no dictionary has none of them.
module _ {E : Type 0} (check : String → Dict Value → Option (List E)) where
  unfoldable mutual
    pub walk : String → Value → Option (List E)
    walk path (obj fs) =
        found (check path (entries fs)) (found (walk_properties path fs) (walk_items path fs))
    walk path _ = some []

    -- of the entry "properties"
    pub walk_properties : String → Fields → Option (List E)
    walk_properties path end = some []
    walk_properties path (field key v fs) =
        let these = walk_each path v in
        let others = walk_properties path fs in if key == "properties" then these else others

    pub walk_each : String → Value → Option (List E)
    walk_each path (obj fs) = walk_fields path fs
    walk_each path _ = some []

    pub walk_fields : String → Fields → Option (List E)
    walk_fields path end = some []
    walk_fields path (field name v fs) =
        found (walk (property_path path name) v) (walk_fields path fs)

    -- of the entry "items"
    pub walk_items : String → Fields → Option (List E)
    walk_items path end = some []
    walk_items path (field key v fs) =
        let this = walk (items_path path) v in
        let others = walk_items path fs in if key == "items" then this else others

pub data ParametersError : Type 0 where
  nested_parameters : String → String → ParametersError
  undefined_props : String → String → List Value → ParametersError

unfoldable pub check_nested : String → String → Dict Value → Option (List ParametersError)
check_nested agent_name path schema =
    some (if contains "parameters" schema then nested_parameters agent_name path ∷ [] else [])

-- `_find_nested_parameters_keys`
unfoldable pub find_nested_parameters_keys : String → Value → Option (List ParametersError)
unfolding walk check_nested
find_nested_parameters_keys agent_name params = walk (check_nested agent_name) "parameters" params

-- `[r for r in required if r not in properties]`: a list or a dictionary has no hash, and no other
-- value than a text is a key.
unfoldable pub undefined : List Value → Dict Value → Option (List Value)
undefined [] properties = some []
undefined (str r ∷ rest) properties = undefined rest properties >>= λ others.
    some (if contains r properties then others else str r ∷ others)
undefined (obj fs ∷ rest) properties = none
undefined (arr vs ∷ rest) properties = none
undefined (v ∷ rest) properties = undefined rest properties >>= λ others. some (v ∷ others)

unfoldable pub undefined_errors : String → String → List Value → List ParametersError
undefined_errors agent_name path missing =
    if is_empty missing then [] else undefined_props agent_name path missing ∷ []

unfoldable pub required_in :
    String → String → Option Value → Option Value → Option (List ParametersError)
unfolding undefined undefined_errors
required_in agent_name path (some (arr required)) (some (obj properties)) =
    undefined (elements required) (entries properties) >>= λ missing.
    some (undefined_errors agent_name path missing)
required_in agent_name path _ _ = some []

unfoldable pub check_required : String → String → Dict Value → Option (List ParametersError)
unfolding required_in
check_required agent_name path schema =
    required_in agent_name path (get "required" schema) (get "properties" schema)

-- `_check_required_refs`
unfoldable pub check_required_refs : String → Value → Option (List ParametersError)
unfolding walk check_required
check_required_refs agent_name params = walk (check_required agent_name) "parameters" params

unfoldable pub check_located : String → Option Value → Option (List ParametersError)
unfolding find_nested_parameters_keys check_required_refs found
check_located agent_name none = some []
check_located agent_name (some params) =
    found (find_nested_parameters_keys agent_name params) (check_required_refs agent_name params)

-- `validate_name_to_spec_dict`
unfoldable pub validate_parameters : Dict Value → Option (List ParametersError)
unfolding check_located locate_parameters found
validate_parameters [] = some []
validate_parameters ((agent_name, agent_spec) ∷ rest) =
    found (check_located agent_name (locate_parameters agent_spec)) (validate_parameters rest)
