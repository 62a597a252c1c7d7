-- ===== src/Network/Manifest.antt =====
-- manifest_network_validator.py: the validators that a network of a manifest has to pass, with
-- pydantic_parameters_network_validator.py and parameters_schema_network_validator.py. `composite` is
-- `CompositeDictionaryValidator.validate` of the package nora_common, `from_dict` the conversion to a
-- model of pydantic, and `filter_config` the chain of filters. `none` is an exception.
pub mod Accepted
use nora_fleet.Common.{
  String, Bool, true, false, not, ◌&&◌, Option, none, some, List, [], ◌∷◌, ◌++◌, map, if◌then◌else◌,
  is_empty, Dict, get, put, Value, null, obj, entries, ◌>>=◌,
}
use nora_fleet.Network.{Extract}
use nora_fleet.Network.Cycles.{CycleError}
use nora_fleet.Network.Shape.{ShapeError, validate_shape}
use nora_fleet.Network.Keywords.{KeywordError, keywords_of, validate_keywords}
use nora_fleet.Network.Missing.{MissingError, validate_missing}
use nora_fleet.Network.Reach.{StructureError, validate_structure}
use nora_fleet.Network.Named.{validate_tool_names}
use nora_fleet.Network.Parameters.{ParametersError, locate_parameters, validate_parameters}
use nora_fleet.Network.Urls.{validate_urls}

pub data PydanticError : Type 0 where
  parameters_null parameters_no_object conversion_failed : String → PydanticError

pub data NetworkError : Type 0 where
  network_empty : NetworkError
  of_shape : ShapeError → NetworkError
  of_keyword : KeywordError → NetworkError
  of_missing : MissingError → NetworkError
  of_structure : StructureError → NetworkError
  of_name : String → NetworkError
  of_pydantic : PydanticError → NetworkError
  of_parameters : ParametersError → NetworkError
  of_url : String × String → NetworkError
  of_cycle : CycleError → NetworkError

-- What is validated: a dictionary from names to specs, or a network with a list of agents under
-- "tools", each a dictionary with a text for its name.
pub data Candidate : Type 0 where
  name_to_spec : Dict Value → Candidate
  with_tools : List (String × Value) → Candidate

unfoldable pub put_all : List (String × Value) → Dict Value → Dict Value
put_all [] d = d
put_all ((name, one_agent) ∷ agents) d = put_all agents (put name one_agent d)

unfoldable pub get_name_to_spec : Candidate → Dict Value
unfolding put_all
get_name_to_spec (name_to_spec d) = d
get_name_to_spec (with_tools agents) = put_all agents []

-- `not candidate`; a network with a list of agents has an entry
unfoldable pub is_nothing : Candidate → Bool
is_nothing (name_to_spec d) = is_empty d
is_nothing (with_tools agents) = false

abbrev pub Validator : Type 0
Validator = Candidate → Option (List NetworkError)

-- `AbstractNetworkValidator.validate`, over `validate_name_to_spec_dict` and its errors
unfoldable pub validate :
    {E : Type 0} → (E → NetworkError) → (Dict Value → Option (List E)) → Validator
unfolding is_nothing get_name_to_spec
validate error validate_dict candidate =
    if is_nothing candidate
    then some (network_empty ∷ [])
    else validate_dict (get_name_to_spec candidate) >>= λ errors. some (map error errors)

-- whether the conversion of the parameters raises no exception
convert : (Value → Bool) → String → Value → Value → List PydanticError
convert from_dict agent_name params (obj properties) =
    if is_empty (entries properties)
    then []
    else if from_dict params
    then []
    else conversion_failed agent_name ∷ []
convert from_dict agent_name params _ = []

or_null : Option Value → Value
or_null none = null
or_null (some v) = v

unfoldable pub check_pydantic : (Value → Bool) → String → Option Value → List PydanticError
unfolding convert or_null
check_pydantic from_dict agent_name none = []
check_pydantic from_dict agent_name (some null) = parameters_null agent_name ∷ []
check_pydantic from_dict agent_name (some (obj fs)) =
    convert from_dict agent_name (obj fs) (or_null (get "properties" (entries fs)))
check_pydantic from_dict agent_name (some v) = parameters_no_object agent_name ∷ []

unfoldable pub validate_pydantic : (Value → Bool) → Dict Value → List PydanticError
unfolding check_pydantic locate_parameters
validate_pydantic from_dict [] = []
validate_pydantic from_dict ((agent_name, agent_spec) ∷ rest) =
    check_pydantic from_dict agent_name (locate_parameters agent_spec)
    ++ validate_pydantic from_dict rest

module _ (composite : List Validator → Validator) (extract : Extract) (from_dict : Value → Bool)
    (filter_config : Candidate → Option Candidate) where
  unfoldable pub parameters_validators : List Validator
  unfolding validate validate_pydantic validate_parameters
  parameters_validators =
      validate of_pydantic (λ net. some (validate_pydantic from_dict net))
      ∷ validate of_parameters validate_parameters
      ∷ []

  -- `ParametersSchemaNetworkValidator.validate`
  unfoldable pub validate_parameters_schema : Validator
  unfolding parameters_validators is_nothing
  validate_parameters_schema candidate =
      if is_nothing candidate
      then composite parameters_validators candidate
      else (filter_config candidate >>= λ filtered. composite parameters_validators filtered)

  unfoldable pub manifest_validators : Option (List String) → Option (List String) → List Validator
  unfolding validate validate_parameters_schema
  manifest_validators external_network_names mcp_servers =
      validate of_shape validate_shape
      ∷ validate of_keyword (validate_keywords (keywords_of none))
      ∷ validate of_missing (λ net. some (validate_missing extract net))
      ∷ validate of_structure (validate_structure extract)
      ∷ validate of_name validate_tool_names
      ∷ validate_parameters_schema
      ∷ validate of_url (λ net. some (validate_urls extract external_network_names mcp_servers net))
      ∷ []

  -- `ManifestNetworkValidator`
  unfoldable pub validate_manifest : Option (List String) → Option (List String) → Validator
  unfolding manifest_validators
  validate_manifest external_network_names mcp_servers =
      composite (manifest_validators external_network_names mcp_servers)
