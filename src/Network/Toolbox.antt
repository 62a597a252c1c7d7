-- ===== src/Network/Toolbox.antt =====
-- toolbox_network_validator.py: the agents that stand for tools of the toolbox. `none` is an exception,
-- of an agent that is no dictionary.
pub mod Verdict
use nora_fleet.Common.{
  String, Bool, true, false, not, Option, none, some, List, [], ◌∷◌, ◌++◌, if◌then◌else◌, nat_eq,
  ◌==◌, Dict, get, contains, Value, Items, Fields, null, bool, num, str, arr, obj, nil, end,
  entries, ◌>>=◌,
}

pub data ToolboxError : Type 0 where
  unavailable no_matching_tool has_tools : String → ToolboxError

-- whether a value counts as true
unfoldable pub is_truthy : Value → Bool
is_truthy null = false
is_truthy (bool b) = b
is_truthy (num n) = not (nat_eq n 0)
is_truthy (str s) = not (s == "")
is_truthy (arr nil) = false
is_truthy (obj end) = false
is_truthy _ = true

unfoldable pub value_of : Option Value → Value
value_of none = null
value_of (some v) = v

unfoldable pub is_null : Value → Bool
is_null null = true
is_null _ = false

-- what is read from toolbox_info.hocon may be None or no dictionary
unfoldable pub check_tool : Value → String → Dict Value → List ToolboxError
unfolding is_truthy value_of
check_tool (obj tools) agent_name agent =
    if not (contains agent_name (entries tools))
    then no_matching_tool agent_name ∷ []
    else if is_truthy (value_of (get "tools" agent))
    then has_tools agent_name ∷ []
    else []
check_tool _ agent_name agent = unavailable agent_name ∷ []

unfoldable pub check_toolbox_agent : Value → String → Value → Option (List ToolboxError)
unfolding check_tool value_of is_null
check_toolbox_agent tools agent_name (obj fs) = some (
    if is_null (value_of (get "instructions" (entries fs)))
    then check_tool tools agent_name (entries fs)
    else [])
check_toolbox_agent tools agent_name _ = none

-- `validate_name_to_spec_dict`
unfoldable pub validate_toolbox : Value → Dict Value → Option (List ToolboxError)
unfolding check_toolbox_agent
validate_toolbox tools [] = some []
validate_toolbox tools ((agent_name, agent) ∷ rest) = do
  these ← check_toolbox_agent tools agent_name agent
  others ← validate_toolbox tools rest
  some (these ++ others)
