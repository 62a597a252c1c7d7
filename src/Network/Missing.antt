-- ===== src/Network/Missing.antt =====
-- missing_nodes_network_validator.py: tools that name no agent of the network.
pub mod Lookup
use nora_fleet.Common.{
  String, Bool, not, ◌&&◌, ◌||◌, Option, none, some, List, [], ◌∷◌, ◌++◌, if◌then◌else◌, Dict, get,
  put, contains, Value,
}
use nora_fleet.Network.{Extract, is_url_or_path, remove_dictionary_tools, coerce_tools}

list_at : String → Dict (List String) → List String
list_at agent d = elim (get agent d) [ none ↦ [] | some tools ↦ tools ]

-- `missing_nodes[agent_name].append(tool)`, after the entry is made where there is none
unfoldable pub append_missing : String → String → Dict (List String) → Dict (List String)
unfolding list_at
append_missing agent tool missing =
    let made = if contains agent missing then missing else put agent [] missing in
    put agent (list_at agent made ++ tool ∷ []) made

pub data MissingError : Type 0 where
  non_existent_agents : String → List String → MissingError

unfoldable pub missing_errors : Dict (List String) → List MissingError
missing_errors [] = []
missing_errors ((agent, tools) ∷ rest) = non_existent_agents agent tools ∷ missing_errors rest

module _ (extract : Extract) (net : Dict Value) where
  unfoldable pub check_tools : String → List String → Dict (List String) → Dict (List String)
  check_tools agent [] missing = missing
  check_tools agent (tool ∷ tools) missing = check_tools agent tools (
      if is_url_or_path tool || contains tool net
      then missing
      else append_missing agent tool missing)

  unfoldable pub check_agents : Dict Value → Dict (List String) → Dict (List String)
  check_agents [] missing = missing
  check_agents ((agent, data') ∷ rest) missing =
      check_agents rest
        (check_tools agent (remove_dictionary_tools (coerce_tools extract data')) missing)

  unfoldable pub find_missing_agent_nodes : Dict (List String)
  find_missing_agent_nodes = check_agents net []

  -- `validate_name_to_spec_dict`
  unfoldable pub validate_missing : List MissingError
  unfolding missing_errors
  validate_missing = missing_errors find_missing_agent_nodes
