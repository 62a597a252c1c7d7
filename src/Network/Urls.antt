-- ===== src/Network/Urls.antt =====
-- url_network_validator.py: the tools that are URLs or paths.
pub mod Resolved
use Prim.Native.String as Text
use text.Mathlib.Text.{starts_with}
use nora_fleet.Common.{
  String, Bool, true, false, not, ◌||◌, ◌&&◌, Option, none, some, List, [], ◌∷◌, ◌++◌,
  if◌then◌else◌, ◌==◌, Dict, elem, Value,
}
use nora_fleet.Network.{Extract, is_url_or_path, remove_dictionary_tools, coerce_tools}

-- `tool.endswith(suffix)`
unfoldable pub ends_with : String → String → Bool
ends_with Text.[] suffix = Text.[] == suffix
ends_with (Text.◌∷◌ c s) suffix = Text.◌∷◌ c s == suffix || ends_with s suffix

-- the external agents and the MCP servers, each of which may be None
abbrev or_empty : Option (List String) → List String
or_empty none = []
or_empty (some urls) = urls

unfoldable pub known_urls : Option (List String) → Option (List String) → List String
known_urls external_agents mcp_servers = or_empty external_agents ++ or_empty mcp_servers

unfoldable pub is_unrecognized : List String → String → Bool
unfolding is_url_or_path ends_with
is_unrecognized urls tool =
    is_url_or_path tool
    && not (elem tool urls)
    && not (starts_with tool "http://")
    && not (starts_with tool "https://")
    && not (ends_with tool "mcp")
    && not (ends_with tool "mcp/")

-- An error names the agent and its tool.
unfoldable pub check_safe_urls :
    String → List String → List String → List (String × String) → List (String × String)
unfolding is_unrecognized
check_safe_urls agent_name [] urls errors = errors
check_safe_urls agent_name (tool ∷ tools) urls errors =
    check_safe_urls agent_name tools urls
      (if is_unrecognized urls tool then errors ++ (agent_name, tool) ∷ [] else errors)

module _ (extract : Extract) (urls : List String) where
  unfoldable pub check_urls : Dict Value → List (String × String) → List (String × String)
  unfolding check_safe_urls
  check_urls [] errors = errors
  check_urls ((name, spec) ∷ rest) errors =
      check_urls rest
        (check_safe_urls name (remove_dictionary_tools (coerce_tools extract spec)) urls errors)

-- `validate_name_to_spec_dict`
unfoldable pub validate_urls :
    Extract → Option (List String) → Option (List String) → Dict Value → List (String × String)
unfolding check_urls known_urls
validate_urls extract external_agents mcp_servers name_to_spec =
    check_urls extract (known_urls external_agents mcp_servers) name_to_spec []
