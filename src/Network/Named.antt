-- ===== src/Network/Named.antt =====
-- tool_name_network_validator.py: the names of agents, which are to be names of tools. `none` is an
-- exception.
pub mod Verdict
use Prim.Native.Char.{Char, code}
use Prim.Native.String as Text
use nora_fleet.Common.{
  String, Bool, true, false, not, ◌&&◌, ◌||◌, Option, none, some, List, [], ◌∷◌, ◌++◌,
  if◌then◌else◌, ◌==◌, nat_eq, leb, Dict, get, Value, str, obj, entries, ◌>>=◌,
}

-- `[a-zA-Z0-9_-]`
unfoldable pub is_word_char : Char → Bool
is_word_char c =
    leb b'a' (code c) && leb (code c) b'z'
    || leb b'A' (code c) && leb (code c) b'Z'
    || leb b'0' (code c) && leb (code c) b'9'
    || nat_eq (code c) b'_'
    || nat_eq (code c) b'-'

-- after the first character; `$` also matches before a newline at the end
unfoldable pub matches_rest : String → Bool
unfolding is_word_char
matches_rest Text.[] = true
matches_rest (Text.◌∷◌ c s) =
    let rest = matches_rest s in if is_word_char c then rest else nat_eq (code c) 10 && s == ""

-- `re.match(TOOL_NAME_PATTERN, name)`
unfoldable pub matches_pattern : String → Bool
unfolding matches_rest is_word_char
matches_pattern Text.[] = false
matches_pattern (Text.◌∷◌ c s) = is_word_char c && matches_rest s

-- what is no text raises
unfoldable pub matches_value : Option Value → Option Bool
unfolding matches_pattern
matches_value (some (str name)) = some (matches_pattern name)
matches_value _ = none

-- The name in the spec is looked at only where the key matches.
unfoldable pub is_misnamed : String → Value → Option Bool
unfolding matches_pattern matches_value
is_misnamed agent_name (obj fs) =
    if matches_pattern agent_name
    then (matches_value (get "name" (entries fs)) >>= λ ok. some (not ok))
    else some true
is_misnamed agent_name _ = none

-- `validate_name_to_spec_dict`: the agents with an error
unfoldable pub validate_tool_names : Dict Value → Option (List String)
unfolding is_misnamed
validate_tool_names [] = some []
validate_tool_names ((agent_name, agent) ∷ rest) = do
  wrong ← is_misnamed agent_name agent
  others ← validate_tool_names rest
  some (if wrong then agent_name ∷ others else others)
