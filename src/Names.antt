-- ===== src/Names.antt =====
-- nora_fleet/internals/graph/filters/name_correction_config_filter.py: the correction of the names of
-- the agents of a network. `none` is an exception.
pub mod Corrected
use Prim.Native.Char.{code}
use Prim.Native.String as Text
use text.Mathlib.Text.{starts_with}
use nora_fleet.Common.{
  String, Bool, true, false, not, ◌&&◌, ◌||◌, Option, none, some, List, [], ◌∷◌, map, if◌then◌else◌,
  ◌==◌, nat_eq, is_empty, Dict, get, put, Value, Items, Fields, null, bool, num, str, arr, obj, nil,
  cons, end, elements, entries, from_elements, from_entries, ◌>>=◌,
}
use nora_fleet.Reservations.{has_char}
use nora_fleet.Messages.{value_at}

-- `new_name.replace("/", "_")`
unfoldable pub replace_slashes : String → String
replace_slashes Text.[] = Text.[]
replace_slashes (Text.◌∷◌ c s) =
    let rest = replace_slashes s in
    if nat_eq (code c) b'/' then Text.◌++◌ "_" rest else Text.◌∷◌ c rest

-- a name, or none for a text that describes an error
text_name : String → Option String
unfolding has_char replace_slashes
text_name name =
    if name == "" then none else some (if has_char b'/' name then replace_slashes name else name)

unfoldable pub validate_name : Value → Option String
unfolding text_name
validate_name (str name) = text_name name
validate_name _ = none

-- a name that begins like the description of an error is taken for one
is_correction : String → Option String → Bool
is_correction name none = false
is_correction name (some new_name) = not (starts_with new_name "Error: ") && not (new_name == name)

-- what the first loop puts in the corrections for the name of a tool: old and new name
unfoldable pub correction : Value → Option (String × String)
unfolding is_correction text_name
correction (str name) = text_name name >>= λ new_name.
    if is_correction name (some new_name) then some (name, new_name) else none
correction _ = none

-- the new name is put under a key that is the old name
unfoldable pub correct_tool : Option (String × String) → Dict Value → Dict Value
correct_tool none tool = tool
correct_tool (some (name, new_name)) tool = put name (str new_name) tool

unfoldable pub note_correction : Option (String × String) → Dict String → Dict String
note_correction none corrections = corrections
note_correction (some (name, new_name)) corrections = put name new_name corrections

-- the first loop: the tools, and the corrections
unfoldable pub correct_tools : List (Dict Value) → List (Dict Value)
unfolding correction correct_tool value_at
correct_tools [] = []
correct_tools (tool ∷ tools) =
    correct_tool (correction (value_at "name" tool)) tool ∷ correct_tools tools

unfoldable pub gather_corrections : List (Dict Value) → Dict String → Dict String
unfolding correction note_correction value_at
gather_corrections [] corrections = corrections
gather_corrections (tool ∷ tools) corrections =
    gather_corrections tools (note_correction (correction (value_at "name" tool)) corrections)

-- the second loop: `corrections.get(agent_tool, agent_tool)`
unfoldable pub correct_reference : Dict String → Value → Value
correct_reference corrections (str t) = elim (get t corrections) [ none ↦ str t | some u ↦ str u ]
correct_reference corrections v = v

unfoldable pub correct_references : Dict String → Option Value → Option Value
unfolding correct_reference
correct_references corrections (some (arr (cons v vs))) =
    some (arr (from_elements (map (correct_reference corrections) (elements (cons v vs)))))
correct_references corrections v = none

put_list : Option Value → Dict Value → Dict Value
put_list none tool = tool
put_list (some v) tool = put "tools" v tool

unfoldable pub correct_list : Dict String → Dict Value → Dict Value
unfolding correct_references put_list
correct_list corrections tool = put_list (correct_references corrections (get "tools" tool)) tool

unfoldable pub correct_all : List (Dict Value) → List (Dict Value)
unfolding correct_tools gather_corrections correct_list
correct_all tools = map (correct_list (gather_corrections tools [])) (correct_tools tools)

-- the tools of a configuration: a list of dictionaries, since each is asked for its name
dictionaries : List Value → Option (List (Dict Value))
dictionaries [] = some []
dictionaries (obj fs ∷ vs) = do rest ← dictionaries vs; some (entries fs ∷ rest)
dictionaries (_ ∷ vs) = none

unfoldable pub correct_names : Dict Value → Option Value → Option (Dict Value)
unfolding dictionaries correct_all
correct_names config none = some config
correct_names config (some null) = some config
correct_names config (some (arr nil)) = some config
correct_names config (some (arr (cons v vs))) = do
  tools ← dictionaries (elements (cons v vs))
  some (
      put "tools" (arr (from_elements (map (λ d. obj (from_entries d)) (correct_all tools))))
        config)
correct_names config (some (obj end)) = some config
correct_names config (some (str s)) = if s == "" then some config else none
correct_names config (some _) = none

-- `filter_config`
unfoldable pub filter_config : Dict Value → Option (Dict Value)
unfolding correct_names
filter_config config = correct_names config (get "tools" config)
