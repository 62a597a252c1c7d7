-- ===== src/Network.antt =====
-- nora_fleet/internals/validation/network: how the validators read an agent network, given as a
-- dictionary from agent names to agent specs. `extract` is `DictionaryExtractor(spec).get(key,
-- default)` of the package nora_common.
pub mod Reach
pub mod Cycles
pub mod Missing
pub mod Urls
pub mod Shape
pub mod Parameters
pub mod Named
pub mod Designed
pub mod Toolbox
pub mod Manifest
pub mod Keywords
use text.Mathlib.Text.{starts_with}
use nora_fleet.Common.{
  String, Bool, true, false, ◌||◌, Option, none, some, List, [], ◌∷◌, ◌++◌, if◌then◌else◌, Dict,
  get, Value, str, arr, obj, nil, end, elements, entries, values,
}

abbrev pub Extract : Type 0
Extract = Value → String → Value → Value

-- `isinstance(x, list)`, with the empty list for any other value
as_list : Value → List Value
as_list (arr xs) = elements xs
as_list _ = []

-- `args.tools`: the values of a dictionary, or a list
as_values : Value → List Value
as_values (obj fs) = values (entries fs)
as_values (arr xs) = elements xs
as_values _ = []

unfoldable pub is_url_or_path : String → Bool
is_url_or_path tool =
    starts_with tool "/" || starts_with tool "http://" || starts_with tool "https://"

keep_text : Value → List String → List String
keep_text (str s) rest = s ∷ rest
keep_text _ rest = rest

unfoldable pub remove_dictionary_tools : List Value → List String
unfolding keep_text
remove_dictionary_tools [] = []
remove_dictionary_tools (tool ∷ tools) = keep_text tool (remove_dictionary_tools tools)

-- `name_to_spec.get(agent, {})`
unfoldable pub spec_of : Dict Value → String → Value
spec_of name_to_spec agent = elim (get agent name_to_spec) [ none ↦ obj end | some spec ↦ spec ]

module _ (extract : Extract) where
  unfoldable pub coerce_tools : Value → List Value
  unfolding as_list
  coerce_tools spec = as_list (extract spec "tools" (arr nil))

  unfoldable pub coerce_args_tools : Value → List Value
  unfolding as_values
  coerce_args_tools spec = as_values (extract spec "args.tools" (arr nil))
