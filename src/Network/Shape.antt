-- ===== src/Network/Shape.antt =====
-- tools_shape_validator.py: the shape of the fields that the other validators read. `none` is an
-- exception, of an agent that is no dictionary.
pub mod Verdict
use nora_fleet.Common.{
  ℕ, ◌+◌, String, Bool, true, false, Option, none, some, List, [], ◌∷◌, ◌++◌, if◌then◌else◌, Dict,
  get, Value, null, bool, num, str, arr, obj, elements, entries, ◌>>=◌,
}

-- An element of a list or of a dictionary, in an error.
pub data Place : Type 0 where
  at_index : ℕ → Place
  at_key : String → Place

pub data ShapeError : Type 0 where
  tools_no_list args_tools_no_dict_or_list : String → ShapeError
  wrong_tool wrong_args_tool : String → Place → ShapeError

-- `isinstance(value, (str, dict))` and `isinstance(value, str)`
unfoldable pub is_str_or_dict : Value → Bool
is_str_or_dict (str s) = true
is_str_or_dict (obj fs) = true
is_str_or_dict _ = false

unfoldable pub is_str : Value → Bool
is_str (str s) = true
is_str _ = false

-- `check_element_types`, for a list from an index on, and for a dictionary
unfoldable pub check_list : (Value → Bool) → (Place → ShapeError) → ℕ → List Value → List ShapeError
check_list is_allowed error i [] = []
check_list is_allowed error i (v ∷ vs) =
    let rest = check_list is_allowed error (i + 1) vs in
    if is_allowed v then rest else error (at_index i) ∷ rest

unfoldable pub check_dict : (Value → Bool) → (Place → ShapeError) → Dict Value → List ShapeError
check_dict is_allowed error [] = []
check_dict is_allowed error ((key, v) ∷ d) =
    let rest = check_dict is_allowed error d in
    if is_allowed v then rest else error (at_key key) ∷ rest

unfoldable pub validate_tools : String → Option Value → List ShapeError
unfolding check_list is_str_or_dict
validate_tools name none = []
validate_tools name (some null) = []
validate_tools name (some (arr vs)) = check_list is_str_or_dict (wrong_tool name) 0 (elements vs)
validate_tools name (some _) = tools_no_list name ∷ []

unfoldable pub validate_args_value : String → Option Value → List ShapeError
unfolding check_list check_dict is_str
validate_args_value name none = []
validate_args_value name (some (arr vs)) = check_list is_str (wrong_args_tool name) 0 (elements vs)
validate_args_value name (some (obj fs)) = check_dict is_str (wrong_args_tool name) (entries fs)
validate_args_value name (some _) = args_tools_no_dict_or_list name ∷ []

unfoldable pub validate_args_tools : String → Option Value → List ShapeError
unfolding validate_args_value
validate_args_tools name (some (obj fs)) = validate_args_value name (get "tools" (entries fs))
validate_args_tools name _ = []

unfoldable pub validate_agent : String → Value → Option (List ShapeError)
unfolding validate_tools validate_args_tools
validate_agent name (obj fs) = some (
    validate_tools name (get "tools" (entries fs))
    ++ validate_args_tools name (get "args" (entries fs)))
validate_agent name _ = none

-- `validate_name_to_spec_dict`
unfoldable pub validate_shape : Dict Value → Option (List ShapeError)
unfolding validate_agent
validate_shape [] = some []
validate_shape ((name, spec) ∷ rest) =
    validate_agent name spec >>= λ these. validate_shape rest >>= λ others. some (these ++ others)
