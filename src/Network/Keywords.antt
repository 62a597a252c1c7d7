-- ===== src/Network/Keywords.antt =====
-- keyword_network_validator.py: the texts that an agent has to have where it has any. `none` is an
-- exception, of an agent that is no dictionary.
pub mod Verdict
use nora_fleet.Common.{
  String, Bool, true, false, Option, none, some, List, [], ◌∷◌, ◌++◌, if◌then◌else◌, ◌==◌, elem,
  Dict, get, Value, null, str, obj, entries, ◌>>=◌,
}
use nora_fleet.Messages.Json.{strip_text}

pub data KeywordError : Type 0 where
  function_no_dict description_no_str description_empty instructions_no_str instructions_empty :
      String → KeywordError

-- A text that is not blank, or nothing, and an error for each of the other cases.
unfoldable pub check_text : KeywordError → KeywordError → Option Value → List KeywordError
unfolding strip_text
check_text no_str empty none = []
check_text no_str empty (some null) = []
check_text no_str empty (some (str s)) = if strip_text s == "" then empty ∷ [] else []
check_text no_str empty (some v) = no_str ∷ []

unfoldable pub check_function : String → Option Value → List KeywordError
unfolding check_text
check_function agent_name none = []
check_function agent_name (some null) = []
check_function agent_name (some (obj fs)) =
    check_text (description_no_str agent_name) (description_empty agent_name)
      (get "description" (entries fs))
check_function agent_name (some v) = function_no_dict agent_name ∷ []

unfoldable pub validate_description : String → Value → Option (List KeywordError)
unfolding check_function
validate_description agent_name (obj fs) =
    some (check_function agent_name (get "function" (entries fs)))
validate_description agent_name _ = none

unfoldable pub validate_instructions : String → Value → Option (List KeywordError)
unfolding check_text
validate_instructions agent_name (obj fs) = some (
    check_text (instructions_no_str agent_name) (instructions_empty agent_name)
      (get "instructions" (entries fs)))
validate_instructions agent_name _ = none

-- ALL_KEYWORDS, where no others are given
unfoldable pub keywords_of : Option (List String) → List String
keywords_of none = "description" ∷ "instructions" ∷ []
keywords_of (some keywords) = keywords

unfoldable pub when : Bool → Option (List KeywordError) → Option (List KeywordError)
when b errors = if b then errors else some []

-- `validate_name_to_spec_dict`
unfoldable pub validate_keywords : List String → Dict Value → Option (List KeywordError)
unfolding when validate_description validate_instructions
validate_keywords keywords [] = some []
validate_keywords keywords ((agent_name, agent) ∷ rest) = do
  described ← when (elem "description" keywords) (validate_description agent_name agent)
  instructed ← when (elem "instructions" keywords) (validate_instructions agent_name agent)
  others ← validate_keywords keywords rest
  some (described ++ (instructed ++ others))
