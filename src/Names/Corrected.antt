-- ===== src/Names/Corrected.antt =====
-- Which names are corrected where.
use nora_fleet.Common.{
  String, Bool, false, ◌||◌, Option, none, some, List, [], ◌∷◌, map, if◌then◌else◌, ◌==◌, Dict,
  Value, str, arr, cons, elements, from_elements,
}
use nora_fleet.Messages.{value_at}
use nora_fleet.Names.{replace_slashes, correction}

abbrev pub names_it : String → Option (String × String) → Bool
names_it t none = false
names_it t (some (name, new_name)) = name == t

-- A text that names one of the tools and is no valid name.
abbrev pub is_corrected : String → List (Dict Value) → Bool
is_corrected t [] = false
is_corrected t (tool ∷ tools) =
    names_it t (correction (value_at "name" tool)) || is_corrected t tools

-- What becomes of a reference among the tools of an agent.
abbrev pub referred : List (Dict Value) → Value → Value
referred tools (str t) = str (if is_corrected t tools then replace_slashes t else t)
referred tools v = v

-- What becomes of the list of tools of an agent.
abbrev pub referred_list : List (Dict Value) → Option Value → Option Value
referred_list tools (some (arr (cons v vs))) =
    some (arr (from_elements (map (referred tools) (elements (cons v vs)))))
referred_list tools o = o
