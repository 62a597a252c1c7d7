-- ===== src/Redactor.antt =====
-- nora_fleet/message/utils/sly_data_redactor.py: which private data passes to another agent.
-- `none` is an exception. `extract` is `DictionaryExtractor(spec).get(key, default)`.
pub mod Allowance
use Prim.Native.Nat.{zero, suc}
use nora_fleet.Common.{
  String, Bool, true, false, not, ◌&&◌, ◌||◌, Option, none, some, List, [], ◌∷◌, if◌then◌else◌,
  ◌==◌, is_empty, Dict, get, put, Value, Items, Fields, null, bool, num, str, arr, obj, nil, cons,
  end, field, elements, entries, from_entries, ◌>>=◌,
}
use nora_fleet.Network.{Extract}

-- Python's truth test of a value
unfoldable pub truthy : Value → Bool
truthy null = false
truthy (bool b) = b
truthy (num zero) = false
truthy (num (suc n)) = true
truthy (str s) = not (s == "")
truthy (arr nil) = false
truthy (arr (cons v vs)) = true
truthy (obj end) = false
truthy (obj (field k v fs)) = true

pub record SlyDataRedactor : Type 0 where
  pub agent_tool_spec : Value
  pub config_keys : List String
  pub allow_empty_dict : Bool

-- `maybe_empty`
unfoldable pub maybe_empty : SlyDataRedactor → Value → Value
unfolding truthy
maybe_empty r v = if not r.allow_empty_dict && not (truthy v) then null else v

-- the loop over the configured keys, the last of which has precedence
unfoldable pub find_allowance : Extract → Value → List String → Value → Value
find_allowance extract spec [] allow = allow
find_allowance extract spec (key ∷ keys') allow =
    find_allowance extract spec keys' (extract spec key allow)

-- `{key: True for key in allow}`: a list or a dictionary is no key of a dictionary, and what is no
-- text is a key that the data do not have
unfoldable pub as_true_dict : List Value → Dict Value → Option (Dict Value)
as_true_dict [] acc = some acc
as_true_dict (str s ∷ vs) acc = as_true_dict vs (put s (bool true) acc)
as_true_dict (arr xs ∷ vs) acc = none
as_true_dict (obj fs ∷ vs) acc = none
as_true_dict (null ∷ vs) acc = as_true_dict vs acc
as_true_dict (bool b ∷ vs) acc = as_true_dict vs acc
as_true_dict (num n ∷ vs) acc = as_true_dict vs acc

-- `isinstance(dest_key, str)`, or a True
unfoldable pub let_through : String → Value → Value → Dict Value → Dict Value
let_through source (str dest) v redacted = put dest v redacted
let_through source (bool true) v redacted = put source v redacted
let_through source _ v redacted = redacted

let_value : String → Value → Option Value → Dict Value → Dict Value
unfolding let_through
let_value source dest none redacted = redacted
let_value source dest (some null) redacted = redacted
let_value source dest (some v) redacted = let_through source dest v redacted

unfoldable pub redact : Dict Value → Dict Value → Dict Value → Dict Value
unfolding let_value
redact [] basis redacted = redacted
redact ((source, dest) ∷ rest) basis redacted =
    redact rest basis (let_value source dest (get source basis) redacted)

-- the allowance as a dictionary; a number or a text has no `items`
unfoldable pub allow_rules : Value → Option (Dict Value)
allow_rules (arr xs) = as_true_dict (elements xs) []
allow_rules (obj fs) = some (entries fs)
allow_rules _ = none

unfoldable pub is_true : Value → Bool
is_true (bool b) = b
is_true _ = false

unfoldable pub basis_entries : Value → Dict Value
basis_entries (obj fs) = entries fs
basis_entries _ = []

-- the body of `filter_config`, once the allowance is found
unfoldable pub filter_by : SlyDataRedactor → Value → Value → Option Value
unfolding is_true basis_entries truthy
filter_by r allow basis =
    if not (truthy allow)
    then some (maybe_empty r (obj end))
    else if is_true allow
    then some (maybe_empty r basis)
    else if is_empty (basis_entries basis)
    then some (maybe_empty r (obj end))
    else allow_rules allow >>= λ rules.
        some (maybe_empty r (obj (from_entries (redact rules (basis_entries basis) []))))

unfoldable pub filter_config : Extract → SlyDataRedactor → Value → Option Value
filter_config extract r basis =
    filter_by r (find_allowance extract r.agent_tool_spec r.config_keys (obj end)) basis
