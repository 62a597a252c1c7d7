-- ===== src/Messages.antt =====
-- nora_fleet/message: the types of chat messages, the filters that tell which messages count, and the
-- processors that gather from a stream of messages the answer, the context of the chat and the
-- account of the tokens. `none` is an exception. A message type is the number of the member of
-- `ChatMessageType`, an IntEnum, or whatever else a caller passes for one.
pub mod Filters
pub mod Processors
pub mod Answer
pub mod Structure
pub mod Json
use Prim.Native.Nat.{ℕ, zero, suc}
use nora_fleet.Common.{
  String, Bool, true, false, not, ◌&&◌, ◌||◌, Option, none, some, List, [], ◌∷◌, if◌then◌else◌,
  ◌==◌, nat_eq, Dict, get, Value, Items, Fields, null, bool, num, str, arr, obj, nil, cons, end,
  field, ◌>>=◌,
}

-- The members of the enum.
abbrev pub unknown_message_type : ℕ
unknown_message_type = 0

abbrev pub system : ℕ
system = 1

abbrev pub human : ℕ
human = 2

abbrev pub ai : ℕ
ai = 4

abbrev pub agent : ℕ
agent = 100

abbrev pub agent_framework : ℕ
agent_framework = 101

abbrev pub agent_tool_result : ℕ
agent_tool_result = 103

abbrev pub agent_progress : ℕ
agent_progress = 104

-- The member of a name, `ChatMessageType[response_type]`, and of a number.
unfoldable pub type_names : Dict ℕ
type_names =
    ("UNKNOWN_MESSAGE_TYPE", unknown_message_type)
    ∷ ("SYSTEM", system)
    ∷ ("HUMAN", human)
    ∷ ("AI", ai)
    ∷ ("AGENT", agent)
    ∷ ("AGENT_FRAMEWORK", agent_framework)
    ∷ ("AGENT_TOOL_RESULT", agent_tool_result)
    ∷ ("AGENT_PROGRESS", agent_progress)
    ∷ []

unfoldable pub is_member : ℕ → Dict ℕ → Bool
is_member n [] = false
is_member n ((name, m) ∷ rest) = nat_eq n m || is_member n rest

unfoldable pub from_number : ℕ → Option ℕ
unfolding is_member type_names
from_number n = if is_member n type_names then some n else none

-- True and False are the numbers 1 and 0
unfoldable pub from_response_type : Option Value → Option ℕ
unfolding from_number type_names
from_response_type none = some unknown_message_type
from_response_type (some null) = some unknown_message_type
from_response_type (some (num n)) = from_number n
from_response_type (some (bool true)) = from_number 1
from_response_type (some (bool false)) = from_number 0
from_response_type (some (str name)) = get name type_names
from_response_type (some (arr vs)) = none
from_response_type (some (obj fs)) = none

-- `dictionary.get(key)`
abbrev pub or_null : Option Value → Value
or_null none = null
or_null (some v) = v

unfoldable pub value_at : String → Dict Value → Value
value_at key d = or_null (get key d)

-- `a == b` of a member of the enum and any value
unfoldable pub is_type : ℕ → Value → Bool
is_type n (num m) = nat_eq m n
is_type n (bool true) = nat_eq 1 n
is_type n (bool false) = nat_eq 0 n
is_type n _ = false

unfoldable pub is_null : Value → Bool
is_null null = true
is_null _ = false
