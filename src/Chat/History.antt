-- ===== src/Chat/History.antt =====
-- nora_fleet/internals/chat/chat_history_message_processor.py: the history of a chat that is handed to
-- the client, to be read in again. The maximum is a natural number or none: the code takes a negative
-- one as none. `none` is an exception. The text of a message is a text, or is None or absent.
pub mod Braces
pub mod Length
use Prim.Native.Char.{Char, code}
use Prim.Native.String as Text
use nora_fleet.Common.{
  ℕ, zero, suc, ◌-◌, String, Bool, true, false, not, ◌&&◌, ◌||◌, Option, none, some, List, [], ◌∷◌,
  ◌++◌, if◌then◌else◌, nat_eq, leb, length, Dict, get, put, Value, null, bool, num, str, arr, obj,
  ◌>>=◌,
}
use nora_fleet.Messages.{value_at, is_type, human, system, ai}

pub record ChatHistory : Type 0 where
  pub max_message_history : Option ℕ
  pub message_history : List (Dict Value)
  pub saw_first_system : Bool

-- `text.replace(2 * c, c)`: the flag tells that a first `c` was just read
unfoldable pub halve : ℕ → Bool → String → String
halve c seen Text.[] = Text.[]
halve c seen (Text.◌∷◌ d s) =
    let rest = halve c false s in
    let after_first = halve c true s in
    if nat_eq (code d) c then (if seen then rest else Text.◌∷◌ d after_first) else Text.◌∷◌ d rest

-- `text.replace(c, 2 * c)`
unfoldable pub double : ℕ → String → String
double c Text.[] = Text.[]
double c (Text.◌∷◌ d s) =
    let rest = double c s in
    if nat_eq (code d) c then Text.◌∷◌ d (Text.◌∷◌ d rest) else Text.◌∷◌ d rest

unfoldable pub escape : String → String
unfolding halve double
escape text = double b'}' (double b'{' (halve b'}' false (halve b'{' false text)))

-- `escape_message`: a message without a text is left out; `replace` needs a text
unfoldable pub escape_text : Dict Value → Value → Option (Option (Dict Value))
unfolding escape
escape_text message null = some none
escape_text message (str text) = some (some (put "text" (str (escape text)) message))
escape_text message _ = none

unfoldable pub redact_instructions : Dict Value → Dict Value
redact_instructions message = put "text" (str "<redacted>") message

unfoldable pub append_some : ChatHistory → Option (Dict Value) → ChatHistory
append_some h none = h
append_some h (some message) = record h { message_history = h.message_history ++ message ∷ [] }

unfoldable pub process_message : Dict Value → Value → ChatHistory → Option ChatHistory
unfolding escape_text redact_instructions append_some value_at
process_message message message_type h =
    if not (is_type human message_type || is_type system message_type || is_type ai message_type)
    then some h
    else if not h.saw_first_system && is_type system message_type
    then some
        (append_some (record h { saw_first_system = true }) (some (redact_instructions message)))
    else escape_text message (value_at "text" message) >>= λ kept. some (append_some h kept)

-- `MessageProcessor.process_messages`
unfoldable pub process_each : List (Dict Value) → ChatHistory → Option ChatHistory
unfolding process_message value_at
process_each [] h = some h
process_each (message ∷ messages) h =
    process_message message (value_at "type" message) h >>= λ h'. process_each messages h'

unfoldable pub drop : {A : Type 0} → ℕ → List A → List A
drop zero xs = xs
drop (suc n) [] = []
drop (suc n) (x ∷ xs) = drop n xs

-- the first message, and the last ones of the others; `pop(0)` raises on an empty list
unfoldable pub first_and_last : ℕ → List (Dict Value) → Option (List (Dict Value))
unfolding drop
first_and_last n [] = none
first_and_last n (instructions ∷ rest) = some (instructions ∷ drop (length rest - n) rest)

unfoldable pub curtail : Option ℕ → List (Dict Value) → Option (List (Dict Value))
unfolding first_and_last
curtail none messages = some messages
curtail (some n) messages = if leb n 1 then some messages else first_and_last n messages

-- `process_messages`
unfoldable pub process_history : List (Dict Value) → ChatHistory → Option ChatHistory
unfolding process_each curtail
process_history messages h = do
  h' ← process_each messages h
  left ← curtail h'.max_message_history h'.message_history
  some (record h' { message_history = left })
