-- ===== src/Messages/Processors.antt =====
-- nora_fleet/message/processors: what is gathered from a stream of messages, and
-- nora_fleet/message/parsers/structure: the choice of a parser for the structure in a text. The
-- parser of JSON is an argument. `none` is an exception.
use Prim.Native.Nat.{ℕ, ◌+◌}
use Prim.Native.String as Text
use Prim.Native.Char.{code}
use nora_fleet.Common.{
  String, Bool, true, false, not, ◌&&◌, Option, none, some, List, [], ◌∷◌, if◌then◌else◌, ◌==◌, leb,
  nat_eq, Dict, get, put, Value, Fields, null, bool, num, str, arr, obj, nil, cons, end, field,
  elements, ◌>>=◌,
}
use nora_fleet.Messages.{agent_framework, from_response_type, value_at, is_type, is_null}
use nora_fleet.Messages.Filters.{allow_answer, allow_chat_context, allow_token_accounting}

-- What a structure parser finds in a content: the structure, with the remainder of the content.
abbrev pub StructureParser : Type 0
StructureParser = Value → Option (Option (Fields × String))

-- `parser_type.lower() == "json"`
unfoldable pub lower_code : ℕ → ℕ
lower_code c = if leb b'A' c && leb c b'Z' then c + 32 else c

unfoldable pub lower_is : List ℕ → String → Bool
unfolding lower_code
lower_is [] Text.[] = true
lower_is [] (Text.◌∷◌ c s) = false
lower_is (l ∷ ls) Text.[] = false
lower_is (l ∷ ls) (Text.◌∷◌ c s) = nat_eq (lower_code (code c)) l && lower_is ls s

-- structure_parser_factory.py
unfoldable pub create_structure_parser : StructureParser → Value → Option StructureParser
unfolding lower_is
create_structure_parser json (str s) =
    if lower_is (b'j' ∷ b's' ∷ b'o' ∷ b'n' ∷ []) s then some json else none
create_structure_parser json _ = none

-- first_available_structure_parser.py: `parse_structure`
unfoldable pub or_next :
    StructureParser → Value → Option (Fields × String) → Option (Option (Fields × String))
or_next next content (some found) = some (some found)
or_next next content none = next content

unfoldable pub try_parser : Option StructureParser → StructureParser → StructureParser
unfolding or_next
try_parser none next content = next content
try_parser (some parser) next content = parser content >>= λ found. or_next next content found

unfoldable pub first_available : StructureParser → List Value → StructureParser
unfolding try_parser create_structure_parser
first_available json [] content = some none
first_available json (format ∷ formats) content =
    try_parser (create_structure_parser json format) (first_available json formats) content

-- answer_message_processor.py
pub record AnswerMessageProcessor : Type 0 where
  pub answer : Value
  pub structure : Value
  pub answer_origin : Value
  pub structure_formats : List Value

unfoldable pub formats_of : Value → Option (List Value)
formats_of null = some []
formats_of (str s) = some (str s ∷ [])
formats_of (arr vs) = some (elements vs)
formats_of _ = none

unfoldable pub new_answer_processor : Value → Option AnswerMessageProcessor
unfolding formats_of
new_answer_processor structure_formats = formats_of structure_formats >>= λ formats.
    some (record {
      answer = null;
      structure = null;
      answer_origin = null;
      structure_formats = formats;
    })

unfoldable pub keep : Value → Value → Value
unfolding is_null
keep v old = if is_null v then old else v

-- what the parser found in the text; the structure is None where it found none
unfoldable pub record_parsed :
    AnswerMessageProcessor → Option (Fields × String) → AnswerMessageProcessor
record_parsed r none = record {
  answer = r.answer;
  structure = null;
  answer_origin = r.answer_origin;
  structure_formats = r.structure_formats;
}
record_parsed r (some (fields, remainder)) = record {
  answer = str remainder;
  structure = obj fields;
  answer_origin = r.answer_origin;
  structure_formats = r.structure_formats;
}

-- the origin, the text and the structure of a message that passed the filter
unfoldable pub record_parts :
    AnswerMessageProcessor → Value → Value → Value → AnswerMessageProcessor
unfolding keep
record_parts r origin text structure = record {
  answer = keep text r.answer;
  structure = keep structure r.structure;
  answer_origin = keep origin r.answer_origin;
  structure_formats = r.structure_formats;
}

unfoldable pub record_answer :
    StructureParser → AnswerMessageProcessor → Value → Value → Value → Option AnswerMessageProcessor
unfolding record_parts is_null first_available record_parsed
record_answer json r origin text structure =
    if is_null structure && not (is_null text)
    then (first_available json r.structure_formats text >>= λ found.
        some (record_parsed (record_parts r origin text structure) found))
    else some (record_parts r origin text structure)

unfoldable pub process_answer :
    StructureParser → AnswerMessageProcessor → Dict Value → Value → Option AnswerMessageProcessor
unfolding allow_answer record_answer value_at
process_answer json r message message_type = allow_answer message message_type >>= λ allowed.
    if not allowed
    then some r
    else record_answer json r (value_at "origin" message) (value_at "text" message)
        (value_at "structure" message)

-- message_processor.py: `process_messages`
unfoldable pub process_messages :
    StructureParser → AnswerMessageProcessor → List (Dict Value) → Option AnswerMessageProcessor
unfolding process_answer value_at
process_messages json r [] = some r
process_messages json r (message ∷ messages) =
    process_answer json r message (value_at "type" message) >>= λ r'.
    process_messages json r' messages

-- structure_message_processor.py: `len(text) == 0`, and `process_message`, which changes the message
unfoldable pub is_empty_text : Value → Option Bool
is_empty_text null = some true
is_empty_text (bool b) = none
is_empty_text (num n) = none
is_empty_text (str s) = some (s == "")
is_empty_text (arr nil) = some true
is_empty_text (arr (cons v vs)) = some false
is_empty_text (obj end) = some true
is_empty_text (obj (field k v fs)) = some false

unfoldable pub put_structure : Dict Value → Option (Fields × String) → Dict Value
put_structure message none = message
put_structure message (some (fields, remainder)) =
    put "structure" (obj fields) (put "text" (str remainder) message)

unfoldable pub process_structure :
    StructureParser → List Value → Dict Value → Value → Option (Dict Value)
unfolding first_available put_structure is_empty_text value_at is_null
process_structure json formats message message_type =
    if not (is_type agent_framework message_type)
    then some message
    else if not (is_null (value_at "structure" message))
    then some message
    else is_empty_text (value_at "text" message) >>= λ empty_text.
        if empty_text
        then some message
        else first_available json formats (value_at "text" message) >>= λ found.
            some (put_structure message found)

-- chat_context_message_processor.py
pub record ChatContextMessageProcessor : Type 0 where
  pub chat_context : Value
  pub sly_data : Value

abbrev pub or_default : Option Value → Value → Value
or_default none old = old
or_default (some v) old = v

unfoldable pub process_chat_context :
    ChatContextMessageProcessor → Dict Value → Value → Option ChatContextMessageProcessor
unfolding allow_chat_context
process_chat_context r message message_type = allow_chat_context message message_type >>= λ allowed.
    if not allowed
    then some r
    else some (record {
      chat_context = or_default (get "chat_context" message) r.chat_context;
      sly_data = or_default (get "sly_data" message) r.sly_data;
    })

-- token_accounting_message_processor.py
unfoldable pub process_token_accounting : Value → Dict Value → Value → Option Value
unfolding allow_token_accounting keep value_at
process_token_accounting token_accounting message message_type =
    allow_token_accounting message message_type >>= λ allowed.
    if not allowed
    then some token_accounting
    else some (keep (value_at "structure" message) token_accounting)

-- composite_message_processor.py: the processors share a state, and the message, which they may change
pub record MessageProcessor (S : Type 0) : Type 0 where
  pub process_message : Value → Dict Value × S → Option (Dict Value × S)
  pub should_block_downstream_processing : Dict Value → Value → Bool

unfoldable pub process_each :
    {S : Type 0} → List (MessageProcessor S) → Value → Dict Value × S → Option (Dict Value × S)
process_each [] message_type s = some s
process_each (p ∷ ps) message_type s = p.process_message message_type s >>= λ t.
    if p.should_block_downstream_processing t.0 message_type
    then some t
    else process_each ps message_type t

-- a type that is None is taken from the message
unfoldable pub type_or_own : Dict Value → Value → Option Value
unfolding from_response_type
type_or_own message null = from_response_type (get "type" message) >>= λ n. some (num n)
type_or_own message message_type = some message_type

unfoldable pub process_composite :
    {S : Type 0} → List (MessageProcessor S) → Value → Dict Value × S → Option (Dict Value × S)
unfolding process_each type_or_own
process_composite ps message_type s =
    type_or_own s.0 message_type >>= λ use_type. process_each ps use_type s
