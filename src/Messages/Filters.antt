-- ===== src/Messages/Filters.antt =====
-- nora_fleet/message/filters: which messages a processor or a client takes. `none` is an exception.
use Prim.Native.String as Text
use nora_fleet.Common.{
  Bool, true, false, not, ◌&&◌, ◌||◌, Option, none, some, List, [], ◌∷◌, if◌then◌else◌, ◌==◌, Dict,
  get, Value, null, bool, num, str, arr, obj, nil, cons, end, field, entries, ◌>>=◌,
}
use nora_fleet.Messages.{ai, agent, agent_framework, from_response_type, value_at, is_type, is_null}

-- A `MessageFilter`, by its `allow_message`.
abbrev pub MessageFilter : Type 0
MessageFilter = Dict Value → Value → Option Bool

-- `allow`, with `get_message_type`
unfoldable pub allow : MessageFilter → Dict Value → Option Bool
allow filter message = from_response_type (get "type" message) >>= λ n. filter message (num n)

-- `origin is not None and len(origin) > 1`
unfoldable pub is_deep : Value → Option Bool
is_deep null = some false
is_deep (bool b) = none
is_deep (num n) = none
is_deep (str Text.[]) = some false
is_deep (str (Text.◌∷◌ c Text.[])) = some false
is_deep (str (Text.◌∷◌ c (Text.◌∷◌ d s))) = some true
is_deep (arr nil) = some false
is_deep (arr (cons v nil)) = some false
is_deep (arr (cons v (cons w vs))) = some true
is_deep (obj end) = some false
is_deep (obj (field k v end)) = some false
is_deep (obj (field k v (field j w fs))) = some true

-- answer_message_filter.py
unfoldable pub allow_answer : MessageFilter
unfolding is_deep value_at is_null
allow_answer message message_type =
    if not (is_type ai message_type || is_type agent_framework message_type)
    then some false
    else is_deep (value_at "origin" message) >>= λ deep. some (
        if deep
        then false
        else not (is_null (value_at "text" message) && is_null (value_at "structure" message)))

-- chat_context_message_filter.py
unfoldable pub allow_chat_context : MessageFilter
unfolding value_at is_null
allow_chat_context message message_type =
    if not (is_type agent_framework message_type)
    then some false
    else some (not (is_null (value_at "chat_context" message)))

-- `structure.get("total_tokens") is None`, where the structure is not None
unfoldable pub has_total : Value → Option Bool
unfolding value_at is_null
has_total null = some false
has_total (obj fs) = some (not (is_null (value_at "total_tokens" (entries fs))))
has_total _ = none

-- token_accounting_message_filter.py
unfoldable pub allow_token_accounting : MessageFilter
unfolding is_deep value_at has_total
allow_token_accounting message message_type =
    if not (is_type agent message_type)
    then some false
    else is_deep (value_at "origin" message) >>= λ deep.
        if deep then some false else has_total (value_at "structure" message)

-- maximal_message_filter.py: `any` of the keys, the empty one of which is false
unfoldable pub allow_all : MessageFilter
allow_all [] message_type = some false
allow_all ((key, v) ∷ message) message_type =
    if not (key == "") then some true else allow_all message message_type

-- compound_message_filter.py
unfoldable pub allow_any : List MessageFilter → MessageFilter
allow_any [] message message_type = some false
allow_any (filter ∷ filters) message message_type = filter message message_type >>= λ yes_to.
    if yes_to then some true else allow_any filters message message_type

-- minimal_message_filter.py
unfoldable pub allow_minimal : MessageFilter
unfolding allow_any
allow_minimal = allow_any (allow_chat_context ∷ [])
