-- ===== src/Watcher/Requests.antt =====
-- What a fired interaction asks of its agent network (`initiate_event`), and what the session that
-- serves the request, nora_fleet/session/async_direct_agent_session.py, reads from it.
use nora_fleet.Common.{
  String, ◌≡◌, refl, ap, Bool, true, false, ◌&&◌, Option, none, some, [], ◌∷◌, if◌then◌else◌, Dict,
  get, put, get-put, Value, null, str, obj, end, field, entries, from_entries, arith, ◌>>=◌,
  >>=-eq-some, Bool-cases, inl, inr, some_inj,
}
use nora_fleet.Redactor.{truthy}
use nora_fleet.Network.{Extract}
use nora_fleet.Messages.{value_at, is_null}

-- `interaction.get("metadata") or {}`, of which a dictionary is made. A value that is true and no
-- dictionary is taken to raise.
unfoldable pub metadata_of : Value → Option (Dict Value)
unfolding truthy
metadata_of (obj fs) = some (entries fs)
metadata_of v = if truthy v then none else some []

-- the metadata whose user is the system if there is none
unfoldable pub with_user : Dict Value → Dict Value
unfolding is_null value_at
with_user d = if is_null (value_at "user_id" d) then put "user_id" (str "system") d else d

-- `interaction.get(key, default)`
unfoldable pub get_or : Value → String → Dict Value → Value
get_or v key d = elim (get key d) [ none ↦ v | some w ↦ w ]

unfoldable pub event_request : Dict Value → Dict Value
unfolding get_or
event_request interaction =
    (
      "user_message",
      obj (
          field "type" (str "HUMAN") (
            field "text" (get_or (str "") "text" interaction) (
              field "sly_data" (get_or (obj end) "sly_data" interaction)
                (field "chat_filter" (obj (field "chat_filter_type" (str "MINIMAL") end)) end)))),
    )
    ∷ []

-- `initiate_event`: the request for `streaming_chat` and its metadata, if the agent authorizer allows
-- the network and has a service provider for it
unfoldable pub initiate_event :
    (String → Dict Value → Bool × Bool)
    → String
    → Dict Value
    → Option (Option (Dict Value × Dict Value))
unfolding metadata_of with_user event_request value_at
initiate_event allow_agent name interaction = metadata_of (value_at "metadata" interaction) >>= λ d.
    let metadata = with_user d in
    let (authorized, service_provider) = allow_agent name metadata in
    some
      (if authorized && service_provider then some (event_request interaction, metadata) else none)

-- what `streaming_chat` of the session reads from a request
pub record SessionInput : Type 0 where
  pub user_input : Value
  pub chat_filter : Value
  pub chat_context : Value
  pub sly_data : Value

unfoldable pub session_input : Extract → Dict Value → SessionInput
unfolding value_at
session_input extract request = record {
  user_input = extract (obj (from_entries request)) "user_message.text" null;
  chat_filter = value_at "chat_filter" request;
  chat_context = value_at "chat_context" request;
  sly_data = value_at "sly_data" request;
}

-- `DictionaryExtractor` follows the dots of a key through dictionaries.
abbrev pub FollowsDots : Extract → Type 0
FollowsDots extract =
    (request message : Dict Value) (text default : Value)
    → get "user_message" request ≡ some (obj (from_entries message))
    → get "text" message ≡ some text
    → extract (obj (from_entries request)) "user_message.text" default ≡ text

with_user-user : (d : Dict Value) → is_null (value_at "user_id" (with_user d)) ≡ false
unfolding with_user value_at is_null
with_user-user d = elim (Bool-cases (is_null (value_at "user_id" d))) [
  | inl missing ↦ rw (missing, get-put "user_id" "user_id" (str "system") d) refl
  | inr named ↦ rw (named, with_user) named
]

-- The text of the interaction, and nothing else.
abbrev pub input_of : Dict Value → SessionInput
input_of interaction = record {
  user_input = get_or (str "") "text" interaction;
  chat_filter = null;
  chat_context = null;
  sly_data = null;
}

event_request-input :
    (extract : Extract) (interaction : Dict Value)
    → FollowsDots extract
    → session_input extract (event_request interaction) ≡ input_of interaction
unfolding session_input event_request value_at get
event_request-input extract interaction dots =
    let message =
      ("type", str "HUMAN")
      ∷ ("text", get_or (str "") "text" interaction)
      ∷ ("sly_data", get_or (obj end) "sly_data" interaction)
      ∷ ("chat_filter", obj (field "chat_filter_type" (str "MINIMAL") end))
      ∷ [] in
    ap (λ v. record { user_input = v; chat_filter = null; chat_context = null; sly_data = null })
      (dots (event_request interaction) message (get_or (str "") "text" interaction) null refl refl)

both_true : (p : Bool × Bool) → (p.0 && p.1) ≡ true → p ≡ (true, true)
both_true (true, true) h = refl
both_true (true, false) h = cc
both_true (false, b) h = cc

-- A request that is sent to an agent network was allowed with its metadata, which name a user. The
-- session reads from it the text of the interaction; but no private data, whatever the interaction
-- has under `sly_data`, and no chat filter.
pub initiate_event_lem :
    (extract : Extract) (allow_agent : String → Dict Value → Bool × Bool) (name : String)
    (interaction request metadata : Dict Value)
    → FollowsDots extract
    → initiate_event allow_agent name interaction ≡ some (some (request, metadata))
    → (allow_agent name metadata ≡ (true, true))
      × (is_null (value_at "user_id" metadata) ≡ false)
      × (session_input extract request ≡ input_of interaction)
unfolding initiate_event
initiate_event_lem extract allow_agent name interaction request metadata dots e =
    let (d, p, q) = >>=-eq-some (metadata_of (value_at "metadata" interaction)) _ e in
    elim (Bool-cases ((allow_agent name (with_user d)).0 && (allow_agent name (with_user d)).1)) [
      | inr refused ↦ ground (arith, rw refused at q)
      | inl allowed ↦
          let same = some_inj (some_inj (rw allowed at q)) in
          rw (← ap (λ x. x.0) same, ← ap (λ x. x.1) same)
            (
              both_true (allow_agent name (with_user d)) allowed,
              with_user-user d,
              event_request-input extract interaction dots,
            )
    ]
