-- ===== src/Mcp.antt =====
-- nora_fleet/service/mcp: the handler of MCP requests (handlers/mcp_root_handler.py) and its sessions
-- (session). The validators of the JSON schemas, the generator of session ids
-- and the processors of the methods are passed in. `none` is an exception.
pub mod Sessions
pub mod Installed
pub mod Phases
pub mod Lifecycle
use nora_fleet.Common.{
  String, Bool, true, false, not, ◌&&◌, Option, none, some, List, [], ◌∷◌, if◌then◌else◌, ◌==◌,
  is_empty, is_some, Dict, get, put, remove, contains, Value, Fields, null, str, obj, end, entries,
  ◌>>=◌,
}
use nora_fleet.Messages.{or_null, value_at}
use nora_fleet.Messages.Json.{strip_text}

-- interfaces/client_session_policy.py, over what a policy stores. The first argument of
-- `create_session` is the id that a session would get, and its result the id of the session, or None.
pub record ClientSessionPolicy (S : Type 0) : Type 0 where
  pub create_session : String → S → Option String × S
  pub activate_session : Option String → S → Bool × S
  pub delete_session : Option String → S → Bool × S
  pub is_session_active : Option String → S → Bool

-- session/mcp_no_sessions_policy.py
abbrev pub no_sessions : {S : Type 0} → ClientSessionPolicy S
no_sessions = record {
  create_session = λ fresh_id s. (none, s);
  activate_session = λ session_id s. (true, s);
  delete_session = λ session_id s. (true, s);
  is_session_active = λ session_id s. true;
}

-- mcp_server_context.py; what loads the schema of the protocol is left out, but for whether it is read.
pub record McpServerContext (S : Type 0) : Type 0 where
  pub session_policy : Option (ClientSessionPolicy S)
  pub enabled : Bool

unfoldable pub new_context : {S : Type 0} → McpServerContext S
new_context = record { session_policy = none; enabled = false }

unfoldable pub set_enabled :
    {S : Type 0} → Bool → Bool → McpServerContext S → Option (McpServerContext S)
set_enabled is_read enabled c =
    if not c.enabled && enabled
    then (if is_read
        then some (record { session_policy = some no_sessions; enabled = enabled })
        else none)
    else some (record c { enabled = enabled })

-- mcp_errors.py
pub data McpError : Type 0 where
  parse_error invalid_request no_method invalid_session invalid_protocol_version server_error :
      McpError

pub data Status : Type 0 where
  success accepted no_content bad_request unauthorized not_found internal_server_error : Status

pub data Body : Type 0 where
  no_body : Body
  result : Value → Body
  protocol_error : McpError → Body

pub record Response : Type 0 where
  pub status : Status
  pub session_header : Option String
  pub body : Body

-- What a POST request brings: its body, or none where that is no JSON, and two of its headers.
pub record Post : Type 0 where
  pub data_of_body : Option Value
  pub session_id : Option String
  pub protocol_version : Option String
  -- the id that a session created for the request would get
  pub fresh_id : String

-- The rest of the service: `none` is an exception.
pub record Service : Type 0 where
  pub validate : Value → List String
  pub protocol_version : String
  pub handshake_response : Value
  pub validate_tool_call : Value → List String
  pub list_tools : Option Value
  pub call_tool : Value → Dict Value → Option Value
  pub list_resources : Option Value
  pub list_prompts : Option Value

abbrev pub fail : Status → McpError → Response
fail status error = record { status = status; session_header = none; body = protocol_error error }

abbrev pub succeed : Option Value → Response
succeed none = fail internal_server_error server_error
succeed (some v) = record { status = success; session_header = none; body = result v }

-- `data.get(key, {})`
or_empty : Option Value → Value
or_empty none = obj end
or_empty (some v) = v

-- A value that is no dictionary raises where it is asked for a key.
dictionary : Value → Option (Dict Value)
dictionary (obj fs) = some (entries fs)
dictionary _ = none

module _ (service : Service) where
  open service use {validate_tool_call, list_tools, call_tool, list_resources, list_prompts}

  -- the branch of `tools/call`: the arguments are validated before they are taken for a dictionary
  call_with : Dict Value → Value → Response
  unfolding dictionary value_at
  call_with params arguments =
      if is_empty (validate_tool_call arguments)
      then succeed (dictionary arguments >>= λ d. call_tool (value_at "name" params) d)
      else fail bad_request invalid_request

  call_response : Option (Dict Value) → Response
  unfolding call_with or_empty
  call_response none = fail internal_server_error server_error
  call_response (some params) = call_with params (or_empty (get "arguments" params))

  unfoldable pub respond_to_call : Dict Value → Response
  unfolding call_response dictionary or_empty
  respond_to_call data_dict = call_response (dictionary (or_empty (get "params" data_dict)))

  -- the methods other than the handshake
  unfoldable pub respond : String → Dict Value → Response
  unfolding respond_to_call
  respond method data_dict =
      if method == "tools/list"
      then succeed list_tools
      else if method == "tools/call"
      then respond_to_call data_dict
      else if method == "resources/list"
      then succeed list_resources
      else if method == "prompts/list"
      then succeed list_prompts
      else fail bad_request no_method

  -- `protocol_version.strip()` is compared with the one of the service
  unfoldable pub is_supported : Option String → Bool
  unfolding strip_text
  is_supported none = false
  is_supported (some version) = strip_text version == service.protocol_version

  -- `data.get("method")`, which in a valid request is a text; what is none has no branch of its own
  unfoldable pub method_of : Value → String
  method_of (str method) = method
  method_of _ = ""

-- The handler, over the policy of its context.
module _ {S : Type 0} (service : Service) (policy : ClientSessionPolicy S) where
  -- `initialize`, which reads `request_data["params"]`; a session that is None gives no header
  unfoldable pub initialize : Post → Dict Value → S → Response × S
  initialize p data_dict s =
      let (session_id, s') = policy.create_session p.fresh_id s in
      if contains "params" data_dict
      then (
        record {
          status = success;
          session_header = session_id;
          body = result service.handshake_response;
        },
        s',
      )
      else (fail internal_server_error server_error, s)

  unfoldable pub acknowledge : Post → S → Response × S
  acknowledge p s =
      let (activated, s') = policy.activate_session p.session_id s in
      (
        record {
          status = if activated then accepted else not_found;
          session_header = p.session_id;
          body = no_body;
        },
        s',
      )

  -- what follows the handshake
  unfoldable pub in_session : Post → String → Dict Value → S → Response
  unfolding is_supported respond
  in_session p method data_dict s =
      if not (is_supported service p.protocol_version)
      then fail bad_request invalid_protocol_version
      else if not (policy.is_session_active p.session_id s)
      then fail unauthorized invalid_session
      else respond service method data_dict

  unfoldable pub dispatch : Post → String → Dict Value → S → Response × S
  unfolding initialize acknowledge in_session
  dispatch p method data_dict s =
      if method == "initialize"
      then initialize p data_dict s
      else if method == "notifications/initialized"
      then acknowledge p s
      else if method == "ping"
      then (record { status = success; session_header = none; body = no_body }, s)
      else (in_session p method data_dict s, s)

  unfoldable pub post_valid : Post → Value → S → Option (Response × S)
  unfolding dispatch method_of value_at
  post_valid p (obj fs) s =
      some (dispatch p (method_of service (value_at "method" (entries fs))) (entries fs) s)
  post_valid p _ s = none

  unfoldable pub post_body : Post → Option Value → S → Option (Response × S)
  unfolding post_valid
  post_body p none s = some (fail bad_request parse_error, s)
  post_body p (some v) s =
      if is_empty (service.validate v)
      then post_valid p v s
      else some (fail bad_request invalid_request, s)

  -- `post`
  unfoldable pub post : Post → S → Option (Response × S)
  unfolding post_body
  post p s = post_body p p.data_of_body s

-- `delete`; where the policy has no such session, the status is set to 404 and then to 204, as that of
-- the others
unfoldable pub delete : {S : Type 0} → ClientSessionPolicy S → Option String → S → Response × S
delete policy none s = (record { status = unauthorized; session_header = none; body = no_body }, s)
delete policy (some session_id) s =
    let (deleted, s') = policy.delete_session (some session_id) s in
    (
      record {
        status = no_content;
        session_header = none;
        body = if deleted then no_body else protocol_error invalid_session;
      },
      s',
    )
