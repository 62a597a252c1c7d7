-- ===== src/Tests/Handshakes.antt =====
-- Requests to a server without sessions, and a session that is opened and acknowledged.
use nora_fleet.Common.{
  String, ◌≡◌, refl, true, false, none, some, [], ◌∷◌, List, null, str, obj, end, field, get, ◌>>=◌,
}
use nora_fleet.Messages.{value_at}
use nora_fleet.Messages.Json.{strip_text, lstrip, rstrip}
use nora_fleet.Mcp.{
  Post, Service, McpServerContext, no_sessions, new_context, set_enabled, success, result, post,
  method_of, is_supported, respond,
}
use nora_fleet.Mcp.Phases.{Request, posted, phase_after}
use nora_fleet.Mcp.Installed.{answer, IsOpenAnswer, serve_lem}
use nora_fleet.Mcp.Lifecycle.{is_live}

abbrev service : Service
service = record {
  validate = λ v. [];
  protocol_version = "1";
  handshake_response = null;
  validate_tool_call = λ v. [];
  list_tools = some null;
  call_tool = λ name arguments. some null;
  list_resources = some null;
  list_prompts = some null;
}

abbrev asks : String → Post
asks method = record {
  data_of_body = some (obj (field "method" (str method) (field "params" (obj end) end)));
  session_id = some "s";
  protocol_version = some "1";
  fresh_id = "s";
}

abbrev opened : List Request
opened = posted (asks "initialize") ∷ posted (asks "notifications/initialized") ∷ []

-- With McpSessionManager the two requests open a session.
opened-live : is_live service (phase_after service "s" opened none) ≡ true
unfolding method_of value_at get
opened-live = refl

abbrev enabled_context : McpServerContext Unit
enabled_context = record { session_policy = some no_sessions; enabled = true }

-- A request of no session is served.
serve_lem_example :
    (post service no_sessions (asks "tools/list") tt
      ≡ (answer service (asks "tools/list") >>= λ r. some (r, tt)))
    × IsOpenAnswer service (asks "tools/list") (answer service (asks "tools/list"))
unfolding new_context set_enabled
serve_lem_example =
    serve_lem service ((true, true) ∷ (true, false) ∷ (true, true) ∷ []) enabled_context no_sessions
      (asks "tools/list") tt refl refl

tools-listed :
    answer service (asks "tools/list")
    ≡ some (record { status = success; session_header = none; body = result null })
unfolding method_of value_at get is_supported strip_text lstrip rstrip respond
tools-listed = refl
