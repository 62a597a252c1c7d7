-- ===== src/Mcp/Sessions.antt =====
-- session/mcp_session_manager.py: the policy that keeps sessions. It is another implementation of the
-- interface, which no context installs. A session's id is drawn at random, and is passed in.
use nora_fleet.Common.{
  String, Bool, true, false, Option, none, some, if◌then◌else◌, Dict, get, put, remove, contains,
}
use nora_fleet.Mcp.{ClientSessionPolicy}

-- The sessions by their ids, each with its flag `session_is_active`.
abbrev pub Sessions : Type 0
Sessions = Dict Bool

unfoldable pub create_session : String → Sessions → Option String × Sessions
create_session session_id sessions = (some session_id, put session_id false sessions)

unfoldable pub activate_session : Option String → Sessions → Bool × Sessions
activate_session none sessions = (false, sessions)
activate_session (some session_id) sessions =
    if contains session_id sessions then (true, put session_id true sessions) else (false, sessions)

unfoldable pub delete_session : Option String → Sessions → Bool × Sessions
delete_session none sessions = (false, sessions)
delete_session (some session_id) sessions =
    if contains session_id sessions then (true, remove session_id sessions) else (false, sessions)

unfoldable pub is_session_active : Option String → Sessions → Bool
is_session_active none sessions = false
is_session_active (some session_id) sessions = elim (get session_id sessions) [
  | none ↦ false
  | some active ↦ active
]

abbrev pub session_manager : ClientSessionPolicy Sessions
session_manager = record {
  create_session = create_session;
  activate_session = activate_session;
  delete_session = delete_session;
  is_session_active = is_session_active;
}
