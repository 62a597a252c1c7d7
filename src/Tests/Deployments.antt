-- ===== src/Tests/Deployments.antt =====
-- Reservations and their deployments, at small inputs; and private data on its way to an agent.
use nora_fleet.Common.{
  String, ◌≡◌, ◌↔◌, refl, true, false, none, some, [], ◌∷◌, ◌++◌, Dict, get, put, All, Value, null,
  bool, str, obj, end, field,
}
use nora_fleet.Reservations.{AgentReservation, Accumulating, ok, event, NetworkValidator, deploy}
use nora_fleet.Reservations.Deploy.{Accepts, deploy_confirmed}
use nora_fleet.Redactor.{
  SlyDataRedactor, truthy, is_true, find_allowance, filter_config, filter_by, allow_rules,
  basis_entries, maybe_empty, redact, let_through,
}
use nora_fleet.Redactor.Allowance.{Granted, filter_config_sound}
use nora_fleet.Tests.Networks.{extract}

abbrev uuid : String
uuid = "1f0c"

abbrev reserved : AgentReservation
reserved = record {
  id = uuid;
  prefix = "travel-";
  lifetime_in_seconds = 60;
  expiration_time_in_seconds = 0;
}

abbrev accumulating : Accumulating
accumulating = record {
  max_lifetime_in_seconds = 100;
  agent_name = "designer";
  deployments = [];
  supporting_reservation = none;
  external_networks = none;
  mcp_servers = none;
}

abbrev accept_all : NetworkValidator
accept_all external_networks mcp_servers name spec = []

deploy_confirmed_example :
    (deploy accept_all accumulating ((reserved, null) ∷ []) true 3
      ≡ ok (
        some 3,
        record accumulating {
          deployments = accumulating.deployments ++ (event 3, (reserved, null) ∷ []) ∷ [];
        },
      ))
    ↔ All (Accepts accept_all accumulating) ((reserved, null) ∷ [])
deploy_confirmed_example = deploy_confirmed accept_all accumulating (reserved, null) [] 3

-- A redactor that hands the login on, under another name, and keeps the rest back.
abbrev allowance : Value
allowance = obj (field "login" (str "user") (field "password" (bool false) end))

abbrev redactor : SlyDataRedactor
redactor = record {
  agent_tool_spec = obj (field "allow" allowance end);
  config_keys = "allow" ∷ [];
  allow_empty_dict = true;
}

abbrev private_data : Value
private_data = obj (field "login" (str "me") (field "password" (str "secret") end))

abbrev closed_redactor : SlyDataRedactor
closed_redactor = record {
  agent_tool_spec = obj end;
  config_keys = "allow" ∷ [];
  allow_empty_dict = false;
}

filter_config_sound_example :
    (rules : Dict Value) × (allow_rules
        (find_allowance extract redactor.agent_tool_spec redactor.config_keys (obj end))
      ≡ some rules)
    × Granted rules (basis_entries private_data) "user" (str "me")
unfolding filter_config filter_by find_allowance allow_rules is_true truthy basis_entries
    maybe_empty redact let_through get put
filter_config_sound_example =
    filter_config_sound extract redactor private_data (field "user" (str "me") end) "user"
      (str "me") refl refl refl
