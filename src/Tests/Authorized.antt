-- ===== src/Tests/Authorized.antt =====
-- A server that allows one of two agents to one user.
use nora_fleet.Common.{
  ◌≡◌, refl, ◌↔◌, Bool, true, false, ◌&&◌, some, [], ◌∷◌, ◌==◌, eq_iff, elem, In, keys, arith,
  if◌then◌else◌,
}
use nora_fleet.Authorization.{
  FgaClient, object_text, entity_text, id_text, identifiers, open_fga, fga_list, fga_list_id,
  request_user, identifier, after_colon, up_to_colon, AgentAuthorizationPolicy, actor_of,
  list_agents, allow_agent, intersection, keep_listed,
}
use nora_fleet.Reservations.{has_char}
use nora_fleet.Authorization.Laws.{IsConsistent, list_agents_lem}
use nora_fleet.Authorization.Fga.{IsServer, open_fga-IsConsistent}

abbrev client : FgaClient
client = record {
  check = λ user relation object. user == "User:ann" && object == "Network:music";
  list_objects = λ user relation type. if type == "Network" then "Network:music" ∷ [] else [];
}

abbrev policy : AgentAuthorizationPolicy Bool
policy = record {
  allowed_agents = ("music", true) ∷ ("news", true) ∷ [];
  authorizer = open_fga client false;
  actor_key = "User";
  resource_key = "Network";
  allow_relation = "read";
}

client-IsServer : IsServer client "User:ann" "read" "Network"
unfolding object_text elem has_char
client-IsServer = (
  (("music", refl, refl), tt),
  λ id plain. ground (
    arith,
    eq_iff "Network:music" (object_text "Network" id),
    eq_iff (object_text "Network" id) "Network:music",
  ),
)

open_fga-IsConsistent_example :
    IsConsistent (open_fga client false) (actor_of policy (some "ann")) "read" "Network"
unfolding entity_text id_text object_text has_char
open_fga-IsConsistent_example =
    open_fga-IsConsistent client false (actor_of policy (some "ann")) "read" "Network" refl refl
      client-IsServer

list_agents_lem_example :
    In "music" ("music" ∷ [])
    ↔ ((p : Bool) × (allow_agent policy "music" (some "ann") ≡ some (true, some p)))
unfolding list_agents intersection keep_listed open_fga fga_list fga_list_id identifiers identifier
    after_colon up_to_colon request_user elem has_char keys
list_agents_lem_example =
    list_agents_lem policy (some "ann") ("music" ∷ []) "music" open_fga-IsConsistent_example refl
      refl
