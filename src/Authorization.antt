-- ===== src/Authorization.antt =====
-- nora_fleet/service/authorization: who may use which agent network. The client takes the interface
-- `Authorizer`, as the policy of nora_fleet/service/http/server/agent_authorization_policy.py does; the
-- authorizers of null and of openfga implement it. `none` is an exception. OpenFGA itself is a service.
pub mod Objects
pub mod Laws
pub mod Fga
use Prim.Native.Char.{code}
use Prim.Native.String as Text
use nora_fleet.Common.{
  String, Bool, true, false, not, ◌&&◌, Option, none, some, List, [], ◌∷◌, if◌then◌else◌, ◌==◌,
  nat_eq, elem, Dict, get, keys, ◌>>=◌,
}

-- The type and the id of an actor or a resource; an actor without an id has None.
pub record Entity : Type 0 where
  pub type : String
  pub id : Option String

pub record Authorizer : Type 0 where
  pub authorize : Entity → String → Entity → Option Bool
  -- `list` gives None where the authorizer has nothing to say
  pub list : Entity → String → Entity → Option (Option (List String))

-- null/always_yes_authorizer.py and null/always_no_authorizer.py
abbrev pub always_yes : Authorizer
always_yes = record {
  authorize = λ actor action resource. some true;
  list = λ actor relation resource. some none;
}

abbrev pub always_no : Authorizer
always_no = record {
  authorize = λ actor action resource. some false;
  list = λ actor relation resource. some (some []);
}

-- The client of the server: whether a user has a relation to an object, and the objects of a type to
-- which it has one.
pub record FgaClient : Type 0 where
  pub check : String → String → String → Bool
  pub list_objects : Option String → String → String → List String

-- `f"{type}:{id}"`
unfoldable pub id_text : Option String → String
id_text none = "None"
id_text (some id) = id

unfoldable pub object_text : String → String → String
object_text type id = Text.◌++◌ type (Text.◌++◌ ":" id)

unfoldable pub entity_text : Entity → String
unfolding id_text object_text
entity_text e = object_text e.type (id_text e.id)

-- `one_object.split(":")[1]`
unfoldable pub after_colon : String → Option String
after_colon Text.[] = none
after_colon (Text.◌∷◌ c s) =
    let rest = after_colon s in if nat_eq (code c) b':' then some s else rest

unfoldable pub up_to_colon : String → String
up_to_colon Text.[] = Text.[]
up_to_colon (Text.◌∷◌ c s) =
    let rest = up_to_colon s in if nat_eq (code c) b':' then Text.[] else Text.◌∷◌ c rest

unfoldable pub identifier : String → Option String
unfolding after_colon up_to_colon
identifier object = after_colon object >>= λ rest. some (up_to_colon rest)

unfoldable pub identifiers : List String → Option (List String)
unfolding identifier
identifiers [] = some []
identifiers (object ∷ objects) = do
  id ← identifier object
  ids ← identifiers objects
  some (id ∷ ids)

-- the user of a request, or None where neither type nor id is given; the length of None raises
unfoldable pub request_user : Entity → Option (Option String)
unfolding entity_text id_text
request_user actor =
    if not (actor.type == "")
    then some (some (entity_text actor))
    else (actor.id >>= λ id. some (if id == "" then none else some (entity_text actor)))

-- openfga/open_fga_authorizer.py; `fail_on_unauthorized` is an environment variable
module _ (client : FgaClient) (fail_on_unauthorized : Bool) where
  unfoldable pub fga_authorize : Entity → String → Entity → Option Bool
  unfolding entity_text
  fga_authorize actor action resource =
      let authorized = client.check (entity_text actor) action (entity_text resource) in
      if not authorized && fail_on_unauthorized then none else some authorized

  -- For a resource with an id the code tests the coroutine of `authorize`, which is not awaited and is
  -- true, so the id is always listed.
  unfoldable pub fga_list_id :
      Entity → String → String → Option String → Option (Option (List String))
  unfolding request_user identifiers
  fga_list_id actor relation type (some id) = some (some (id ∷ []))
  fga_list_id actor relation type none = do
    user ← request_user actor
    ids ← identifiers (client.list_objects user relation type)
    some (some ids)

  unfoldable pub fga_list : Entity → String → Entity → Option (Option (List String))
  unfolding fga_list_id
  fga_list actor relation resource = fga_list_id actor relation resource.type resource.id

  unfoldable pub open_fga : Authorizer
  unfolding fga_authorize fga_list
  open_fga = record { authorize = fga_authorize; list = fga_list }

-- The policy, over the providers of the agents that there are.
pub record AgentAuthorizationPolicy (Provider : Type 0) : Type 0 where
  pub allowed_agents : Dict Provider
  pub authorizer : Authorizer
  pub actor_key : String
  pub resource_key : String
  pub allow_relation : String

unfoldable pub keep_listed : List String → List String → List String
keep_listed ids [] = []
keep_listed ids (name ∷ names) =
    let rest = keep_listed ids names in if elem name ids then name ∷ rest else rest

-- The intersection of what is authorized and what exists, as a list; its order is that of the names,
-- where the code leaves it open.
unfoldable pub intersection : Option (List String) → List String → List String
unfolding keep_listed
intersection none names = names
intersection (some ids) names = keep_listed ids names

module _ {Provider : Type 0} (policy : AgentAuthorizationPolicy Provider) where
  -- The actor id is `metadata.get(actor_id_metadata_key)`.
  abbrev pub actor_of : Option String → Entity
  actor_of actor_id = record { type = policy.actor_key; id = actor_id }

  unfoldable pub allow_agent : String → Option String → Option (Bool × Option Provider)
  allow_agent agent_name actor_id = do
    is_authorized ←
        policy.authorizer.authorize (actor_of actor_id) policy.allow_relation
          (record { type = policy.resource_key; id = some agent_name })
    some (is_authorized, get agent_name policy.allowed_agents)

  unfoldable pub list_agents : Option String → Option (List String)
  unfolding intersection
  list_agents actor_id = do
    authorized_agents ←
        policy.authorizer.list (actor_of actor_id) policy.allow_relation
          (record { type = policy.resource_key; id = none })
    some (intersection authorized_agents (keys policy.allowed_agents))
