-- ===== src/Reservations.antt =====
-- nora_fleet/internals/reservations: reservations of temporary agent networks, their ids and
-- lifetimes, and the reservationist that accumulates deployments. Times are whole ticks.
pub mod Lifetimes
pub mod Ids
pub mod Deploy
use Prim.Native.Char.{code}
use Prim.Native.String as Text
use nora_fleet.Common.{
  ℕ, ◌+◌, min, String, Bool, true, false, ◌||◌, Option, none, some, List, [], ◌∷◌, ◌++◌,
  if◌then◌else◌, ◌==◌, is_empty, nat_eq, Dict, Value, put,
}

-- agent_reservation.py; `prefix` holds the dash that the constructor adds
pub record AgentReservation : Type 0 where
  pub id : String
  pub prefix : String
  pub lifetime_in_seconds : ℕ
  pub expiration_time_in_seconds : ℕ

with_dash : String → String
with_dash prefix = if prefix == "" then prefix else Text.◌++◌ prefix "-"

or_no_text : Option String → String
or_no_text none = ""
or_no_text (some s) = s

-- `AgentReservation(lifetime, prefix)`, given the uuid that it draws
unfoldable pub new_reservation : ℕ → Option String → String → AgentReservation
unfolding with_dash or_no_text
new_reservation lifetime prefix uuid = record {
  id = uuid;
  prefix = with_dash (or_no_text prefix);
  lifetime_in_seconds = lifetime;
  expiration_time_in_seconds = 0;
}

unfoldable pub get_reservation_id : AgentReservation → String
get_reservation_id r = Text.◌++◌ r.prefix r.id

unfoldable pub set_expiration_from : ℕ → ℕ → AgentReservation → AgentReservation
set_expiration_from use_now max_lifetime r = record r {
  expiration_time_in_seconds = use_now + min r.lifetime_in_seconds max_lifetime;
}

-- A deployment: reservations with the agent network specs that they stand for.
abbrev pub Deployment : Type 0
Deployment = List (AgentReservation × Value)

-- abstract_agent_reservationist.py: `reserve`, and the loop of `deploy_together`
unfoldable pub reserve : ℕ → ℕ → Option String → String → AgentReservation
unfolding new_reservation
reserve max_lifetime lifetime prefix uuid = new_reservation (min lifetime max_lifetime) prefix uuid

unfoldable pub expire_together : ℕ → ℕ → Deployment → Deployment
unfolding set_expiration_from
expire_together use_now max_lifetime [] = []
expire_together use_now max_lifetime ((r, spec) ∷ rest) =
    (set_expiration_from use_now max_lifetime r, spec) ∷ expire_together use_now max_lifetime rest

pub data Exception : Type 0 where
  id_is_none id_is_empty id_has_invalid_characters : Exception
  validation_errors : Dict (List String) → Exception
  not_subscriptable : Exception

pub data Result {ℓ} (A : Type ℓ) : Type ℓ where
  ok : A → Result A
  raises : Exception → Result A

infixl 5 ◌>>=◌
abbrev pub ◌>>=◌ {ℓ κ} : {A : Type ℓ} {B : Type κ} → Result A → (A → Result B) → Result B
ok a >>= f = f a
raises e >>= f = raises e

-- `invalid_char in test_id`
unfoldable pub has_char : ℕ → String → Bool
has_char c Text.[] = false
has_char c (Text.◌∷◌ d s) = nat_eq (code d) c || has_char c s

-- accumulating_agent_reservationist.py: `validate_id`; the characters are `/`, `:` and the blank
check_id : String → Result (Unit {0})
unfolding has_char
check_id test_id =
    if test_id == ""
    then raises id_is_empty
    else if has_char b'/' test_id || has_char b':' test_id || has_char b' ' test_id
    then raises id_has_invalid_characters
    else ok tt

unfoldable pub validate_id : Option String → Result (Unit {0})
unfolding check_id
validate_id none = raises id_is_none
validate_id (some test_id) = check_id test_id

-- The key of an accumulated deployment: an event, by its identity, or the id of a reservation.
pub data DeploymentKey : Type 0 where
  event : ℕ → DeploymentKey
  first_id : String → DeploymentKey

pub record Accumulating : Type 0 where
  pub max_lifetime_in_seconds : ℕ
  pub agent_name : String
  pub deployments : List (DeploymentKey × Deployment)
  pub supporting_reservation : Option AgentReservation
  pub external_networks : Option (List String)
  pub mcp_servers : Option (List String)

check_prefix : Option String → Result (Unit {0})
unfolding validate_id
check_prefix none = ok tt
check_prefix (some prefix) = if prefix == "" then ok tt else validate_id (some prefix)

-- `AccumulatingAgentReservationist.reserve`
unfoldable pub reserve_valid : Accumulating → ℕ → Option String → String → Result AgentReservation
unfolding check_prefix new_reservation
reserve_valid a lifetime prefix uuid = check_prefix prefix >>= λ _.
    ok (new_reservation (min lifetime a.max_lifetime_in_seconds) prefix uuid)

unfoldable pub validate_with :
    Accumulating → Option (List String) → Option (List String) → Accumulating
validate_with a external_networks mcp_servers = record a {
  external_networks = external_networks;
  mcp_servers = mcp_servers;
}

-- `__aenter__`, given the reservation that the supporting reservationist makes
unfoldable pub enter : Accumulating → AgentReservation → Accumulating
enter a supporting = record a { deployments = []; supporting_reservation = some supporting }

-- `__aexit__`: what is handed to the supporting reservationist, and the state that is left
unfoldable pub exit :
    Accumulating → (Option AgentReservation × List (DeploymentKey × Deployment)) × Accumulating
exit a = (
  (a.supporting_reservation, a.deployments),
  record a {
    supporting_reservation = none;
    external_networks = none;
    mcp_servers = none;
    deployments = [];
  },
)

-- `ManifestNetworkValidator(external_network_names, mcp_servers, network_name).validate(spec)`, on
-- specs of which it raises no exception
abbrev pub NetworkValidator : Type 0
NetworkValidator = Option (List String) → Option (List String) → String → Value → List String

raise_if_any : Dict (List String) → Result (Unit {0})
raise_if_any [] = ok tt
raise_if_any (e ∷ errors) = raises (validation_errors (e ∷ errors))

-- `Event()` with a fresh identity on a confirmation. Without one the code evaluates
-- `deployment_dict.keys()[0]`, and a view of keys takes no subscript.
deployment_key : Bool → ℕ → Result (Option ℕ × DeploymentKey)
deployment_key true fresh = ok (some fresh, event fresh)
deployment_key false fresh = raises not_subscriptable

-- What `deploy` does once the errors are gathered.
unfoldable pub finish_deploy :
    Accumulating → Deployment → Bool → ℕ → Dict (List String) → Result (Option ℕ × Accumulating)
unfolding raise_if_any deployment_key
finish_deploy a d confirmation fresh errors = do
  _ ← raise_if_any errors
  key ← deployment_key confirmation fresh
  ok (key.0, record a { deployments = a.deployments ++ (key.1, d) ∷ [] })

module _ (validate_network : NetworkValidator) where
  -- the loop of `deploy` that checks the ids and gathers the errors
  unfoldable pub gather_errors :
      Accumulating → Deployment → Dict (List String) → Result (Dict (List String))
  gather_errors a [] errors = ok errors
  gather_errors a ((r, spec) ∷ rest) errors =
      let key = get_reservation_id r in
      let new_errors = validate_network a.external_networks a.mcp_servers key spec in
      validate_id (some key) >>= λ _.
      gather_errors a rest (if is_empty new_errors then errors else put key new_errors errors)

  -- `deploy`
  unfoldable pub deploy : Accumulating → Deployment → Bool → ℕ → Result (Option ℕ × Accumulating)
  deploy a [] confirmation fresh = ok (none, a)
  deploy a (entry ∷ rest) confirmation fresh =
      gather_errors a (entry ∷ rest) [] >>= finish_deploy a (entry ∷ rest) confirmation fresh
