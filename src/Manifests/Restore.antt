-- ===== src/Manifests/Restore.antt =====
-- registry_manifest_restorer.py: from manifests to the networks that are served. What it calls is the
-- record `Registry`: the restorer of a network from its file, which gives none where that fails; the
-- ManifestNetworkValidator with the names of the external networks; the names of the mapper; the
-- overlay of the package nora_common; and the check of a schedule.
use nora_fleet.Common.{
  String, Bool, Option, none, some, List, [], ◌∷◌, map, if◌then◌else◌, is_empty, Dict, put, keys,
  Value, ◌>>=◌,
}
use Prim.Native.String as Text
use nora_fleet.Redactor.{truthy}
use nora_fleet.Messages.{value_at}
use nora_fleet.Manifests.{filter_manifest, served}

-- A network, with the mark of `set_as_mcp_tool`.
pub record AgentNetwork (N : Type 0) : Type 0 where
  pub network : N
  pub is_mcp_network : Bool

pub record Registry : Type 1 where
  pub Network : Type 0
  pub restore_one : String → String → Option Network
  pub validate : List String → String → Network → List String
  pub network_name : String → String
  pub overlay :
      Dict (Option (AgentNetwork Network))
      → Dict (Option (AgentNetwork Network))
      → Dict (Option (AgentNetwork Network))
  pub is_valid : Value → Bool

module _ (registry : Registry) where
  open registry use {Network, restore_one, validate, network_name, overlay, is_valid}

  -- The two storages, in which a name may have no network, and the periodic configurations.
  pub record Networks : Type 0 where
    pub public : Dict (Option (AgentNetwork Network))
    pub protected : Dict (Option (AgentNetwork Network))
    pub periodic_configs : Dict Value

  unfoldable pub no_networks : Dict Value → Networks
  no_networks periodic_configs = record {
    public = [];
    protected = [];
    periodic_configs = periodic_configs;
  }

  unfoldable pub is_served : Dict Value → Bool
  unfolding truthy value_at
  is_served entry = truthy (value_at "serve" entry)

  unfoldable pub find_external_network_names : Dict (Dict Value) → List String
  find_external_network_names entries = map (λ key. Text.◌++◌ "/" (network_name key)) (keys entries)

  -- a network without errors is marked
  unfoldable pub accept : List String → Dict Value → Network → Option (AgentNetwork Network)
  unfolding truthy value_at
  accept errors entry n =
      if is_empty errors
      then some (record { network = n; is_mcp_network = truthy (value_at "mcp" entry) })
      else none

  unfoldable pub process_one_agent_network :
      List String → String → Dict Value → Option Network → Option (AgentNetwork Network)
  unfolding accept
  process_one_agent_network external name entry none = none
  process_one_agent_network external name entry (some n) = accept (validate external name n) entry n

  unfoldable pub read_one_agent_network :
      String → List String → String → Dict Value → Option (AgentNetwork Network)
  unfolding is_served process_one_agent_network
  read_one_agent_network manifest_file external key entry =
      if is_served entry
      then process_one_agent_network external (network_name key) entry
          (restore_one manifest_file key)
      else none

  unfoldable pub keep_periodic : String → Dict Value → Dict Value → Dict Value
  unfolding truthy value_at
  keep_periodic name entry configs =
      if truthy (value_at "periodic" entry)
      then put name (value_at "periodic" entry) configs
      else configs

  unfoldable pub store : String → Dict Value → Option (AgentNetwork Network) → Networks → Networks
  unfolding keep_periodic truthy value_at
  store name entry n s =
      let configs = keep_periodic name entry s.periodic_configs in
      if truthy (value_at "public" entry)
      then record s { public = put name n s.public; periodic_configs = configs }
      else record s { protected = put name n s.protected; periodic_configs = configs }

  unfoldable pub maybe_store_agent_network :
      Option (AgentNetwork Network) → String → Dict Value → Networks → Networks
  unfolding store is_served
  maybe_store_agent_network none name entry s =
      if is_served entry then s else store name entry none s
  maybe_store_agent_network (some n) name entry s = store name entry (some n) s

  -- the results of the executor, in the order of the entries
  unfoldable pub store_entries : String → List String → Dict (Dict Value) → Networks → Networks
  unfolding maybe_store_agent_network read_one_agent_network
  store_entries manifest_file external [] s = s
  store_entries manifest_file external ((key, entry) ∷ entries) s =
      store_entries manifest_file external entries (
        maybe_store_agent_network (read_one_agent_network manifest_file external key entry)
          (network_name key) entry s)

  -- `restore_one_manifest`, given what the file holds; the periodic configurations are the restorer's
  unfoldable pub restore_one_manifest : String → Dict Value → Dict Value → Option Networks
  unfolding store_entries find_external_network_names no_networks
  restore_one_manifest manifest_file [] periodic_configs = some (no_networks periodic_configs)
  restore_one_manifest manifest_file (entry ∷ rest) periodic_configs =
      filter_manifest is_valid (entry ∷ rest) >>= λ entries. some (
        store_entries manifest_file (find_external_network_names entries) entries
          (no_networks periodic_configs))

  -- the loop of `restore_from_files`, over the files with what they hold
  unfoldable pub overlay_manifests : List (String × Dict Value) → Networks → Option Networks
  unfolding restore_one_manifest
  overlay_manifests [] s = some s
  overlay_manifests ((manifest_file, manifest) ∷ rest) s =
      restore_one_manifest manifest_file manifest s.periodic_configs >>= λ one.
      overlay_manifests rest (record {
        public = overlay s.public one.public;
        protected = overlay s.protected one.protected;
        periodic_configs = one.periodic_configs;
      })

  unfoldable pub served_networks : Networks → Networks
  served_networks s = record s { public = served s.public; protected = served s.protected }

  -- `restore`; two empty dictionaries stand for the empty one of no files
  unfoldable pub restore : List (String × Dict Value) → Option Networks
  unfolding overlay_manifests served_networks no_networks
  restore files = overlay_manifests files (no_networks []) >>= λ s. some (served_networks s)
