-- ===== src/Agents.antt =====
-- nora_fleet/internals/network_providers/agent_network_storage.py: the agent networks of the service,
-- and the listeners that are told of their changes. An agent network is any type. Sets of names are
-- lists in the order of the tables.
pub mod Setup
pub mod Listeners
use nora_fleet.Common.{
  ℕ, nat_eq, Bool, true, false, String, Option, none, some, List, [], ◌∷◌, ◌++◌, map, if◌then◌else◌,
  Dict, get, put, remove, keys, set_minus, is_some,
}

-- A listener is told of one change of an agent.
pub data Notice : Type 0 where
  agent_added agent_modified agent_removed : ℕ → String → Notice

module _ (Network : Type 0) where
  pub record AgentNetworkStorage : Type 0 where
    pub agents_table : Dict Network
    pub listeners : List ℕ
    pub told : List Notice

  unfoldable pub add_listener : ℕ → AgentNetworkStorage → AgentNetworkStorage
  add_listener listener s = record s { listeners = s.listeners ++ listener ∷ [] }

  -- `listeners.remove(listener)`: the first one
  unfoldable pub drop_first : ℕ → List ℕ → List ℕ
  drop_first l [] = []
  drop_first l (x ∷ xs) = let rest = drop_first l xs in if nat_eq x l then xs else x ∷ rest

  unfoldable pub remove_listener : ℕ → AgentNetworkStorage → AgentNetworkStorage
  unfolding drop_first
  remove_listener listener s = record s { listeners = drop_first listener s.listeners }

  unfoldable pub add_agent_network : String → Network → AgentNetworkStorage → AgentNetworkStorage
  add_agent_network name network s =
      let is_known = is_some (get name s.agents_table) in
      record s {
        agents_table = put name network s.agents_table;
        told =
            s.told
            ++ map (λ l. if is_known then agent_modified l name else agent_added l name)
                s.listeners;
      }

  unfoldable pub remove_agent_network : String → AgentNetworkStorage → AgentNetworkStorage
  remove_agent_network name s = record s {
    agents_table = remove name s.agents_table;
    told = s.told ++ map (λ l. agent_removed l name) s.listeners;
  }

  unfoldable pub remove_agents : List String → AgentNetworkStorage → AgentNetworkStorage
  remove_agents [] s = s
  remove_agents (name ∷ names) s = remove_agents names (remove_agent_network name s)

  unfoldable pub add_agents : Dict Network → AgentNetworkStorage → AgentNetworkStorage
  add_agents [] s = s
  add_agents ((name, network) ∷ rest) s = add_agents rest (add_agent_network name network s)

  unfoldable pub setup_agent_networks : Dict Network → AgentNetworkStorage → AgentNetworkStorage
  setup_agent_networks agent_networks s =
      add_agents agent_networks
        (remove_agents (set_minus (keys s.agents_table) (keys agent_networks)) s)

  -- `SingleAgentNetworkProvider(agent_name, agents_table).get_agent_network()`
  unfoldable pub get_agent_network : String → AgentNetworkStorage → Option Network
  get_agent_network name s = get name s.agents_table

  unfoldable pub get_agent_names : AgentNetworkStorage → List String
  get_agent_names s = keys s.agents_table
