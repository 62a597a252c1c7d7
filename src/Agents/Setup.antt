-- ===== src/Agents/Setup.antt =====
-- What the service offers after its agents were set up anew.
use nora_fleet.Common.{
  String, ◌≡◌, refl, Option, none, some, List, [], ◌∷◌, if◌then◌else◌, Dict, get, keys, get-put,
  get-remove, IsUnique, set_minus, elem-set_minus, elem-keys, elem, elem-cons, arith, eq_iff,
}
use nora_fleet.Agents.{
  AgentNetworkStorage, add_agent_network, remove_agent_network, remove_agents, add_agents,
  setup_agent_networks, get_agent_network,
}

module _ (Network : Type 0) where
  get-remove_agents :
      (names : List String) (s : AgentNetworkStorage Network) (x : String)
      → get x (remove_agents Network names s).agents_table
        ≡ (if elem x names then none else get x s.agents_table)
  unfolding remove_agents remove_agent_network elem
  get-remove_agents [] s x = ground arith
  get-remove_agents (name ∷ names) s x = ground (
    arith,
    get-remove_agents names (remove_agent_network Network name s) x,
    get-remove name x s.agents_table,
    elem-cons x name names,
    eq_iff name x,
    eq_iff x name,
  )

  abbrev pub or_else : Option Network → Option Network → Option Network
  or_else none o = o
  or_else (some n) o = some n

  get-add_agents :
      (new : Dict Network) (s : AgentNetworkStorage Network) (x : String)
      → IsUnique new
      → get x (add_agents Network new s).agents_table ≡ or_else (get x new) (get x s.agents_table)
  unfolding add_agents add_agent_network get
  get-add_agents [] s x u = refl
  get-add_agents ((name, network) ∷ rest) s x u = ground (
    arith,
    get-add_agents rest (add_agent_network Network name network s) x u.1,
    get-put name x network s.agents_table,
    eq_iff name x,
    u.0,
  )

  -- After a setup with a collection that lists each name once the service offers exactly the networks of the new collection, whatever it offered
  -- before.
  pub setup_agent_networks_lem :
      (new : Dict Network) (s : AgentNetworkStorage Network) (x : String)
      → IsUnique new
      → get_agent_network Network x (setup_agent_networks Network new s) ≡ get x new
  unfolding get_agent_network setup_agent_networks
  setup_agent_networks_lem new s x u = ground (
    arith,
    get-add_agents new (remove_agents Network (set_minus (keys s.agents_table) (keys new)) s) x u,
    get-remove_agents (set_minus (keys s.agents_table) (keys new)) s x,
    elem-set_minus x (keys s.agents_table) (keys new),
    elem-keys x s.agents_table,
    elem-keys x new,
  )
