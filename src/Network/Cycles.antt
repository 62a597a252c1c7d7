-- ===== src/Network/Cycles.antt =====
-- cycles_network_validator.py: the search for agents on cyclical dependencies.
pub mod Paths
pub mod Steps
pub mod Search
pub mod Verdict
use nora_fleet.Common.{
  ℕ, zero, suc, String, Bool, true, false, Option, none, some, List, [], ◌∷◌, ◌++◌, if◌then◌else◌,
  ◌==◌, Dict, get, contains, put, keys, length, set_update, ◌>>=◌, Value,
}
use nora_fleet.Network.{Extract, remove_dictionary_tools, spec_of, coerce_tools}

-- graph_visitation_state.py
pub data GraphVisitationState : Type 0 where
  unvisited currently_being_processed fully_processed : GraphVisitationState

-- What the recursion mutates: its path, the state of every agent, and the agents found on cycles.
pub record Dfs : Type 0 where
  pub path : List String
  pub state : Dict GraphVisitationState
  pub cyclical : List String

-- `path[path.index(agent):]`; `none` is a ValueError
unfoldable pub from_index : String → List String → Option (List String)
from_index agent [] = none
from_index agent (x ∷ xs) =
    let rest = from_index agent xs in if x == agent then some (x ∷ xs) else rest

-- `path.pop()`; `none` is an IndexError
unfoldable pub pop : List String → Option (List String)
pop [] = none
pop (x ∷ []) = some []
pop (x ∷ y ∷ xs) = pop (y ∷ xs) >>= λ rest. some (x ∷ rest)

-- a back edge: the agent is already on the current path
unfoldable pub found_cycle : String → Dfs → Option Dfs
found_cycle agent s = from_index agent s.path >>= λ cycle.
    some (record s { cyclical = set_update s.cyclical (cycle ++ agent ∷ []) })

unfoldable pub enter : String → Dfs → Dfs
enter agent s = record s {
  path = s.path ++ agent ∷ [];
  state = put agent currently_being_processed s.state;
}

unfoldable pub leave : String → Dfs → Option Dfs
leave agent s = pop s.path >>= λ path.
    some (record s { path = path; state = put agent fully_processed s.state })

pub data CycleError : Type 0 where
  cyclical_dependencies : List String → CycleError

unfoldable pub initial_state : Dict Value → Dict GraphVisitationState → Dict GraphVisitationState
initial_state [] state = state
initial_state ((name, spec) ∷ rest) state = initial_state rest (put name unvisited state)

pub cycle_errors : List String → List CycleError
cycle_errors [] = []
cycle_errors (a ∷ rest) = cyclical_dependencies (a ∷ rest) ∷ []

module _ (extract : Extract) (net : Dict Value) where
  -- the child agents of an agent, without the dictionary-form tools
  unfoldable pub safe_down_chains : String → List String
  safe_down_chains agent = remove_dictionary_tools (coerce_tools extract (spec_of net agent))

  unfoldable pub visit_children : (String → Dfs → Option Dfs) → List String → Dfs → Option Dfs
  visit_children visit [] s = some s
  visit_children visit (child ∷ rest) s =
      (if contains child net then visit child s else some s) >>= visit_children visit rest

  -- Steps 1 to 8 for the state that the agent is found in, given the visit of a child agent.
  unfoldable pub visit_as :
      GraphVisitationState → (String → Dfs → Option Dfs) → String → Dfs → Option Dfs
  visit_as currently_being_processed visit agent s = found_cycle agent s
  visit_as fully_processed visit agent s = some s
  visit_as unvisited visit agent s =
      visit_children visit (safe_down_chains agent) (enter agent s) >>= leave agent

  -- The recursion with a bound on its depth. `none` is a bound that was met, or an exception.
  unfoldable pub dfs_cycle_detection : ℕ → String → Dfs → Option Dfs
  dfs_cycle_detection zero agent s = none
  dfs_cycle_detection (suc fuel) agent s =
      get agent s.state >>= λ state. visit_as state (dfs_cycle_detection fuel) agent s

  -- a search is started, on an empty path, from an agent that is still unvisited
  unfoldable pub start_from : GraphVisitationState → ℕ → String → Dfs → Option Dfs
  start_from unvisited fuel agent s = dfs_cycle_detection fuel agent (record s { path = [] })
  start_from _ fuel agent s = some s

  unfoldable pub start_all : ℕ → List String → Dfs → Option Dfs
  start_all fuel [] s = some s
  start_all fuel (agent ∷ rest) s =
      (get agent s.state >>= λ state. start_from state fuel agent s) >>= start_all fuel rest

  unfoldable pub find_cyclical_agents : Option (List String)
  find_cyclical_agents =
      start_all (suc (length net)) (keys net)
        (record { path = []; state = initial_state net []; cyclical = [] })
      >>= λ s. some s.cyclical

  -- `validate_name_to_spec_dict`
  unfoldable pub validate_cycles : Option (List CycleError)
  unfolding cycle_errors
  validate_cycles = find_cyclical_agents >>= λ agents. some (cycle_errors agents)
