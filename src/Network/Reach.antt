-- ===== src/Network/Reach.antt =====
-- unreachable_nodes_network_validator.py: front men, and the agents that the front man reaches.
pub mod Walks
pub mod Search
pub mod FrontMen
use nora_fleet.Common.{
  ℕ, zero, suc, String, Bool, true, false, not, ◌||◌, ◌&&◌, Option, none, some, List, [], ◌∷◌, ◌++◌,
  if◌then◌else◌, Dict, get, contains, keys, length, is_empty, elem, set_add, set_update, set_minus,
  ◌>>=◌, Value,
}
use nora_fleet.Network.{
  Extract, is_url_or_path, remove_dictionary_tools, spec_of, coerce_tools, coerce_args_tools,
}

-- The two sets that the traversal mutates.
pub record Traversal : Type 0 where
  pub visited : List String
  pub reachable : List String

drop_urls : List String → List String
unfolding is_url_or_path
drop_urls [] = []
drop_urls (tool ∷ tools) =
    let rest = drop_urls tools in if is_url_or_path tool then rest else tool ∷ rest

-- The loop over the child agents, given the visit of one of them.
unfoldable pub visit_all :
    (String → Traversal → Option Traversal) → List String → Traversal → Option Traversal
visit_all visit [] s = some s
visit_all visit (child ∷ children) s = visit child s >>= visit_all visit children

pub data StructureError : Type 0 where
  no_front_man : StructureError
  multiple_front_men : List String → StructureError
  unreachable_agents : List String → StructureError

-- a single agent is always a front man
or_single : List String → Dict Value → List String
or_single [] ((name, spec) ∷ []) = name ∷ []
or_single front_men _ = front_men

unreachable_errors : List String → List StructureError
unreachable_errors [] = []
unreachable_errors (a ∷ as') = unreachable_agents (a ∷ as') ∷ []

module _ (extract : Extract) where
  unfoldable pub get_agent_down_chains : Value → List String
  unfolding drop_urls
  get_agent_down_chains spec =
      drop_urls
        (remove_dictionary_tools (coerce_tools extract spec ++ coerce_args_tools extract spec))

  -- the loop that fills `has_down_chains` and `all_down_chains`
  scan_down_chains : Dict Value → List String → List String → List String × List String
  scan_down_chains [] has every = (has, every)
  scan_down_chains ((name, spec) ∷ rest) has every =
      let down_chains = get_agent_down_chains spec in
      scan_down_chains rest (if is_empty down_chains then has else set_add name has)
        (set_update every down_chains)

  unfoldable pub find_all_front_man_agents : Dict Value → List String
  unfolding scan_down_chains or_single
  find_all_front_man_agents net =
      let (has, every) = scan_down_chains net [] [] in or_single (set_minus has every) net

  -- The recursion of `dfs_reachability_traversal` with a bound on its depth; `none` is a bound
  -- that was met.
  unfoldable pub dfs_reachability_traversal : Dict Value → ℕ → String → Traversal → Option Traversal
  dfs_reachability_traversal net zero agent s = none
  dfs_reachability_traversal net (suc fuel) agent s =
      if elem agent s.visited || not (contains agent net)
      then some s
      else visit_all (dfs_reachability_traversal net fuel)
          (get_agent_down_chains (spec_of net agent))
          (record { visited = agent ∷ s.visited; reachable = agent ∷ s.reachable })

  unfoldable pub find_unreachable_agents : Dict Value → String → Option (List String)
  find_unreachable_agents net front_man =
      dfs_reachability_traversal net (suc (length net)) front_man
        (record { visited = []; reachable = [] })
      >>= λ s. some (set_minus (keys net) s.reachable)

  check_front_men : Dict Value → List String → Option (List StructureError)
  unfolding unreachable_errors
  check_front_men net [] = some (no_front_man ∷ [])
  check_front_men net (f ∷ []) =
      find_unreachable_agents net f >>= λ missing. some (unreachable_errors missing)
  check_front_men net front_men = some (multiple_front_men front_men ∷ [])

  -- `validate_name_to_spec_dict`
  unfoldable pub validate_structure : Dict Value → Option (List StructureError)
  unfolding check_front_men
  validate_structure net = check_front_men net (find_all_front_man_agents net)
