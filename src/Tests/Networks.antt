-- ===== src/Tests/Networks.antt =====
-- Small networks for the validators of nora_fleet/internals/validation/network.
use nora_fleet.Common.{
  String, ◌≡◌, refl, true, false, not, ◌&&◌, ◌||◌, ◌↔◌, Option, none, some, List, [], ◌∷◌, Dict,
  get, put, keys, set_update, contains, elem, In, IsUnique, Value, Items, str, arr, obj, nil, cons,
  end, field, entries,
}
use nora_fleet.Network.{Extract, is_url_or_path, remove_dictionary_tools, spec_of, coerce_tools}
use nora_fleet.Network.Cycles.{
  cycle_errors, find_cyclical_agents, validate_cycles, initial_state, start_all, start_from,
  dfs_cycle_detection, visit_as, visit_children, safe_down_chains, enter, leave, found_cycle,
  from_index, pop,
}
use nora_fleet.Network.Cycles.Paths.{Leads}
use nora_fleet.Network.Cycles.Verdict.{validate_cycles_lem}
use nora_fleet.Network.Reach.{
  StructureError, validate_structure, find_unreachable_agents, find_all_front_man_agents,
}
use nora_fleet.Network.Reach.Walks.{Reaches}
use nora_fleet.Network.Reach.Search.{find_unreachable_agents_lem}
use nora_fleet.Network.Reach.FrontMen.{
  IsSound, leads, is_called, front_men_lem, validate_structure_lem,
}
use text.Mathlib.Text.{starts_with}
use nora_fleet.Network.Missing.{find_missing_agent_nodes, check_agents, check_tools, append_missing}
use nora_fleet.Network.Urls.{
  known_urls, ends_with, is_unrecognized, check_safe_urls, check_urls, validate_urls,
}
use nora_fleet.Network.Urls.Resolved.{validate_urls_lem}
use nora_fleet.Network.Missing.Lookup.{listed, missing_of, find_missing_agent_nodes_lem}

-- An extractor that looks a key up in the dictionary itself.
abbrev found_or : Value → Option Value → Value
found_or default none = default
found_or default (some v) = v

abbrev pub extract : Extract
extract (obj fs) key default = found_or default (get key (entries fs))
extract _ key default = default

abbrev texts : List String → Items
texts [] = nil
texts (s ∷ ss) = cons (str s) (texts ss)

abbrev agent_with : List String → Value
agent_with tools = obj (field "tools" (arr (texts tools)) end)

-- A calls B, B calls C and C calls A; and A calls D, which calls C.
abbrev two_loops : Dict Value
two_loops =
    ("A", agent_with ("B" ∷ "D" ∷ []))
    ∷ ("B", agent_with ("C" ∷ []))
    ∷ ("C", agent_with ("A" ∷ []))
    ∷ ("D", agent_with ("C" ∷ []))
    ∷ []

-- D is on a cycle, and is not among the agents that the check names.
two_loops-found : find_cyclical_agents extract two_loops ≡ some ("C" ∷ "B" ∷ "A" ∷ [])
unfolding find_cyclical_agents initial_state start_all start_from dfs_cycle_detection visit_as
    visit_children safe_down_chains enter leave found_cycle from_index pop remove_dictionary_tools
    spec_of coerce_tools keys get put set_update
two_loops-found = refl

-- A front man, a helper, a stray agent, and a tool that is nowhere.
abbrev office : Dict Value
office =
    ("front", agent_with ("helper" ∷ "/other" ∷ "lost" ∷ []))
    ∷ ("helper", agent_with [])
    ∷ ("stray", agent_with [])
    ∷ []

validate_cycles_lem_example :
    (found : List String) × (validate_cycles extract two_loops ≡ some (cycle_errors found))
    × ((x : String) → In x found → Leads extract two_loops x x)
    × ((cycle_errors found ≡ []) ↔ ((x : String) → ¬ Leads extract two_loops x x))
validate_cycles_lem_example = validate_cycles_lem extract two_loops

validate_structure_lem_example :
    (errors : List StructureError) × (validate_structure extract office ≡ some errors)
    × ((errors ≡ []) ↔ IsSound extract office (find_all_front_man_agents extract office))
validate_structure_lem_example = validate_structure_lem extract office

find_unreachable_agents_lem_example :
    (missing : List String) × (find_unreachable_agents extract office "front" ≡ some missing)
    × ((x : String)
        → (In x missing ↔ ((contains x office ≡ true) × ¬ Reaches extract office "front" x))
          × (contains x office ≡ true
              → elem x missing ≡ false
              → ∥ Reaches extract office "front" x ∥₁))
find_unreachable_agents_lem_example = find_unreachable_agents_lem extract office "front"

abbrev helpers : Dict Value
helpers = ("stray", agent_with []) ∷ []

front_men_lem_example :
    elem "front" (find_all_front_man_agents extract office)
    ≡ (leads extract "front" office && not (is_called extract "front" office))
front_men_lem_example =
    front_men_lem extract ("front", agent_with ("helper" ∷ "/other" ∷ "lost" ∷ []))
      ("helper", agent_with []) helpers "front"

office-IsUnique : IsUnique office
unfolding get
office-IsUnique = (refl, (refl, (refl, tt)))

find_missing_agent_nodes_lem_example :
    get "front" (find_missing_agent_nodes extract office)
    ≡ listed (missing_of extract office (agent_with ("helper" ∷ "/other" ∷ "lost" ∷ [])))
unfolding get
find_missing_agent_nodes_lem_example =
    find_missing_agent_nodes_lem extract office "front"
      {spec = agent_with ("helper" ∷ "/other" ∷ "lost" ∷ [])} office-IsUnique refl

-- A front man with a helper, another network and a web page for tools.
abbrev branch : Dict Value
branch =
    ("front", agent_with ("helper" ∷ "/bank" ∷ "http://x" ∷ [])) ∷ ("helper", agent_with []) ∷ []

branch-IsUnique : IsUnique branch
unfolding get
branch-IsUnique = (refl, (refl, tt))

validate_urls_lem_example :
    (contains "/bank" branch
      || elem "/bank" (known_urls (some ("/bank" ∷ [])) none)
      || starts_with "/bank" "http://"
      || starts_with "/bank" "https://"
      || ends_with "/bank" "mcp"
      || ends_with "/bank" "mcp/")
    ≡ true
unfolding find_missing_agent_nodes check_agents check_tools append_missing validate_urls known_urls
    check_urls check_safe_urls is_unrecognized is_url_or_path ends_with remove_dictionary_tools
    coerce_tools get elem
validate_urls_lem_example =
    validate_urls_lem extract (some ("/bank" ∷ [])) none branch "front" "/bank"
      {spec = agent_with ("helper" ∷ "/bank" ∷ "http://x" ∷ [])} branch-IsUnique refl refl refl refl
