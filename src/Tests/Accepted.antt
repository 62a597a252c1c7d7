-- ===== src/Tests/Accepted.antt =====
-- A network that a manifest may serve, and what then holds of it.
use nora_fleet.Common.{
  String, ◌↔◌, ◌≡◌, refl, some, List, [], ◌∷◌, get, put, Value, str, arr, obj, nil, cons, end,
  field, All, elem, set_minus, set_add, set_update, keys, values,
}
use nora_fleet.Network.{
  remove_dictionary_tools, coerce_tools, coerce_args_tools, spec_of, is_url_or_path,
}
use nora_fleet.Network.Shape.Verdict.{IsShaped}
use nora_fleet.Network.Reach.{
  find_all_front_man_agents, validate_structure, get_agent_down_chains, find_unreachable_agents,
  dfs_reachability_traversal, visit_all,
}
use nora_fleet.Network.Reach.FrontMen.{IsSound}
use nora_fleet.Network.Parameters.{found}
use nora_fleet.Network.Parameters.Schemas.{found-nil}
use nora_fleet.Network.Manifest.{
  Candidate, Validator, with_tools, get_name_to_spec, put_all, is_nothing, validate,
}
use nora_fleet.Network.Manifest.Accepted.{IsComposite}
use nora_fleet.Network.Shape.{
  validate_shape, check_dict, check_list, is_str, is_str_or_dict, validate_agent,
  validate_args_tools, validate_args_value, validate_tools,
}
use nora_fleet.Network.Missing.{
  append_missing, check_agents, check_tools, find_missing_agent_nodes, missing_errors,
  validate_missing,
}
use nora_fleet.Network.Cycles.{
  validate_cycles, find_cyclical_agents, start_all, initial_state, start_from, dfs_cycle_detection,
  visit_as, visit_children, safe_down_chains, enter, leave, pop,
}
use nora_fleet.Network.Cycles.Paths.{Leads}
use nora_fleet.Network.Designed.{structure_validators, validate_topology}
use nora_fleet.Network.Designed.Acyclic.{validate_topology_lem}
use nora_fleet.Network.Toolbox.{validate_toolbox}
use nora_fleet.Network.Toolbox.Verdict.{FitsToolbox, validate_toolbox_lem}
use nora_fleet.Tests.Networks.{extract}

abbrev concatenate : List Validator → Validator
concatenate [] c = some []
concatenate (v ∷ vs) c = found (v c) (concatenate vs c)

concatenate-IsComposite : IsComposite concatenate
concatenate-IsComposite [] c = (λ h. tt, λ h. refl)
concatenate-IsComposite (v ∷ vs) c =
    let (split, join) = found-nil (v c) (concatenate vs c) in
    let (to, from) = concatenate-IsComposite vs c in
    (
      λ h. let (this, others) = split h in (this, to others),
      λ (this, others). join (this, from others),
    )

abbrev front : Value
front = obj (
    field "name" (str "front") (
      field "instructions" (str "greet")
        (field "tools" (arr (cons (str "helper") (cons (str "http://x") nil))) end)))

abbrev helper : Value
helper = obj (
    field "name" (str "helper") (
      field "function" (obj (field "description" (str "helps") (field "parameters" (obj end) end)))
        end))

abbrev network : Candidate
network = with_tools (("front", front) ∷ ("helper", helper) ∷ [])

network-is-acyclic : validate_topology concatenate extract network ≡ some []
unfolding get_name_to_spec put_all put get validate_shape elem validate_structure
    find_all_front_man_agents set_minus get_agent_down_chains remove_dictionary_tools coerce_tools
    coerce_args_tools set_add set_update find_unreachable_agents dfs_reachability_traversal
    visit_all spec_of keys values is_nothing validate append_missing check_agents check_tools
    find_missing_agent_nodes missing_errors validate_missing found check_dict check_list is_str
    is_str_or_dict validate_agent validate_args_tools validate_args_value validate_tools
    is_url_or_path validate_topology structure_validators validate_cycles find_cyclical_agents
    start_all initial_state start_from dfs_cycle_detection visit_as visit_children safe_down_chains
    enter leave pop
network-is-acyclic = refl

validate_topology_lem_example :
    All IsShaped (get_name_to_spec network)
    × ((x : String) → ¬ Leads extract (get_name_to_spec network) x x)
    × (find_missing_agent_nodes extract (get_name_to_spec network) ≡ [])
    × IsSound extract
        (get_name_to_spec network)
        (find_all_front_man_agents extract (get_name_to_spec network))
validate_topology_lem_example =
    validate_topology_lem concatenate extract network concatenate-IsComposite network-is-acyclic

validate_toolbox_lem_example :
    (validate_toolbox (obj (field "helper" (obj end) end)) (get_name_to_spec network) ≡ some [])
    ↔ All (FitsToolbox (obj (field "helper" (obj end) end))) (get_name_to_spec network)
validate_toolbox_lem_example =
    validate_toolbox_lem (obj (field "helper" (obj end) end)) (get_name_to_spec network)
