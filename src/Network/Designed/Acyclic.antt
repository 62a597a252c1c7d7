-- ===== src/Network/Designed/Acyclic.antt =====
-- The networks that pass have no cycle.
use nora_fleet.Common.{String, ◌≡◌, sym, ◌∙◌, some, List, [], All, some_inj}
use nora_fleet.Network.{Extract}
use nora_fleet.Network.Cycles.{validate_cycles}
use nora_fleet.Network.Cycles.Paths.{Leads}
use nora_fleet.Network.Cycles.Verdict.{validate_cycles_lem}
use nora_fleet.Network.Shape.{validate_shape}
use nora_fleet.Network.Shape.Verdict.{IsShaped, validate_shape_lem}
use nora_fleet.Network.Missing.{find_missing_agent_nodes, validate_missing}
use nora_fleet.Network.Reach.{find_all_front_man_agents, validate_structure}
use nora_fleet.Network.Reach.FrontMen.{IsSound, validate_structure_lem}
use nora_fleet.Network.Manifest.{
  Candidate, Validator, get_name_to_spec, of_shape, of_cycle, of_missing, of_structure,
}
use nora_fleet.Network.Manifest.Accepted.{IsComposite, validate-nil, missing-nil}
use nora_fleet.Network.Designed.{structure_validators, validate_topology}

-- What the designer accepts, where the composite is one of its validators: tools of the right shape, no
-- cycle of down-chains, no tool that is nowhere, and one front man from which every agent is reached.
pub validate_topology_lem :
    (composite : List Validator → Validator) (extract : Extract) (c : Candidate)
    → IsComposite composite
    → validate_topology composite extract c ≡ some []
    → let net = get_name_to_spec c in
      All IsShaped net
      × ((x : String) → ¬ Leads extract net x x)
      × (find_missing_agent_nodes extract net ≡ [])
      × IsSound extract net (find_all_front_man_agents extract net)
unfolding validate_topology structure_validators
validate_topology_lem composite extract c composed h =
    let net = get_name_to_spec c in
    let (shape, (cycles, (missing, (structure, _)))) =
      (composed (structure_validators composite extract) c).0 h in
    let (_, shaped) = validate-nil of_shape validate_shape c shape in
    let (_, acyclic) = validate-nil of_cycle (validate_cycles extract) c cycles in
    let (_, found) =
      validate-nil of_missing (λ net. some (validate_missing extract net)) c missing in
    let (_, reached) = validate-nil of_structure (validate_structure extract) c structure in
    let (agents, e, _, (free, _)) = validate_cycles_lem extract net in
    let (errors, e', (to, _)) = validate_structure_lem extract net in
    (
      (validate_shape_lem net).0 shaped,
      free (some_inj (sym e ∙ acyclic)),
      missing-nil extract net (some_inj found),
      to (some_inj (sym e' ∙ reached)),
    )
