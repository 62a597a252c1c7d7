-- ===== src/Network/Designed.antt =====
-- structure_network_validator.py: what the designer of agent networks asks of their topology. `composite`
-- is `CompositeDictionaryValidator.validate` of the package nora_common.
pub mod Acyclic
use nora_fleet.Common.{Option, some, List, [], ◌∷◌}
use nora_fleet.Network.{Extract}
use nora_fleet.Network.Cycles.{validate_cycles}
use nora_fleet.Network.Shape.{validate_shape}
use nora_fleet.Network.Missing.{validate_missing}
use nora_fleet.Network.Reach.{validate_structure}
use nora_fleet.Network.Manifest.{Validator, validate, of_shape, of_cycle, of_missing, of_structure}

module _ (composite : List Validator → Validator) (extract : Extract) where
  unfoldable pub structure_validators : List Validator
  unfolding validate
  structure_validators =
      validate of_shape validate_shape
      ∷ validate of_cycle (validate_cycles extract)
      ∷ validate of_missing (λ net. some (validate_missing extract net))
      ∷ validate of_structure (validate_structure extract)
      ∷ []

  -- `StructureNetworkValidator`
  unfoldable pub validate_topology : Validator
  unfolding structure_validators
  validate_topology = composite structure_validators
