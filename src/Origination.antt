-- ===== src/Origination.antt =====
-- nora_fleet/internals/journals/origination.py: the indexes by which the runs of one tool are told
-- apart.
pub mod Indices
use nora_fleet.Common.{ℕ, ◌+◌, String, Option, none, some, List, [], ◌∷◌, ◌++◌, Dict, get, put}

-- An element of an origin.
pub record Origin : Type 0 where
  pub tool : String
  pub instantiation_index : ℕ

-- `INSTANTIATION_START`
abbrev pub instantiation_start : ℕ
instantiation_start = 1

-- the state of an `Origination` is its `tool_to_index_map`
abbrev pub index_or_start : Option ℕ → ℕ
index_or_start none = instantiation_start
index_or_start (some n) = n

unfoldable pub add_spec_name_to_origin :
    Option (List Origin) → Option String → Dict ℕ → List Origin × Dict ℕ
add_spec_name_to_origin none agent_name indices = ([], indices)
add_spec_name_to_origin (some origin) none indices = ([], indices)
add_spec_name_to_origin (some origin) (some agent_name) indices =
    let index = index_or_start (get agent_name indices) in
    (
      origin ++ record { tool = agent_name; instantiation_index = index } ∷ [],
      put agent_name (index + 1) indices,
    )

unfoldable pub reset : Dict ℕ → Dict ℕ
reset indices = []
