-- ===== src/Origination/Indices.antt =====
-- The indexes that a sequence of runs is given.
use nora_fleet.Common.{
  ℕ, suc, ◌+◌, String, ◌≡◌, refl, some, List, [], ◌∷◌, ◌++◌, if◌then◌else◌, ◌==◌, Dict, get, put,
  get-put, get-empty, arith, eq_iff,
}
use nora_fleet.Origination.{Origin, index_or_start, reset, add_spec_name_to_origin}

-- The origins that are made for agents in turn, each of them called from the origin beside it.
abbrev pub add_names : List (List Origin × String) → Dict ℕ → List (List Origin)
add_names [] indices = []
add_names ((origin, name) ∷ calls) indices =
    let (new_origin, indices') = add_spec_name_to_origin (some origin) (some name) indices in
    new_origin ∷ add_names calls indices'

-- How often a name is among the calls that came before.
pub runs : String → List String → ℕ
runs name [] = 0
runs name (other ∷ before) = (if other == name then 1 else 0) + runs name before

-- Each call appends the agent's name, with the number of the run of that agent.
abbrev pub numbered : List String → List (List Origin × String) → List (List Origin)
numbered before [] = []
numbered before ((origin, name) ∷ calls) =
    (origin ++ record { tool = name; instantiation_index = suc (runs name before) } ∷ [])
    ∷ numbered (name ∷ before) calls

counted :
    (name : String) (before : List String) (indices : Dict ℕ)
    → ((x : String) → index_or_start (get x indices) ≡ suc (runs x before))
    → (x : String)
    → index_or_start (get x (put name (suc (runs name before) + 1) indices))
      ≡ suc (runs x (name ∷ before))
unfolding runs
counted name before indices h x =
    ground (arith, h x, get-put name x (suc (runs name before) + 1) indices, eq_iff name x)

numbered_from :
    (calls : List (List Origin × String)) (before : List String) (indices : Dict ℕ)
    → ((name : String) → index_or_start (get name indices) ≡ suc (runs name before))
    → add_names calls indices ≡ numbered before calls
unfolding add_spec_name_to_origin
numbered_from [] before indices h = refl
numbered_from ((origin, name) ∷ calls) before indices h = rw (
  h name,
  numbered_from calls (name ∷ before) (put name (suc (runs name before) + 1) indices)
      (counted name before indices h),
)

-- Whatever agents are run in whatever order, from a reset state each run is told apart by its
-- number: the element that is appended to the origin names the agent, and its index is one more than
-- the number of earlier runs of the same agent.
pub add_spec_name_to_origin_lem :
    (calls : List (List Origin × String)) → add_names calls (reset []) ≡ numbered [] calls
unfolding reset runs
add_spec_name_to_origin_lem calls = numbered_from calls [] [] (λ name. rw (get-empty {V = ℕ} name))
