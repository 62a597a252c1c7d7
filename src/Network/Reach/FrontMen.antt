-- ===== src/Network/Reach/FrontMen.antt =====
-- Which agents are front men, and when the structure check passes.
use mathlib.Core.Logic.{∥∥₁_elim}
use mathlib.Core.HLevel.{⊥_prop}
use nora_fleet.Common.{
  String, ◌≡◌, refl, ◌↔◌, Bool, true, false, not, ◌||◌, ◌&&◌, some, List, [], ◌∷◌, Dict, contains,
  is_empty, elem, In, In-head, elem-nil, set_add, set_update, set_minus, elem-set_add,
  elem-set_update, elem-set_minus, arith, ◌==◌, if◌then◌else◌, Value,
}
use nora_fleet.Network.{Extract}
use nora_fleet.Network.Reach.{
  StructureError, get_agent_down_chains, scan_down_chains, or_single, find_all_front_man_agents,
  unreachable_errors, check_front_men, validate_structure,
}
use nora_fleet.Network.Reach.Walks.{Reaches}
use nora_fleet.Network.Reach.Search.{find_unreachable_agents_lem}

or_single-two :
    (front_men : List String) (first second : String × Value) (rest : Dict Value)
    → or_single front_men (first ∷ second ∷ rest) ≡ front_men
unfolding or_single
or_single-two [] first second rest = refl
or_single-two (f ∷ fs) first second rest = refl

single_inj : (f g : String) → f ∷ [] ≡ g ∷ [] → f ≡ g
single_inj f g e = cc

module _ (extract : Extract) where
  -- An agent has down-chains, and an agent is in the down-chains of some agent.
  pub leads : String → Dict Value → Bool
  leads x [] = false
  leads x ((name, spec) ∷ rest) =
      (name == x && not (is_empty (get_agent_down_chains extract spec))) || leads x rest

  pub is_called : String → Dict Value → Bool
  is_called x [] = false
  is_called x ((name, spec) ∷ rest) =
      elem x (get_agent_down_chains extract spec) || is_called x rest

  scan-has :
      (x : String) (net : Dict Value) (has every : List String)
      → elem x (scan_down_chains extract net has every).0 ≡ (elem x has || leads x net)
  unfolding scan_down_chains leads
  scan-has x [] has every = ground arith
  scan-has x ((name, spec) ∷ rest) has every = ground (
    arith,
    scan-has x rest
        (if is_empty (get_agent_down_chains extract spec) then has else set_add name has)
        (set_update every (get_agent_down_chains extract spec)),
    elem-set_add x name has,
  )

  scan-every :
      (x : String) (net : Dict Value) (has every : List String)
      → elem x (scan_down_chains extract net has every).1 ≡ (elem x every || is_called x net)
  unfolding scan_down_chains is_called
  scan-every x [] has every = ground arith
  scan-every x ((name, spec) ∷ rest) has every = ground (
    arith,
    scan-every x rest
        (if is_empty (get_agent_down_chains extract spec) then has else set_add name has)
        (set_update every (get_agent_down_chains extract spec)),
    elem-set_update x every (get_agent_down_chains extract spec),
  )

  -- In a network of two agents or more, the front men are exactly the agents that have down-chains
  -- and stand in no agent's down-chains.
  pub front_men_lem :
      (first second : String × Value) (rest : Dict Value) (x : String)
      → let net = first ∷ second ∷ rest in
        elem x (find_all_front_man_agents extract net) ≡ (leads x net && not (is_called x net))
  unfolding find_all_front_man_agents
  front_men_lem first second rest x =
      let net = first ∷ second ∷ rest in
      let (has, every) = scan_down_chains extract net [] [] in
      rw (
        or_single-two (set_minus has every) first second rest,
        elem-set_minus x has every,
        scan-has x net [] [],
        scan-every x net [] [],
        elem-nil x,
      )

  abbrev pub IsSound : Dict Value → List String → Type 0
  IsSound net front_men =
      (f : String) × (front_men ≡ f ∷ [])
      × ((x : String) → contains x net ≡ true → ∥ Reaches extract net f x ∥₁)

  no_errors :
      (net : Dict Value) (f : String) (missing : List String)
      → ((x : String)
          → (In x missing ↔ ((contains x net ≡ true) × ¬ Reaches extract net f x))
            × (contains x net ≡ true → elem x missing ≡ false → ∥ Reaches extract net f x ∥₁))
      → (unreachable_errors missing ≡ []) ↔ IsSound net (f ∷ [])
  unfolding unreachable_errors
  no_errors net f [] h = (λ _. (f, refl, λ x k. (h x).1 k (elem-nil x)), λ _. refl)
  no_errors net f (m ∷ rest) h = (
    λ e. cc,
    λ (g, e, reach).
        let (k, not_reached) = (h m).0.0 (In-head m rest) in
        absurd (∥∥₁_elim (reach m k) ⊥_prop (λ r. not_reached (rw (single_inj f g e) r))),
  )

  check_front_men_lem :
      (net : Dict Value) (front_men : List String)
      → (errors : List StructureError) × (check_front_men extract net front_men ≡ some errors)
        × ((errors ≡ []) ↔ IsSound net front_men)
  unfolding check_front_men
  check_front_men_lem net [] = (_, refl, (λ e. cc, λ (f, e, _). cc))
  check_front_men_lem net (f ∷ []) =
      let (missing, e, h) = find_unreachable_agents_lem extract net f in
      (unreachable_errors missing, rw e, no_errors net f missing h)
  check_front_men_lem net (f ∷ g ∷ rest) = (_, refl, (λ e. cc, λ (f', e, _). cc))

  -- The structure check always returns, and finds nothing wrong exactly if there is one front man
  -- and every agent of the network is reached from it.
  pub validate_structure_lem :
      (net : Dict Value)
      → (errors : List StructureError) × (validate_structure extract net ≡ some errors)
        × ((errors ≡ []) ↔ IsSound net (find_all_front_man_agents extract net))
  unfolding validate_structure
  validate_structure_lem net = check_front_men_lem net (find_all_front_man_agents extract net)
