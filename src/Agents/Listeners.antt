-- ===== src/Agents/Listeners.antt =====
-- A listener that keeps its own record of the agents, by the notices that it is told.
use nora_fleet.Common.{
  ℕ, nat_eq, String, ◌≡◌, refl, ap, Bool, true, false, not, ◌&&◌, ◌||◌, List, [], ◌∷◌, ◌++◌, map,
  if◌then◌else◌, ◌==◌, Dict, get, get-put, get-remove, contains, keys, set_minus, elem,
  elem-set_add, set_add, drop_key, elem-drop_key, is_some, arith, eq_iff, Bool-cases, inl, inr,
}
use nora_fleet.Agents.{
  Notice, agent_added, agent_modified, agent_removed, AgentNetworkStorage, add_agent_network,
  remove_agent_network, remove_agents, add_agents, setup_agent_networks,
}

-- What a listener has on record after some notices.
abbrev pub mirror_one : ℕ → Notice → List String → List String
mirror_one l (agent_added k name) names = if nat_eq k l then set_add name names else names
mirror_one l (agent_modified k name) names = names
mirror_one l (agent_removed k name) names = if nat_eq k l then drop_key name names else names

unfoldable pub mirror : ℕ → List Notice → List String → List String
mirror l [] names = names
mirror l (n ∷ notices) names = mirror l notices (mirror_one l n names)

mirror-append :
    (l : ℕ) (ns ms : List Notice) (names : List String)
    → mirror l (ns ++ ms) names ≡ mirror l ms (mirror l ns names)
unfolding mirror
mirror-append l [] ms names = refl
mirror-append l (n ∷ ns) ms names = mirror-append l ns ms (mirror_one l n names)

unfoldable pub listed : ℕ → List ℕ → Bool
listed l [] = false
listed l (k ∷ ks) = nat_eq k l || listed l ks

mirror-added :
    (l : ℕ) (ks : List ℕ) (name x : String) (names : List String)
    → elem x (mirror l (map (λ k. agent_added k name) ks) names)
      ≡ ((listed l ks && (name == x)) || elem x names)
unfolding mirror listed
mirror-added l [] name x names = refl
mirror-added l (k ∷ ks) name x names = ground (
  arith,
  mirror-added l ks name x names,
  mirror-added l ks name x (set_add name names),
  elem-set_add x name names,
)

mirror-modified :
    (l : ℕ) (ks : List ℕ) (name : String) (names : List String)
    → mirror l (map (λ k. agent_modified k name) ks) names ≡ names
unfolding mirror
mirror-modified l [] name names = refl
mirror-modified l (k ∷ ks) name names = mirror-modified l ks name names

mirror-removed :
    (l : ℕ) (ks : List ℕ) (name x : String) (names : List String)
    → elem x (mirror l (map (λ k. agent_removed k name) ks) names)
      ≡ (not (listed l ks && (name == x)) && elem x names)
unfolding mirror listed
mirror-removed l [] name x names = refl
mirror-removed l (k ∷ ks) name x names = ground (
  arith,
  mirror-removed l ks name x names,
  mirror-removed l ks name x (drop_key name names),
  elem-drop_key x name names,
)

module _ (Network : Type 0) (l : ℕ) where
  -- A registered listener whose record, which began empty, has the agents of the table.
  abbrev pub InStep : AgentNetworkStorage Network → Type 0
  InStep s =
      (listed l s.listeners ≡ true)
      × ((x : String) → elem x (mirror l s.told []) ≡ contains x s.agents_table)

  add-InStep :
      (name : String) (network : Network) (s : AgentNetworkStorage Network)
      → InStep s
      → InStep (add_agent_network Network name network s)
  unfolding add_agent_network
  add-InStep name network s (here, h) = elim (Bool-cases (is_some (get name s.agents_table))) [
    | inl known ↦ rw known (
      here,
      λ x. ground (
        arith,
        ap (elem x) (mirror-append l s.told (map (λ k. agent_modified k name) s.listeners) []),
        ap (elem x) (mirror-modified l s.listeners name (mirror l s.told [])),
        get-put name x network s.agents_table,
        eq_iff name x,
        h x,
      ),
    )
    | inr unknown ↦ rw unknown (
      here,
      λ x. ground (
        arith,
        ap (elem x) (mirror-append l s.told (map (λ k. agent_added k name) s.listeners) []),
        mirror-added l s.listeners name x (mirror l s.told []),
        get-put name x network s.agents_table,
        eq_iff name x,
        h x,
      ),
    )
  ]

  remove-InStep :
      (name : String) (s : AgentNetworkStorage Network)
      → InStep s
      → InStep (remove_agent_network Network name s)
  unfolding remove_agent_network
  remove-InStep name s (here, h) = (
    here,
    λ x. ground (
      arith,
      ap (elem x) (mirror-append l s.told (map (λ k. agent_removed k name) s.listeners) []),
      mirror-removed l s.listeners name x (mirror l s.told []),
      get-remove name x s.agents_table,
      eq_iff name x,
      h x,
    ),
  )

  remove_agents-InStep :
      (names : List String) (s : AgentNetworkStorage Network)
      → InStep s
      → InStep (remove_agents Network names s)
  unfolding remove_agents
  remove_agents-InStep [] s h = h
  remove_agents-InStep (name ∷ names) s h =
      remove_agents-InStep names (remove_agent_network Network name s) (remove-InStep name s h)

  add_agents-InStep :
      (new : Dict Network) (s : AgentNetworkStorage Network)
      → InStep s
      → InStep (add_agents Network new s)
  unfolding add_agents
  add_agents-InStep [] s h = h
  add_agents-InStep ((name, network) ∷ rest) s h =
      add_agents-InStep rest (add_agent_network Network name network s)
        (add-InStep name network s h)

  -- One change of the storage.
  pub data Change : Type 0 where
    adds : String → Network → Change
    removes : String → Change
    sets_up : Dict Network → Change

  abbrev pub apply : Change → AgentNetworkStorage Network → AgentNetworkStorage Network
  apply (adds name network) s = add_agent_network Network name network s
  apply (removes name) s = remove_agent_network Network name s
  apply (sets_up new) s = setup_agent_networks Network new s

  abbrev pub apply_all : List Change → AgentNetworkStorage Network → AgentNetworkStorage Network
  apply_all [] s = s
  apply_all (c ∷ cs) s = apply_all cs (apply c s)

  apply-InStep : (c : Change) (s : AgentNetworkStorage Network) → InStep s → InStep (apply c s)
  unfolding setup_agent_networks
  apply-InStep (adds name network) s h = add-InStep name network s h
  apply-InStep (removes name) s h = remove-InStep name s h
  apply-InStep (sets_up new) s h =
      add_agents-InStep new _
        (remove_agents-InStep (set_minus (keys s.agents_table) (keys new)) s h)

  -- A registered listener that adds and drops names as it is told has, whatever agents are added,
  -- removed or set up, the agents of the table on record, if it had them before.
  pub apply_all-InStep :
      (changes : List Change) (s : AgentNetworkStorage Network)
      → InStep s
      → InStep (apply_all changes s)
  apply_all-InStep [] s h = h
  apply_all-InStep (c ∷ cs) s h = apply_all-InStep cs (apply c s) (apply-InStep c s h)
