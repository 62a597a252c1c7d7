-- ===== src/Network/Missing/Lookup.antt =====
-- What the search for missing nodes records for each agent.
use nora_fleet.Common.{
  String, ◌≡◌, refl, ◌||◌, Option, none, some, List, [], ◌∷◌, ◌++◌, if◌then◌else◌, Dict, get, put,
  get-put, get-empty, contains, IsUnique, Value, arith, eq_iff, ◌==◌, Bool-cases, inl, inr,
}
use mathlib.Core.List.{append-nil, append_assoc}
use nora_fleet.Network.{Extract, is_url_or_path, remove_dictionary_tools, coerce_tools}
use nora_fleet.Network.Missing.{
  list_at, append_missing, check_tools, check_agents, find_missing_agent_nodes,
}

-- A list of missing tools, with no entry for none.
abbrev pub listed : List String → Option (List String)
listed [] = none
listed (x ∷ xs) = some (x ∷ xs)

abbrev and_then : Option (List String) → List String → Option (List String)
and_then none xs = listed xs
and_then (some l) xs = some (l ++ xs)

and_then-append :
    (o : Option (List String)) (x : String) (xs : List String)
    → and_then (and_then o (x ∷ [])) xs ≡ and_then o (x ∷ xs)
and_then-append none x xs = refl
and_then-append (some l) x xs = rw append_assoc

and_then-nil : (o : Option (List String)) → and_then o [] ≡ o
and_then-nil none = refl
and_then-nil (some l) = rw append-nil

get-append_missing :
    (agent tool x : String) (d : Dict (List String))
    → get x (append_missing agent tool d)
      ≡ (if agent == x then and_then (get agent d) (tool ∷ []) else get x d)
unfolding append_missing
get-append_missing agent tool x d = ground (
  arith,
  get-put agent x (list_at agent d ++ tool ∷ []) d,
  get-put agent x (list_at agent (put agent [] d) ++ tool ∷ []) (put agent [] d),
  get-put agent x [] d,
  get-put agent agent [] d,
  eq_iff agent x,
  eq_iff agent agent,
)

module _ (extract : Extract) (net : Dict Value) where
  -- The text tools of an agent that are neither URLs nor agents of the network, in order.
  unfoldable pub missing_tools : List String → List String
  missing_tools [] = []
  missing_tools (tool ∷ tools) =
      let rest = missing_tools tools in
      if is_url_or_path tool || contains tool net then rest else tool ∷ rest

  abbrev pub missing_of : Value → List String
  missing_of spec = missing_tools (remove_dictionary_tools (coerce_tools extract spec))

  get-check_tools :
      (agent x : String) (tools : List String) (d : Dict (List String))
      → get x (check_tools extract net agent tools d)
        ≡ (if agent == x then and_then (get agent d) (missing_tools tools) else get x d)
  unfolding check_tools missing_tools
  get-check_tools agent x [] d = ground (arith, and_then-nil (get agent d), eq_iff agent x)
  get-check_tools agent x (tool ∷ tools) d =
      elim (Bool-cases (is_url_or_path tool || contains tool net)) [
        | inl known ↦ rw known (get-check_tools agent x tools d)
        | inr unknown ↦ rw unknown (
            ground (
              arith,
              get-check_tools agent x tools (append_missing agent tool d),
              get-append_missing agent tool x d,
              get-append_missing agent tool agent d,
              and_then-append (get agent d) tool (missing_tools tools),
              eq_iff agent x,
              eq_iff agent agent,
            ))
      ]

  get-check_agents :
      (x : String) (agents : Dict Value) (d : Dict (List String))
      → IsUnique agents
      → get x (check_agents extract net agents d) ≡ (elim (get x agents) [
        | none ↦ get x d
        | some spec ↦ and_then (get x d) (missing_of spec)
      ])
  unfolding check_agents get
  get-check_agents x [] d u = refl
  get-check_agents x ((agent, spec) ∷ rest) d u = ground (
    arith,
    get-check_agents x rest
        (check_tools extract net agent (remove_dictionary_tools (coerce_tools extract spec)) d) u.1,
    get-check_tools agent x (remove_dictionary_tools (coerce_tools extract spec)) d,
    eq_iff agent x,
  )

-- In a network that lists each agent once, the search records for each agent of the network exactly the text tools that are neither URLs
-- or paths nor agents of the network, in their order; an agent with none has no entry.
pub find_missing_agent_nodes_lem :
    (extract : Extract) (net : Dict Value) (agent : String) {spec : Value}
    → IsUnique net
    → get agent net ≡ some spec
    → get agent (find_missing_agent_nodes extract net) ≡ listed (missing_of extract net spec)
unfolding find_missing_agent_nodes
find_missing_agent_nodes_lem extract net agent u e =
    rw (get-check_agents extract net agent net [] u, e, get-empty {V = List String} agent)
