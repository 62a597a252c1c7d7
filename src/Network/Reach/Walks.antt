-- ===== src/Network/Reach/Walks.antt =====
-- Walks along the down-chains of a network, and the count of agents that are still to be visited.
use nora_fleet.Common.{
  ℕ, ◌+◌, ◌≤◌, ◌<◌, String, ◌≡◌, refl, true, false, List, [], ◌∷◌, Dict, get, contains, In, elem,
  length, elem-cons, if◌then◌else◌, arith, eq_iff, Value,
}
use nora_fleet.Network.{Extract, spec_of}
use nora_fleet.Network.Reach.{get_agent_down_chains}

module _ (extract : Extract) (net : Dict Value) where
  -- One agent names the other in its down-chains, and the other is in the network.
  abbrev pub Calls : String → String → Type 0
  Calls a b = In b (get_agent_down_chains extract (spec_of net a)) × (contains b net ≡ true)

  -- The walks between agents of the network.
  pub data Reaches : String → String → Type 0 where
    here : {a b : String} → contains a net ≡ true → a ≡ b → Reaches a b
    step : {a b c : String} → contains a net ≡ true → Calls a b → Reaches b c → Reaches a c

-- The agents of the network that are not in a set.
pub fresh : Dict Value → List String → ℕ
fresh [] seen = 0
fresh ((name, spec) ∷ rest) seen = (if elem name seen then 0 else 1) + fresh rest seen

pub fresh-le :
    (net : Dict Value) (seen more : List String)
    → ((x : String) → In x seen → In x more)
    → fresh net more ≤ fresh net seen
unfolding fresh
fresh-le [] seen more h = omega arith
fresh-le ((name, spec) ∷ rest) seen more h = ground (arith, fresh-le rest seen more h, h name)

pub fresh-le-cons :
    (net : Dict Value) (a : String) (seen : List String) → fresh net (a ∷ seen) ≤ fresh net seen
unfolding fresh
fresh-le-cons [] a seen = omega arith
fresh-le-cons ((name, spec) ∷ rest) a seen =
    ground (arith, fresh-le-cons rest a seen, elem-cons name a seen)

pub fresh-lt :
    (net : Dict Value) (a : String) (seen : List String)
    → contains a net ≡ true
    → elem a seen ≡ false
    → fresh net (a ∷ seen) < fresh net seen
unfolding fresh get
fresh-lt [] a seen h n = cc
fresh-lt ((name, spec) ∷ rest) a seen h n = ground (
  arith,
  fresh-lt rest a seen,
  fresh-le-cons rest a seen,
  elem-cons name a seen,
  eq_iff name a,
  eq_iff a name,
)

pub fresh-nil : (net : Dict Value) → fresh net [] ≡ length net
unfolding fresh elem
fresh-nil [] = refl
fresh-nil ((name, spec) ∷ rest) = omega (arith, fresh-nil rest)
