-- ===== src/Network/Cycles/Paths.antt =====
-- Walks of one step or more, the path of the search, and the count of unvisited agents.
use nora_fleet.Common.{
  ℕ, ◌+◌, ◌≤◌, ◌<◌, String, ◌≡◌, refl, Bool, true, false, inl, inr, Option, some, List, [], ◌∷◌,
  ◌++◌, Dict, get, contains, put, get-put, In, elem, All, All-append, if◌then◌else◌, arith, eq_iff,
  ◌==◌, Value, Bool-cases,
}
use nora_fleet.Network.{Extract}
use nora_fleet.Network.Cycles.{
  GraphVisitationState, unvisited, currently_being_processed, from_index, pop, safe_down_chains,
  initial_state,
}

module _ (extract : Extract) (net : Dict Value) where
  -- An agent lists another in its tools, and the other is in the network.
  abbrev pub Calls : String → String → Type 0
  Calls a b = In b (safe_down_chains extract net a) × (contains b net ≡ true)

  -- The walks of one step or more.
  pub data Leads : String → String → Type 0 where
    one : {a b : String} → Calls a b → Leads a b
    more : {a b c : String} → Calls a b → Leads b c → Leads a c

  -- Every walk from the agent ends.
  pub data Grounded : String → Type 0 where
    grounded : {a : String} → ((b : String) → Calls a b → Grounded b) → Grounded a

  pub Leads-then : {a b c : String} → Leads a b → Calls b c → Leads a c
  Leads-then (one e) call = more e (one call)
  Leads-then (more e p) call = more e (Leads-then p call)

  pub Leads-trans : {a b c : String} → Leads a b → Leads b c → Leads a c
  Leads-trans (one e) q = more e q
  Leads-trans (more e p) q = more e (Leads-trans p q)

  pub Leads-end : {a b : String} → Leads a b → contains b net ≡ true
  Leads-end (one e) = e.1
  Leads-end (more e p) = Leads-end p

  pub Grounded-acyclic : {a : String} → Grounded a → ¬ Leads a a
  Grounded-acyclic {a} (grounded below) (one e) = Grounded-acyclic (below a e) (one e)
  Grounded-acyclic (grounded below) (more {b} e p) = Grounded-acyclic (below b e) (Leads-then p e)

  -- Each agent of the path leads to every later one.
  abbrev pub IsLinked : List String → Type 0
  IsLinked [] = Unit
  IsLinked (x ∷ xs) = All (Leads x) xs × IsLinked xs

  pub IsLinked-concat :
      (xs : List String) (a : String)
      → IsLinked xs
      → All (λ y. Leads y a) xs
      → IsLinked (xs ++ a ∷ [])
  IsLinked-concat [] a h k = (tt, tt)
  IsLinked-concat (x ∷ xs) a h k =
      (All-append (Leads x) xs (a ∷ []) h.0 (k.0, tt), IsLinked-concat xs a h.1 k.1)

  All-cyclic :
      (x agent : String) (ys : List String)
      → x ≡ agent
      → All (Leads x) ys
      → All (λ y. Leads y agent) ys
      → All (λ y. Leads y y) ys
  All-cyclic x agent [] e h k = tt
  All-cyclic x agent (y ∷ ys) e h k =
      (Leads-trans k.0 (rw e at h.0), All-cyclic x agent ys e h.1 k.1)

  -- On a linked path that all leads to one of its agents, the part from that agent on is a cycle.
  pub cycle_lem :
      (agent : String) (path : List String)
      → In agent path
      → IsLinked path
      → All (λ y. Leads y agent) path
      → (cycle : List String) × (from_index agent path ≡ some cycle)
        × All (λ y. Leads y y) cycle
        × Leads agent agent
  unfolding from_index elem
  cycle_lem agent [] m h k = cc
  cycle_lem agent (x ∷ xs) m h k = elim (Bool-cases (x == agent)) [
    | inl e ↦
        let same = (eq_iff x agent).0 e in
        let back = rw same at k.0 in
        (x ∷ xs, rw e, (rw same back, All-cyclic x agent xs same h.0 k.1), back)
    | inr n ↦
        let (cycle, e, p, q) = cycle_lem agent xs (ground (arith, eq_iff x agent)) h.1 k.1 in
        (cycle, rw n e, p, q)
  ]

pub pop-concat : (xs : List String) (a : String) → pop (xs ++ a ∷ []) ≡ some xs
unfolding pop
pop-concat [] a = refl
pop-concat (x ∷ []) a = refl
pop-concat (x ∷ y ∷ xs) a = rw (pop-concat (y ∷ xs) a)

pub is_unvisited : Option GraphVisitationState → Bool
is_unvisited (some unvisited) = true
is_unvisited _ = false

-- The agents of the network that are still unvisited.
unfoldable pub pending : Dict Value → Dict GraphVisitationState → ℕ
pending [] state = 0
pending ((name, spec) ∷ rest) state =
    (if is_unvisited (get name state) then 1 else 0) + pending rest state

pub pending-le :
    (net : Dict Value) (s t : Dict GraphVisitationState)
    → ((x : String) → get x t ≡ some unvisited → get x s ≡ some unvisited)
    → pending net t ≤ pending net s
unfolding pending is_unvisited
pending-le [] s t h = omega arith
pending-le ((name, spec) ∷ rest) s t h = ground (arith, pending-le rest s t h, h name)

put_unvisited :
    (a : String) (s : Dict GraphVisitationState) (x : String)
    → get x (put a currently_being_processed s) ≡ some unvisited
    → get x s ≡ some unvisited
put_unvisited a s x h = ground (arith, get-put a x currently_being_processed s)

pub pending-lt :
    (net : Dict Value) (a : String) (s : Dict GraphVisitationState)
    → contains a net ≡ true
    → get a s ≡ some unvisited
    → pending net (put a currently_being_processed s) < pending net s
unfolding pending is_unvisited get
pending-lt [] a s k u = cc
pending-lt ((name, spec) ∷ rest) a s k u = ground (
  arith,
  pending-lt rest a s,
  pending-le rest s (put a currently_being_processed s) (put_unvisited a s),
  get-put a name currently_being_processed s,
  eq_iff name a,
  eq_iff a name,
)

pub get-initial_state :
    (x : String) (net : Dict Value) (state : Dict GraphVisitationState)
    → get x (initial_state net state) ≡ (if contains x net then some unvisited else get x state)
unfolding initial_state get
get-initial_state x [] state = refl
get-initial_state x ((name, spec) ∷ rest) state = ground (
  arith,
  get-initial_state x rest (put name unvisited state),
  get-put name x unvisited state,
  eq_iff name x,
)
