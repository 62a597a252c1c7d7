-- ===== src/Network/Cycles/Verdict.antt =====
-- What the cycle check tells: it returns, it reports only agents on cycles, and it is silent exactly
-- on networks with no cycle.
use nora_fleet.Common.{
  suc, ◌≤◌, String, ◌≡◌, refl, sym, ap, ◌↔◌, true, some, List, [], ◌∷◌, Dict, get, keys, contains,
  get-empty, elem, elem-nil, elem-keys, In, In-head, All, All-In, All-of_In, length, arith, Value,
}
use nora_fleet.Network.{Extract}
use nora_fleet.Network.Cycles.{
  GraphVisitationState, unvisited, currently_being_processed, fully_processed, Dfs, initial_state,
  start_from, start_all, find_cyclical_agents, cycle_errors, validate_cycles,
}
use nora_fleet.Network.Cycles.Paths.{
  Leads, Leads-end, Grounded, Grounded-acyclic, pending, get-initial_state,
}
use nora_fleet.Network.Cycles.Steps.{Inv, Visited, visit_nothing, visit_next, some_of}
use nora_fleet.Network.Cycles.Search.{dfs-Returns}

pending-le-length : (net : Dict Value) (s : Dict GraphVisitationState) → pending net s ≤ length net
unfolding pending
pending-le-length [] s = omega arith
pending-le-length ((name, spec) ∷ rest) s = ground (arith, pending-le-length rest s)

reset-eq : (s : Dfs) → s.path ≡ [] → record s { path = [] } ≡ s
reset-eq s p = λ i. record { path = sym p i; state = s.state; cyclical = s.cyclical }

module _ (extract : Extract) (net : Dict Value) where
  abbrev begin : Dfs
  begin = record { path = []; state = initial_state net []; cyclical = [] }

  Inv-begin : Inv extract net begin
  Inv-begin = record {
    known =
        λ x k. ground (arith, get-initial_state x net [], get-empty {V = GraphVisitationState} x);
    on_path =
        λ x k. ground (arith, get-initial_state x net [], get-empty {V = GraphVisitationState} x);
    processing = λ x m. ground (arith, elem-nil x);
    linked = tt;
    cyclic = λ x m. absurd (ground (arith, elem-nil x));
    done = λ x k e.
        absurd (ground (arith, get-initial_state x net [], get-empty {V = GraphVisitationState} x));
  }

  start_from_returns :
      (m : GraphVisitationState) (agent : String) (s : Dfs)
      → Inv extract net s
      → s.path ≡ []
      → contains agent net ≡ true
      → get agent s.state ≡ some m
      → (t : Dfs) × (start_from extract net m (suc (length net)) agent s ≡ some t)
        × Visited extract net (agent ∷ []) s t
  unfolding start_from
  start_from_returns unvisited agent s h p known e = rw (reset-eq s p) (
      dfs-Returns extract net (suc (length net)) agent s h (rw p tt) known
        (omega (arith, pending-le-length net s.state)))
  start_from_returns fully_processed agent s h p known e =
      (s, refl, visit_nothing extract net (agent ∷ []) s h (λ k c. e, tt))
  start_from_returns currently_being_processed agent s h p known e =
      absurd (ground (arith, h.on_path agent e, ap (elem agent) p, elem-nil agent))

  start_all_returns :
      (agents : List String) (s : Dfs)
      → Inv extract net s
      → s.path ≡ []
      → All (λ a. contains a net ≡ true) agents
      → (t : Dfs) × (start_all extract net (suc (length net)) agents s ≡ some t)
        × Visited extract net agents s t
  unfolding start_all
  start_all_returns [] s h p k = (s, refl, visit_nothing extract net [] s h tt)
  start_all_returns (a ∷ rest) s h p k =
      let (m, e) = some_of (get a s.state) (h.known a k.0) in
      let (u, e1, q) = start_from_returns m a s h p k.0 e in
      let (t, e2, r) = start_all_returns rest u q.inv (rw q.path p) k.1 in
      (t, rw (e, e1) e2, visit_next extract net a rest s u t q r)

  -- The search ends without an exception. What it returns lies on cycles; if it returns nothing,
  -- every walk in the network ends.
  find_cyclical_agents_lem :
      (found : List String) × (find_cyclical_agents extract net ≡ some found)
      × ((x : String) → In x found → Leads extract net x x)
      × (found ≡ [] → (x : String) → contains x net ≡ true → Grounded extract net x)
  unfolding find_cyclical_agents
  find_cyclical_agents_lem =
      let (t, e, p) =
        start_all_returns (keys net) begin Inv-begin refl
          (All-of_In _ (keys net) (λ a m. rw (sym (elem-keys a net)) m)) in
      (
        t.cyclical,
        rw e,
        p.inv.cyclic,
        λ none_found x k.
            p.inv.done x
              (All-In
                (λ c.
                  contains c net ≡ true → t.cyclical ≡ [] → get c t.state ≡ some fully_processed)
                (keys net) p.targets (rw (elem-keys x net) k) k none_found)
              none_found,
      )

no_cycle_errors : (found : List String) → cycle_errors found ≡ [] → found ≡ []
unfolding cycle_errors
no_cycle_errors [] e = refl
no_cycle_errors (x ∷ rest) e = cc

silent_if_acyclic :
    {P : String → Type 0} (found : List String)
    → ((x : String) → In x found → P x)
    → ((x : String) → ¬ P x)
    → cycle_errors found ≡ []
unfolding cycle_errors
silent_if_acyclic [] h free = refl
silent_if_acyclic (x ∷ rest) h free = absurd (free x (h x (In-head x rest)))

-- The cycle check returns on every network. Each agent that it reports lies on a cycle of the
-- down-chains, and it reports nothing exactly if there is no cycle.
pub validate_cycles_lem :
    (extract : Extract) (net : Dict Value)
    → (found : List String) × (validate_cycles extract net ≡ some (cycle_errors found))
      × ((x : String) → In x found → Leads extract net x x)
      × ((cycle_errors found ≡ []) ↔ ((x : String) → ¬ Leads extract net x x))
unfolding validate_cycles
validate_cycles_lem extract net =
    let (found, e, on_cycle, acyclic) = find_cyclical_agents_lem extract net in
    (
      found,
      rw e,
      on_cycle,
      (
        λ silent x cycle.
            Grounded-acyclic extract net
              (acyclic (no_cycle_errors found silent) x (Leads-end extract net cycle)) cycle,
        λ free. silent_if_acyclic found on_cycle free,
      ),
    )
