-- ===== src/Network/Cycles/Search.antt =====
-- The search keeps its invariant, ends, and leaves every agent that it visits fully processed.
use nora_fleet.Common.{
  ℕ, zero, suc, ◌<◌, String, ◌≡◌, refl, inl, inr, true, some, List, [], ◌∷◌, Dict, get, contains,
  All, All-append, All-map, All-of_In, Bool-cases, arith, Value,
}
use nora_fleet.Network.{Extract}
use nora_fleet.Network.Cycles.{
  GraphVisitationState, unvisited, currently_being_processed, fully_processed, Dfs, enter,
  safe_down_chains, visit_children, visit_as, dfs_cycle_detection,
}
use nora_fleet.Network.Cycles.Paths.{Leads, one, Leads-then, pending, pending-le, pending-lt}
use nora_fleet.Network.Cycles.Steps.{
  some_of, Inv, Visited, Toward, found_cycle_lem, enter-Inv, leave_lem, visit_next, visit_nothing,
}

module _ (extract : Extract) (net : Dict Value) where
  abbrev pub Returns : ℕ → String → Dfs → Type 0
  Returns fuel agent s =
      (t : Dfs) × (dfs_cycle_detection extract net fuel agent s ≡ some t)
      × Visited extract net (agent ∷ []) s t

  Toward-children :
      (agent : String) (s : Dfs)
      → Toward extract net agent s
      → All
          (λ c. contains c net ≡ true → Toward extract net c (enter agent s))
          (safe_down_chains extract net agent)
  unfolding enter
  Toward-children agent s toward = All-of_In _ (safe_down_chains extract net agent) (λ c i k.
      All-append (λ y. Leads extract net y c) s.path (agent ∷ [])
        (All-map _ _ s.path (λ y l. Leads-then extract net l (i, k)) toward) (one (i, k), tt))

  enter-lt :
      (fuel : ℕ) (agent : String) (s : Dfs)
      → contains agent net ≡ true
      → get agent s.state ≡ some unvisited
      → pending net s.state < suc fuel
      → pending net (enter agent s).state < fuel
  unfolding enter
  enter-lt fuel agent s known e n = omega (arith, pending-lt net agent s.state known e)

  module _ (fuel : ℕ)
      (visit : (agent : String) (s : Dfs)
        → Inv extract net s
        → Toward extract net agent s
        → contains agent net ≡ true
        → pending net s.state < fuel
        → Returns fuel agent s) where
    visit_children_returns :
        (agents : List String) (s : Dfs)
        → Inv extract net s
        → All (λ c. contains c net ≡ true → Toward extract net c s) agents
        → pending net s.state < fuel
        → (t : Dfs) × (visit_children extract net (dfs_cycle_detection extract net fuel) agents s
            ≡ some t)
          × Visited extract net agents s t
    unfolding visit_children
    visit_children_returns [] s h toward n = (s, refl, visit_nothing extract net [] s h tt)
    visit_children_returns (a ∷ rest) s h toward n = elim (Bool-cases (contains a net)) [
      | inr missing ↦
          let (t, e, q) = visit_children_returns rest s h toward.1 n in
          (
            t,
            rw missing e,
            visit_next extract net a rest s s t
                (visit_nothing extract net (a ∷ []) s h (λ k. cc, tt)) q,
          )
      | inl known ↦
          let (u, e, p) = visit a s h (toward.0 known) known n in
          let (t, e', q) =
            visit_children_returns rest u p.inv (rw p.path toward.1)
              (omega (arith, pending-le net s.state u.state p.older)) in
          (t, rw (known, e) e', visit_next extract net a rest s u t p q)
    ]

    visit_as_returns :
        (m : GraphVisitationState) (agent : String) (s : Dfs)
        → Inv extract net s
        → Toward extract net agent s
        → contains agent net ≡ true
        → pending net s.state < suc fuel
        → get agent s.state ≡ some m
        → (t : Dfs) × (visit_as extract net m (dfs_cycle_detection extract net fuel) agent s
            ≡ some t)
          × Visited extract net (agent ∷ []) s t
    unfolding visit_as
    visit_as_returns currently_being_processed agent s h toward known n e =
        found_cycle_lem extract net agent s h toward e
    visit_as_returns fully_processed agent s h toward known n e =
        (s, refl, visit_nothing extract net (agent ∷ []) s h (λ k c. e, tt))
    visit_as_returns unvisited agent s h toward known n e =
        let (u, e1, p) =
          visit_children_returns (safe_down_chains extract net agent) (enter agent s)
            (enter-Inv extract net agent s h toward e) (Toward-children agent s toward)
            (enter-lt fuel agent s known e n) in
        let (t, e2, q) = leave_lem extract net agent s u h e p in (t, rw e1 e2, q)

  pub dfs-Returns :
      (fuel : ℕ) (agent : String) (s : Dfs)
      → Inv extract net s
      → Toward extract net agent s
      → contains agent net ≡ true
      → pending net s.state < fuel
      → Returns fuel agent s
  unfolding dfs_cycle_detection
  dfs-Returns zero agent s h toward known n = absurd (omega arith)
  dfs-Returns (suc fuel) agent s h toward known n =
      let (m, e) = some_of (get agent s.state) (h.known agent known) in
      let (t, e', p) = visit_as_returns fuel (dfs-Returns fuel) m agent s h toward known n e in
      (t, rw e e', p)
