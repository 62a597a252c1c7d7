-- ===== src/Network/Reach/Search.antt =====
-- The traversal visits exactly what its start reaches, and its depth is bounded by the network.
use nora_fleet.Common.{
  ℕ, zero, suc, ◌<◌, String, ◌≡◌, refl, sym, ap, ◌⊎◌, ◌↔◌, inl, inr, Bool, true, false, not, ◌&&◌,
  some, List, [], ◌∷◌, Dict, contains, keys, length, elem, In, In-head, In-tail, In-cons, elem-cons,
  elem-nil, elem-set_minus, elem-keys, set_minus, Bool-cases, arith, eq_iff, ◌==◌, Value, All,
  All-In,
}
use mathlib.Core.Logic.{∥∥₁_elim}
use mathlib.Core.Bool.{So-prop, false≢true}
use nora_fleet.Network.{Extract, spec_of}
use nora_fleet.Network.Reach.{
  Traversal, visit_all, get_agent_down_chains, dfs_reachability_traversal, find_unreachable_agents,
}
use nora_fleet.Network.Reach.Walks.{
  Calls, Reaches, here, step, fresh, fresh-le, fresh-lt, fresh-nil,
}

not-In-nil : (a : String) → In a [] → ⊥
unfolding elem
not-In-nil a h = cc

abbrev pub start : Traversal
start = record { visited = []; reachable = [] }

and_not :
    {P : Type 0} (b c : Bool) → (c ≡ true) ↔ ∥ P ∥₁ → ((b && not c) ≡ true) ↔ ((b ≡ true) × ¬ P)
and_not true true h = (λ e. cc, λ k. ∥∥₁_elim (h.0 refl) (So-prop _) (λ r. absurd (k.1 r)))
and_not true false h = (λ e. (refl, λ r. false≢true (h.1 ∣ r ∣₁)), λ k. refl)
and_not false c h = (λ e. cc, λ k. k.0)

and_not-false : (b c : Bool) → b ≡ true → (b && not c) ≡ false → c ≡ true
and_not-false true true k n = refl
and_not-false true false k n = cc
and_not-false false c k n = cc

module _ (extract : Extract) (net : Dict Value) where
  -- What the visit of the agents of a list has done, from `s` to `t`.
  record Visited (agents : List String) (s t : Traversal) : Type 0 where
    grows : (x : String) → In x s.visited → In x t.visited
    sound :
        (x : String)
        → In x t.visited
        → In x s.visited ⊎ ((c : String) × In c agents × Reaches extract net c x)
    closed :
        (x y : String)
        → In x t.visited
        → elem x s.visited ≡ false
        → Calls extract net x y
        → In y t.visited
    targets : All (λ c. contains c net ≡ true → In c t.visited) agents
    same : s.visited ≡ s.reachable → t.visited ≡ t.reachable

  abbrev Returns : (Traversal → Traversal → Type 0) → ℕ → String → Traversal → Type 0
  Returns P fuel agent s =
      (t : Traversal) × (dfs_reachability_traversal extract net fuel agent s ≡ some t) × P s t

  visit_nothing :
      (agents : List String) (s : Traversal)
      → All (λ c. contains c net ≡ true → In c s.visited) agents
      → Visited agents s s
  visit_nothing agents s h = record {
    grows = λ x m. m;
    sound = λ x m. inl m;
    closed = λ x y m n e. cc;
    targets = h;
    same = λ e. e;
  }

  visit_next :
      (a : String) (rest : List String) (s u t : Traversal)
      → Visited (a ∷ []) s u
      → Visited rest u t
      → Visited (a ∷ rest) s t
  visit_next a rest s u t p q = record {
    grows = λ x m. q.grows x (p.grows x m);
    sound = λ x m. elim (q.sound x m) [
      | inr (c, i, r) ↦ inr (c, In-tail c a rest i, r)
      | inl m' ↦ elim (p.sound x m') [
        | inl old ↦ inl old
        | inr (c, i, r) ↦ elim (In-cons c a [] i) [
          | inl e ↦ inr (c, rw e (In-head a rest), r)
          | inr none_left ↦ absurd (not-In-nil c none_left)
        ]
      ]
    ];
    closed = λ x y m n e. elim (Bool-cases (elem x u.visited)) [
      | inl seen ↦ q.grows y (p.closed x y seen n e)
      | inr unseen ↦ q.closed x y m unseen e
    ];
    targets = (λ k. q.grows a (p.targets.0 k), q.targets);
    same = λ e. q.same (p.same e);
  }

  Reaches-start : {a b : String} → Reaches extract net a b → contains a net ≡ true
  Reaches-start (here h e) = h
  Reaches-start (step h _ _) = h

  mark : String → Traversal → Traversal
  mark a s = record { visited = a ∷ s.visited; reachable = a ∷ s.reachable }

  visit_children :
      (a : String) (s t : Traversal)
      → contains a net ≡ true
      → Visited (get_agent_down_chains extract (spec_of net a)) (mark a s) t
      → Visited (a ∷ []) s t
  unfolding mark
  visit_children a s t k p = record {
    grows = λ x m. p.grows x (In-tail x a s.visited m);
    sound = λ x m. elim (p.sound x m) [
      | inr (c, i, r) ↦ inr (a, In-head a [], step k (i, Reaches-start r) r)
      | inl m' ↦ elim (In-cons x a s.visited m') [
        | inl e ↦ inr (a, In-head a [], here k (sym e))
        | inr old ↦ inl old
      ]
    ];
    closed = λ x y m n e. elim (Bool-cases (x == a)) [
      | inl same ↦
          let e' = rw ((eq_iff x a).0 same) at e in
          All-In (λ c. contains c net ≡ true → In c t.visited) _ p.targets e'.0 e'.1
      | inr other ↦
          p.closed x y m (ground (arith, elem-cons x a s.visited, eq_iff x a, eq_iff a x)) e
    ];
    targets = (λ _. p.grows a (In-head a s.visited), tt);
    same = λ e. p.same (ap (λ l. a ∷ l) e);
  }

  module _ (fuel : ℕ)
      (visit : (agent : String) (s : Traversal)
        → fresh net s.visited < fuel
        → Returns (Visited (agent ∷ [])) fuel agent s) where
    visit_all_returns :
        (agents : List String) (s : Traversal)
        → fresh net s.visited < fuel
        → (t : Traversal) × (visit_all (dfs_reachability_traversal extract net fuel) agents s
            ≡ some t)
          × Visited agents s t
    unfolding visit_all
    visit_all_returns [] s h = (s, refl, visit_nothing [] s tt)
    visit_all_returns (a ∷ rest) s h =
        let (u, e, p) = visit a s h in
        let (t, e', q) =
          visit_all_returns rest u (omega (arith, fresh-le net s.visited u.visited p.grows)) in
        (t, rw e e', visit_next a rest s u t p q)

  dfs-Returns :
      (fuel : ℕ) (agent : String) (s : Traversal)
      → fresh net s.visited < fuel
      → Returns (Visited (agent ∷ [])) fuel agent s
  unfolding dfs_reachability_traversal mark
  dfs-Returns zero agent s h = absurd (omega arith)
  dfs-Returns (suc fuel) agent s h = elim (Bool-cases (elem agent s.visited)) [
    | inl seen ↦ (s, rw seen, visit_nothing (agent ∷ []) s (λ _. seen, tt))
    | inr unseen ↦ elim (Bool-cases (contains agent net)) [
      | inr missing ↦ (s, ground arith, visit_nothing (agent ∷ []) s (λ k. cc, tt))
      | inl known ↦
          let (t, e, p) =
            visit_all_returns fuel (dfs-Returns fuel)
              (get_agent_down_chains extract (spec_of net agent)) (mark agent s)
              (omega (arith, fresh-lt net agent s.visited known unseen)) in
          (t, rw (unseen, known) e, visit_children agent s t known p)
    ]
  ]

  walk_stays :
      (agent : String) (t : Traversal)
      → Visited (agent ∷ []) start t
      → {a x : String} → Reaches extract net a x
      → In a t.visited
      → In x t.visited
  walk_stays agent t p (here _ e) m = rw (← e) m
  walk_stays agent t p (step {a} {b} _ call r) m =
      walk_stays agent t p r (p.closed a b m (elem-nil a) call)

  found_is_reached :
      (agent x : String) (t : Traversal)
      → Visited (agent ∷ []) start t
      → In x t.visited
      → Reaches extract net agent x
  found_is_reached agent x t p m = elim (p.sound x m) [
    | inl old ↦ absurd (not-In-nil x old)
    | inr (c, i, r) ↦ elim (In-cons c agent [] i) [
      | inl e ↦ rw (← e) r
      | inr no_more ↦ absurd (not-In-nil c no_more)
    ]
  ]

  -- The traversal from an agent ends, and finds exactly what the agent reaches.
  pub traversal_lem :
      (agent : String)
      → (t : Traversal) × (dfs_reachability_traversal extract net (suc (length net)) agent start
          ≡ some t)
        × ((x : String) → In x t.reachable ↔ ∥ Reaches extract net agent x ∥₁)
  traversal_lem agent =
      let (t, e, p) = dfs-Returns (suc (length net)) agent start (omega (arith, fresh-nil net)) in
      (
        t,
        e,
        λ x. rw (← p.same refl) (
          λ m. ∣ found_is_reached agent x t p m ∣₁,
          λ w. ∥∥₁_elim w (So-prop _) (λ r. walk_stays agent t p r (p.targets.0 (Reaches-start r))),
        ),
      )

-- `find_unreachable_agents` always returns, and what it returns is exactly the agents of the
-- network that no walk along the down-chains from the front man leads to; every other agent of
-- the network is reached by a walk.
pub find_unreachable_agents_lem :
    (extract : Extract) (net : Dict Value) (front_man : String)
    → (missing : List String) × (find_unreachable_agents extract net front_man ≡ some missing)
      × ((x : String)
          → (In x missing ↔ ((contains x net ≡ true) × ¬ Reaches extract net front_man x))
            × (contains x net ≡ true
                → elem x missing ≡ false
                → ∥ Reaches extract net front_man x ∥₁))
unfolding find_unreachable_agents
find_unreachable_agents_lem extract net front_man =
    let (t, e, found) = traversal_lem extract net front_man in
    (
      set_minus (keys net) t.reachable,
      rw e,
      λ x.
          let exact = found x in
          rw (elem-set_minus x (keys net) t.reachable, elem-keys x net)
            (and_not _ _ exact, λ k n. exact.0 (and_not-false _ _ k n)),
    )
