-- ===== src/Network/Cycles/Steps.antt =====
-- What one step of the search does: the invariant between visits, and what a visit leaves.
use nora_fleet.Common.{
  String, ◌≡◌, refl, ap, ◌∙◌, inl, inr, Bool, true, false, ◌||◌, Option, none, some, List, [], ◌∷◌,
  ◌++◌, Dict, get, put, get-put, contains, elem, In, elem-cons, elem-nil, elem-append, set_update,
  elem-set_update, All, All-In, In-head, Bool-cases, arith, eq_iff, ◌==◌, Value, is_some,
}
use nora_fleet.Network.{Extract}
use nora_fleet.Network.Cycles.{
  unvisited, currently_being_processed, fully_processed, Dfs, found_cycle, enter, leave,
  safe_down_chains,
}
use nora_fleet.Network.Cycles.Paths.{
  Leads, Grounded, grounded, IsLinked, IsLinked-concat, cycle_lem, pop-concat,
}

pub some_of {ℓ} : {A : Type ℓ} (o : Option A) → is_some o ≡ true → (a : A) × (o ≡ some a)
some_of none h = cc
some_of (some a) h = (a, refl)

module _ (extract : Extract) (net : Dict Value) where
  -- What holds between any two visits.
  pub record Inv (s : Dfs) : Type 0 where
    pub known : (x : String) → contains x net ≡ true → is_some (get x s.state) ≡ true
    pub on_path : (x : String) → get x s.state ≡ some currently_being_processed → In x s.path
    pub processing : (x : String) → In x s.path → get x s.state ≡ some currently_being_processed
    pub linked : IsLinked extract net s.path
    pub cyclic : (x : String) → In x s.cyclical → Leads extract net x x
    pub done :
        (x : String)
        → get x s.state ≡ some fully_processed
        → s.cyclical ≡ []
        → Grounded extract net x

  -- What the visits of the agents of a list have done, from `s` to `t`.
  pub record Visited (agents : List String) (s t : Dfs) : Type 0 where
    pub inv : Inv t
    pub path : t.path ≡ s.path
    pub kept : t.cyclical ≡ [] → s.cyclical ≡ []
    pub stays :
        (x : String) → get x s.state ≡ some fully_processed → get x t.state ≡ some fully_processed
    pub older : (x : String) → get x t.state ≡ some unvisited → get x s.state ≡ some unvisited
    pub targets :
        All
          (λ c. contains c net ≡ true → t.cyclical ≡ [] → get c t.state ≡ some fully_processed)
          agents

  -- The whole path leads to an agent.
  abbrev pub Toward : String → Dfs → Type 0
  Toward agent s = All (λ y. Leads extract net y agent) s.path

  or_true : (b : Bool) → (b || true) ≡ true
  or_true true = refl
  or_true false = refl

  set_update-ne_nil :
      (xs : List String) (ys : List String) (a : String) → In a ys → ¬ (set_update xs ys ≡ [])
  set_update-ne_nil xs ys a m e =
      cc (ap (elem a) e, elem-set_update a xs ys, elem-nil a, m, or_true (elem a xs))

  In-concat : (a : String) (xs : List String) → In a (xs ++ a ∷ [])
  In-concat a xs = rw (elem-append a xs (a ∷ []), In-head a []) (or_true (elem a xs))

  cyclic_update :
      (old cycle : List String) (agent : String)
      → ((x : String) → In x old → Leads extract net x x)
      → All (λ y. Leads extract net y y) cycle
      → Leads extract net agent agent
      → (x : String) → In x (set_update old (cycle ++ agent ∷ []))
      → Leads extract net x x
  cyclic_update old cycle agent h k back x m = elim (Bool-cases (elem x old)) [
    | inl was ↦ h x was
    | inr no_old ↦ elim (Bool-cases (elem x cycle)) [
      | inl on ↦ All-In (λ y. Leads extract net y y) cycle k on
      | inr off ↦
          let e : x ≡ agent = ground (
            arith,
            elem-set_update x old (cycle ++ agent ∷ []),
            elem-append x cycle (agent ∷ []),
            elem-cons x agent [],
            elem-nil x,
            eq_iff agent x,
          ) in
          rw e back
    ]
  ]

  -- Step 1: the agent is on the path, and what is added lies on a cycle.
  pub found_cycle_lem :
      (agent : String) (s : Dfs)
      → Inv s
      → Toward agent s
      → get agent s.state ≡ some currently_being_processed
      → (t : Dfs) × (found_cycle agent s ≡ some t) × Visited (agent ∷ []) s t
  unfolding found_cycle
  found_cycle_lem agent s h toward busy =
      let (cycle, e, on_cycle, back) =
        cycle_lem extract net agent s.path (h.on_path agent busy) h.linked toward in
      let never =
        set_update-ne_nil s.cyclical (cycle ++ agent ∷ []) agent (In-concat agent cycle) in
      (
        record s { cyclical = set_update s.cyclical (cycle ++ agent ∷ []) },
        rw e,
        record {
          inv = record {
            known = h.known;
            on_path = h.on_path;
            processing = h.processing;
            linked = h.linked;
            cyclic = λ x m. cyclic_update s.cyclical cycle agent h.cyclic on_cycle back x m;
            done = λ x k e. absurd (never e);
          };
          path = refl;
          kept = λ e. absurd (never e);
          stays = λ x k. k;
          older = λ x k. k;
          targets = (λ k e. absurd (never e), tt);
        },
      )

  -- Steps 3 and 4.
  pub enter-Inv :
      (agent : String) (s : Dfs)
      → Inv s
      → Toward agent s
      → get agent s.state ≡ some unvisited
      → Inv (enter agent s)
  unfolding enter
  enter-Inv agent s h toward fresh = record {
    known = λ x k. ground (arith, h.known x, get-put agent x currently_being_processed s.state);
    on_path = λ x k. ground (
      arith,
      h.on_path x,
      get-put agent x currently_being_processed s.state,
      elem-append x s.path (agent ∷ []),
      elem-cons x agent [],
      eq_iff agent x,
    );
    processing = λ x m. ground (
      arith,
      h.processing x,
      get-put agent x currently_being_processed s.state,
      elem-append x s.path (agent ∷ []),
      elem-cons x agent [],
      elem-nil x,
      eq_iff agent x,
    );
    linked = IsLinked-concat extract net s.path agent h.linked toward;
    cyclic = h.cyclic;
    done = λ x k e. h.done x (ground (arith, get-put agent x currently_being_processed s.state)) e;
  }

  left : String → Dfs → Dfs → Dfs
  left agent s u = record u { path = s.path; state = put agent fully_processed u.state }

  left-Inv :
      (agent : String) (s u : Dfs)
      → Inv s
      → get agent s.state ≡ some unvisited
      → Visited (safe_down_chains extract net agent) (enter agent s) u
      → Inv (left agent s u)
  unfolding enter left
  left-Inv agent s u h fresh p = record {
    known = λ x k. ground (arith, p.inv.known x, get-put agent x fully_processed u.state);
    on_path = λ x k. ground (
      arith,
      get-put agent x fully_processed u.state,
      get-put agent x currently_being_processed s.state,
      eq_iff agent x,
      p.inv.on_path x,
      ap (elem x) p.path,
      elem-append x s.path (agent ∷ []),
      elem-cons x agent [],
      elem-nil x,
      eq_iff agent x,
    );
    processing = λ x m. ground (
      arith,
      get-put agent x fully_processed u.state,
      get-put agent x currently_being_processed s.state,
      eq_iff agent x,
      p.inv.processing x,
      h.processing x,
      ap (elem x) p.path,
      elem-append x s.path (agent ∷ []),
      elem-cons x agent [],
      elem-nil x,
      eq_iff agent x,
    );
    linked = h.linked;
    cyclic = p.inv.cyclic;
    done = λ x k e. elim (Bool-cases (agent == x)) [
      | inl same ↦ rw (← ((eq_iff agent x).0 same)) (
          grounded (λ b call.
            p.inv.done b
              (All-In
                (λ c.
                  contains c net ≡ true → u.cyclical ≡ [] → get c u.state ≡ some fully_processed)
                _ p.targets call.0 call.1 e)
              e))
      | inr other ↦
          p.inv.done x
            (ground (
              arith,
              get-put agent x fully_processed u.state,
              get-put agent x currently_being_processed s.state,
              eq_iff agent x,
            ))
            e
    ];
  }

  -- Steps 7 and 8.
  pub leave_lem :
      (agent : String) (s u : Dfs)
      → Inv s
      → get agent s.state ≡ some unvisited
      → Visited (safe_down_chains extract net agent) (enter agent s) u
      → (t : Dfs) × (leave agent u ≡ some t) × Visited (agent ∷ []) s t
  unfolding enter leave left
  leave_lem agent s u h fresh p = (
    left agent s u,
    rw (p.path, pop-concat),
    record {
      inv = left-Inv agent s u h fresh p;
      path = refl;
      kept = p.kept;
      stays = λ x k. ground (
        arith,
        get-put agent x fully_processed u.state,
        get-put agent x currently_being_processed s.state,
        eq_iff agent x,
        p.stays x,
      );
      older = λ x k. ground (
        arith,
        get-put agent x fully_processed u.state,
        get-put agent x currently_being_processed s.state,
        eq_iff agent x,
        p.older x,
      );
      targets = (
        λ k e. ground (arith, get-put agent agent fully_processed u.state, eq_iff agent agent),
        tt,
      );
    },
  )

  pub visit_next :
      (a : String) (rest : List String) (s u t : Dfs)
      → Visited (a ∷ []) s u
      → Visited rest u t
      → Visited (a ∷ rest) s t
  visit_next a rest s u t p q = record {
    inv = q.inv;
    path = q.path ∙ p.path;
    kept = λ e. p.kept (q.kept e);
    stays = λ x k. q.stays x (p.stays x k);
    older = λ x k. p.older x (q.older x k);
    targets = (λ k e. q.stays a (p.targets.0 k (q.kept e)), q.targets);
  }

  pub visit_nothing :
      (agents : List String) (s : Dfs)
      → Inv s
      → All
          (λ c. contains c net ≡ true → s.cyclical ≡ [] → get c s.state ≡ some fully_processed)
          agents
      → Visited agents s s
  visit_nothing agents s h k = record {
    inv = h;
    path = refl;
    kept = λ e. e;
    stays = λ x m. m;
    older = λ x m. m;
    targets = k;
  }
