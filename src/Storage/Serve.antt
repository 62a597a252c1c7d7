-- ===== src/Storage/Serve.antt =====
-- What is added is served.
use nora_fleet.Common.{
  ℕ, ◌≤◌, String, ◌≡◌, refl, false, some, [], ◌∷◌, ◌++◌, ◌==◌, get, get-put, contains, All, Value,
  >>=-eq-some, some_inj, Bool-cases, Option-cases, inl, inr, arith, eq_iff,
}
use nora_fleet.Reservations.{AgentReservation, Deployment, get_reservation_id}
use nora_fleet.Storage.{
  Backend, Storage, Adding, notify, remove_all, enter_tables, to_evict, evict_lru_agent_networks,
  add_one, add_loop, add_to_base, add_reservations, is_expired, provide_reserved,
  get_agent_network_provider,
}

module _ (backend : Backend) where
  open backend use {Network, build, base_add}

  -- A name with a reservation and a network in the tables, and no limit.
  abbrev pub Holds : String → AgentReservation → Network → Storage backend → Type 0
  Holds name r network s =
      (s.max_items ≡ 0)
      × (get name s.reservations_table ≡ some r)
      × (get name s.agents_table ≡ some network)

  pub add_one-unlimited :
      (now : ℕ) (name : String) (r : AgentReservation) (n : Network) (a : Adding backend)
      → a.storage.max_items ≡ 0
      → (add_one backend now name r n a).storage.max_items ≡ 0
  unfolding add_one enter_tables
  add_one-unlimited now name r n a e = ground (arith, e)

  add_one-Holds :
      (now : ℕ) (name : String) (r : AgentReservation) (n : Network) (a : Adding backend)
      → a.storage.max_items ≡ 0
      → Holds name r n (add_one backend now name r n a).storage
  unfolding add_one enter_tables
  add_one-Holds now name r n a e = elim (Bool-cases (contains name a.storage.agents_table)) [
    | inl known ↦ rw known (
      e,
      ground (arith, get-put name name r a.storage.reservations_table, eq_iff name name),
      ground (arith, get-put name name n a.storage.agents_table, eq_iff name name),
    )
    | inr unknown ↦ rw unknown (
      e,
      ground (arith, get-put name name r a.storage.reservations_table, eq_iff name name),
      ground (arith, get-put name name n a.storage.agents_table, eq_iff name name),
    )
  ]

  add_one-other :
      (now : ℕ) (name other : String) (r q : AgentReservation) (n m : Network) (a : Adding backend)
      → (other == name) ≡ false
      → Holds name r n a.storage
      → Holds name r n (add_one backend now other q m a).storage
  unfolding add_one enter_tables
  add_one-other now name other r q n m a ne (e, p, p') =
      elim (Bool-cases (contains other a.storage.agents_table)) [
        | inl known ↦ rw known (
          e,
          ground (arith, get-put other name q a.storage.reservations_table),
          ground (arith, get-put other name m a.storage.agents_table),
        )
        | inr unknown ↦ rw unknown (
          e,
          ground (arith, get-put other name q a.storage.reservations_table),
          ground (arith, get-put other name m a.storage.agents_table),
        )
      ]

  -- No entry of a deployment is reserved under a name.
  abbrev pub Spares : String → Deployment → Type 0
  Spares name d = All (λ e. (get_reservation_id e.0 == name) ≡ false) d

  pub add_loop-Holds :
      (now : ℕ) (d : Deployment) (name : String) (r : AgentReservation) (n : Network)
      (a b : Adding backend)
      → Spares name d
      → Holds name r n a.storage
      → add_loop backend now d a ≡ some b
      → Holds name r n b.storage
  unfolding add_loop
  add_loop-Holds now [] name r n a b h held e = rw (← some_inj e) held
  add_loop-Holds now ((q, spec) ∷ rest) name r n a b h held e =
      let (m, p, e') = >>=-eq-some (build spec (get_reservation_id q)) _ e in
      add_loop-Holds now rest name r n (add_one backend now (get_reservation_id q) q m a) b h.1
        (add_one-other now name (get_reservation_id q) r q n m a h.0 held) e'

  add_loop-enters :
      (now : ℕ) (before after : Deployment) (r : AgentReservation) (spec : Value) (n : Network)
      (a b : Adding backend)
      → a.storage.max_items ≡ 0
      → Spares (get_reservation_id r) after
      → build spec (get_reservation_id r) ≡ some n
      → add_loop backend now (before ++ (r, spec) ∷ after) a ≡ some b
      → Holds (get_reservation_id r) r n b.storage
  unfolding add_loop
  add_loop-enters now [] after r spec n a b free h p e =
      add_loop-Holds now after (get_reservation_id r) r n
        (add_one backend now (get_reservation_id r) r n a) b h
        (add_one-Holds now (get_reservation_id r) r n a free) (rw (p, add_loop) at e)
  add_loop-enters now ((q, other) ∷ before) after r spec n a b free h p e =
      let (m, p', e') = >>=-eq-some (build other (get_reservation_id q)) _ e in
      add_loop-enters now before after r spec n (add_one backend now (get_reservation_id q) q m a) b
        (add_one-unlimited now (get_reservation_id q) q m a free) h p e'

  to_evict-nil : (s : Storage backend) → s.max_items ≡ 0 → to_evict backend s ≡ []
  unfolding to_evict
  to_evict-nil s e = ground (arith, e)

  pub evict-Holds :
      (name : String) (r : AgentReservation) (n : Network) (s : Storage backend)
      → Holds name r n s
      → Holds name r n (evict_lru_agent_networks backend s)
  unfolding evict_lru_agent_networks notify remove_all
  evict-Holds name r n s (e, p, q) = rw (to_evict-nil s e) (e, p, q)

  pub Holds-served :
      (later : ℕ) (name : String) (r : AgentReservation) (n : Network) (s : Storage backend)
      → Holds name r n s
      → later ≤ r.expiration_time_in_seconds
      → (get_agent_network_provider backend later name s).0 ≡ some n
  unfolding get_agent_network_provider provide_reserved is_expired
  Holds-served later name r n s (e, p, q) le = ground (arith, p, q)

  pub add_to_base-unlimited :
      (d : Deployment) (s t : Storage backend)
      → s.max_items ≡ 0
      → add_to_base backend d s ≡ some t
      → t.max_items ≡ 0
  unfolding add_to_base
  add_to_base-unlimited d s t free e = elim (Option-cases s.base_storage) [
    | inl p ↦ rw (← some_inj (rw (p, add_to_base) at e)) free
    | inr (base, p) ↦
        let (base', _, e') = >>=-eq-some (base_add d base) _ (rw (p, add_to_base) at e) in
        rw (← some_inj e') free
  ]

  pub add_reservations-Holds :
      (now : ℕ) (entry : AgentReservation × Value) (d before after : Deployment)
      (r : AgentReservation) (spec : Value) (n : Network) (s t : Storage backend)
      → entry ∷ d ≡ before ++ (r, spec) ∷ after
      → s.max_items ≡ 0
      → Spares (get_reservation_id r) after
      → build spec (get_reservation_id r) ≡ some n
      → add_reservations backend now (entry ∷ d) s ≡ some t
      → Holds (get_reservation_id r) r n t
  unfolding add_reservations notify
  add_reservations-Holds now entry d before after r spec n s t split free h p e =
      let (s', e1, e2) = >>=-eq-some (add_to_base backend (entry ∷ d) s) _ e in
      let (a, e3, e4) = >>=-eq-some (add_loop backend now (entry ∷ d) _) _ e2 in
      let held =
        add_loop-enters now before after r spec n _ a
          (add_to_base-unlimited (entry ∷ d) s s' free e1) h p (rw split at e3) in
      rw (← some_inj e4) (evict-Holds (get_reservation_id r) r n _ held)

  -- Where there is no limit on the number of networks and the addition of a deployment raises no
  -- exception, the network of each entry that no later entry of the deployment replaces is handed out
  -- under the id of its reservation until that expires.
  pub add_reservations_lem :
      (now later : ℕ) (before after : Deployment) (r : AgentReservation) (spec : Value)
      (n : Network) (s t : Storage backend)
      → s.max_items ≡ 0
      → Spares (get_reservation_id r) after
      → build spec (get_reservation_id r) ≡ some n
      → add_reservations backend now (before ++ (r, spec) ∷ after) s ≡ some t
      → later ≤ r.expiration_time_in_seconds
      → (get_agent_network_provider backend later (get_reservation_id r) t).0 ≡ some n
  add_reservations_lem now later [] after r spec n s t free h p e le =
      Holds-served later (get_reservation_id r) r n t
        (add_reservations-Holds now (r, spec) after [] after r spec n s t refl free h p e) le
  add_reservations_lem now later (entry ∷ before) after r spec n s t free h p e le =
      Holds-served later (get_reservation_id r) r n t
        (add_reservations-Holds now entry (before ++ (r, spec) ∷ after) (entry ∷ before) after r
          spec n s t refl free h p e)
        le
