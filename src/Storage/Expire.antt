-- ===== src/Storage/Expire.antt =====
-- What an expiration removes, and that no expired network is handed out.
use nora_fleet.Common.{
  ℕ, ◌<◌, String, ◌≡◌, refl, ap, false, ◌⊎◌, inl, inr, Option, none, some, [], ◌∷◌, if◌then◌else◌,
  Dict, get, keys, elem, elem-keys, In, Distinct, is_some, arith, eq_iff, Option-cases, get-remove,
}
use nora_fleet.Reservations.{AgentReservation}
use nora_fleet.Storage.{
  Backend, Storage, notify, remove_agent_network, is_expired, expired_names, expire_reservations,
  provide_reserved, provide_found, provide_from_base, get_agent_network_provider,
}
use nora_fleet.Storage.Tables.{IsConsistent}
use nora_fleet.Storage.Evict.{get-remove_names, remove_all-agents, remove_all-reservations}

module _ (backend : Backend) where
  open backend use {Network, Base, base_get}

  -- A reservation that has not expired.
  abbrev pub unexpired : ℕ → Option AgentReservation → Option AgentReservation
  unexpired now none = none
  unexpired now (some r) = if is_expired backend now r then none else some r

  expired_names-keys :
      (now : ℕ) (x : String) (d : Dict AgentReservation)
      → In x (expired_names backend now d)
      → In x (keys d)
  unfolding expired_names keys elem
  expired_names-keys now x [] m = m
  expired_names-keys now x ((k, r) ∷ d) m = ground (arith, expired_names-keys now x d)

  remove_expired :
      (now : ℕ) (x : String) (d : Dict AgentReservation)
      → Distinct (keys d)
      → (if elem x (expired_names backend now d) then none else get x d) ≡ unexpired now (get x d)
  unfolding expired_names keys elem get
  remove_expired now x [] h = refl
  remove_expired now x ((k, r) ∷ d) h =
      ground (arith, remove_expired now x d h.1, expired_names-keys now x d, eq_iff k x)

  module _ (now : ℕ) {s : Storage backend} (h : IsConsistent backend s) where
    -- Where the tables list the same names, each once, an expiration leaves exactly the reservations
    -- whose time has not passed, and exactly their networks.
    pub expire_reservations_lem :
        (x : String)
        → let t = expire_reservations backend now s in
          (get x t.reservations_table ≡ unexpired now (get x s.reservations_table))
          × (get x t.agents_table ≡ (
              if is_some (unexpired now (get x s.reservations_table))
              then get x s.agents_table
              else none))
    unfolding expire_reservations notify
    expire_reservations_lem x =
        let names = expired_names backend now s.reservations_table in
        let left = remove_expired now x s.reservations_table (rw h.reservations h.distinct) in
        (
          ground (
            arith,
            ap (get x) (remove_all-reservations backend names s),
            get-remove_names x names s.reservations_table,
            left,
          ),
          ground (
            arith,
            ap (get x) (remove_all-agents backend names s),
            get-remove_names x names s.agents_table,
            left,
            elem-keys x s.reservations_table,
            elem-keys x s.agents_table,
            ap (elem x) h.reservations,
          ),
        )

  none_served : {n : Network} → none ≡ some n → ⊥
  none_served e = cc

  reserved_unexpired :
      (now : ℕ) (name : String) (r : AgentReservation) (s : Storage backend) (network : Network)
      → (provide_reserved backend now name r s).0 ≡ some network
      → (is_expired backend now r ≡ false) × (get name s.agents_table ≡ some network)
  unfolding provide_reserved
  reserved_unexpired now name r s network e = ground arith

  found_unexpired :
      (now : ℕ) (name : String) (o : Option (AgentReservation × Network)) (s : Storage backend)
      (network : Network)
      → (provide_found backend now name o s).0 ≡ some network
      → (r : AgentReservation) × (is_expired backend now r ≡ false) × (o ≡ some (r, network))
  unfolding provide_found
  found_unexpired now name none s network e = cc
  found_unexpired now name (some (r, n)) s network e = (r, ground arith, ground arith)

  -- What is handed out under a name belongs to a reservation that has not expired: the one in the
  -- tables, or, where there is none, the one that the base storage answers with.
  pub provide_unexpired :
      (now : ℕ) (name : String) (s : Storage backend) (network : Network)
      → (get_agent_network_provider backend now name s).0 ≡ some network
      → (r : AgentReservation) × (is_expired backend now r ≡ false)
        × (((get name s.reservations_table ≡ some r) × (get name s.agents_table ≡ some network))
            ⊎ ((get name s.reservations_table ≡ none)
                × ((base : Base) × (s.base_storage ≡ some base)
                    × (base_get name base ≡ some (r, network)))))
  unfolding get_agent_network_provider provide_from_base
  provide_unexpired now name s network e = elim (Option-cases (get name s.reservations_table)) [
    | inr (r, p) ↦
        let (valid, e') =
          reserved_unexpired now name r s network (rw (p, get_agent_network_provider) at e) in
        (r, valid, inl (p, e'))
    | inl p ↦ elim (Option-cases s.base_storage) [
      | inl q ↦ absurd (none_served (rw (p, get_agent_network_provider, q, provide_from_base) at e))
      | inr (base, q) ↦
          let (r, valid, e') =
            found_unexpired now name (base_get name base) s network
              (rw (p, get_agent_network_provider, q, provide_from_base) at e) in
          (r, valid, inr (p, (base, q, e')))
    ]
  ]

  -- Under an expired reservation nothing is handed out, and the name is gone from the tables.
  pub provide_expired :
      (now : ℕ) (name : String) (s : Storage backend) {r : AgentReservation}
      → get name s.reservations_table ≡ some r
      → r.expiration_time_in_seconds < now
      → let (served, t) = get_agent_network_provider backend now name s in
        (served ≡ none) × (get name t.reservations_table ≡ none) × (get name t.agents_table ≡ none)
  unfolding get_agent_network_provider provide_reserved is_expired notify remove_agent_network
  provide_expired now name s {r} e lt = ground (
    arith,
    get-remove name name s.reservations_table,
    get-remove name name s.agents_table,
    eq_iff name name,
  )
