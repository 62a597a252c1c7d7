-- ===== src/Storage/Tables.antt =====
-- The four tables always list the same names, each of them once.
use nora_fleet.Common.{
  ℕ, String, ◌≡◌, ap, Option, none, some, List, [], ◌∷◌, get, put, keys, contains, elem, elem-keys,
  put_key, drop_key, Distinct, keys-put, keys-remove, put_key-present, put_key-Distinct,
  drop_key-Distinct, arith, Option-cases, Bool-cases, inl, inr, some_inj, >>=-eq-some, In,
}
use nora_fleet.Reservations.{AgentReservation, get_reservation_id, Deployment}
use nora_fleet.Storage.{
  Backend, Storage, Change, Adding, notify, remove_agent_network, remove_all, enter_tables,
  to_evict, evict_lru_agent_networks, set_max_agent_networks, add_one, add_loop, add_to_base,
  add_reservations, expire_reservations, expired_names, provide_reserved, provide_found,
  provide_from_base, get_agent_network_provider, is_expired,
}

module _ (backend : Backend) where
  open backend use {Network, base_get}

  pub record IsConsistent (s : Storage backend) : Type 0 where
    pub reservations : keys s.reservations_table ≡ keys s.agents_table
    pub access : keys s.access_times ≡ keys s.agents_table
    pub sizes : keys s.sizes ≡ keys s.agents_table
    pub distinct : Distinct (keys s.agents_table)

  module _ {s : Storage backend} where
    pub notify-IsConsistent : (c : List Change) → IsConsistent s → IsConsistent (notify backend c s)
    unfolding notify
    notify-IsConsistent c h = record {
      reservations = h.reservations;
      access = h.access;
      sizes = h.sizes;
      distinct = h.distinct;
    }

    remove-IsConsistent :
        (name : String) → IsConsistent s → IsConsistent (remove_agent_network backend name s)
    unfolding remove_agent_network
    remove-IsConsistent name h = record {
      reservations = simp keys-remove (ap (drop_key name) h.reservations);
      access = simp keys-remove (ap (drop_key name) h.access);
      sizes = simp keys-remove (ap (drop_key name) h.sizes);
      distinct = rw keys-remove (drop_key-Distinct name (keys s.agents_table) h.distinct);
    }

    pub enter-IsConsistent :
        (name : String) (r : AgentReservation) (n : Network) (now : ℕ)
        → IsConsistent s
        → IsConsistent (enter_tables backend name r n now s)
    unfolding enter_tables
    enter-IsConsistent name r n now h = record {
      reservations = simp keys-put (ap (put_key name) h.reservations);
      access = simp keys-put (ap (put_key name) h.access);
      sizes = simp keys-put (ap (put_key name) h.sizes);
      distinct = rw keys-put (put_key-Distinct name (keys s.agents_table) h.distinct);
    }

  pub remove_all-IsConsistent :
      (names : List String) {s : Storage backend}
      → IsConsistent s
      → IsConsistent (remove_all backend names s)
  unfolding remove_all
  remove_all-IsConsistent [] h = h
  remove_all-IsConsistent (name ∷ names) h =
      remove_all-IsConsistent names (remove-IsConsistent name h)

  pub evict-IsConsistent :
      {s : Storage backend} → IsConsistent s → IsConsistent (evict_lru_agent_networks backend s)
  unfolding evict_lru_agent_networks
  evict-IsConsistent {s} h = notify-IsConsistent _ (remove_all-IsConsistent (to_evict backend s) h)

  pub set_max-IsConsistent :
      (round : ℕ → ℕ) (m : ℕ) {s : Storage backend}
      → IsConsistent s
      → IsConsistent (set_max_agent_networks backend round m s)
  unfolding set_max_agent_networks
  set_max-IsConsistent round m h = evict-IsConsistent (record {
    reservations = h.reservations;
    access = h.access;
    sizes = h.sizes;
    distinct = h.distinct;
  })

  pub expire-IsConsistent :
      (now : ℕ) {s : Storage backend}
      → IsConsistent s
      → IsConsistent (expire_reservations backend now s)
  unfolding expire_reservations
  expire-IsConsistent now {s} h =
      notify-IsConsistent _
        (remove_all-IsConsistent (expired_names backend now s.reservations_table) h)

  add_one-IsConsistent :
      (now : ℕ) (name : String) (r : AgentReservation) (n : Network) (a : Adding backend)
      → IsConsistent a.storage
      → IsConsistent (add_one backend now name r n a).storage
  unfolding add_one
  add_one-IsConsistent now name r n a h = elim (Bool-cases (contains name a.storage.agents_table)) [
    | inl old ↦ rw old (enter-IsConsistent name r n now h)
    | inr new ↦ rw new (enter-IsConsistent name r n now h)
  ]

  pub add_loop-IsConsistent :
      (now : ℕ) (d : Deployment) (a b : Adding backend)
      → IsConsistent a.storage
      → add_loop backend now d a ≡ some b
      → IsConsistent b.storage
  unfolding add_loop
  add_loop-IsConsistent now [] a b h e = rw (← some_inj e) h
  add_loop-IsConsistent now ((r, spec) ∷ rest) a b h e =
      let (n, _, e') = >>=-eq-some (backend.build spec (get_reservation_id r)) _ e in
      add_loop-IsConsistent now rest (add_one backend now (get_reservation_id r) r n a) b
        (add_one-IsConsistent now (get_reservation_id r) r n a h) e'

  pub add_to_base-IsConsistent :
      (d : Deployment) (s t : Storage backend)
      → IsConsistent s
      → add_to_base backend d s ≡ some t
      → IsConsistent t
  unfolding add_to_base
  add_to_base-IsConsistent d s t h e = elim (Option-cases s.base_storage) [
    | inl p ↦ rw (← some_inj (rw (p, add_to_base) at e)) h
    | inr (base, p) ↦
        let (base', _, e') = >>=-eq-some (backend.base_add d base) _ (rw (p, add_to_base) at e) in
        rw (← some_inj e') (record {
          reservations = h.reservations;
          access = h.access;
          sizes = h.sizes;
          distinct = h.distinct;
        })
  ]

  -- Whatever is added, the tables of the storage that is left list the same names, each once.
  pub add_reservations-IsConsistent :
      (now : ℕ) (d : Deployment) (s t : Storage backend)
      → IsConsistent s
      → add_reservations backend now d s ≡ some t
      → IsConsistent t
  unfolding add_reservations
  add_reservations-IsConsistent now [] s t h e = rw (← some_inj e) h
  add_reservations-IsConsistent now (entry ∷ rest) s t h e =
      let (s', e1, e2) = >>=-eq-some (add_to_base backend (entry ∷ rest) s) _ e in
      let (a, e3, e4) = >>=-eq-some (add_loop backend now (entry ∷ rest) _) _ e2 in
      rw (← some_inj e4) (
        evict-IsConsistent (
          notify-IsConsistent _ (
            add_loop-IsConsistent now (entry ∷ rest) _ a
              (add_to_base-IsConsistent (entry ∷ rest) s s' h e1) e3)))

  -- a new access time for a name that is there
  touch-IsConsistent :
      (now : ℕ) (name : String) {s : Storage backend} {r : AgentReservation}
      → get name s.reservations_table ≡ some r
      → IsConsistent s
      → IsConsistent (record s { access_times = put name now s.access_times })
  touch-IsConsistent now name {s} e h = record {
    reservations = h.reservations;
    access =
        let here : In name (keys s.access_times) = ground (
          arith,
          ap (elem name) h.access,
          ap (elem name) h.reservations,
          elem-keys name s.reservations_table,
        ) in
        rw (keys-put, put_key-present name (keys s.access_times) here) h.access;
    sizes = h.sizes;
    distinct = h.distinct;
  }

  provide_reserved-IsConsistent :
      (now : ℕ) (name : String) (r : AgentReservation) {s : Storage backend}
      → get name s.reservations_table ≡ some r
      → IsConsistent s
      → IsConsistent (provide_reserved backend now name r s).1
  unfolding provide_reserved
  provide_reserved-IsConsistent now name r {s} e h = elim (Bool-cases (is_expired backend now r)) [
    | inl old ↦ rw old (notify-IsConsistent _ (remove-IsConsistent name h))
    | inr valid ↦ elim (Option-cases (get name s.agents_table)) [
      | inl p ↦ rw (valid, p, provide_reserved) h
      | inr (n, p) ↦ rw (valid, p, provide_reserved) (touch-IsConsistent now name e h)
    ]
  ]

  provide_found-IsConsistent :
      (now : ℕ) (name : String) (o : Option (AgentReservation × Network)) {s : Storage backend}
      → IsConsistent s
      → IsConsistent (provide_found backend now name o s).1
  unfolding provide_found
  provide_found-IsConsistent now name none h = h
  provide_found-IsConsistent now name (some (r, n)) h =
      elim (Bool-cases (is_expired backend now r)) [
        | inl old ↦ rw old h
        | inr valid ↦
            rw valid
              (evict-IsConsistent (notify-IsConsistent _ (enter-IsConsistent name r n now h)))
      ]

  pub provide-IsConsistent :
      (now : ℕ) (name : String) {s : Storage backend}
      → IsConsistent s
      → IsConsistent (get_agent_network_provider backend now name s).1
  unfolding get_agent_network_provider provide_from_base
  provide-IsConsistent now name {s} h = elim (Option-cases (get name s.reservations_table)) [
    | inr (r, p) ↦ rw (p, get_agent_network_provider) (provide_reserved-IsConsistent now name r p h)
    | inl p ↦
        rw (p, get_agent_network_provider)
          (elim (Option-cases s.base_storage) [
            | inl q ↦ rw (q, provide_from_base) h
            | inr (base, q) ↦
                rw (q, provide_from_base)
                  (provide_found-IsConsistent now name (base_get name base) h)
          ])
  ]
