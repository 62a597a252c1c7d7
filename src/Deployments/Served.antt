-- ===== src/Deployments/Served.antt =====
-- What the additions of a deployment keep and bring about, storage by storage.
use nora_fleet.Common.{
  ℕ, String, ◌≡◌, refl, ap, ◌∙◌, Option, none, some, List, [], ◌∷◌, ◌++◌, All, Value, >>=-eq-some,
  some_inj, inl, inr, Option-cases, ◌>>=◌,
}
use nora_fleet.Reservations.{
  AgentReservation, Deployment, get_reservation_id, set_expiration_from, expire_together,
}
use nora_fleet.Storage.{
  Backend, Storage, Adding, add_one, to_evict, notify, add_to_base, add_loop, add_reservations,
  evict_lru_agent_networks,
}
use nora_fleet.Storage.Evict.{remove_all-limits}
use nora_fleet.Storage.Serve.{
  Holds, Spares, add_loop-Holds, add_to_base-unlimited, evict-Holds, add_one-unlimited,
  add_reservations-Holds,
}
use nora_fleet.Deployments.{
  Block, Deployments, Deployed, add_to_all, deploy_together, set_event, event_of, deploy_blocks,
  deploy_all,
}

pub expire_together-append :
    (now max_lifetime : ℕ) (d e : Deployment)
    → expire_together now max_lifetime (d ++ e)
      ≡ expire_together now max_lifetime d ++ expire_together now max_lifetime e
unfolding expire_together
expire_together-append now max_lifetime [] e = refl
expire_together-append now max_lifetime ((r, spec) ∷ d) e =
    ap (λ rest. (set_expiration_from now max_lifetime r, spec) ∷ rest)
      (expire_together-append now max_lifetime d e)

module _ (backend : Backend) where
  open backend use {Network, build}

  pub Spares-expire :
      (now max_lifetime : ℕ) (name : String) (d : Deployment)
      → Spares backend name d
      → Spares backend name (expire_together now max_lifetime d)
  unfolding expire_together set_expiration_from get_reservation_id
  Spares-expire now max_lifetime name [] h = tt
  Spares-expire now max_lifetime name ((r, spec) ∷ d) h =
      (h.0, Spares-expire now max_lifetime name d h.1)

  abbrev pub IsUnlimited : Storage backend → Type 0
  IsUnlimited s = s.max_items ≡ 0

  -- All storages have a reservation and a network under a name.
  abbrev pub AllHold : String → AgentReservation → Network → List (Storage backend) → Type 0
  AllHold name r n = All (Holds backend name r n)

  add_to_base-Holds :
      (d : Deployment) (name : String) (r : AgentReservation) (n : Network) (s t : Storage backend)
      → Holds backend name r n s
      → add_to_base backend d s ≡ some t
      → Holds backend name r n t
  unfolding add_to_base
  add_to_base-Holds d name r n s t held e = elim (Option-cases s.base_storage) [
    | inl p ↦ rw (← some_inj (rw (p, add_to_base) at e)) held
    | inr (base, p) ↦
        let (base', _, e') = >>=-eq-some (backend.base_add d base) _ (rw (p, add_to_base) at e) in
        rw (← some_inj e') held
  ]

  pub add_reservations-keeps :
      (now : ℕ) (d : Deployment) (name : String) (r : AgentReservation) (n : Network)
      (s t : Storage backend)
      → Spares backend name d
      → Holds backend name r n s
      → add_reservations backend now d s ≡ some t
      → Holds backend name r n t
  unfolding add_reservations notify
  add_reservations-keeps now [] name r n s t spares held e = rw (← some_inj e) held
  add_reservations-keeps now (entry ∷ d) name r n s t spares held e =
      let (s', e1, e2) = >>=-eq-some (add_to_base backend (entry ∷ d) s) _ e in
      let (a, e3, e4) = >>=-eq-some (add_loop backend now (entry ∷ d) _) _ e2 in
      let based = add_to_base-Holds (entry ∷ d) name r n s s' held e1 in
      let looped = add_loop-Holds backend now (entry ∷ d) name r n _ a spares based e3 in
      rw (← some_inj e4) (evict-Holds backend name r n _ looped)

  add_loop-IsUnlimited :
      (now : ℕ) (d : Deployment) (a b : Adding backend)
      → IsUnlimited a.storage
      → add_loop backend now d a ≡ some b
      → IsUnlimited b.storage
  unfolding add_loop
  add_loop-IsUnlimited now [] a b free e = rw (← some_inj e) free
  add_loop-IsUnlimited now ((r, spec) ∷ d) a b free e =
      let (n, p, e') = >>=-eq-some (build spec (get_reservation_id r)) _ e in
      add_loop-IsUnlimited now d (add_one backend now (get_reservation_id r) r n a) b
        (add_one-unlimited backend now (get_reservation_id r) r n a free) e'

  evict-IsUnlimited :
      (s : Storage backend) → IsUnlimited s → IsUnlimited (evict_lru_agent_networks backend s)
  unfolding evict_lru_agent_networks notify
  evict-IsUnlimited s free = (remove_all-limits backend (to_evict backend s) s).0 ∙ free

  pub add_reservations-IsUnlimited :
      (now : ℕ) (d : Deployment) (s t : Storage backend)
      → IsUnlimited s
      → add_reservations backend now d s ≡ some t
      → IsUnlimited t
  unfolding add_reservations notify
  add_reservations-IsUnlimited now [] s t free e = rw (← some_inj e) free
  add_reservations-IsUnlimited now (entry ∷ d) s t free e =
      let (s', e1, e2) = >>=-eq-some (add_to_base backend (entry ∷ d) s) _ e in
      let (a, e3, e4) = >>=-eq-some (add_loop backend now (entry ∷ d) _) _ e2 in
      let based = add_to_base-unlimited backend (entry ∷ d) s s' free e1 in
      let looped = add_loop-IsUnlimited now (entry ∷ d) _ a based e3 in
      rw (← some_inj e4) (evict-IsUnlimited _ looped)

  -- A property of a storage that an addition brings about, where another held before.
  add_to_all-All :
      (P Q : Storage backend → Type 0) (now : ℕ) (d : Deployment)
      → ((s t : Storage backend) → P s → add_reservations backend now d s ≡ some t → Q t)
      → (ss ts : List (Storage backend)) → All P ss
      → add_to_all backend now d ss ≡ some ts
      → All Q ts
  unfolding add_to_all
  add_to_all-All P Q now d f [] ts h e = rw (← some_inj e) tt
  add_to_all-All P Q now d f (s ∷ ss) ts h e =
      let (t, p, e') = >>=-eq-some (add_reservations backend now d s) _ e in
      let (us, q, e'') = >>=-eq-some (add_to_all backend now d ss) _ e' in
      rw (← some_inj e'') (f s t h.0 p, add_to_all-All P Q now d f ss us h.1 q)

  pub deploy_together-All :
      (P Q : Storage backend → Type 0) (now max_lifetime : ℕ) (d : Deployment)
      → ((s t : Storage backend)
          → P s
          → add_reservations backend now (expire_together now max_lifetime d) s ≡ some t
          → Q t)
      → (event' : Option ℕ) (s t : Deployed backend) → All P s.storages
      → deploy_together backend now max_lifetime d s ≡ some t
      → All Q (set_event backend event' t).storages
  unfolding deploy_together set_event
  deploy_together-All P Q now max_lifetime d f none s t h e =
      let (ss, p, e') = >>=-eq-some (add_to_all backend now _ s.storages) _ e in
      rw (← some_inj e') (add_to_all-All P Q now _ f s.storages ss h p)
  deploy_together-All P Q now max_lifetime d f (some n) s t h e =
      let (ss, p, e') = >>=-eq-some (add_to_all backend now _ s.storages) _ e in
      rw (← some_inj e') (add_to_all-All P Q now _ f s.storages ss h p)

  -- A deployment, once its reservations have their expirations, keeps a property of storages.
  abbrev pub Keeps : (Storage backend → Type 0) → ℕ → ℕ → Block → Type 0
  Keeps P now max_lifetime block =
      (s t : Storage backend)
      → P s
      → add_reservations backend now (expire_together now max_lifetime block.1) s ≡ some t
      → P t

  pub deploy_blocks-All :
      (P : Storage backend → Type 0) (now max_lifetime : ℕ) (blocks : List Block)
      (s t : Deployed backend)
      → All (Keeps P now max_lifetime) blocks
      → All P s.storages
      → deploy_blocks backend now max_lifetime blocks s ≡ some t
      → All P t.storages
  unfolding deploy_blocks
  deploy_blocks-All P now max_lifetime [] s t keeps h e = rw (← some_inj e) h
  deploy_blocks-All P now max_lifetime ((key, d) ∷ blocks) s t keeps h e =
      let (u, p, e') = >>=-eq-some (deploy_together backend now max_lifetime d s) _ e in
      deploy_blocks-All P now max_lifetime blocks (set_event backend (event_of key) u) t keeps.1
        (deploy_together-All P P now max_lifetime d keeps.0 (event_of key) s u h p) e'

  pub deploy_blocks-append :
      (now max_lifetime : ℕ) (blocks others : List Block) (s : Deployed backend)
      → deploy_blocks backend now max_lifetime (blocks ++ others) s ≡ (
          deploy_blocks backend now max_lifetime blocks s >>= λ t.
          deploy_blocks backend now max_lifetime others t)
  unfolding deploy_blocks
  deploy_blocks-append now max_lifetime [] others s = refl
  deploy_blocks-append now max_lifetime ((key, d) ∷ blocks) others s =
      elim (Option-cases (deploy_together backend now max_lifetime d s)) [
        | inl e ↦ rw e refl
        | inr (t, e) ↦ rw e (
            deploy_blocks-append now max_lifetime blocks others
              (set_event backend (event_of key) t))
      ]

  -- All the accumulated deployments, in order.
  abbrev pub all_blocks : Deployments → List Block
  all_blocks [] = []
  all_blocks ((r, blocks) ∷ rest) = blocks ++ all_blocks rest

  pub deploy_all-blocks :
      (now max_lifetime : ℕ) (ds : Deployments) (s : Deployed backend)
      → deploy_all backend now max_lifetime ds s
        ≡ deploy_blocks backend now max_lifetime (all_blocks ds) s
  unfolding deploy_all deploy_blocks
  deploy_all-blocks now max_lifetime [] s = refl
  deploy_all-blocks now max_lifetime ((r, blocks) ∷ rest) s =
      rw (deploy_blocks-append now max_lifetime blocks (all_blocks rest) s)
        (elim (Option-cases (deploy_blocks backend now max_lifetime blocks s)) [
          | inl e ↦ rw e refl
          | inr (t, e) ↦ rw e (deploy_all-blocks now max_lifetime rest t)
        ])

  pub add_reservations-enters :
      (now : ℕ) (before after : Deployment) (r : AgentReservation) (spec : Value) (n : Network)
      (s t : Storage backend)
      → Spares backend (get_reservation_id r) after
      → build spec (get_reservation_id r) ≡ some n
      → IsUnlimited s
      → add_reservations backend now (before ++ (r, spec) ∷ after) s ≡ some t
      → Holds backend (get_reservation_id r) r n t
  add_reservations-enters now [] after r spec n s t h p free e =
      add_reservations-Holds backend now (r, spec) after [] after r spec n s t refl free h p e
  add_reservations-enters now (entry ∷ before) after r spec n s t h p free e =
      add_reservations-Holds backend now entry (before ++ (r, spec) ∷ after) (entry ∷ before) after
        r spec n s t refl free h p e
