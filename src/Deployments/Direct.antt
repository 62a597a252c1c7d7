-- ===== src/Deployments/Direct.antt =====
-- What is deployed is served until it expires.
use nora_fleet.Common.{
  ℕ, ◌+◌, ◌≤◌, min, String, ◌≡◌, some, List, [], ◌∷◌, ◌++◌, map, All, All-map, Value, >>=-eq-some,
  ◌∙◌,
}
use nora_fleet.Reservations.{
  AgentReservation, Deployment, DeploymentKey, get_reservation_id, set_expiration_from,
  expire_together,
}
use nora_fleet.Storage.{
  Backend, Storage, add_reservations, notify, expire_reservations, expired_names,
  get_agent_network_provider,
}
use nora_fleet.Storage.Evict.{remove_all-limits}
use nora_fleet.Storage.Serve.{Holds, Spares, Holds-served}
use nora_fleet.Deployments.{
  Block, Deployments, Deployed, deploy_together, set_event, event_of, deploy_blocks, deploy_direct,
}
use nora_fleet.Deployments.Served.{
  IsUnlimited, Keeps, AllHold, expire_together-append, Spares-expire, add_reservations-keeps,
  add_reservations-IsUnlimited, add_reservations-enters, deploy_together-All, deploy_blocks-All,
  deploy_blocks-append, all_blocks, deploy_all-blocks,
}

module _ (backend : Backend) (now max_lifetime : ℕ) where
  open backend use {Network, build}

  any-Keeps-IsUnlimited :
      (blocks : List Block) → All (Keeps backend (IsUnlimited backend) now max_lifetime) blocks
  any-Keeps-IsUnlimited [] = tt
  any-Keeps-IsUnlimited ((key, d) ∷ blocks) = (
    λ s t free e.
        add_reservations-IsUnlimited backend now (expire_together now max_lifetime d) s t free e,
    any-Keeps-IsUnlimited blocks,
  )

  Spares-Keeps :
      (name : String) (r : AgentReservation) (n : Network) (blocks : List Block)
      → All (λ b. Spares backend name b.1) blocks
      → All (Keeps backend (Holds backend name r n) now max_lifetime) blocks
  Spares-Keeps name r n [] h = tt
  Spares-Keeps name r n ((key, d) ∷ blocks) h = (
    λ s t held e.
        add_reservations-keeps backend now (expire_together now max_lifetime d) name r n s t
          (Spares-expire backend now max_lifetime name d h.0) held e,
    Spares-Keeps name r n blocks h.1,
  )

  block-enters :
      (before after : Deployment) (r : AgentReservation) (spec : Value) (n : Network)
      (s t : Storage backend)
      → Spares backend (get_reservation_id r) after
      → build spec (get_reservation_id r) ≡ some n
      → IsUnlimited backend s
      → add_reservations backend now
          (expire_together now max_lifetime (before ++ (r, spec) ∷ after))
          s
        ≡ some t
      → Holds backend (get_reservation_id r) (set_expiration_from now max_lifetime r) n t
  unfolding set_expiration_from get_reservation_id expire_together
  block-enters before after r spec n s t h p free e =
      add_reservations-enters backend now (expire_together now max_lifetime before)
        (expire_together now max_lifetime after) (set_expiration_from now max_lifetime r) spec n s t
        (Spares-expire backend now max_lifetime (get_reservation_id r) after h) p free
        (rw (expire_together-append now max_lifetime before ((r, spec) ∷ after)) at e)

  expire-IsUnlimited :
      (ss : List (Storage backend))
      → All (IsUnlimited backend) ss
      → All (IsUnlimited backend) (map (λ t. expire_reservations backend now t) ss)
  unfolding expire_reservations notify
  expire-IsUnlimited [] h = tt
  expire-IsUnlimited (s ∷ ss) h = (
    (remove_all-limits backend (expired_names backend now s.reservations_table) s).0 ∙ h.0,
    expire-IsUnlimited ss h.1,
  )

  blocks-enter :
      (earlier following : List Block) (key : DeploymentKey) (before after : Deployment)
      (r : AgentReservation) (spec : Value) (n : Network) (s t : Deployed backend)
      → All (IsUnlimited backend) s.storages
      → Spares backend (get_reservation_id r) after
      → All (λ b. Spares backend (get_reservation_id r) b.1) following
      → build spec (get_reservation_id r) ≡ some n
      → deploy_blocks backend now max_lifetime
          (earlier ++ (key, before ++ (r, spec) ∷ after) ∷ following)
          s
        ≡ some t
      → AllHold backend (get_reservation_id r) (set_expiration_from now max_lifetime r) n t.storages
  unfolding deploy_blocks
  blocks-enter earlier following key before after r spec n s t free h h' p e =
      let (u, q, e') = >>=-eq-some (deploy_blocks backend now max_lifetime earlier s) _ (
        rw
          (deploy_blocks-append backend now max_lifetime earlier
            ((key, before ++ (r, spec) ∷ after) ∷ following) s)
          at e) in
      let still =
        deploy_blocks-All backend (IsUnlimited backend) now max_lifetime earlier s u
          (any-Keeps-IsUnlimited earlier) free q in
      let (v, q', e'') = >>=-eq-some (deploy_together backend now max_lifetime _ u) _ e' in
      let entered =
        deploy_together-All backend (IsUnlimited backend)
          (Holds backend (get_reservation_id r) (set_expiration_from now max_lifetime r) n) now
          max_lifetime (before ++ (r, spec) ∷ after)
          (λ x y free' f. block-enters before after r spec n x y h p free' f) (event_of key) u v
          still q' in
      deploy_blocks-All backend
        (Holds backend (get_reservation_id r) (set_expiration_from now max_lifetime r) n) now
        max_lifetime following (set_event backend (event_of key) v) t
        (Spares-Keeps (get_reservation_id r) (set_expiration_from now max_lifetime r) n following
          h')
        entered e''

  -- Where no storage has a limit on the number of networks and the direct deployment raises no
  -- exception, every storage hands out the network of an entry, which no later entry of the call
  -- replaces, until the lifetime of its reservation, or the greatest lifetime where that is less, has
  -- passed since the deployment.
  pub deploy_direct_lem :
      (later : ℕ) (ds : Deployments) (earlier following : List Block) (key : DeploymentKey)
      (before after : Deployment) (r : AgentReservation) (spec : Value) (n : Network)
      (s t : Deployed backend)
      → All (IsUnlimited backend) s.storages
      → all_blocks backend ds ≡ earlier ++ (key, before ++ (r, spec) ∷ after) ∷ following
      → Spares backend (get_reservation_id r) after
      → All (λ b. Spares backend (get_reservation_id r) b.1) following
      → build spec (get_reservation_id r) ≡ some n
      → deploy_direct backend now max_lifetime ds s ≡ some t
      → later ≤ now + min r.lifetime_in_seconds max_lifetime
      → All
          (λ u. (get_agent_network_provider backend later (get_reservation_id r) u).0 ≡ some n)
          t.storages
  unfolding deploy_direct set_expiration_from
  deploy_direct_lem later ds earlier following key before after r spec n s t free split h h' p e
        le =
      let started = record s {
        storages = map (λ u. expire_reservations backend now u) s.storages;
      } in
      let held =
        blocks-enter earlier following key before after r spec n started t
          (expire-IsUnlimited s.storages free) h h' p
          (rw (deploy_all-blocks backend now max_lifetime ds started, split) at e) in
      All-map (Holds backend (get_reservation_id r) (set_expiration_from now max_lifetime r) n) _
        t.storages
        (λ u held'.
          Holds-served backend later (get_reservation_id r) (set_expiration_from now max_lifetime r)
            n u held' le)
        held
