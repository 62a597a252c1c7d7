-- ===== src/Deployments.antt =====
-- How a deployment reaches the storages of temporary networks: at once, by the reservationist of a
-- direct session (internals/reservations/direct_agent_reservationist.py), or over a queue, by the
-- reservationist of the service (service/generic/service_agent_reservationist.py) and the updater
-- (service/watcher/temp_networks/updater/temp_network_storage_updater.py). One reading of the clock
-- stands for all the readings of a call, and a set of storages is a list. `none` is an exception, which
-- leaves the direct session; the updater logs it and goes on with what it left of the storages.
pub mod Served
pub mod Direct
pub mod Queues
use nora_fleet.Common.{
  ℕ, String, Bool, true, false, Option, none, some, List, [], ◌∷◌, ◌++◌, map, if◌then◌else◌, ◌>>=◌,
}
use nora_fleet.Reservations.{
  AgentReservation, Deployment, DeploymentKey, event, first_id, get_reservation_id, expire_together,
}
use nora_fleet.Storage.{
  Backend, Storage, Adding, add_one, add_to_base, add_reservations, expire_reservations,
}

-- An accumulated deployment, under its key, and what the deployments of a call are: reservations
-- with the accumulated deployments that they support.
abbrev pub Block : Type 0
Block = DeploymentKey × Deployment

abbrev pub Deployments : Type 0
Deployments = List (AgentReservation × List Block)

-- An item on the queue of the service's reservationist, and the final one.
pub data QueuedItem : Type 0 where
  queued : String → Deployment → ℕ → Option ℕ → QueuedItem
  end_item : QueuedItem

pub record ServiceReservationist : Type 0 where
  pub max_lifetime_in_seconds : ℕ
  pub queue : List QueuedItem
  pub last_item_sent : Bool

unfoldable pub new_service : ℕ → ServiceReservationist
new_service max_lifetime = record {
  max_lifetime_in_seconds = max_lifetime;
  queue = [];
  last_item_sent = false;
}

-- `AsyncCollatingQueue.put` and `put_final_item`
unfoldable pub put_queued : QueuedItem → ServiceReservationist → ServiceReservationist
put_queued item s = if s.last_item_sent then s else record s { queue = s.queue ++ item ∷ [] }

-- `close_of_work`
unfoldable pub close_of_work : ServiceReservationist → ServiceReservationist
close_of_work s =
    if s.last_item_sent
    then s
    else record s { queue = s.queue ++ end_item ∷ []; last_item_sent = true }

-- `isinstance(key, Event)`
unfoldable pub event_of : DeploymentKey → Option ℕ
event_of (event n) = some n
event_of (first_id s) = none

-- the loops of `ServiceAgentReservationist.deploy`
unfoldable pub queue_blocks :
    AgentReservation → List Block → ServiceReservationist → ServiceReservationist
unfolding put_queued event_of
queue_blocks r [] s = s
queue_blocks r ((key, d) ∷ blocks) s =
    queue_blocks r blocks
      (put_queued (queued r.prefix d s.max_lifetime_in_seconds (event_of key)) s)

unfoldable pub queue_deployments : Deployments → ServiceReservationist → ServiceReservationist
unfolding queue_blocks
queue_deployments [] s = s
queue_deployments ((r, blocks) ∷ rest) s = queue_deployments rest (queue_blocks r blocks s)

module _ (backend : Backend) where
  -- The storages, and the events that were set, in order.
  pub record Deployed : Type 0 where
    pub storages : List (Storage backend)
    pub set_events : List ℕ

  unfoldable pub add_to_all :
      ℕ → Deployment → List (Storage backend) → Option (List (Storage backend))
  add_to_all now d [] = some []
  add_to_all now d (s ∷ ss) = do
    t ← add_reservations backend now d s
    ts ← add_to_all now d ss
    some (t ∷ ts)

  -- `AbstractAgentReservationist.deploy_together`
  unfoldable pub deploy_together : ℕ → ℕ → Deployment → Deployed → Option Deployed
  deploy_together now max_lifetime d s =
      add_to_all now (expire_together now max_lifetime d) s.storages >>= λ storages.
      some (record s { storages = storages })

  unfoldable pub set_event : Option ℕ → Deployed → Deployed
  set_event none s = s
  set_event (some n) s = record s { set_events = s.set_events ++ n ∷ [] }

  -- the loops of `DirectAgentReservationist.deploy`
  unfoldable pub deploy_blocks : ℕ → ℕ → List Block → Deployed → Option Deployed
  deploy_blocks now max_lifetime [] s = some s
  deploy_blocks now max_lifetime ((key, d) ∷ blocks) s =
      deploy_together now max_lifetime d s >>= λ s'.
      deploy_blocks now max_lifetime blocks (set_event (event_of key) s')

  unfoldable pub deploy_all : ℕ → ℕ → Deployments → Deployed → Option Deployed
  deploy_all now max_lifetime [] s = some s
  deploy_all now max_lifetime ((r, blocks) ∷ rest) s =
      deploy_blocks now max_lifetime blocks s >>= λ s'. deploy_all now max_lifetime rest s'

  -- `DirectAgentReservationist.deploy`
  unfoldable pub deploy_direct : ℕ → ℕ → Deployments → Deployed → Option Deployed
  deploy_direct now max_lifetime ds s =
      deploy_all now max_lifetime ds
        (record s { storages = map (λ t. expire_reservations backend now t) s.storages })

  -- What an exception leaves: `base_left` is what one of the base storage leaves of that.
  module _ (base_left : Deployment → backend.Base → backend.Base) where
    -- the entries before the network that cannot be built are in the tables
    unfoldable pub entered_before : ℕ → Deployment → Adding backend → Adding backend
    entered_before now [] a = a
    entered_before now ((r, spec) ∷ rest) a = elim (backend.build spec (get_reservation_id r)) [
      | none ↦ a
      | some network ↦
          entered_before now rest (add_one backend now (get_reservation_id r) r network a)
    ]

    unfoldable pub left_in_base : Deployment → Storage backend → Storage backend
    left_in_base d s = elim s.base_storage [
      | none ↦ s
      | some base ↦ record s { base_storage = some (base_left d base) }
    ]

    -- a storage of which `add_reservations` raised, with no listener told and nothing evicted
    unfoldable pub left_by_add : ℕ → Deployment → Storage backend → Storage backend
    unfolding entered_before left_in_base
    left_by_add now d s = elim (add_to_base backend d s) [
      | none ↦ left_in_base d s
      | some s' ↦
          (entered_before now d (record { storage = s'; added = []; replaced = [] })).storage
    ]

    -- the storages after the one that raised are not reached
    unfoldable pub left_by_all : ℕ → Deployment → List (Storage backend) → List (Storage backend)
    unfolding left_by_add
    left_by_all now d [] = []
    left_by_all now d (s ∷ ss) = elim (add_reservations backend now d s) [
      | none ↦ left_by_add now d s ∷ ss
      | some t ↦ t ∷ left_by_all now d ss
    ]

    -- `process_one_queued_item`: the event is set also where the deployment raised
    unfoldable pub process_one_queued_item : ℕ → Deployment → ℕ → Option ℕ → Deployed → Deployed
    unfolding left_by_all
    process_one_queued_item now d max_lifetime event' s =
        elim (deploy_together now max_lifetime d s) [
          | none ↦ set_event event' (record s {
            storages = left_by_all now (expire_together now max_lifetime d) s.storages;
          })
          | some s' ↦ set_event event' s'
        ]

    -- `process_one_queue`, where no item follows that is not yet put
    unfoldable pub process_one_queue : ℕ → List QueuedItem → Deployed → Deployed
    process_one_queue now [] s = s
    process_one_queue now (end_item ∷ items) s = s
    process_one_queue now (queued source d max_lifetime event' ∷ items) s =
        process_one_queue now items (process_one_queued_item now d max_lifetime event' s)
