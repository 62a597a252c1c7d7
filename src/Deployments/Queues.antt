-- ===== src/Deployments/Queues.antt =====
-- The way over the queue: no event is left out, and where nothing raises it ends where the direct way
-- does.
use nora_fleet.Common.{
  ℕ, ◌≡◌, refl, sym, ap, ◌∙◌, false, inl, inr, Option, none, some, some_inj, Option-cases,
  >>=-eq-some, List, [], ◌∷◌, ◌++◌, map,
}
use mathlib.Core.List.{append-nil, append_assoc}
use nora_fleet.Reservations.{AgentReservation, Deployment, expire_together}
use nora_fleet.Storage.{Backend, expire_reservations}
use nora_fleet.Deployments.{
  Block, Deployments, QueuedItem, queued, end_item, ServiceReservationist, new_service, put_queued,
  close_of_work, event_of, queue_blocks, queue_deployments, Deployed, deploy_together, set_event,
  deploy_blocks, deploy_direct, add_to_all, left_by_all, process_one_queued_item, process_one_queue,
}
use nora_fleet.Deployments.Served.{all_blocks, deploy_all-blocks}

-- The items for the deployments of a call.
abbrev pub items_of_blocks : ℕ → AgentReservation → List Block → List QueuedItem
items_of_blocks max_lifetime r [] = []
items_of_blocks max_lifetime r ((key, d) ∷ blocks) =
    queued r.prefix d max_lifetime (event_of key) ∷ items_of_blocks max_lifetime r blocks

abbrev pub items_of : ℕ → Deployments → List QueuedItem
items_of max_lifetime [] = []
items_of max_lifetime ((r, blocks) ∷ rest) =
    items_of_blocks max_lifetime r blocks ++ items_of max_lifetime rest

abbrev open_service : ℕ → List QueuedItem → ServiceReservationist
open_service max_lifetime queue = record {
  max_lifetime_in_seconds = max_lifetime;
  queue = queue;
  last_item_sent = false;
}

queue_blocks-items :
    (max_lifetime : ℕ) (r : AgentReservation) (blocks : List Block) (queue : List QueuedItem)
    → queue_blocks r blocks (open_service max_lifetime queue)
      ≡ open_service max_lifetime (queue ++ items_of_blocks max_lifetime r blocks)
unfolding queue_blocks put_queued
queue_blocks-items max_lifetime r [] queue = rw (append-nil queue) refl
queue_blocks-items max_lifetime r ((key, d) ∷ blocks) queue =
    let item = queued r.prefix d max_lifetime (event_of key) in
    queue_blocks-items max_lifetime r blocks (queue ++ item ∷ [])
    ∙ ap (open_service max_lifetime)
        (append_assoc queue (item ∷ []) (items_of_blocks max_lifetime r blocks))

queue_deployments-items :
    (max_lifetime : ℕ) (ds : Deployments) (queue : List QueuedItem)
    → queue_deployments ds (open_service max_lifetime queue)
      ≡ open_service max_lifetime (queue ++ items_of max_lifetime ds)
unfolding queue_deployments
queue_deployments-items max_lifetime [] queue = rw (append-nil queue) refl
queue_deployments-items max_lifetime ((r, blocks) ∷ rest) queue =
    ap (queue_deployments rest) (queue_blocks-items max_lifetime r blocks queue)
    ∙ queue_deployments-items max_lifetime rest (queue ++ items_of_blocks max_lifetime r blocks)
    ∙ ap (open_service max_lifetime)
        (append_assoc queue (items_of_blocks max_lifetime r blocks) (items_of max_lifetime rest))

abbrev pub put_event : Option ℕ → List ℕ → List ℕ
put_event none events = events
put_event (some n) events = n ∷ events

-- The events of the accumulated deployments, in order.
abbrev pub events_of : List Block → List ℕ
events_of [] = []
events_of ((key, d) ∷ blocks) = put_event (event_of key) (events_of blocks)

-- The queue of a new reservationist after the deployments of a call.
abbrev pub queue_of : ℕ → Deployments → List QueuedItem
queue_of max_lifetime ds = (close_of_work (queue_deployments ds (new_service max_lifetime))).queue

-- The storages without what has expired.
abbrev pub rid : (backend : Backend) → ℕ → Deployed backend → Deployed backend
rid backend now s = record s { storages = map (λ t. expire_reservations backend now t) s.storages }

module _ (backend : Backend) (base_left : Deployment → backend.Base → backend.Base) where
  -- The items are processed in the order of the accumulated deployments.
  abbrev process_blocks : ℕ → ℕ → List Block → Deployed backend → Deployed backend
  process_blocks now max_lifetime [] s = s
  process_blocks now max_lifetime ((key, d) ∷ blocks) s =
      process_blocks now max_lifetime blocks
        (process_one_queued_item backend base_left now d max_lifetime (event_of key) s)

  process-blocks :
      (now max_lifetime : ℕ) (r : AgentReservation) (blocks : List Block) (items : List QueuedItem)
      (s : Deployed backend)
      → process_one_queue backend base_left now (items_of_blocks max_lifetime r blocks ++ items) s
        ≡ process_one_queue backend base_left now items (process_blocks now max_lifetime blocks s)
  unfolding process_one_queue
  process-blocks now max_lifetime r [] items s = refl
  process-blocks now max_lifetime r ((key, d) ∷ blocks) items s =
      process-blocks now max_lifetime r blocks items _

  process_blocks-append :
      (now max_lifetime : ℕ) (blocks others : List Block) (s : Deployed backend)
      → process_blocks now max_lifetime (blocks ++ others) s
        ≡ process_blocks now max_lifetime others (process_blocks now max_lifetime blocks s)
  process_blocks-append now max_lifetime [] others s = refl
  process_blocks-append now max_lifetime ((key, d) ∷ blocks) others s =
      process_blocks-append now max_lifetime blocks others _

  process-items :
      (now max_lifetime : ℕ) (ds : Deployments) (s : Deployed backend)
      → process_one_queue backend base_left now (items_of max_lifetime ds ++ end_item ∷ []) s
        ≡ process_blocks now max_lifetime (all_blocks backend ds) s
  unfolding process_one_queue
  process-items now max_lifetime [] s = refl
  process-items now max_lifetime ((r, blocks) ∷ rest) s =
      ap (λ items. process_one_queue backend base_left now items s)
        (append_assoc (items_of_blocks max_lifetime r blocks) (items_of max_lifetime rest)
          (end_item ∷ []))
      ∙ process-blocks now max_lifetime r blocks (items_of max_lifetime rest ++ end_item ∷ []) s
      ∙ process-items now max_lifetime rest _
      ∙ sym (process_blocks-append now max_lifetime blocks (all_blocks backend rest) s)

  item-deployed :
      (now max_lifetime : ℕ) (d : Deployment) (event' : Option ℕ) (s t : Deployed backend)
      → deploy_together backend now max_lifetime d s ≡ some t
      → process_one_queued_item backend base_left now d max_lifetime event' s
        ≡ set_event backend event' t
  unfolding process_one_queued_item
  item-deployed now max_lifetime d event' s t p = rw (process_one_queued_item, p) refl

  item-raised :
      (now max_lifetime : ℕ) (d : Deployment) (event' : Option ℕ) (s : Deployed backend)
      → deploy_together backend now max_lifetime d s ≡ none
      → process_one_queued_item backend base_left now d max_lifetime event' s
        ≡ set_event backend event' (record s {
          storages =
              left_by_all backend base_left now (expire_together now max_lifetime d) s.storages;
        })
  unfolding process_one_queued_item
  item-raised now max_lifetime d event' s p = rw (process_one_queued_item, p) refl

  -- Where the direct way raises no exception, the items lead to the same.
  blocks-deployed :
      (now max_lifetime : ℕ) (blocks : List Block) (s t : Deployed backend)
      → deploy_blocks backend now max_lifetime blocks s ≡ some t
      → process_blocks now max_lifetime blocks s ≡ t
  unfolding deploy_blocks
  blocks-deployed now max_lifetime [] s t e = some_inj e
  blocks-deployed now max_lifetime ((key, d) ∷ blocks) s t e =
      let (u, p, e') = >>=-eq-some (deploy_together backend now max_lifetime d s) _ e in
      ap (process_blocks now max_lifetime blocks)
        (item-deployed now max_lifetime d (event_of key) s u p)
      ∙ blocks-deployed now max_lifetime blocks (set_event backend (event_of key) u) t e'

  set_event-events :
      (event' : Option ℕ) (s : Deployed backend) (events : List ℕ)
      → (set_event backend event' s).set_events ++ events ≡ s.set_events ++ put_event event' events
  unfolding set_event
  set_event-events none s events = refl
  set_event-events (some n) s events = append_assoc s.set_events (n ∷ []) events

  deploy_together-events :
      (now max_lifetime : ℕ) (d : Deployment) (s t : Deployed backend)
      → deploy_together backend now max_lifetime d s ≡ some t
      → t.set_events ≡ s.set_events
  unfolding deploy_together
  deploy_together-events now max_lifetime d s t e =
      let (ss, _, e') =
        >>=-eq-some (add_to_all backend now (expire_together now max_lifetime d) s.storages) _ e in
      sym (ap (λ u. u.set_events) (some_inj e'))

  -- Each item sets its event.
  item-event :
      (now max_lifetime : ℕ) (d : Deployment) (event' : Option ℕ) (s : Deployed backend)
      (events : List ℕ)
      → (process_one_queued_item backend base_left now d max_lifetime event' s).set_events ++ events
        ≡ s.set_events ++ put_event event' events
  item-event now max_lifetime d event' s events =
      elim (Option-cases (deploy_together backend now max_lifetime d s)) [
        | inl e ↦
            ap (λ u. u.set_events ++ events) (item-raised now max_lifetime d event' s e)
            ∙ set_event-events event' _ events
        | inr (t, e) ↦
            ap (λ u. u.set_events ++ events) (item-deployed now max_lifetime d event' s t e)
            ∙ set_event-events event' t events
            ∙ ap (λ before. before ++ put_event event' events)
                (deploy_together-events now max_lifetime d s t e)
      ]

  blocks-events :
      (now max_lifetime : ℕ) (blocks : List Block) (s : Deployed backend)
      → (process_blocks now max_lifetime blocks s).set_events ≡ s.set_events ++ events_of blocks
  blocks-events now max_lifetime [] s = sym (append-nil s.set_events)
  blocks-events now max_lifetime ((key, d) ∷ blocks) s =
      blocks-events now max_lifetime blocks _
      ∙ item-event now max_lifetime d (event_of key) s (events_of blocks)

  process-queue :
      (now max_lifetime : ℕ) (ds : Deployments) (s : Deployed backend)
      → process_one_queue backend base_left now (queue_of max_lifetime ds) s
        ≡ process_blocks now max_lifetime (all_blocks backend ds) s
  unfolding close_of_work new_service
  process-queue now max_lifetime ds s =
      rw (queue_of, queue_deployments-items max_lifetime ds [])
        (process-items now max_lifetime ds s)

  -- Deployments that the reservationist of the service puts on its new queue, before the final item,
  -- lead by way of the updater to the storages and events of the direct deployment, where that raises
  -- no exception, and the updater starts from the storages without what has expired, of which the
  -- direct deployment first rids them.
  pub process_one_queue_lem :
      (now max_lifetime : ℕ) (ds : Deployments) (s t : Deployed backend)
      → deploy_direct backend now max_lifetime ds s ≡ some t
      → process_one_queue backend base_left now (queue_of max_lifetime ds) (rid backend now s) ≡ t
  unfolding deploy_direct
  process_one_queue_lem now max_lifetime ds s t e =
      process-queue now max_lifetime ds (rid backend now s)
      ∙ blocks-deployed now max_lifetime (all_blocks backend ds) (rid backend now s) t
          (sym (deploy_all-blocks backend now max_lifetime ds (rid backend now s)) ∙ e)

  -- Whichever of the deployments that the reservationist of the service puts on its new queue raises
  -- an exception in the updater, the updater comes to the end of the queue and has set the event of
  -- each of them that has one, once and in order, so that no caller waits for one in vain.
  pub process_one_queue-events :
      (now max_lifetime : ℕ) (ds : Deployments) (s : Deployed backend)
      → (process_one_queue backend base_left now (queue_of max_lifetime ds) s).set_events
        ≡ s.set_events ++ events_of (all_blocks backend ds)
  process_one_queue-events now max_lifetime ds s =
      ap (λ u. u.set_events) (process-queue now max_lifetime ds s)
      ∙ blocks-events now max_lifetime (all_blocks backend ds) s
