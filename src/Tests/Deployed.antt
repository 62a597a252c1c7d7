-- ===== src/Tests/Deployed.antt =====
-- One temporary network, deployed directly.
use nora_fleet.Common.{◌≡◌, refl, none, some, [], ◌∷◌, All, null, get, put, arith}
use nora_fleet.Reservations.{get_reservation_id, event, expire_together, set_expiration_from}
use nora_fleet.Storage.{
  Backend, add_reservations, add_to_base, add_loop, add_one, enter_tables, notify, remove_all,
  evict_lru_agent_networks, to_evict, expire_reservations, expired_names,
  get_agent_network_provider,
}
use nora_fleet.Deployments.{
  Block, Deployed, add_to_all, deploy_together, set_event, event_of, deploy_blocks, deploy_all,
  deploy_direct, process_one_queue,
}
use nora_fleet.Deployments.Queues.{queue_of, rid, process_one_queue_lem, process_one_queue-events}
use nora_fleet.Deployments.Direct.{deploy_direct_lem}
use nora_fleet.Tests.Storages.{backend, until, new_storage, filled}

abbrev before_deploy : Deployed backend
before_deploy = record { storages = new_storage ∷ []; set_events = [] }

abbrev after_deploy : Deployed backend
after_deploy = record { storages = filled ∷ []; set_events = 7 ∷ [] }

abbrev one_block : Block
one_block = (event 7, (until 0, null) ∷ [])

deploy_direct_lem_example :
    All (λ u. (get_agent_network_provider backend 8 "x" u).0 ≡ some "x") after_deploy.storages
unfolding deploy_direct deploy_all deploy_blocks deploy_together set_event event_of add_to_all
    expire_together set_expiration_from expire_reservations expired_names add_reservations
    add_to_base add_loop add_one enter_tables notify evict_lru_agent_networks to_evict remove_all
    get_reservation_id get put
deploy_direct_lem_example =
    deploy_direct_lem backend 4 6 8 ((until 0, one_block ∷ []) ∷ []) [] [] (event 7) [] [] (until 0)
      null "x" before_deploy after_deploy (refl, tt) refl tt tt refl refl (omega arith)

process_one_queue_lem_example :
    process_one_queue backend
      (λ d base. base)
      4
      (queue_of 8 ((until 0, one_block ∷ []) ∷ []))
      (rid backend 4 before_deploy)
    ≡ after_deploy
unfolding deploy_direct deploy_all deploy_blocks deploy_together set_event event_of add_to_all
    expire_together set_expiration_from expire_reservations expired_names add_reservations
    add_to_base add_loop add_one enter_tables notify evict_lru_agent_networks to_evict remove_all
    get_reservation_id get put
process_one_queue_lem_example =
    process_one_queue_lem backend (λ d base. base) 4 8 ((until 0, one_block ∷ []) ∷ [])
      before_deploy after_deploy refl

-- No network can be built.
abbrev broken : Backend
broken = record backend { build = λ spec name. none }

abbrev broken_storages : Deployed broken
broken_storages = record {
  storages =
      record {
        agents_table = [];
        reservations_table = [];
        access_times = [];
        sizes = [];
        max_items = 0;
        items_overflow_threshold = 0;
        base_storage = none;
        listeners = [];
        told = [];
      }
      ∷ [];
  set_events = [];
}

direct-raises : deploy_direct broken 4 8 ((until 0, one_block ∷ []) ∷ []) broken_storages ≡ none
unfolding deploy_direct deploy_all deploy_blocks deploy_together add_to_all expire_together
    set_expiration_from expire_reservations expired_names add_reservations add_to_base add_loop
    get_reservation_id notify remove_all
direct-raises = refl

process_one_queue-events_example :
    (process_one_queue broken
      (λ d base. base)
      4
      (queue_of 8 ((until 0, one_block ∷ one_block ∷ []) ∷ []))
      broken_storages).set_events
    ≡ 7 ∷ 7 ∷ []
unfolding event_of
process_one_queue-events_example =
    process_one_queue-events broken (λ d base. base) 4 8
      ((until 0, one_block ∷ one_block ∷ []) ∷ []) broken_storages
