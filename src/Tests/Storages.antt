-- ===== src/Tests/Storages.antt =====
-- A small storage of temporary networks.
use nora_fleet.Common.{
  ℕ, ◌≤◌, String, ◌≡◌, refl, ◌⊎◌, false, none, some, [], ◌∷◌, if◌then◌else◌, get, put, null, keys,
  elem, remove, is_some, arith,
}
use nora_fleet.Reservations.{AgentReservation, get_reservation_id}
use nora_fleet.Storage.{
  Backend, Storage, agent_added, add_reservations, add_to_base, add_loop, add_one, enter_tables,
  notify, remove_all, remove_agent_network, is_expired, to_evict, evict_lru_agent_networks,
  set_max_agent_networks, expire_reservations, get_agent_network_provider, sort_by_time,
  first_names, insert_by_time, provide_reserved,
}
use nora_fleet.Storage.Serve.{add_reservations_lem}
use nora_fleet.Storage.Tables.{IsConsistent}
use nora_fleet.Storage.Evict.{evict-oldest}
use nora_fleet.Storage.Expire.{unexpired, expire_reservations_lem, provide_unexpired}

abbrev pub backend : Backend
backend = record {
  Network = String;
  build = λ spec name. some name;
  size_in_bytes = λ network. 1;
  Base = Unit;
  base_add = λ d base. some base;
  base_get = λ name base. none;
}

abbrev pub until : ℕ → AgentReservation
until t = record { id = "x"; prefix = ""; lifetime_in_seconds = 5; expiration_time_in_seconds = t }

-- Three networks with a limit of one, the first of which expires at 4.
abbrev store : Storage backend
store = record {
  agents_table = ("a", "net a") ∷ ("b", "net b") ∷ ("c", "net c") ∷ [];
  reservations_table = ("a", until 4) ∷ ("b", until 9) ∷ ("c", until 9) ∷ [];
  access_times = ("a", 2) ∷ ("b", 1) ∷ ("c", 3) ∷ [];
  sizes = ("a", 1) ∷ ("b", 1) ∷ ("c", 1) ∷ [];
  max_items = 1;
  items_overflow_threshold = 1;
  base_storage = none;
  listeners = [];
  told = [];
}

store-IsConsistent : IsConsistent backend store
unfolding keys elem
store-IsConsistent = record {
  reservations = refl;
  access = refl;
  sizes = refl;
  distinct = (refl, (refl, (refl, tt)));
}

abbrev pub new_storage : Storage backend
new_storage = record {
  agents_table = [];
  reservations_table = [];
  access_times = [];
  sizes = [];
  max_items = 0;
  items_overflow_threshold = 0;
  base_storage = none;
  listeners = 0 ∷ [];
  told = [];
}

abbrev limited : Storage backend
limited = set_max_agent_networks backend (λ m. 0) 2 new_storage

abbrev looked_up : Storage backend
looked_up = (get_agent_network_provider backend 3 "a" limited).1

store-evicts : to_evict backend store ≡ "b" ∷ "a" ∷ []
unfolding to_evict first_names sort_by_time insert_by_time
store-evicts = refl

provide_unexpired_example :
    (r : AgentReservation) × (is_expired backend 3 r ≡ false)
    × (((get "a" store.reservations_table ≡ some r) × (get "a" store.agents_table ≡ some "net a"))
        ⊎ ((get "a" store.reservations_table ≡ none)
            × ((base : Unit) × (store.base_storage ≡ some base)
                × (backend.base_get "a" base ≡ some (r, "net a")))))
unfolding get_agent_network_provider get provide_reserved is_expired
provide_unexpired_example = provide_unexpired backend 3 "a" store "net a" refl

expire_reservations_lem_example :
    let t = expire_reservations backend 5 store in
    (get "a" t.reservations_table ≡ unexpired backend 5 (get "a" store.reservations_table))
    × (get "a" t.agents_table ≡ (
        if is_some (unexpired backend 5 (get "a" store.reservations_table))
        then get "a" store.agents_table
        else none))
expire_reservations_lem_example = expire_reservations_lem backend 5 store-IsConsistent "a"

evict-oldest_example : 1 ≤ 3
unfolding elem to_evict first_names sort_by_time insert_by_time get evict_lru_agent_networks notify
    remove_all remove_agent_network remove
evict-oldest_example = evict-oldest backend store-IsConsistent "b" "c" 1 3 refl refl refl

abbrev pub filled : Storage backend
filled = record {
  agents_table = ("x", "x") ∷ [];
  reservations_table = ("x", until 9) ∷ [];
  access_times = ("x", 4) ∷ [];
  sizes = ("x", 1) ∷ [];
  max_items = 0;
  items_overflow_threshold = 0;
  base_storage = none;
  listeners = 0 ∷ [];
  told = (0, agent_added "x") ∷ [];
}

add_reservations_lem_example : (get_agent_network_provider backend 7 "x" filled).0 ≡ some "x"
unfolding add_reservations add_to_base add_loop add_one enter_tables notify evict_lru_agent_networks
    to_evict remove_all get_reservation_id get put
add_reservations_lem_example =
    add_reservations_lem backend 4 7 [] [] (until 9) null "x" new_storage filled refl tt refl refl
      (omega arith)
