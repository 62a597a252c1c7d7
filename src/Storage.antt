-- ===== src/Storage.antt =====
-- nora_fleet/internals/network_providers/expiring_agent_network_storage.py: the storage of temporary
-- agent networks. One reading of the clock stands for all the readings of a call.
pub mod Tables
pub mod Sort
pub mod Evict
pub mod Run
pub mod Expire
pub mod Serve
use nora_fleet.Common.{
  ℕ, zero, suc, ◌-◌, max, String, Bool, true, false, Option, none, some, List, [], ◌∷◌, ◌++◌, map,
  length, if◌then◌else◌, ltb, leb, is_some, Dict, get, put, remove, contains, Value, ◌>>=◌,
}
use nora_fleet.Reservations.{AgentReservation, get_reservation_id, Deployment}

-- What a listener is told.
pub data Change : Type 0 where
  agent_added agent_modified agent_removed : String → Change

-- The networks, which the storage only builds and measures, and the base storage behind it:
-- `AgentNetwork(spec, name)`, which raises on a duplicate agent name (`none`), its size in bytes, and
-- the two calls of the interface ReservationsStorage.
pub record Backend : Type 1 where
  pub Network : Type 0
  pub build : Value → String → Option Network
  pub size_in_bytes : Network → ℕ
  pub Base : Type 0
  pub base_add : Deployment → Base → Option Base
  pub base_get : String → Base → Option (AgentReservation × Network)

-- `sorted(access_times.items(), key=...)`, which is stable
unfoldable pub insert_by_time : String × ℕ → Dict ℕ → Dict ℕ
insert_by_time item [] = item ∷ []
insert_by_time item (x ∷ xs) =
    let rest = insert_by_time item xs in if leb item.1 x.1 then item ∷ x ∷ xs else x ∷ rest

unfoldable pub sort_by_time : Dict ℕ → Dict ℕ
sort_by_time [] = []
sort_by_time (x ∷ xs) = insert_by_time x (sort_by_time xs)

unfoldable pub first_names : ℕ → Dict ℕ → List String
first_names zero items = []
first_names (suc n) [] = []
first_names (suc n) ((name, t) ∷ items) = name ∷ first_names n items

module _ (backend : Backend) where
  open backend use {Network, build, size_in_bytes, Base, base_add, base_get}

  pub record Storage : Type 0 where
    pub agents_table : Dict Network
    pub reservations_table : Dict AgentReservation
    pub access_times : Dict ℕ
    pub sizes : Dict ℕ
    pub max_items : ℕ
    pub items_overflow_threshold : ℕ
    pub base_storage : Option Base
    pub listeners : List ℕ
    pub told : List (ℕ × Change)

  unfoldable pub set_base_storage : Option Base → Storage → Storage
  set_base_storage base_storage s = record s { base_storage = base_storage }

  unfoldable pub is_expired : ℕ → AgentReservation → Bool
  is_expired now r = ltb r.expiration_time_in_seconds now

  -- every listener is told of every change in turn
  tell_all : List ℕ → List Change → List (ℕ × Change)
  tell_all [] changes = []
  tell_all (l ∷ ls) changes = map (λ c. (l, c)) changes ++ tell_all ls changes

  unfoldable pub notify : List Change → Storage → Storage
  unfolding tell_all
  notify changes s = record s { told = s.told ++ tell_all s.listeners changes }

  unfoldable pub remove_agent_network : String → Storage → Storage
  remove_agent_network name s = record s {
    reservations_table = remove name s.reservations_table;
    agents_table = remove name s.agents_table;
    access_times = remove name s.access_times;
    sizes = remove name s.sizes;
  }

  unfoldable pub remove_all : List String → Storage → Storage
  remove_all [] s = s
  remove_all (name ∷ names) s = remove_all names (remove_agent_network name s)

  unfoldable pub enter_tables : String → AgentReservation → Network → ℕ → Storage → Storage
  enter_tables name r network now s = record s {
    agents_table = put name network s.agents_table;
    reservations_table = put name r s.reservations_table;
    access_times = put name now s.access_times;
    sizes = put name (size_in_bytes network) s.sizes;
  }

  -- the names that `evict_lru_agent_networks` removes
  unfoldable pub to_evict : Storage → List String
  to_evict s =
      let overflow = length s.agents_table - s.max_items in
      if leb s.max_items 0
      then []
      else if leb overflow s.items_overflow_threshold
      then []
      else first_names overflow (sort_by_time s.access_times)

  unfoldable pub evict_lru_agent_networks : Storage → Storage
  evict_lru_agent_networks s =
      let evicted = to_evict s in notify (map agent_removed evicted) (remove_all evicted s)

  -- `round(max_items * 0.05)` is computed in floating point: it is passed in
  unfoldable pub set_max_agent_networks : (ℕ → ℕ) → ℕ → Storage → Storage
  set_max_agent_networks round_five_percent max_items s = evict_lru_agent_networks (record s {
    max_items = max_items;
    items_overflow_threshold = if leb max_items 0 then 0 else max 1 (round_five_percent max_items);
  })

  -- the loop of `add_reservations`, with the names that are new and those that are not
  pub record Adding : Type 0 where
    pub storage : Storage
    pub added : List String
    pub replaced : List String

  unfoldable pub add_one : ℕ → String → AgentReservation → Network → Adding → Adding
  add_one now name r network a =
      let storage = enter_tables name r network now a.storage in
      if contains name a.storage.agents_table
      then record a { storage = storage; replaced = a.replaced ++ name ∷ [] }
      else record a { storage = storage; added = a.added ++ name ∷ [] }

  unfoldable pub add_loop : ℕ → Deployment → Adding → Option Adding
  add_loop now [] a = some a
  add_loop now ((r, spec) ∷ rest) a = build spec (get_reservation_id r) >>= λ network.
      add_loop now rest (add_one now (get_reservation_id r) r network a)

  -- the base storage is given the reservations first
  unfoldable pub add_to_base : Deployment → Storage → Option Storage
  add_to_base d s = elim s.base_storage [
    | none ↦ some s
    | some base ↦ base_add d base >>= λ base'. some (record s { base_storage = some base' })
  ]

  added_changes : Adding → List Change
  added_changes a = map agent_added a.added ++ map agent_modified a.replaced

  -- `none` is an exception of the base storage or of a network that cannot be built
  unfoldable pub add_reservations : ℕ → Deployment → Storage → Option Storage
  unfolding added_changes
  add_reservations now [] s = some s
  add_reservations now (entry ∷ rest) s = do
    s' ← add_to_base (entry ∷ rest) s
    a ← add_loop now (entry ∷ rest) (record { storage = s'; added = []; replaced = [] })
    some (evict_lru_agent_networks (notify (added_changes a) a.storage))

  unfoldable pub expired_names : ℕ → Dict AgentReservation → List String
  expired_names now [] = []
  expired_names now ((name, r) ∷ rest) =
      let others = expired_names now rest in if is_expired now r then name ∷ others else others

  unfoldable pub expire_reservations : ℕ → Storage → Storage
  expire_reservations now s =
      let expired = expired_names now s.reservations_table in
      notify (map agent_removed expired) (remove_all expired s)

  -- `get_agent_network_provider` where a reservation is in the table
  unfoldable pub provide_reserved :
      ℕ → String → AgentReservation → Storage → Option Network × Storage
  provide_reserved now name r s =
      if is_expired now r
      then (none, notify (agent_removed name ∷ []) (remove_agent_network name s))
      else elim (get name s.agents_table) [
        | none ↦ (none, s)
        | some network ↦ (some network, record s { access_times = put name now s.access_times })
      ]

  -- and what it does with the answer of the base storage
  unfoldable pub provide_found :
      ℕ → String → Option (AgentReservation × Network) → Storage → Option Network × Storage
  provide_found now name none s = (none, s)
  provide_found now name (some (r, network)) s = if is_expired now r then (none, s) else (
    some network,
    evict_lru_agent_networks (notify (agent_added name ∷ []) (enter_tables name r network now s)),
  )

  unfoldable pub provide_from_base : ℕ → String → Storage → Option Network × Storage
  provide_from_base now name s = elim s.base_storage [
    | none ↦ (none, s)
    | some base ↦ provide_found now name (base_get name base) s
  ]

  unfoldable pub get_agent_network_provider : ℕ → String → Storage → Option Network × Storage
  get_agent_network_provider now name s = elim (get name s.reservations_table) [
    | some r ↦ provide_reserved now name r s
    | none ↦ provide_from_base now name s
  ]
