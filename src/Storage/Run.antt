-- ===== src/Storage/Run.antt =====
-- The storage over any sequence of calls.
use nora_fleet.Common.{ℕ, ◌+◌, ◌≤◌, String, ◌≡◌, ◌⊎◌, Option, some, length}
use nora_fleet.Reservations.{Deployment}
use nora_fleet.Storage.{
  Backend, Storage, set_max_agent_networks, set_base_storage, add_reservations, expire_reservations,
  get_agent_network_provider,
}

module _ (backend : Backend) where
  -- With a limit set, the storage holds no more networks than the limit and the threshold together.
  abbrev pub IsBounded : Storage backend → Type 0
  IsBounded s =
      (s.max_items ≡ 0) ⊎ (length s.agents_table ≤ s.max_items + s.items_overflow_threshold)

  -- One call of the storage.
  pub data Call : Storage backend → Storage backend → Type 0 where
    limit :
        (round : ℕ → ℕ) (m : ℕ) {s t : Storage backend}
        → t ≡ set_max_agent_networks backend round m s
        → Call s t
    add :
        (now : ℕ) (d : Deployment) {s t : Storage backend}
        → add_reservations backend now d s ≡ some t
        → Call s t
    base :
        (b : Option backend.Base) {s t : Storage backend}
        → t ≡ set_base_storage backend b s
        → Call s t
    expire : (now : ℕ) {s t : Storage backend} → t ≡ expire_reservations backend now s → Call s t
    provide :
        (now : ℕ) (name : String) {s t : Storage backend}
        → t ≡ (get_agent_network_provider backend now name s).1
        → Call s t

  pub data Calls (s : Storage backend) : Storage backend → Type 0 where
    none_yet : Calls s s
    then_call : {t u : Storage backend} → Calls s t → Call t u → Calls s u
