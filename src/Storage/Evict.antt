-- ===== src/Storage/Evict.antt =====
-- The size of the storage after an eviction, and which networks are evicted.
use nora_fleet.Common.{
  ℕ, ◌+◌, ◌-◌, ◌≤◌, String, ◌≡◌, refl, ap, false, ◌||◌, inl, inr, none, some, List, [], ◌∷◌,
  if◌then◌else◌, Dict, get, get-remove, remove, keys, elem, elem-nil, elem-cons, In, All, All-In,
  All-of_In, length, drop_key, Distinct, keys-remove, length-keys, drop_key-Distinct, elem-drop_key,
  length-drop_key, length-drop_key-le, leb, arith, eq_iff, Bool-cases,
}
use nora_fleet.Storage.{
  Backend, Storage, notify, remove_agent_network, remove_all, sort_by_time, first_names, to_evict,
  evict_lru_agent_networks,
}
use nora_fleet.Storage.Tables.{IsConsistent}
use nora_fleet.Storage.Sort.{
  sort-IsSorted, length-sort, elem-sort, sort-Distinct, get-sort, elem-first_names,
  first_names-Distinct, length-first_names, first_names-oldest,
}

pub drop_all : List String → List String → List String
drop_all [] ks = ks
drop_all (x ∷ xs) ks = drop_all xs (drop_key x ks)

pub remove_names {ℓ} : {V : Type ℓ} → List String → Dict V → Dict V
remove_names [] d = d
remove_names (x ∷ xs) d = remove_names xs (remove x d)

pub get-remove_names {ℓ} :
    {V : Type ℓ} (y : String) (names : List String) (d : Dict V)
    → get y (remove_names names d) ≡ (if elem y names then none else get y d)
unfolding remove_names
get-remove_names y [] d = rw elem-nil
get-remove_names y (x ∷ xs) d =
    ground (arith, get-remove_names y xs (remove x d), get-remove x y d, elem-cons y x xs)

keys-remove_names {ℓ} :
    {V : Type ℓ} (names : List String) (d : Dict V)
    → keys (remove_names names d) ≡ drop_all names (keys d)
unfolding remove_names drop_all
keys-remove_names [] d = refl
keys-remove_names (x ∷ xs) d = rw (keys-remove_names xs (remove x d), keys-remove)

-- Names that are there and are told once each shorten the list by their number.
length-drop_all :
    (names ks : List String)
    → Distinct names
    → All (λ x. In x ks) names
    → Distinct ks
    → length (drop_all names ks) + length names ≡ length ks
unfolding drop_all
length-drop_all [] ks h m k = omega arith
length-drop_all (x ∷ xs) ks h m k =
    let rest : All (λ y. In y (drop_key x ks)) xs =
      All-of_In _ xs
        (λ y i. ground (arith, elem-drop_key y x ks, All-In (λ z. In z ks) xs m.1 i, eq_iff x y)) in
    omega (
      arith,
      length-drop_all xs (drop_key x ks) h.1 rest (drop_key-Distinct x ks k),
      length-drop_key x ks k m.0,
    )

pub length-drop_all-le : (names ks : List String) → length (drop_all names ks) ≤ length ks
unfolding drop_all
length-drop_all-le [] ks = omega arith
length-drop_all-le (x ∷ xs) ks =
    omega (arith, length-drop_all-le xs (drop_key x ks), length-drop_key-le x ks)

module _ (backend : Backend) where
  -- `remove_all` field by field.
  pub remove_all-agents :
      (names : List String) (s : Storage backend)
      → (remove_all backend names s).agents_table ≡ remove_names names s.agents_table
  unfolding remove_all remove_agent_network remove_names
  remove_all-agents [] s = refl
  remove_all-agents (x ∷ xs) s = remove_all-agents xs (remove_agent_network backend x s)

  pub remove_all-reservations :
      (names : List String) (s : Storage backend)
      → (remove_all backend names s).reservations_table ≡ remove_names names s.reservations_table
  unfolding remove_all remove_agent_network remove_names
  remove_all-reservations [] s = refl
  remove_all-reservations (x ∷ xs) s = remove_all-reservations xs (remove_agent_network backend x s)

  pub remove_all-access :
      (names : List String) (s : Storage backend)
      → (remove_all backend names s).access_times ≡ remove_names names s.access_times
  unfolding remove_all remove_agent_network remove_names
  remove_all-access [] s = refl
  remove_all-access (x ∷ xs) s = remove_all-access xs (remove_agent_network backend x s)

  pub remove_all-limits :
      (names : List String) (s : Storage backend)
      → ((remove_all backend names s).max_items ≡ s.max_items)
        × ((remove_all backend names s).items_overflow_threshold ≡ s.items_overflow_threshold)
  unfolding remove_all remove_agent_network
  remove_all-limits [] s = (refl, refl)
  remove_all-limits (x ∷ xs) s = remove_all-limits xs (remove_agent_network backend x s)

  pub length-remove_all :
      (names : List String) (s : Storage backend)
      → length (remove_all backend names s).agents_table
        ≡ length (drop_all names (keys s.agents_table))
  length-remove_all names s = rw (remove_all-agents names s) (
      omega (
        arith,
        length-keys (remove_names names s.agents_table),
        ap length (keys-remove_names names s.agents_table),
      ))

  to_evict-prefix :
      (s : Storage backend)
      → (n : ℕ) × (to_evict backend s ≡ first_names n (sort_by_time s.access_times))
  unfolding to_evict first_names
  to_evict-prefix s = elim (Bool-cases (leb s.max_items 0)) [
    | inl unlimited ↦ (0, ground arith)
    | inr limited ↦
        elim (Bool-cases (leb (length s.agents_table - s.max_items) s.items_overflow_threshold)) [
          | inl within ↦ (0, ground arith)
          | inr over ↦ (length s.agents_table - s.max_items, ground arith)
        ]
  ]

  kept_time :
      (kept : String) (u : ℕ) (names : List String) (s : Storage backend)
      → get kept (remove_all backend names s).access_times ≡ some u
      → (elem kept names ≡ false) × (get kept s.access_times ≡ some u)
  kept_time kept u names s e =
      ground (
        arith,
        ap (get kept) (remove_all-access names s),
        get-remove_names kept names s.access_times,
      )

  module _ {s : Storage backend} (h : IsConsistent backend s) where
    overflow_names :
        (n : ℕ)
        → n ≤ length s.agents_table
        → let names = first_names n (sort_by_time s.access_times) in
          length (remove_all backend names s).agents_table + n ≡ length s.agents_table
    overflow_names n le =
        let names = first_names n (sort_by_time s.access_times) in
        let keys_ok : Distinct (keys s.access_times) = rw h.access h.distinct in
        let there : All (λ x. In x (keys s.agents_table)) names = All-of_In _ names (λ x i. ground (
          arith,
          elem-first_names x n (sort_by_time s.access_times) i,
          elem-sort x s.access_times,
          ap (elem x) h.access,
        )) in
        omega (
          arith,
          length-remove_all names s,
          length-drop_all names (keys s.agents_table)
              (first_names-Distinct n (sort_by_time s.access_times)
                (sort-Distinct s.access_times keys_ok))
              there h.distinct,
          length-first_names n (sort_by_time s.access_times),
          length-sort s.access_times,
          length-keys s.access_times,
          length-keys s.agents_table,
          ap length h.access,
        )

    -- Where the tables list the same names, each once, an eviction leaves the storage as large as it was, unless there is a limit and the storage is
    -- over it by more than the threshold: then it leaves exactly as many networks as the limit.
    pub evict-length : length (evict_lru_agent_networks backend s).agents_table ≡ (
        if leb s.max_items 0 || leb (length s.agents_table - s.max_items) s.items_overflow_threshold
        then length s.agents_table
        else s.max_items)
    unfolding evict_lru_agent_networks notify to_evict remove_all
    evict-length =
        ground (arith, overflow_names (length s.agents_table - s.max_items) (omega arith))

    -- Where the tables list the same names, each once, no network that is evicted was used later than
    -- one that is kept.
    pub evict-oldest :
        (old kept : String) (t u : ℕ)
        → In old (to_evict backend s)
        → get old s.access_times ≡ some t
        → get kept (evict_lru_agent_networks backend s).access_times ≡ some u
        → t ≤ u
    unfolding evict_lru_agent_networks notify
    evict-oldest old kept t u i e e' =
        let (n, p) = to_evict-prefix s in
        let (out, e'') = kept_time kept u (to_evict backend s) s e' in
        first_names-oldest old kept t u n (sort_by_time s.access_times)
          (sort-IsSorted s.access_times) (rw p at i) (rw p at out)
          (rw (get-sort old s.access_times (rw h.access h.distinct)) e)
          (rw (get-sort kept s.access_times (rw h.access h.distinct)) e'')
