-- ===== src/Storage/Sort.antt =====
-- The sort by access time keeps the entries and puts the oldest first; a prefix of it is oldest.
use nora_fleet.Common.{
  ℕ, zero, suc, ◌≤◌, min, String, ◌≡◌, refl, false, ◌||◌, some, [], ◌∷◌, if◌then◌else◌, Dict, get,
  keys, elem, elem-cons, All, Distinct, In, length, arith, eq_iff, ◌==◌,
}
use nora_fleet.Storage.{insert_by_time, sort_by_time, first_names}

abbrev pub IsSorted : Dict ℕ → Type 0
IsSorted [] = Unit
IsSorted (x ∷ xs) = All (λ y. x.1 ≤ y.1) xs × IsSorted xs

All-insert :
    (t : ℕ) (item : String × ℕ) (d : Dict ℕ)
    → t ≤ item.1
    → All (λ y. t ≤ y.1) d
    → All (λ y. t ≤ y.1) (insert_by_time item d)
unfolding insert_by_time
All-insert t item [] h k = (h, tt)
All-insert t item (x ∷ xs) h k = ground (arith, All-insert t item xs h k.1)

All-older : (t u : ℕ) (d : Dict ℕ) → t ≤ u → All (λ y. u ≤ y.1) d → All (λ y. t ≤ y.1) d
All-older t u [] h k = tt
All-older t u (x ∷ xs) h k = (omega arith, All-older t u xs h k.1)

insert-IsSorted : (item : String × ℕ) (d : Dict ℕ) → IsSorted d → IsSorted (insert_by_time item d)
unfolding insert_by_time
insert-IsSorted item [] h = (tt, tt)
insert-IsSorted item (x ∷ xs) h =
    ground (arith, insert-IsSorted item xs h.1, All-insert x.1 item xs, All-older item.1 x.1 xs)

pub sort-IsSorted : (d : Dict ℕ) → IsSorted (sort_by_time d)
unfolding sort_by_time
sort-IsSorted [] = tt
sort-IsSorted (x ∷ xs) = insert-IsSorted x (sort_by_time xs) (sort-IsSorted xs)

elem-insert :
    (y k : String) (t : ℕ) (d : Dict ℕ)
    → elem y (keys (insert_by_time (k, t) d)) ≡ (k == y || elem y (keys d))
unfolding insert_by_time keys elem
elem-insert y k t [] = refl
elem-insert y k t ((j, u) ∷ d) = ground (arith, elem-insert y k t d)

insert-Distinct :
    (k : String) (t : ℕ) (d : Dict ℕ)
    → elem k (keys d) ≡ false
    → Distinct (keys d)
    → Distinct (keys (insert_by_time (k, t) d))
unfolding insert_by_time keys elem
insert-Distinct k t [] n h = (refl, tt)
insert-Distinct k t ((j, u) ∷ d) n h =
    ground (arith, insert-Distinct k t d, elem-insert j k t d, eq_iff j k, eq_iff k j)

get-insert :
    (y k : String) (t : ℕ) (d : Dict ℕ)
    → elem k (keys d) ≡ false
    → get y (insert_by_time (k, t) d) ≡ (if k == y then some t else get y d)
unfolding insert_by_time keys elem get
get-insert y k t [] n = refl
get-insert y k t ((j, u) ∷ d) n =
    ground (arith, get-insert y k t d, eq_iff j y, eq_iff k y, eq_iff j k)

length-insert : (item : String × ℕ) (d : Dict ℕ) → length (insert_by_time item d) ≡ suc (length d)
unfolding insert_by_time
length-insert item [] = refl
length-insert item (x ∷ xs) = ground (arith, length-insert item xs)

pub length-sort : (d : Dict ℕ) → length (sort_by_time d) ≡ length d
unfolding sort_by_time
length-sort [] = refl
length-sort (x ∷ xs) = omega (arith, length-sort xs, length-insert x (sort_by_time xs))

pub elem-sort : (y : String) (d : Dict ℕ) → elem y (keys (sort_by_time d)) ≡ elem y (keys d)
unfolding sort_by_time keys
elem-sort y [] = refl
elem-sort y ((k, t) ∷ d) =
    ground (arith, elem-insert y k t (sort_by_time d), elem-sort y d, elem-cons y k (keys d))

pub sort-Distinct : (d : Dict ℕ) → Distinct (keys d) → Distinct (keys (sort_by_time d))
unfolding sort_by_time keys
sort-Distinct [] h = tt
sort-Distinct ((k, t) ∷ d) h =
    insert-Distinct k t (sort_by_time d) (rw elem-sort h.0) (sort-Distinct d h.1)

pub get-sort : (y : String) (d : Dict ℕ) → Distinct (keys d) → get y (sort_by_time d) ≡ get y d
unfolding sort_by_time keys get
get-sort y [] h = refl
get-sort y ((k, t) ∷ d) h =
    rw (get-insert y k t (sort_by_time d) (rw elem-sort h.0), get-sort y d h.1)

pub elem-first_names : (y : String) (n : ℕ) (d : Dict ℕ) → In y (first_names n d) → In y (keys d)
unfolding first_names keys elem
elem-first_names y zero d m = cc
elem-first_names y (suc n) [] m = m
elem-first_names y (suc n) ((k, t) ∷ d) m = ground (arith, elem-first_names y n d)

pub first_names-Distinct : (n : ℕ) (d : Dict ℕ) → Distinct (keys d) → Distinct (first_names n d)
unfolding first_names keys
first_names-Distinct zero d h = tt
first_names-Distinct (suc n) [] h = tt
first_names-Distinct (suc n) ((k, t) ∷ d) h =
    ground (arith, first_names-Distinct n d h.1, elem-first_names k n d)

pub length-first_names : (n : ℕ) (d : Dict ℕ) → length (first_names n d) ≡ min n (length d)
unfolding first_names
length-first_names zero d = omega arith
length-first_names (suc n) [] = omega arith
length-first_names (suc n) ((k, t) ∷ d) = omega (arith, length-first_names n d)

time_of_entry :
    (y : String) (t u : ℕ) (d : Dict ℕ) → All (λ e. t ≤ e.1) d → get y d ≡ some u → t ≤ u
unfolding get
time_of_entry y t u [] h e = cc
time_of_entry y t u ((k, v) ∷ d) h e = ground (arith, time_of_entry y t u d h.1)

-- In a sorted list no name of the prefix has a later time than a name that is not in the prefix.
pub first_names-oldest :
    (old kept : String) (t u : ℕ) (n : ℕ) (d : Dict ℕ)
    → IsSorted d
    → In old (first_names n d)
    → elem kept (first_names n d) ≡ false
    → get old d ≡ some t
    → get kept d ≡ some u
    → t ≤ u
unfolding first_names get elem
first_names-oldest old kept t u zero d h m k e e' = cc
first_names-oldest old kept t u (suc n) [] h m k e e' = cc
first_names-oldest old kept t u (suc n) ((j, v) ∷ d) h m k e e' =
    ground (arith, first_names-oldest old kept t u n d h.1, time_of_entry kept v u d h.0)
