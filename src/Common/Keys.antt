-- ===== src/Common/Keys.antt =====
-- What the updates of a dictionary do to its list of keys.
use Prim.Native.Nat.{suc, ◌≤◌}
use Prim.Native.String.{String}
use mathlib.Core.Path.{◌≡◌, refl, ap}
use mathlib.Core.Bool.{false, ◌||◌, ◌&&◌, not}
use mathlib.Core.List.{List, [], ◌∷◌}
use native.Mathlib.Omega.{arith}
use text.Mathlib.Text.{◌==◌}
use text.Mathlib.TextEquality.{eq_iff}
use nora_fleet.Common.Tests.{if◌then◌else◌}
use nora_fleet.Common.Lists.{elem, length, In}
use nora_fleet.Common.Dicts.{Dict, put, remove, keys}

pub put_key : String → List String → List String
put_key k [] = k ∷ []
put_key k (j ∷ js) = if j == k then j ∷ js else j ∷ put_key k js

pub drop_key : String → List String → List String
drop_key k [] = []
drop_key k (j ∷ js) = let rest = drop_key k js in if j == k then rest else j ∷ rest

-- No name is listed twice.
abbrev pub Distinct : List String → Type 0
Distinct [] = Unit
Distinct (x ∷ xs) = (elem x xs ≡ false) × Distinct xs

module _ {ℓ} {V : Type ℓ} where
  pub keys-put : (k : String) (v : V) (d : Dict V) → keys (put k v d) ≡ put_key k (keys d)
  unfolding keys put put_key
  keys-put k v [] = refl
  keys-put k v ((j, w) ∷ d) = ground (arith, keys-put k v d)

  pub keys-remove : (k : String) (d : Dict V) → keys (remove k d) ≡ drop_key k (keys d)
  unfolding keys remove drop_key
  keys-remove k [] = refl
  keys-remove k ((j, w) ∷ d) = ground (arith, keys-remove k d)

  pub length-keys : (d : Dict V) → length (keys d) ≡ length d
  unfolding keys
  length-keys [] = refl
  length-keys ((j, w) ∷ d) = ap suc (length-keys d)

pub elem-put_key : (x k : String) (ks : List String) → elem x (put_key k ks) ≡ (k == x || elem x ks)
unfolding elem put_key
elem-put_key x k [] = refl
elem-put_key x k (j ∷ js) = ground (arith, elem-put_key x k js, eq_iff j k, eq_iff j x, eq_iff k x)

pub elem-drop_key :
    (x k : String) (ks : List String) → elem x (drop_key k ks) ≡ (not (k == x) && elem x ks)
unfolding elem drop_key
elem-drop_key x k [] = ground arith
elem-drop_key x k (j ∷ js) =
    ground (arith, elem-drop_key x k js, eq_iff j k, eq_iff j x, eq_iff k x)

pub put_key-present : (k : String) (ks : List String) → In k ks → put_key k ks ≡ ks
unfolding elem put_key
put_key-present k [] m = cc
put_key-present k (j ∷ js) m = ground (arith, put_key-present k js)

pub drop_key-absent : (k : String) (ks : List String) → elem k ks ≡ false → drop_key k ks ≡ ks
unfolding elem drop_key
drop_key-absent k [] m = refl
drop_key-absent k (j ∷ js) m = ground (arith, drop_key-absent k js)

pub put_key-Distinct : (k : String) (ks : List String) → Distinct ks → Distinct (put_key k ks)
unfolding put_key elem
put_key-Distinct k [] h = (refl, tt)
put_key-Distinct k (j ∷ js) h =
    ground (arith, put_key-Distinct k js h.1, elem-put_key j k js, eq_iff j k, eq_iff k j)

pub drop_key-Distinct : (k : String) (ks : List String) → Distinct ks → Distinct (drop_key k ks)
unfolding drop_key
drop_key-Distinct k [] h = tt
drop_key-Distinct k (j ∷ js) h = ground (arith, drop_key-Distinct k js h.1, elem-drop_key j k js)

pub length-drop_key :
    (k : String) (ks : List String)
    → Distinct ks
    → In k ks
    → suc (length (drop_key k ks)) ≡ length ks
unfolding drop_key elem
length-drop_key k [] h m = cc
length-drop_key k (j ∷ js) h m =
    ground (arith, length-drop_key k js h.1, drop_key-absent k js, eq_iff j k)

pub length-drop_key-le : (k : String) (ks : List String) → length (drop_key k ks) ≤ length ks
unfolding drop_key
length-drop_key-le k [] = omega arith
length-drop_key-le k (j ∷ js) = ground (arith, length-drop_key-le k js)
