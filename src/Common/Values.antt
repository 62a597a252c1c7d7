-- ===== src/Common/Values.antt =====
-- The data that a HOCON file or a JSON message holds: Python's `Any` where the program reads it.
-- Whole numbers stand for the numeric values.
use Prim.Native.Nat.{ℕ}
use Prim.Native.String.{String}
use mathlib.Core.Path.{◌≡◌, refl, ap}
use mathlib.Core.Bool.{Bool}
use mathlib.Core.List.{List, [], ◌∷◌}
use nora_fleet.Common.Dicts.{Dict}

mutual
  pub data Fields : Type 0 where
    end : Fields
    field : String → Value → Fields → Fields

  pub data Items : Type 0 where
    nil : Items
    cons : Value → Items → Items

  pub data Value : Type 0 where
    null : Value
    str : String → Value
    num : ℕ → Value
    bool : Bool → Value
    obj : Fields → Value
    arr : Items → Value

-- The elements of a list value, and the entries of a dictionary value.
abbrev pub elements : Items → List Value
elements nil = []
elements (cons v vs) = v ∷ elements vs

abbrev pub entries : Fields → Dict Value
entries end = []
entries (field k v fs) = (k, v) ∷ entries fs

abbrev pub from_elements : List Value → Items
from_elements [] = nil
from_elements (v ∷ vs) = cons v (from_elements vs)

abbrev pub from_entries : Dict Value → Fields
from_entries [] = end
from_entries ((k, v) ∷ d) = field k v (from_entries d)

pub entries-from_entries : (d : Dict Value) → entries (from_entries d) ≡ d
entries-from_entries [] = refl
entries-from_entries ((k, v) ∷ d) = ap (λ rest. (k, v) ∷ rest) (entries-from_entries d)
