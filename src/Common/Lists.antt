-- ===== src/Common/Lists.antt =====
-- Lists measured by native numbers, and lists of texts that stand for Python's sets of names.
use Prim.Native.Nat.{ℕ, suc, ◌+◌}
use Prim.Native.String.{String}
use mathlib.Core.Path.{◌≡◌, refl}
use mathlib.Core.Logic.{◌⊎◌, inl, inr}
use mathlib.Core.Bool.{Bool, true, false, ◌||◌, ◌&&◌, not}
use mathlib.Core.List.{List, [], ◌∷◌, ◌++◌}
use native.Mathlib.Omega.{arith}
use text.Mathlib.Text.{◌==◌}
use text.Mathlib.TextEquality.{eq_iff}
use nora_fleet.Common.Tests.{if◌then◌else◌}

module _ {ℓ} {A : Type ℓ} where
  abbrev pub length : List A → ℕ
  length [] = 0
  length (x ∷ xs) = suc (length xs)

  pub length-append : (xs ys : List A) → length (xs ++ ys) ≡ length xs + length ys
  length-append [] ys = omega arith
  length-append (x ∷ xs) ys = omega (arith, length-append xs ys)

module _ {ℓ} {A : Type ℓ} where
  -- A list is empty, as Python's truth test of a list reads it.
  abbrev pub is_empty : List A → Bool
  is_empty [] = true
  is_empty (x ∷ xs) = false

-- A predicate of every element, computed by recursion.
abbrev pub All {ℓ κ} : {A : Type ℓ} → (A → Type κ) → List A → Type κ
All P [] = Unit
All P (x ∷ xs) = P x × All P xs

pub All-append {ℓ κ} :
    {A : Type ℓ} (Q : A → Type κ) (front back : List A)
    → All Q front
    → All Q back
    → All Q (front ++ back)
All-append Q [] back in_front in_back = in_back
All-append Q (x ∷ front) back in_front in_back =
    (in_front.0, All-append Q front back in_front.1 in_back)

pub All-map {ℓ κ} :
    {A : Type ℓ} (P Q : A → Type κ) (xs : List A) → ((x : A) → P x → Q x) → All P xs → All Q xs
All-map P Q [] f h = tt
All-map P Q (x ∷ xs) f h = (f x h.0, All-map P Q xs f h.1)

-- `a in xs`
unfoldable pub elem : String → List String → Bool
elem a [] = false
elem a (x ∷ xs) = x == a || elem a xs

-- Membership as a proposition on the test.
abbrev pub In : String → List String → Type 0
In a xs = elem a xs ≡ true

-- Python's set of names: `xs.add(a)`, `xs.update(ys)` and `xs - ys`, with no name listed twice.
unfoldable pub set_add : String → List String → List String
unfolding elem
set_add a xs = if elem a xs then xs else a ∷ xs

unfoldable pub set_update : List String → List String → List String
unfolding set_add
set_update xs [] = xs
set_update xs (y ∷ ys) = set_update (set_add y xs) ys

unfoldable pub set_minus : List String → List String → List String
unfolding elem
set_minus [] ys = []
set_minus (x ∷ xs) ys = let rest = set_minus xs ys in if elem x ys then rest else x ∷ rest

pub elem-set_add : (b a : String) (xs : List String) → elem b (set_add a xs) ≡ (a == b || elem b xs)
unfolding set_add
elem-set_add b a xs = ground (arith, eq_iff a b)

pub elem-set_update :
    (b : String) (xs ys : List String) → elem b (set_update xs ys) ≡ (elem b xs || elem b ys)
unfolding set_update
elem-set_update b xs [] = ground arith
elem-set_update b xs (y ∷ ys) =
    ground (arith, elem-set_update b (set_add y xs) ys, elem-set_add b y xs)

pub elem-set_minus :
    (b : String) (xs ys : List String) → elem b (set_minus xs ys) ≡ (elem b xs && not (elem b ys))
unfolding set_minus
elem-set_minus b [] ys = refl
elem-set_minus b (x ∷ xs) ys = ground (arith, elem-set_minus b xs ys, eq_iff x b)

pub In-head : (a : String) (xs : List String) → In a (a ∷ xs)
unfolding elem
In-head a xs = ground (arith, eq_iff a a)

pub In-tail : (a x : String) (xs : List String) → In a xs → In a (x ∷ xs)
unfolding elem
In-tail a x xs h = ground arith

pub In-cons : (a x : String) (xs : List String) → In a (x ∷ xs) → (a ≡ x) ⊎ In a xs
unfolding elem
In-cons a x xs h = ground (arith, eq_iff x a)

pub elem-append : (a : String) (xs ys : List String) → elem a (xs ++ ys) ≡ (elem a xs || elem a ys)
unfolding elem
elem-append a [] ys = refl
elem-append a (x ∷ xs) ys = ground (arith, elem-append a xs ys)

pub elem-nil : (a : String) → elem a [] ≡ false
unfolding elem
elem-nil a = refl

pub elem-cons : (a x : String) (xs : List String) → elem a (x ∷ xs) ≡ (x == a || elem a xs)
unfolding elem
elem-cons a x xs = refl

pub All-In {κ} : (P : String → Type κ) (xs : List String) {a : String} → All P xs → In a xs → P a
unfolding elem
All-In P [] h m = cc
All-In P (x ∷ xs) {a} h m = elim (In-cons a x xs m) [ inl e ↦ rw e h.0 | inr r ↦ All-In P xs h.1 r ]

pub All-of_In {κ} :
    (P : String → Type κ) (xs : List String) → ((a : String) → In a xs → P a) → All P xs
All-of_In P [] h = tt
All-of_In P (x ∷ xs) h = (h x (In-head x xs), All-of_In P xs (λ a m. h a (In-tail a x xs m)))
