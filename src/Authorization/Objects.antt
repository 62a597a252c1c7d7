-- ===== src/Authorization/Objects.antt =====
-- The texts for objects, and their ids.
use Prim.Native.Char.{code}
use Prim.Native.String as Text
use nora_fleet.Common.{String, ◌≡◌, refl, ap, false, some, nat_eq, Bool-cases, inl, inr, arith}
use text.Mathlib.TextLemmas.{nil-append, cons-append}
use nora_fleet.Reservations.{has_char}
use nora_fleet.Authorization.{object_text, after_colon, up_to_colon, identifier}

-- A text without a colon.
abbrev pub IsPlain : String → Type 0
IsPlain s = has_char b':' s ≡ false

up_to_colon-IsPlain : (s : String) → IsPlain s → up_to_colon s ≡ s
unfolding up_to_colon has_char
up_to_colon-IsPlain Text.[] h = refl
up_to_colon-IsPlain (Text.◌∷◌ c s) h = elim (Bool-cases (nat_eq (code c) b':')) [
  | inl colon ↦ ground (arith, colon)
  | inr other ↦ rw other (ap (Text.◌∷◌ c) (up_to_colon-IsPlain s (rw other at h)))
]

after_colon-object : (type id : String) → IsPlain type → after_colon (object_text type id) ≡ some id
unfolding object_text after_colon has_char
after_colon-object Text.[] id h =
    rw (nil-append (Text.◌++◌ ":" id), cons-append ":" Text.[] id, nil-append id) refl
after_colon-object (Text.◌∷◌ c type) id h = elim (Bool-cases (nat_eq (code c) b':')) [
  | inl colon ↦ ground (arith, colon)
  | inr other ↦
      rw (cons-append c type (Text.◌++◌ ":" id), other) (after_colon-object type id (rw other at h))
]

-- The id of an object's text is the id that the text was made of.
pub identifier-object :
    (type id : String) → IsPlain type → IsPlain id → identifier (object_text type id) ≡ some id
unfolding identifier
identifier-object type id h h' = rw (after_colon-object type id h, up_to_colon-IsPlain id h') refl
