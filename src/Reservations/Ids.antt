-- ===== src/Reservations/Ids.antt =====
-- Ids that are fit for outside use.
use Prim.Native.String as Text
use text.Mathlib.TextLemmas.{nil-append, cons-append, append-eq-nil_iff}
use nora_fleet.Common.{
  ℕ, String, ◌≡◌, Bool, false, ◌||◌, Option, none, some, arith, eq_iff, ◌==◌, Bool-cases, inl, inr,
}
use nora_fleet.Reservations.{
  AgentReservation, Accumulating, Result, ok, raises, has_char, check_id, check_prefix, with_dash,
  validate_id, new_reservation, get_reservation_id, reserve_valid, ◌>>=◌,
}

has_char-append :
    (c : ℕ) (s t : String) → has_char c (Text.◌++◌ s t) ≡ (has_char c s || has_char c t)
unfolding has_char
has_char-append c Text.[] t = rw nil-append
has_char-append c (Text.◌∷◌ d s) t = rw cons-append (ground (arith, has_char-append c s t))

abbrev unsafe : String → Bool
unsafe s = has_char b'/' s || has_char b':' s || has_char b' ' s

-- A text without the forbidden characters in front of a valid id makes a valid id.
check_id-append :
    (q uuid : String)
    → unsafe q ≡ false
    → check_id uuid ≡ ok tt
    → check_id (Text.◌++◌ q uuid) ≡ ok tt
unfolding check_id
check_id-append q uuid h u = ground (
  arith,
  has_char-append b'/' q uuid,
  has_char-append b':' q uuid,
  has_char-append b' ' q uuid,
  eq_iff (Text.◌++◌ q uuid) "",
  eq_iff uuid "",
  (append-eq-nil_iff {p = q} {q = uuid}).0,
)

dashed_safe : (p : String) → check_id p ≡ ok tt → unsafe (Text.◌++◌ p "-") ≡ false
unfolding check_id has_char
dashed_safe p h =
    ground
      (arith, has_char-append b'/' p "-", has_char-append b':' p "-", has_char-append b' ' p "-")

no_prefix : (uuid : String) → check_id uuid ≡ ok tt → check_id (Text.◌++◌ "" uuid) ≡ ok tt
no_prefix uuid u = rw nil-append u

with_prefix :
    (p uuid : String)
    → (check_prefix (some p) ≡ ok tt)
    → check_id uuid ≡ ok tt
    → check_id (Text.◌++◌ (with_dash p) uuid) ≡ ok tt
unfolding check_prefix with_dash validate_id
with_prefix p uuid h u = elim (Bool-cases (p == "")) [
  | inl empty ↦ rw empty (rw ((eq_iff p "").0 empty) (no_prefix uuid u))
  | inr full ↦ rw full (check_id-append (Text.◌++◌ p "-") uuid (dashed_safe p (ground arith)) u)
]

made :
    {A : Type 0} (m : Result (Unit {0})) (x r : A)
    → (m >>= λ _. ok x) ≡ ok r
    → (m ≡ ok tt) × (x ≡ r)
made (ok tt) x r e = ground arith
made (raises x') x r e = cc

-- A reservation that `reserve` makes from a valid prefix and a uuid of its own has an id that
-- passes `validate_id`.
pub reserve_valid-id :
    (a : Accumulating) (lifetime : ℕ) (prefix : Option String) (uuid : String)
    (r : AgentReservation)
    → validate_id (some uuid) ≡ ok tt
    → reserve_valid a lifetime prefix uuid ≡ ok r
    → validate_id (some (get_reservation_id r)) ≡ ok tt
unfolding reserve_valid get_reservation_id validate_id new_reservation
reserve_valid-id a lifetime none uuid r u e =
    let (h, same) = made (ok tt) _ r e in rw (← same) (no_prefix uuid u)
reserve_valid-id a lifetime (some p) uuid r u e =
    let (h, same) = made (check_prefix (some p)) _ r e in rw (← same) (with_prefix p uuid h u)
