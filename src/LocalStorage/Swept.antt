-- ===== src/LocalStorage/Swept.antt =====
-- A sweep of the expired reservations is not seen by those who read.
use nora_fleet.Common.{
  ℕ, ◌≤◌, String, ◌≡◌, refl, true, false, not, Option, none, some, [], ◌∷◌, if◌then◌else◌, ◌==◌,
  eq_iff, ltb, leb, Dict, get, contains, IsUnique, Value, str, Bool-cases, Option-cases, inl, inr,
  arith, ◌>>=◌,
}
use nora_fleet.Messages.{value_at}
use nora_fleet.LocalStorage.{
  Files, path_for, number_of, read_file, reservation_in, from_dict, unexpired, reconstruct,
  get_one_reservation, float_of, expiration_in, has_expired, expire_reservations,
}

absent :
    (j path : String) (files : Files) → contains j files ≡ false → j ≡ path → get path files ≡ none
absent j path files h e =
    rw (← e) (elim (Option-cases (get j files)) [ inl p ↦ p | inr (v, p) ↦ cc ])

float_of-number :
    (float_text : String → Option ℕ) (v : Value) {t : ℕ}
    → number_of v ≡ some t
    → float_of float_text v ≡ some t
unfolding float_of number_of
float_of-number float_text (str s) e = cc
float_of-number float_text v e = e

module _ (float_text : String → Option ℕ) where
  get-absent :
      (path : String) (now : ℕ) (files : Files)
      → get path files ≡ none
      → get path (expire_reservations float_text now files) ≡ none
  unfolding expire_reservations get
  get-absent path now [] h = refl
  get-absent path now ((j, file) ∷ files) h = ground (arith, get-absent path now files)

  get-expire :
      (path : String) (now : ℕ) (files : Files)
      → IsUnique files
      → get path (expire_reservations float_text now files)
        ≡ (get path files >>= λ file. if has_expired float_text now file then none else some file)
  unfolding expire_reservations get
  get-expire path now [] u = refl
  get-expire path now ((j, file) ∷ files) u = elim (Bool-cases (j == path)) [
    | inr other ↦ ground (arith, other, get-expire path now files u.1)
    | inl same ↦
        let gone = get-absent path now files (absent j path files u.0 ((eq_iff j path).0 same)) in
        ground (arith, same, gone, Bool-cases (has_expired float_text now file))
  ]

bind-none {ℓ} :
    {A : Type ℓ} {B : Type ℓ} {C : Type ℓ} (m : Option A) (f : A → Option B) (g : B → Option C)
    → (m >>= f) ≡ none
    → (m >>= λ a. f a >>= g) ≡ none
bind-none none f g h = refl
bind-none (some a) f g h = rw h refl

module _ {Network : Type 0} (float_text : String → Option ℕ) (show : Value → String)
    (build : Value → String → Option Network) where
  -- A time at which a file is swept is the time of the reservation in it, where there is one.
  expired-dict :
      (now later : ℕ) (d : Dict Value)
      → now ≤ later
      → (elim (float_of float_text (value_at "expiration_time_in_seconds" d)) [
        | none ↦ false
        | some t ↦ not (leb now t)
      ])
        ≡ true
      → (from_dict show d >>= λ r. unexpired later r) ≡ none
  unfolding from_dict unexpired
  expired-dict now later d le h =
      elim (Option-cases (number_of (value_at "expiration_time_in_seconds" d))) [
        | inl e ↦ rw e refl
        | inr (t, e) ↦
            let f = float_of-number float_text (value_at "expiration_time_in_seconds" d) e in
            let past : ltb t later ≡ true = ground (arith, le, rw f at h) in rw (e, past) refl
      ]

  expired-read :
      (now : ℕ) (file : Option Value) {v : Value} {d : Dict Value}
      → has_expired float_text now file ≡ true
      → read_file (some file) ≡ some v
      → reservation_in v ≡ some d
      → (elim (float_of float_text (value_at "expiration_time_in_seconds" d)) [
        | none ↦ false
        | some t ↦ not (leb now t)
      ])
        ≡ true
  unfolding has_expired expiration_in
  expired-read now file h e p = rw (has_expired, expiration_in, e, p) at h

  -- A file that a sweep removes is no longer read, then or later.
  expired-unread :
      (now later : ℕ) (file : Option Value)
      → now ≤ later
      → has_expired float_text now file ≡ true
      → (read_file (some file) >>= λ v. reconstruct show build later v) ≡ none
  unfolding has_expired expiration_in reconstruct
  expired-unread now later file le h = elim (Option-cases (read_file (some file))) [
    | inl e ↦ rw e refl
    | inr (v, e) ↦ elim (Option-cases (reservation_in v)) [
      | inl p ↦ rw (e, p) refl
      | inr (d, p) ↦
          let read = expired-read now file h e p in
          rw (e, p)
            (bind-none (from_dict show d) (λ r. unexpired later r) _
              (expired-dict now later d le read))
    ]
  ]

  swept :
      (now later : ℕ) (o : Option (Option Value))
      → now ≤ later
      → (read_file (o >>= λ file. if has_expired float_text now file then none else some file)
          >>= λ v. reconstruct show build later v)
        ≡ (read_file o >>= λ v. reconstruct show build later v)
  swept now later none le = refl
  swept now later (some file) le = elim (Bool-cases (has_expired float_text now file)) [
    | inl old ↦ rw (old, expired-unread now later file le old) (unfold read_file in refl)
    | inr kept ↦ rw kept refl
  ]

  -- Where no path is listed twice, a sweep of the files changes nothing for those who read a
  -- reservation at the time of the sweep or later.
  pub expire_reservations_unseen :
      (now later : ℕ) (key : String) (files : Files)
      → IsUnique files
      → now ≤ later
      → get_one_reservation show build later key (expire_reservations float_text now files)
        ≡ get_one_reservation show build later key files
  unfolding get_one_reservation
  expire_reservations_unseen now later key files u le = elim (Option-cases (path_for key)) [
    | inl e ↦ rw e refl
    | inr (path, e) ↦
        rw (e, get-expire float_text path now files u) (swept now later (get path files) le)
  ]
