-- ===== src/LocalStorage/Written.antt =====
-- What is written is read again.
use nora_fleet.Common.{
  ℕ, ◌≤◌, String, ◌≡◌, ◌≢◌, refl, ap, ◌∙◌, true, false, Option, some, [], ◌∷◌, ◌++◌, ◌==◌, eq_iff,
  ltb, All, Dict, get, put, get-put, Value, Fields, num, obj, entries, from_entries,
  entries-from_entries, Bool-cases, inl, inr, >>=-eq-some, some_inj, arith,
}
use mathlib.Core.Path.{subst}
use text.Mathlib.TextLemmas.{nil-append}
use nora_fleet.Redactor.{truthy}
use nora_fleet.Messages.{value_at, is_null}
use nora_fleet.Reservations.{AgentReservation, Deployment, get_reservation_id, new_reservation}
use nora_fleet.LocalStorage.{
  Files, path_for, to_dict, number_of, lifetime_of, id_of, spec_to_write, dictionary,
  write_one_reservation, add_reservations, read_file, metadata_in, reservation_in, text_of,
  from_dict, unexpired, reconstruct, get_one_reservation,
}

-- The reservation that is read: its id has the prefix in it.
abbrev pub as_read : AgentReservation → AgentReservation
as_read r = record {
  id = get_reservation_id r;
  prefix = "";
  lifetime_in_seconds = r.lifetime_in_seconds;
  expiration_time_in_seconds = r.expiration_time_in_seconds;
}

as_read-id : (r : AgentReservation) → get_reservation_id (as_read r) ≡ get_reservation_id r
unfolding get_reservation_id
as_read-id r = nil-append (get_reservation_id r)

-- No reservation of a deployment has a path.
abbrev pub Avoids : Option String → Deployment → Type 0
Avoids path d = All (λ e. path_for (get_reservation_id e.0) ≢ path) d

abbrev pub written : ℕ → AgentReservation → Dict Value → Value
written stored_at r spec = obj (from_entries (spec_to_write stored_at r spec))

truthy-put :
    (k : String) (v : Value) (d : Dict Value) → truthy (obj (from_entries (put k v d))) ≡ true
unfolding truthy put
truthy-put k v [] = refl
truthy-put k v ((j, w) ∷ d) = elim (Bool-cases (j == k)) [
  | inl same ↦ rw same refl
  | inr other ↦ rw other refl
]

metadata_in-written :
    (k : String) (v : Value) (d spec : Dict Value)
    → metadata_in (put "metadata" (obj (from_entries (put k v d))) spec) ≡ some (put k v d)
unfolding metadata_in value_at dictionary
metadata_in-written k v d spec =
    rw
      (
        get-put "metadata" "metadata" (obj (from_entries (put k v d))) spec,
        truthy-put k v d,
        entries-from_entries (put k v d),
      )
      refl

reservation_in-written :
    (stored_at : ℕ) (r : AgentReservation) (spec : Dict Value)
    → reservation_in (written stored_at r spec) ≡ some (to_dict r)
unfolding reservation_in spec_to_write dictionary value_at
reservation_in-written stored_at r spec =
    rw
      (
        entries-from_entries (spec_to_write stored_at r spec),
        metadata_in-written "stored_at" (num stored_at) _ spec,
        get-put "stored_at" "reservation" (num stored_at) _,
        get-put "reservation" "reservation" (obj (from_entries (to_dict r))) _,
      )
      (ap some (entries-from_entries (to_dict r)))

module _ (show : Value → String) where
  from_dict-to_dict : (r : AgentReservation) → from_dict show (to_dict r) ≡ some (as_read r)
  unfolding from_dict to_dict get value_at id_of is_null text_of number_of lifetime_of
      new_reservation
  from_dict-to_dict r = refl

write_one-file :
    (stored_at : ℕ) (r : AgentReservation) (v : Value) (files files' : Files) (path : String)
    → ¬ (path_for (get_reservation_id r) ≡ some path)
    → write_one_reservation stored_at r v files ≡ some files'
    → get path files' ≡ get path files
unfolding write_one_reservation
write_one-file stored_at r v files files' path h e =
    let (p, e1, e2) = >>=-eq-some (path_for (get_reservation_id r)) _ e in
    let (spec, _, e3) = >>=-eq-some (dictionary v) _ e2 in
    rw (← some_inj e3, get-put p path (some (written stored_at r spec)) files)
      (elim (Bool-cases (p == path)) [
        | inl same ↦ absurd (h (e1 ∙ ap some ((eq_iff p path).0 same)))
        | inr other ↦ rw other refl
      ])

add_reservations-file :
    (stored_at : ℕ) (d : Deployment) (files files' : Files) (path : String)
    → Avoids (some path) d
    → add_reservations stored_at d files ≡ some files'
    → get path files' ≡ get path files
unfolding add_reservations
add_reservations-file stored_at [] files files' path h e = rw (some_inj e) refl
add_reservations-file stored_at ((r, v) ∷ d) files files' path h e =
    let (f, e1, e2) = >>=-eq-some (write_one_reservation stored_at r v files) _ e in
    add_reservations-file stored_at d f files' path h.1 e2
    ∙ write_one-file stored_at r v files f path h.0 e1

write_one-written :
    (stored_at : ℕ) (r : AgentReservation) (fs : Fields) (files files' : Files)
    → write_one_reservation stored_at r (obj fs) files ≡ some files'
    → (path : String) × (path_for (get_reservation_id r) ≡ some path)
      × (get path files' ≡ some (some (written stored_at r (entries fs))))
unfolding write_one_reservation dictionary
write_one-written stored_at r fs files files' e =
    let (path, e1, e2) = >>=-eq-some (path_for (get_reservation_id r)) _ e in
    (
      path,
      e1,
      rw (← some_inj e2, get-put path path (some (written stored_at r (entries fs))) files)
          (ground (arith, eq_iff path path)),
    )

module _ {Network : Type 0} (show : Value → String) (build : Value → String → Option Network) where
  read-written :
      (stored_at now : ℕ) (r : AgentReservation) (spec : Dict Value) (n : Network)
      → build (written stored_at r spec) (get_reservation_id r) ≡ some n
      → now ≤ r.expiration_time_in_seconds
      → reconstruct show build now (written stored_at r spec) ≡ some (as_read r, n)
  unfolding reconstruct unexpired
  read-written stored_at now r spec n p le =
      let current : ltb r.expiration_time_in_seconds now ≡ false = ground (arith, le) in
      rw
        (
          reservation_in-written stored_at r spec,
          from_dict-to_dict show r,
          current,
          as_read-id r,
          p,
        )
        refl

  add_reservations-written :
      (stored_at : ℕ) (before after : Deployment) (r : AgentReservation) (fs : Fields)
      (files files' : Files)
      → Avoids (path_for (get_reservation_id r)) after
      → add_reservations stored_at (before ++ (r, obj fs) ∷ after) files ≡ some files'
      → (path : String) × (path_for (get_reservation_id r) ≡ some path)
        × (get path files' ≡ some (some (written stored_at r (entries fs))))
  unfolding add_reservations
  add_reservations-written stored_at [] after r fs files files' h e =
      let (f, e1, e2) = >>=-eq-some (write_one_reservation stored_at r (obj fs) files) _ e in
      let (path, p, q) = write_one-written stored_at r fs files f e1 in
      (
        path,
        p,
        add_reservations-file stored_at after f files' path (subst (λ x. Avoids x after) p h) e2
            ∙ q,
      )
  add_reservations-written stored_at ((q, v) ∷ before) after r fs files files' h e =
      let (f, e1, e2) = >>=-eq-some (write_one_reservation stored_at q v files) _ e in
      add_reservations-written stored_at before after r fs f files' h e2

  -- Where the writing of some reservations raises no exception, one of them that has not expired, and
  -- whose file no later one is written to, is read again with its id, lifetime and expiration, and the
  -- network of its spec, to which the writing has added the metadata.
  pub get_one_reservation_lem :
      (stored_at now : ℕ) (before after : Deployment) (r : AgentReservation) (fs : Fields)
      (n : Network) (files files' : Files)
      → Avoids (path_for (get_reservation_id r)) after
      → add_reservations stored_at (before ++ (r, obj fs) ∷ after) files ≡ some files'
      → build (written stored_at r (entries fs)) (get_reservation_id r) ≡ some n
      → now ≤ r.expiration_time_in_seconds
      → get_one_reservation show build now (get_reservation_id r) files' ≡ some (as_read r, n)
  unfolding get_one_reservation read_file
  get_one_reservation_lem stored_at now before after r fs n files files' h e p le =
      let (path, q, f) = add_reservations-written stored_at before after r fs files files' h e in
      rw (q, f) (read-written stored_at now r (entries fs) n p le)
