-- ===== src/LocalStorage.antt =====
-- nora_fleet/service/watcher/temp_networks/local/local_reservations_storage.py: the reservations in the
-- files of a directory. A file is named after the reservation and holds a JSON value, or none that can
-- be read. `none` is an exception, also where reading treats it as a reservation that is not there.
pub mod Written
pub mod Swept
use nora_fleet.Common.{
  ℕ, String, Bool, true, false, not, ◌||◌, Option, none, some, List, [], ◌∷◌, if◌then◌else◌, ◌==◌,
  ltb, leb, Dict, get, put, Value, Items, Fields, null, bool, num, str, arr, obj, field, end,
  entries, from_entries, ◌>>=◌,
}
use nora_fleet.Redactor.{truthy}
use nora_fleet.Messages.{or_null, value_at, is_null}
use nora_fleet.Messages.Json.{strip_text}
use nora_fleet.Reservations.{
  AgentReservation, Deployment, get_reservation_id, new_reservation, has_char,
}

-- The files, by what `_path_for` adds to the directory.
abbrev pub Files : Type 0
Files = Dict (Option Value)

-- `_path_for`, on a system whose one separator is the slash
unfoldable pub path_for : String → Option String
unfolding strip_text has_char
path_for reservation_id =
    let stripped = strip_text reservation_id in
    if stripped == "" || has_char b'/' stripped then none else some stripped

-- reservation_dictionary_converter.py
unfoldable pub to_dict : AgentReservation → Dict Value
unfolding get_reservation_id
to_dict r =
    ("id", str (get_reservation_id r))
    ∷ ("lifetime_in_seconds", num r.lifetime_in_seconds)
    ∷ ("expiration_time_in_seconds", num r.expiration_time_in_seconds)
    ∷ []

-- What a comparison of times reads as a number.
unfoldable pub number_of : Value → Option ℕ
number_of (num n) = some n
number_of (bool true) = some 1
number_of (bool false) = some 0
number_of _ = none

-- the lifetime of a reservation that was read, which nothing uses, is 0 where it is no number
lifetime_of : Option ℕ → ℕ
lifetime_of none = 0
lifetime_of (some n) = n

unfoldable pub id_of : Dict Value → Value
unfolding is_null value_at
id_of d = if is_null (value_at "id" d) then value_at "reservation_id" d else value_at "id" d

-- `spec.get("metadata") or {}`, where a value that is no dictionary is replaced
kept_metadata : Value → Dict Value
kept_metadata (obj fs) = entries fs
kept_metadata _ = []

-- what `_write_one_reservation_sync` writes
unfoldable pub spec_to_write : ℕ → AgentReservation → Dict Value → Dict Value
unfolding kept_metadata value_at to_dict
spec_to_write stored_at r spec =
    let metadata = put "stored_at" (num stored_at) (
      put "reservation" (obj (from_entries (to_dict r)))
        (kept_metadata (value_at "metadata" spec))) in
    put "metadata" (obj (from_entries metadata)) spec

-- `dict(agent_spec)`, of a dictionary
unfoldable pub dictionary : Value → Option (Dict Value)
dictionary (obj fs) = some (entries fs)
dictionary _ = none

unfoldable pub write_one_reservation : ℕ → AgentReservation → Value → Files → Option Files
unfolding path_for spec_to_write dictionary
write_one_reservation stored_at r v files = do
  path ← path_for (get_reservation_id r)
  spec ← dictionary v
  some (put path (some (obj (from_entries (spec_to_write stored_at r spec)))) files)

-- `add_reservations`, which writes the files concurrently; here they are written in order, which is
-- seen only where two entries have the same file.
unfoldable pub add_reservations : ℕ → Deployment → Files → Option Files
unfolding write_one_reservation
add_reservations stored_at [] files = some files
add_reservations stored_at ((r, v) ∷ rest) files =
    write_one_reservation stored_at r v files >>= λ files'. add_reservations stored_at rest files'

-- `_read_reservation_file`: what a file holds
unfoldable pub read_file : Option (Option Value) → Option Value
read_file none = none
read_file (some none) = none
read_file (some (some null)) = none
read_file (some (some v)) = some v

-- `metadata.get(...) or {}`
metadata_in : Dict Value → Option (Dict Value)
unfolding truthy value_at dictionary
metadata_in spec =
    if truthy (value_at "metadata" spec) then dictionary (value_at "metadata" spec) else some []

-- the reservation in what a file holds; in both uses one that is no dictionary is skipped
unfoldable pub reservation_in : Value → Option (Dict Value)
unfolding dictionary metadata_in value_at
reservation_in v = do
  spec ← dictionary v
  metadata ← metadata_in spec
  dictionary (value_at "reservation" metadata)

unexpired : ℕ → AgentReservation → Option AgentReservation
unexpired now r = if ltb r.expiration_time_in_seconds now then none else some r

-- The text of a value that is joined to a text is passed in.
module _ (show : Value → String) where
  text_of : Value → String
  text_of (str s) = s
  text_of v = show v

  -- `from_dict`. An expiration that is no number raises where it is compared; here at once.
  unfoldable pub from_dict : Dict Value → Option AgentReservation
  unfolding lifetime_of text_of number_of id_of new_reservation value_at
  from_dict d = do
    expiration ← number_of (value_at "expiration_time_in_seconds" d)
    some
        (record (new_reservation (lifetime_of (number_of (value_at "lifetime_in_seconds" d))) none
          (text_of (id_of d))) { expiration_time_in_seconds = expiration })

-- `AgentNetwork(agent_spec, reservation_id)` raises where it gives none.
module _ {Network : Type 0} (show : Value → String) (build : Value → String → Option Network) where
  unfoldable pub reconstruct : ℕ → Value → Option (AgentReservation × Network)
  unfolding reservation_in from_dict unexpired get_reservation_id
  reconstruct now v = do
    d ← reservation_in v
    r ← from_dict show d
    r' ← unexpired now r
    n ← build v (get_reservation_id r')
    some (r', n)

  -- `get_one_reservation`
  unfoldable pub get_one_reservation : ℕ → String → Files → Option (AgentReservation × Network)
  unfolding path_for read_file reconstruct
  get_one_reservation now key files = do
    path ← path_for key
    v ← read_file (get path files)
    reconstruct now v

-- `float` of a text is passed in.
module _ (float_text : String → Option ℕ) where
  unfoldable pub float_of : Value → Option ℕ
  unfolding number_of
  float_of (str s) = float_text s
  float_of v = number_of v

  -- the time in a file that `_expire_one_file` compares
  unfoldable pub expiration_in : Option Value → Option ℕ
  unfolding reservation_in float_of value_at read_file
  expiration_in file = do
    v ← read_file (some file)
    d ← reservation_in v
    float_of (value_at "expiration_time_in_seconds" d)

  unfoldable pub has_expired : ℕ → Option Value → Bool
  unfolding expiration_in
  has_expired now file = elim (expiration_in file) [ none ↦ false | some t ↦ not (leb now t) ]

  -- `expire_reservations`
  unfoldable pub expire_reservations : ℕ → Files → Files
  unfolding has_expired
  expire_reservations now [] = []
  expire_reservations now ((path, file) ∷ files) =
      let rest = expire_reservations now files in
      if has_expired now file then rest else (path, file) ∷ rest
