-- ===== src/Tests/Filed.antt =====
-- A reservation in a file.
use nora_fleet.Common.{
  String, ◌≡◌, refl, Option, none, some, [], ◌∷◌, get, put, Value, obj, end, arith,
}
use nora_fleet.Messages.Json.{strip_text, lstrip, rstrip}
use nora_fleet.Reservations.{AgentReservation, get_reservation_id, has_char}
use nora_fleet.LocalStorage.{
  Files, path_for, dictionary, write_one_reservation, add_reservations, get_one_reservation,
  expire_reservations,
}
use nora_fleet.LocalStorage.Written.{as_read, written, get_one_reservation_lem}
use nora_fleet.LocalStorage.Swept.{expire_reservations_unseen}

abbrev reserved : AgentReservation
reserved = record {
  id = "1f";
  prefix = "trip-";
  lifetime_in_seconds = 5;
  expiration_time_in_seconds = 9;
}

abbrev filed : Files
filed = ("trip-1f", some (written 4 reserved [])) ∷ []

abbrev show : Value → String
show v = "None"

abbrev build : Value → String → Option String
build v name = some name

add_reservations-runs : add_reservations 4 ((reserved, obj end) ∷ []) [] ≡ some filed
unfolding add_reservations write_one_reservation path_for strip_text lstrip rstrip has_char
    dictionary get_reservation_id put
add_reservations-runs = refl

get_one_reservation_lem_example :
    get_one_reservation show build 7 (get_reservation_id reserved) filed
    ≡ some (as_read reserved, get_reservation_id reserved)
get_one_reservation_lem_example =
    get_one_reservation_lem show build 4 7 [] [] reserved end (get_reservation_id reserved) [] filed
      tt add_reservations-runs refl (omega arith)

expire_reservations_unseen_example :
    get_one_reservation show build 8 "trip-1f" (expire_reservations (λ s. none) 7 filed)
    ≡ get_one_reservation show build 8 "trip-1f" filed
unfolding get
expire_reservations_unseen_example =
    expire_reservations_unseen (λ s. none) show build 7 8 "trip-1f" filed (refl, tt) (omega arith)
