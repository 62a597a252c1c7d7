-- ===== src/Reservations/Lifetimes.antt =====
-- Expiration times of reservations that are deployed together.
use nora_fleet.Common.{
  ℕ, ◌+◌, ◌≤◌, min, String, ◌≡◌, refl, ap, Option, [], ◌∷◌, map, All, arith, Value,
}
use nora_fleet.Reservations.{
  AgentReservation, Deployment, get_reservation_id, reserve, expire_together, set_expiration_from,
}

abbrev pub named : AgentReservation × Value → String × Value
named (r, spec) = (get_reservation_id r, spec)

-- Deployed together at one time, each reservation expires after its own lifetime or after the
-- longest that is allowed, whichever is less; the ids and the specs stay as they are.
pub expire_together_lem :
    (now longest : ℕ) (d : Deployment)
    → All
        (λ e.
          (now ≤ e.0.expiration_time_in_seconds)
          × (e.0.expiration_time_in_seconds ≤ now + longest)
          × (e.0.expiration_time_in_seconds ≤ now + e.0.lifetime_in_seconds))
        (expire_together now longest d)
      × (map named (expire_together now longest d) ≡ map named d)
unfolding expire_together get_reservation_id
expire_together_lem now longest [] = (tt, refl)
expire_together_lem now longest ((r, spec) ∷ rest) =
    let (bounds, same) = expire_together_lem now longest rest in
    ((omega arith, bounds), ap (λ l. (get_reservation_id r, spec) ∷ l) same)

-- A reservation that is made under one limit and deployed under another expires within both limits
-- and within the lifetime that was asked for.
pub reserve-expires :
    (limit longest lifetime now : ℕ) (prefix : Option String) (uuid : String)
    → let r = set_expiration_from now longest (reserve limit lifetime prefix uuid) in
      r.expiration_time_in_seconds ≡ now + min (min lifetime limit) longest
unfolding reserve set_expiration_from
reserve-expires limit longest lifetime now prefix uuid = refl
