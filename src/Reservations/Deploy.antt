-- ===== src/Reservations/Deploy.antt =====
-- When `deploy` of the accumulating reservationist succeeds.
use nora_fleet.Common.{
  ℕ, String, ◌≡◌, refl, ◌↔◌, Bool, true, Option, some, List, [], ◌∷◌, ◌++◌, Dict, put, put-ne_nil,
  All, is_empty, arith, Value,
}
use nora_fleet.Reservations.{
  AgentReservation, Accumulating, Deployment, Result, ok, raises, event, validate_id,
  get_reservation_id, NetworkValidator, gather_errors, finish_deploy, deploy, ◌>>=◌,
}

gathered :
    (a : Accumulating) (d : Deployment) (confirmation : Bool) (fresh : ℕ)
    {result : Option ℕ × Accumulating} (g : Result (Dict (List String)))
    → (g >>= finish_deploy a d confirmation fresh) ≡ ok result
    → g ≡ ok []
unfolding finish_deploy
gathered a d confirmation fresh (ok []) e = refl
gathered a d confirmation fresh (ok (x ∷ xs)) e = cc
gathered a d confirmation fresh (raises x) e = cc

module _ (validate_network : NetworkValidator) (a : Accumulating) where
  -- An entry has a valid id and a network without errors.
  abbrev pub Accepts : AgentReservation × Value → Type 0
  Accepts (r, spec) =
      (validate_id (some (get_reservation_id r)) ≡ ok tt)
      × (is_empty (validate_network a.external_networks a.mcp_servers (get_reservation_id r) spec)
          ≡ true)

  gather_errors_ok :
      (d : Deployment) → All Accepts d → gather_errors validate_network a d [] ≡ ok []
  unfolding gather_errors
  gather_errors_ok [] h = refl
  gather_errors_ok ((r, spec) ∷ rest) h = rw (h.0.0, h.0.1) (gather_errors_ok rest h.1)

  -- What was gathered stays.
  gather_errors_nil :
      (d : Deployment) (errors : Dict (List String))
      → gather_errors validate_network a d errors ≡ ok []
      → All Accepts d × (errors ≡ [])
  unfolding gather_errors
  gather_errors_nil [] errors e = (tt, ground arith)
  gather_errors_nil ((r, spec) ∷ rest) errors e = ground (
    arith,
    gather_errors_nil rest errors,
    gather_errors_nil rest (
        put (get_reservation_id r)
          (validate_network a.external_networks a.mcp_servers (get_reservation_id r) spec) errors),
    put-ne_nil (get_reservation_id r)
        (validate_network a.external_networks a.mcp_servers (get_reservation_id r) spec) errors,
  )

  -- A confirmed deployment goes through exactly if every entry has a valid id and a network without
  -- errors. It is then added to the accumulated ones under the new event, and nothing else changes.
  pub deploy_confirmed :
      (entry : AgentReservation × Value) (rest : Deployment) (fresh : ℕ)
      → (deploy validate_network a (entry ∷ rest) true fresh
          ≡ ok (
            some fresh,
            record a { deployments = a.deployments ++ (event fresh, entry ∷ rest) ∷ [] },
          ))
        ↔ All Accepts (entry ∷ rest)
  unfolding deploy finish_deploy
  deploy_confirmed entry rest fresh = (
    λ e. (gather_errors_nil (entry ∷ rest) [] (gathered a (entry ∷ rest) true fresh _ e)).0,
    λ h. rw (gather_errors_ok (entry ∷ rest) h),
  )
