-- ===== src/ConsumeOnce.antt =====
-- The consume-once defence of README.md ("Deterministic idempotency keys"): what the server promises
-- for the keys that runcycles_ap2/mapping.py computes, and the worlds that guards and others come to.
pub mod Grants
pub mod Entries
pub mod Attempts
pub mod Fleet
use cycles_ap2_python.Base.{String, Bool, true, false, Option, some, List, [], ◌∷◌, ◌++◌, ◌≡◌, refl}
use cycles_ap2_python.Errors.{Result, ok}
use cycles_ap2_python.Mapping.Bodies.{ReservationBody}
use cycles_ap2_python.Client.{
  Client, World, Call, create_reservation, Event, charge, call, Reply, returned, Response,
  CreateResult,
}

module _ {W : Type 0} where
  -- What the server promises of a tenant's key: it keeps the reservation that it has granted for it,
  -- and a request to reserve that it allows, for a real run, is answered with that reservation.
  pub record Honours (client : Client W) : Type 0 where
    pub granted : W → Option String → String → Option String
    pub kept :
        (w : W) (c : Call) (tenant : Option String) (key id : String)
        → granted w tenant key ≡ some id
        → granted (client.send w c).1 tenant key ≡ some id
    pub answered :
        (w : W) (body : ReservationBody) (r : Response) (result : CreateResult) (id : String)
        → (client.send w (create_reservation body)).0 ≡ returned r
        → r.is_success ≡ true
        → client.model_validate r.body ≡ ok result
        → result.denied ≡ false
        → body.dry_run ≡ false
        → result.reservation_id ≡ some id
        → granted
            (client.send w (create_reservation body)).1
            body.subject.tenant
            body.idempotency_key
          ≡ some id

  -- The worlds after any calls and payments, of any guards and in any order.
  pub data Later (client : Client W) (w : World W) : World W → Type 0 where
    now : Later client w w
    called : {v : World W} (c : Call) → Later client w v → Later client w (call client c v).1
    paid :
        {v : World W}
        → Later client w v
        → Later client w (record { server = v.server; log = v.log ++ (charge ∷ []) })

  pub Later-trans :
      {client : Client W} {u v w : World W} → Later client u v → Later client v w → Later client u w
  Later-trans f now = f
  Later-trans f (called c g) = called c (Later-trans f g)
  Later-trans f (paid g) = paid (Later-trans f g)

  -- A reservation stays granted, whatever is called.
  pub Later-granted :
      {client : Client W} {v w : World W} (h : Honours client) (tenant : Option String)
      (key id : String)
      → Later client v w
      → h.granted v.server tenant key ≡ some id
      → h.granted w.server tenant key ≡ some id
  unfolding call
  Later-granted h tenant key id now g = g
  Later-granted h tenant key id (called {v} c l) g =
      h.kept v.server c tenant key id (Later-granted h tenant key id l g)
  Later-granted h tenant key id (paid l) g = Later-granted h tenant key id l g
