-- ===== src/Guard/Evolves/Runs.antt =====
-- How the body of a `with` and the `with` itself move the world.
use cycles_ap2_python.Base.{ℕ, String, Bool, true, false, Option, none, some, List, [], ◌∷◌, refl}
use cycles_ap2_python.Builtins.{Builtins}
use cycles_ap2_python.Errors.{Raised, Result, ok, err}
use cycles_ap2_python.Mapping.Bodies.{ReservationBody}
use cycles_ap2_python.Client.{
  Client, call, create_reservation, Reply, raised, returned, Response, CreateResult,
}
use cycles_ap2_python.ConsumeOnce.{Later, now, called, paid, Later-trans}
use cycles_ap2_python.Guard.State.{St, with_guard, with_world}
use cycles_ap2_python.Guard.{
  set_amount, set_actual_micros, attach_receipt_fields, abort, conclude, parsed, responded, opened,
  reserve, enter,
}
use cycles_ap2_python.Guard.With.{Action, set_actual, pay, act, run_body, after_exit, leave}
use cycles_ap2_python.Guard.Evolves.{Evolves, Evolves-refl, Evolves-trans, exit-Evolves}

module _ {W : Type 0} (client : Client W) where
  set_amount-Evolves : (r : Result ℕ) (s : St W) → Evolves client s (set_amount r s).1
  unfolding set_amount
  set_amount-Evolves (err e) s = Evolves-refl client s
  set_amount-Evolves (ok n) s = record {
    mandate = refl;
    context = refl;
    reservation_id = refl;
    later = now;
  }

  pub act-Evolves : (b : Builtins) (a : Action) (s : St W) → Evolves client s (act b a s).1
  unfolding act set_actual_micros attach_receipt_fields abort
  act-Evolves b (set_actual v) s = set_amount-Evolves _ s
  act-Evolves b pay s = record {
    mandate = refl;
    context = refl;
    reservation_id = refl;
    later = paid now;
  }
  act-Evolves b _ s = record { mandate = refl; context = refl; reservation_id = refl; later = now }

  -- The body of a `with` moves the world by payments, and leaves the guard its reservation.
  pub run_body-Evolves :
      (b : Builtins) (body : List Action) (s : St W) → Evolves client s (run_body b body s).1
  unfolding run_body
  run_body-Evolves b [] s = Evolves-refl client s
  run_body-Evolves b (a ∷ rest) s =
      let t = (act b a s).1 in
      elim (act b a s).0
        as (λ o.
          Evolves client s
            (elim o as (λ x. Option Raised × St W) [
              | none ↦ run_body b rest t
              | some x ↦ (some x, t)
            ]).1) [
              | none ↦ Evolves-trans client s t _ (act-Evolves b a s) (run_body-Evolves b rest t)
              | some x ↦ act-Evolves b a s
            ]

  module _ (b : Builtins) where
    -- `__enter__` only calls.
    conclude-now :
        (r : CreateResult) (denied dry : Bool) (o : Option String) (s : St W)
        → Later client s.world (conclude r denied dry o s).1.world
    unfolding conclude
    conclude-now r true dry o s = now
    conclude-now r false true o s = now
    conclude-now r false false none s = now
    conclude-now r false false (some id) s = now

    parsed-now :
        (p : Result CreateResult) (s : St W) → Later client s.world (parsed client b p s).1.world
    unfolding parsed
    parsed-now (err e) s = now
    parsed-now (ok r) s =
        conclude-now r r.denied s.guard.context.dry_run r.reservation_id
          (with_guard s (record s.guard { decision = some r.decision }))

    responded-now :
        (success : Bool) (r : Response) (s : St W)
        → Later client s.world (responded client b success r s).1.world
    unfolding responded
    responded-now true r s = parsed-now (client.model_validate r.body) s
    responded-now false r s = now

    opened-now : (reply : Reply) (s : St W) → Later client s.world (opened client b reply s).1.world
    unfolding opened
    opened-now (raised e) s = now
    opened-now (returned r) s = responded-now r.is_success r s

    reserve-now :
        (r : Result ReservationBody) (s : St W)
        → Later client s.world (reserve client b r s).1.world
    unfolding reserve
    reserve-now (err e) s = now
    reserve-now (ok body) s =
        let (reply, w) = call client (create_reservation body) s.world in
        Later-trans (called (create_reservation body) now) (opened-now reply (with_world s w))

    pub enter-Later : (s : St W) → Later client s.world (enter client b s).1.world
    unfolding enter
    enter-Later s = reserve-now _ s

    after_exit-Evolves :
        (s : St W) (e : Option Raised) (o : Result (Unit {0}) × St W)
        → Evolves client s o.1
        → Evolves client s (after_exit client b e o).1
    unfolding after_exit
    after_exit-Evolves s e (err x, t) h = h
    after_exit-Evolves s none (ok _, t) h = h
    after_exit-Evolves s (some x) (ok _, t) h = h

    -- From the end of the body to the end of the `with`.
    pub leave-Evolves : (e : Option Raised) (s : St W) → Evolves client s (leave client b (e, s)).1
    unfolding leave
    leave-Evolves e s = after_exit-Evolves s e _ (exit-Evolves client b e s)
