-- ===== src/Guard/Denied.antt =====
-- What `__enter__` of runcycles_ap2/guard.py does with a denial, in a real run and in a dry one.
use cycles_ap2_python.Base.{true, ◌≡◌, refl}
use cycles_ap2_python.Builtins.{Builtins}
use cycles_ap2_python.Errors.{GuardDenied, guard_denied, Result, ok, err}
use cycles_ap2_python.Mapping.{build_reservation_body}
use cycles_ap2_python.Mapping.Bodies.{ReservationBody}
use cycles_ap2_python.Client.{Client, create_reservation, call, returned, Response, CreateResult}
use cycles_ap2_python.Guard.State.{St}
use cycles_ap2_python.Guard.{conclude, parsed, responded, opened, reserve, enter}

-- The body can be built, and its call is answered with a success that can be read and denies.
pub record Denies {W : Type 0} (client : Client W) (b : Builtins) (s : St W) : Type 0 where
  pub body : ReservationBody
  pub response : Response
  pub result : CreateResult
  pub built : build_reservation_body b s.guard.mandate s.guard.context ≡ ok body
  pub replied : (client.send s.world.server (create_reservation body)).0 ≡ returned response
  pub success : response.is_success ≡ true
  pub valid : client.model_validate response.body ≡ ok result
  pub denied : result.denied ≡ true

-- An AP2GuardDenied with the reason code of the server.
pub record Denied (r : CreateResult) (o : Result (Unit {0})) : Type 0 where
  pub denial : GuardDenied
  pub raised : o ≡ err (guard_denied denial)
  pub reason_code : denial.reason_code ≡ r.reason_code

pub enter-Denied :
    {W : Type 0} (client : Client W) (b : Builtins) (s : St W) (d : Denies client b s)
    → Denied d.result (enter client b s).0
unfolding enter reserve opened responded parsed conclude call
enter-Denied client b s d =
    rw
      (
        d.built, reserve, d.replied, opened, d.success, responded, d.valid, parsed, d.denied,
        conclude,
      )
      (record { denial = _; raised = refl; reason_code = refl })
