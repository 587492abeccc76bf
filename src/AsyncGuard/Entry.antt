-- ===== src/AsyncGuard/Entry.antt =====
-- `__aenter__` of `AsyncGuardedPayment` (runcycles_ap2/guard.py).
use cycles_ap2_python.Base.{String, ◌<>◌, Bool, true, false, Option, none, some}
use cycles_ap2_python.Builtins.{Builtins}
use cycles_ap2_python.Errors.{guard_denied, dry_run_result, foreign, Result, ok, err}
use cycles_ap2_python.Mapping.{build_reservation_body}
use cycles_ap2_python.Mapping.Bodies.{ReservationBody}
use cycles_ap2_python.Client.{
  Client, call, create_reservation, Response, Reply, raised, returned, CreateResult,
}
use cycles_ap2_python.Guard.State.{St, with_guard, with_world}
use cycles_ap2_python.Guard.{text_or, request_of}

unfoldable pub aconclude :
    {W : Type 0} → CreateResult → Bool → Bool → Option String → St W → Result (Unit {0}) × St W
aconclude r true dry_run id s = (
  err (
      guard_denied (record {
        message =
            "AP2 reservation denied for transaction "
            <> s.guard.mandate.transaction_id
            <> ": "
            <> text_or r.reason_code "no reason";
        reason_code = r.reason_code;
        request_id = none;
      })),
  s,
)
aconclude r false true id s = (
  err (
      dry_run_result (record {
        message =
            "AP2 dry-run decision=" <> r.decision <> " for transaction "
            <> s.guard.mandate.transaction_id;
        decision = r.decision;
        reason_code = r.reason_code;
        caps = r.caps;
        balances = r.balances;
        affected_scopes = r.affected_scopes;
      })),
  s,
)
aconclude r false false none s = (
  err (
      guard_denied (record {
        message = "AP2 reservation allowed but server returned no reservation_id";
        reason_code = r.reason_code;
        request_id = none;
      })),
  s,
)
aconclude r false false (some id) s =
    (ok tt, with_guard s (record s.guard { reservation_id = some id }))

module _ {W : Type 0} (client : Client W) (b : Builtins) where
  unfoldable pub aparsed : Result CreateResult → St W → Result (Unit {0}) × St W
  unfolding aconclude
  aparsed (err e) s = (err e, s)
  aparsed (ok r) s =
      aconclude r r.denied s.guard.context.dry_run r.reservation_id
        (with_guard s (record s.guard { decision = some r.decision }))

  -- A response, by `is_success`.
  unfoldable pub aresponded : Bool → Response → St W → Result (Unit {0}) × St W
  unfolding aparsed
  aresponded true r s = aparsed (client.model_validate r.body) s
  aresponded false r s = (
    err (
        guard_denied (record {
          message = "AP2 reservation failed for transaction " <> s.guard.mandate.transaction_id;
          reason_code = elim r.error [ none ↦ none | some e ↦ e.error ];
          request_id = request_of r;
        })),
    s,
  )

  unfoldable pub aopened : Reply → St W → Result (Unit {0}) × St W
  unfolding aresponded
  aopened (raised e) s = (err (foreign e), s)
  aopened (returned r) s = aresponded r.is_success r s

  unfoldable pub areserve : Result ReservationBody → St W → Result (Unit {0}) × St W
  unfolding aopened call
  areserve (err e) s = (err e, s)
  areserve (ok body) s =
      let (reply, w) = call client (create_reservation body) s.world in
      aopened reply (with_world s w)

  -- `__aenter__`
  unfoldable pub aenter : St W → Result (Unit {0}) × St W
  unfolding areserve
  aenter s = areserve (build_reservation_body b s.guard.mandate s.guard.context) s
