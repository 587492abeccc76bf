-- ===== src/Guard.antt =====
-- `GuardedPayment` of runcycles_ap2/guard.py. A method takes the state, the guard and the world that
-- it acts on, and gives its result and the state after it, also where it raises. Logging is left out.
pub mod State
mod Settling
pub mod Exit
pub mod With
pub mod Reserve
pub mod Evolves
pub mod Admits
pub mod Entry
pub mod Denied
use cycles_ap2_python.Base.{
  ℕ, String, ◌<>◌, ◌===◌, Bool, true, false, ◌||◌, Option, none, some, take, truthy, if◌then◌else◌,
}
use cycles_ap2_python.Base.Int.{pos, show_int}
use cycles_ap2_python.Base.Dict
use cycles_ap2_python.Base.Dict.{Dict}
use cycles_ap2_python.Value.{Value, int, str}
use cycles_ap2_python.Builtins.{Builtins}
use cycles_ap2_python.Errors.{
  Kind, cancelled, ordinary, other_base, Exc, Raised, guard_denied, dry_run_result,
  commit_uncertain, commit_failed, foreign, exception_name, Result, ok, err,
}
use cycles_ap2_python.Validation.{validate_micros}
use cycles_ap2_python.Mandate.{Mandate, amount_micros}
use cycles_ap2_python.Mapping.{
  build_reservation_body, build_commit_body, build_release_body, build_receipt_policy_keys,
}
use cycles_ap2_python.Mapping.Bodies.{ReservationBody, CommitBody}
use cycles_ap2_python.Receipt.{build_runtime_authority_receipt}
use cycles_ap2_python.Client.{
  Client, World, call, create_reservation, commit_reservation, release_reservation, Response, Reply,
  raised, returned, CreateResult,
}
unfoldable pub use Settling.*
use State.{Guard, St, with_guard, with_world}

-- `error.error_code.value if (error and error.error_code) else None`
abbrev pub code_of : Response → Option String
code_of r = elim r.error [ none ↦ none | some e ↦ e.error_code ]

abbrev pub request_of : Response → Option String
request_of r = elim r.error [ none ↦ none | some e ↦ e.request_id ]

-- `s or default`
abbrev pub text_or : Option String → String → String
text_or o default = elim (truthy o) [ none ↦ default | some s ↦ s ]

-- An `Option` in an f-string.
abbrev pub shown : Option String → String
shown none = "None"
shown (some s) = s

abbrev pub describe : Exc → String
describe e = e.class_name <> ": " <> e.text

-- `error_code in ("RESERVATION_FINALIZED", "RESERVATION_EXPIRED", "IDEMPOTENCY_MISMATCH")`
unfoldable pub is_terminal : Option String → Bool
is_terminal none = false
is_terminal (some c) =
    c === "RESERVATION_FINALIZED" || c === "RESERVATION_EXPIRED" || c === "IDEMPOTENCY_MISMATCH"

-- Setters: the amount is validated first, and stays as it was if that raises.
module _ {W : Type 0} where
  unfoldable pub set_amount : Result ℕ → St W → Result (Unit {0}) × St W
  set_amount (err e) s = (err e, s)
  set_amount (ok n) s = (ok tt, with_guard s (record s.guard { actual_micros = some n }))

  unfoldable pub set_actual_micros : Builtins → Value → St W → Result (Unit {0}) × St W
  unfolding set_amount
  set_actual_micros b v s = set_amount (validate_micros b v "actual amount") s

  unfoldable pub attach_receipt_fields : Dict Value → St W → St W
  unfolding Dict.update
  attach_receipt_fields fields s =
      with_guard s (record s.guard { commit_metadata = Dict.update s.guard.commit_metadata fields })

  unfoldable pub abort : String → St W → St W
  abort reason s = with_guard s (record s.guard { aborted_reason = some (take 256 reason) })

-- `__enter__` from the parsed response on: by `is_denied()`, `dry_run` and the reservation's id.
unfoldable pub conclude :
    {W : Type 0} → CreateResult → Bool → Bool → Option String → St W → Result (Unit {0}) × St W
conclude r true dry_run id s = (
  err (
      guard_denied (record {
        message =
            "AP2 reservation denied for transaction "
            <> s.guard.mandate.transaction_id
            <> ": "
            <> text_or r.reason_code "no reason";
        reason_code = r.reason_code;
        request_id = none;
      })),
  s,
)
conclude r false true id s = (
  err (
      dry_run_result (record {
        message =
            "AP2 dry-run decision=" <> r.decision <> " for transaction "
            <> s.guard.mandate.transaction_id;
        decision = r.decision;
        reason_code = r.reason_code;
        caps = r.caps;
        balances = r.balances;
        affected_scopes = r.affected_scopes;
      })),
  s,
)
conclude r false false none s = (
  err (
      guard_denied (record {
        message = "AP2 reservation allowed but server returned no reservation_id";
        reason_code = r.reason_code;
        request_id = none;
      })),
  s,
)
conclude r false false (some id) s =
    (ok tt, with_guard s (record s.guard { reservation_id = some id }))

-- What `_handle_release` makes of the reply. Only a subclass of `Exception` is caught.
unfoldable pub released : Reply → Result (Bool × Option String)
released (raised e) = elim e.kind [
  | ordinary ↦ ok (false, some (describe e))
  | cancelled ↦ err (foreign e)
  | other_base ↦ err (foreign e)
]
released (returned r) =
    if r.is_success
    then ok (true, none)
    else ok (
      false,
      some (elim (truthy (code_of r)) [
        | none ↦ "status=" <> show_int r.status
        | some c ↦ "status=" <> show_int r.status <> ", code=" <> c
      ]),
    )

module _ {W : Type 0} (client : Client W) (b : Builtins) where
  unfoldable pub parsed : Result CreateResult → St W → Result (Unit {0}) × St W
  unfolding conclude
  parsed (err e) s = (err e, s)
  parsed (ok r) s =
      conclude r r.denied s.guard.context.dry_run r.reservation_id
        (with_guard s (record s.guard { decision = some r.decision }))

  -- A response, by `is_success`.
  unfoldable pub responded : Bool → Response → St W → Result (Unit {0}) × St W
  unfolding parsed
  responded true r s = parsed (client.model_validate r.body) s
  responded false r s = (
    err (
        guard_denied (record {
          message = "AP2 reservation failed for transaction " <> s.guard.mandate.transaction_id;
          reason_code = elim r.error [ none ↦ none | some e ↦ e.error ];
          request_id = request_of r;
        })),
    s,
  )

  unfoldable pub opened : Reply → St W → Result (Unit {0}) × St W
  unfolding responded
  opened (raised e) s = (err (foreign e), s)
  opened (returned r) s = responded r.is_success r s

  unfoldable pub reserve : Result ReservationBody → St W → Result (Unit {0}) × St W
  unfolding opened call
  reserve (err e) s = (err e, s)
  reserve (ok body) s =
      let (reply, w) = call client (create_reservation body) s.world in
      opened reply (with_world s w)

  -- `__enter__`
  unfoldable pub enter : St W → Result (Unit {0}) × St W
  unfolding reserve
  enter s = reserve (build_reservation_body b s.guard.mandate s.guard.context) s

  -- `_handle_release`, of the reservation `id`
  unfoldable pub release : String → String → String → St W → Result (Bool × Option String) × St W
  unfolding released call
  release id reason exc_name s =
      let body = build_release_body s.guard.mandate reason (some exc_name) in
      let (reply, w) = call client (release_reservation id body) s.world in
      (released reply, with_world s w)

  unfoldable pub release_of :
      Option String → String → String → St W → Result (Bool × Option String) × St W
  unfolding release
  release_of none reason exc_name s = (err (foreign assertion_error), s)
  release_of (some id) reason exc_name s = release id reason exc_name s

  unfoldable pub handle_release : String → String → St W → Result (Bool × Option String) × St W
  unfolding release_of
  handle_release reason exc_name s = release_of s.guard.reservation_id reason exc_name s
