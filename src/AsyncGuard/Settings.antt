-- ===== src/AsyncGuard/Settings.antt =====
-- The constructor and the setters of `AsyncGuardedPayment` (runcycles_ap2/guard.py), and a body.
use cycles_ap2_python.Base.{List, [], ◌∷◌, ◌++◌, ℕ, String, Bool, false, Option, none, some, take}
use cycles_ap2_python.Base.Dict
use cycles_ap2_python.Base.Dict.{Dict}
use cycles_ap2_python.Value.{Value}
use cycles_ap2_python.Builtins.{Builtins}
use cycles_ap2_python.Errors.{Raised, Result, ok, err}
use cycles_ap2_python.Validation.{validate_micros}
use cycles_ap2_python.Mandate.{Mandate}
use cycles_ap2_python.Guard.State.{Guard, St, with_guard, with_world}
use cycles_ap2_python.Guard.With.{Action, set_actual, attach, give_up, pay, throw, outcome}
use cycles_ap2_python.Client.{charge}
use cycles_ap2_python.Mapping.Bodies.{Context}

-- `AsyncGuardedPayment.__init__`, which `cycles_guard_payment_async` calls with the same arguments
unfoldable pub new_async_guard : Mandate → Context → Bool → Guard
new_async_guard mandate context emit_receipt = record {
  mandate = mandate;
  context = context;
  emit_receipt = emit_receipt;
  reservation_id = none;
  decision = none;
  actual_micros = none;
  commit_metadata = [];
  receipt = none;
  committed = false;
  aborted_reason = none;
}

module _ {W : Type 0} where
  unfoldable pub aset_amount : Result ℕ → St W → Result (Unit {0}) × St W
  aset_amount (err e) s = (err e, s)
  aset_amount (ok n) s = (ok tt, with_guard s (record s.guard { actual_micros = some n }))

  unfoldable pub aset_actual_micros : Builtins → Value → St W → Result (Unit {0}) × St W
  unfolding aset_amount
  aset_actual_micros b v s = aset_amount (validate_micros b v "actual amount") s

  unfoldable pub aattach_receipt_fields : Dict Value → St W → St W
  unfolding Dict.update
  aattach_receipt_fields fields s =
      with_guard s (record s.guard { commit_metadata = Dict.update s.guard.commit_metadata fields })

  unfoldable pub aabort : String → St W → St W
  aabort reason s = with_guard s (record s.guard { aborted_reason = some (take 256 reason) })

-- The body of an `async with`.
module _ {W : Type 0} (b : Builtins) where
  -- One action: the exception that it raises, if any, and the state after it.
  unfoldable pub aact : Action → St W → Option Raised × St W
  unfolding aset_actual_micros aattach_receipt_fields aabort outcome
  aact (set_actual v) s = let (r, s') = aset_actual_micros b v s in (outcome r, s')
  aact (attach fields) s = (none, aattach_receipt_fields fields s)
  aact (give_up reason) s = (none, aabort reason s)
  aact pay s =
      (none, with_world s (record { server = s.world.server; log = s.world.log ++ (charge ∷ []) }))
  aact (throw e) s = (some e, s)

  -- The actions in order, up to the first that raises.
  unfoldable pub arun_body : List Action → St W → Option Raised × St W
  unfolding aact
  arun_body [] s = (none, s)
  arun_body (a ∷ rest) s =
      let (e, s') = aact a s in elim e [ some x ↦ (some x, s') | none ↦ arun_body rest s' ]
