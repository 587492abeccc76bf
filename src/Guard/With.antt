-- ===== src/Guard/With.antt =====
-- `with cycles_guard_payment(…) as guard: …`: Python's protocol for the two methods, over the
-- calls and the payments that the body makes.
pub mod Body
pub mod Lifecycle
pub mod Protocol
pub mod DryRun
pub mod Progress
use cycles_ap2_python.Base.{String, Bool, Option, none, some, List, [], ◌∷◌, ◌++◌}
use cycles_ap2_python.Base.Dict.{Dict}
use cycles_ap2_python.Value.{Value}
use cycles_ap2_python.Builtins.{Builtins}
use cycles_ap2_python.Errors.{Raised, Result, ok, err}
use cycles_ap2_python.Mandate.{Mandate}
use cycles_ap2_python.Mapping.Bodies.{Context}
use cycles_ap2_python.Client.{Client, World, Event, charge}
use cycles_ap2_python.Guard.State.{Guard, St, new_guard, with_world}
use cycles_ap2_python.Guard.{enter, set_actual_micros, attach_receipt_fields, abort}
use cycles_ap2_python.Guard.Exit.{exit}

-- What a body does with its guard, and the payment that it makes meanwhile.
pub data Action : Type 0 where
  set_actual : Value → Action
  attach : Dict Value → Action
  give_up : String → Action
  pay : Action
  throw : Raised → Action

unfoldable pub outcome : Result (Unit {0}) → Option Raised
outcome (ok _) = none
outcome (err e) = some e

module _ {W : Type 0} (b : Builtins) where
  -- One action: the exception that it raises, if any, and the state after it.
  unfoldable pub act : Action → St W → Option Raised × St W
  unfolding set_actual_micros attach_receipt_fields abort outcome
  act (set_actual v) s = let (r, s') = set_actual_micros b v s in (outcome r, s')
  act (attach fields) s = (none, attach_receipt_fields fields s)
  act (give_up reason) s = (none, abort reason s)
  act pay s =
      (none, with_world s (record { server = s.world.server; log = s.world.log ++ (charge ∷ []) }))
  act (throw e) s = (some e, s)

  -- The actions in order, up to the first that raises.
  unfoldable pub run_body : List Action → St W → Option Raised × St W
  unfolding act
  run_body [] s = (none, s)
  run_body (a ∷ rest) s =
      let (e, s') = act a s in elim e [ some x ↦ (some x, s') | none ↦ run_body rest s' ]

module _ {W : Type 0} (client : Client W) (b : Builtins) where
  -- The exception of the body goes on after `__exit__`, which returns None; one that `__exit__`
  -- raises takes its place.
  unfoldable pub after_exit : Option Raised → Result (Unit {0}) × St W → Result (Unit {0}) × St W
  after_exit e (err x, s) = (err x, s)
  after_exit none (ok _, s) = (ok tt, s)
  after_exit (some x) (ok _, s) = (err x, s)

  unfoldable pub leave : Option Raised × St W → Result (Unit {0}) × St W
  unfolding after_exit exit
  leave (e, s) = after_exit e (exit client b e s)

  unfoldable pub entered : List Action → Result (Unit {0}) × St W → Result (Unit {0}) × St W
  unfolding leave run_body
  entered body (err e, s) = (err e, s)
  entered body (ok _, s) = leave (run_body b body s)

  unfoldable pub run_with :
      Mandate → Context → Bool → List Action → World W → Result (Unit {0}) × St W
  unfolding entered enter new_guard
  run_with mandate context emit_receipt body w =
      entered body
        (enter client b (record { guard = new_guard mandate context emit_receipt; world = w }))
