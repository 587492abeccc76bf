-- ===== src/Tests/Progress.antt =====
-- A payment that goes through, at a server that keeps its promise.
use cycles_ap2_python.Base.{String, true, none, List, [], ◌∷◌, ◌≡◌, ◌↔◌, refl}
use cycles_ap2_python.Base.Int.{pos}
use cycles_ap2_python.Base.Dict.{Dict}
use cycles_ap2_python.Value.{int, null}
use cycles_ap2_python.Builtins.{upper}
use cycles_ap2_python.Errors.{ok}
use cycles_ap2_python.Decimal.{parse}
use cycles_ap2_python.Validation.{validate_micros}
use cycles_ap2_python.Mandate.{amount_micros}
use cycles_ap2_python.Mapping.{build_reservation_body, build_estimate}
use cycles_ap2_python.Client.{call}
use cycles_ap2_python.Guard.State.{St, new_guard}
use cycles_ap2_python.Guard.{
  enter, reserve, opened, responded, parsed, conclude, set_actual_micros, set_amount,
}
use cycles_ap2_python.Guard.Admits.{Admits, enter_iff}
use cycles_ap2_python.Guard.With.{Action, set_actual, pay, act, outcome, run_body, run_with}
use cycles_ap2_python.Guard.With.Progress.{Settles, Finishes, run_with-Finishes}
use cycles_ap2_python.Tests.Fixtures.{builtins}
use cycles_ap2_python.Tests.Opened.{price}
use cycles_ap2_python.Tests.Payment.{mandate, context}
use cycles_ap2_python.Tests.Ledger.{ledger, success_with}
use cycles_ap2_python.Tests.Once.{empty, first, first_enters}

-- Inside the `with`.
abbrev within : St (Dict String)
within = (enter ledger builtins first).1

enter_iff_example :
    (enter ledger builtins first ≡ (ok tt, within)) ↔ Admits ledger builtins first within
enter_iff_example = enter_iff ledger builtins first within

within-Admits : Admits ledger builtins first within
within-Admits = enter_iff_example.0 first_enters

abbrev actions : List Action
actions = set_actual (int (pos 19800000000)) ∷ pay ∷ []

-- After the body.
abbrev ready : St (Dict String)
ready = (run_body builtins actions within).1

body_returns : run_body builtins actions within ≡ (none, ready)
unfolding run_body act set_actual_micros set_amount validate_micros outcome
body_returns = refl

ready-Settles : Settles ledger ready
ready-Settles id body = (success_with null, refl, refl)

not_aborted : ready.guard.aborted_reason ≡ none
unfolding run_body act set_actual_micros set_amount validate_micros outcome enter reserve opened
    responded parsed conclude call build_reservation_body build_estimate amount_micros upper parse
    new_guard
not_aborted = refl

run_with-Finishes_example :
    Finishes 19900000000 ready (run_with ledger builtins mandate context true actions empty)
unfolding new_guard
run_with-Finishes_example =
    run_with-Finishes ledger builtins mandate context true actions empty within ready 19900000000
      within-Admits price body_returns not_aborted ready-Settles
