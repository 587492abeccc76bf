-- ===== src/Tests/Demo.antt =====
-- The examples at a server that keeps its promise.
use cycles_ap2_python.Base.{none, [], String, true, false, Option, some, ◌≡◌, refl}
use cycles_ap2_python.Base.Int.{pos}
use cycles_ap2_python.Base.Dict
use cycles_ap2_python.Base.Dict.{Dict}
use cycles_ap2_python.Value.{null, str}
use cycles_ap2_python.Builtins.{upper}
use cycles_ap2_python.Errors.{ok}
use cycles_ap2_python.Decimal.{parse}
use cycles_ap2_python.Mandate.{amount_micros}
use cycles_ap2_python.Mapping.{
  build_reservation_body, build_estimate, idempotency_key, build_subject, build_action, nonempty,
}
use cycles_ap2_python.Mapping.Bodies.{Context, ReservationBody}
use cycles_ap2_python.Client.{Client, CreateResult, returned, call}
use cycles_ap2_python.Guard.State.{St, start, new_guard}
use cycles_ap2_python.Guard.{enter, reserve, opened, responded, parsed, conclude}
use cycles_ap2_python.Guard.Denied.{Denies, Denied}
use cycles_ap2_python.Guard.Admits.{enter_iff}
use cycles_ap2_python.Examples.{
  run_dry_run, demo_context, run_real, arun_real, main, amain, demo_mandate, ademo_mandate,
}
use cycles_ap2_python.Examples.Told.{Foreign}
use cycles_ap2_python.Examples.Probe.{Asks, tenant_in, main-Asks, run_dry_run-Denied}
use cycles_ap2_python.Examples.Payment.{Pays, run_real-Pays, arun_real-Pays}
use cycles_ap2_python.Tests.Fixtures.{builtins}
use cycles_ap2_python.Tests.Opened.{price}
use cycles_ap2_python.Tests.Payment.{mandate}
use cycles_ap2_python.Tests.Ledger.{allowing, ledger, ledger-Calm, success_with}
use cycles_ap2_python.Tests.Once.{empty}

abbrev environ : String → Option String
environ name = some "1"

ledger-Foreign : Foreign ledger
ledger-Foreign (str id) d h = cc
ledger-Foreign _ d h = cc

abbrev tenant : String
tenant = tenant_in environ (λ c. some c.tenant) (λ c. ledger) builtins

main-Asks_example :
    Asks ledger builtins
      (demo_mandate builtins)
      "run_demo_001"
      tenant
      empty
      (main environ (λ c. some c.tenant) (λ c. ledger) builtins empty)
    × Asks ledger builtins
        (ademo_mandate builtins)
        "run_demo_async_001"
        tenant
        empty
        (amain environ (λ c. some c.tenant) (λ c. ledger) builtins none empty)
main-Asks_example =
    main-Asks environ (λ c. some c.tenant) (λ c. ledger) builtins empty none refl ledger-Foreign

abbrev begun : Context → St (Dict String)
begun c = start mandate c true empty

abbrev within : Context → St (Dict String)
within c = (enter ledger builtins (begun c)).1

abbrev real : Context
real = demo_context "run_demo_001" "acme" false

abbrev awaited : Context
awaited = demo_context "run_demo_async_001" "acme" false

real_enters : enter ledger builtins (begun real) ≡ (ok tt, within real)
unfolding enter reserve opened responded parsed conclude call build_reservation_body build_estimate
    amount_micros upper parse Dict.lookup new_guard
real_enters = refl

awaited_enters : enter ledger builtins (begun awaited) ≡ (ok tt, within awaited)
unfolding enter reserve opened responded parsed conclude call build_reservation_body build_estimate
    amount_micros upper parse Dict.lookup new_guard
awaited_enters = refl

run_real-Pays_example :
    Pays builtins mandate real 19900000000 empty
      (within real).guard.decision
      (run_real ledger builtins mandate "acme" empty)
run_real-Pays_example =
    run_real-Pays ledger builtins mandate empty "acme" (within real) 19900000000
      ((enter_iff ledger builtins (begun real) (within real)).0 real_enters) price
      (λ id body. (success_with null, refl, refl))

arun_real-Pays_example :
    Pays builtins mandate awaited 19900000000 empty
      (within awaited).guard.decision
      (arun_real ledger builtins none mandate "acme" empty)
arun_real-Pays_example =
    arun_real-Pays ledger builtins mandate empty ledger-Calm "acme" (within awaited) 19900000000
      ((enter_iff ledger builtins (begun awaited) (within awaited)).0 awaited_enters) price
      (λ id body. (success_with null, refl, refl))

-- A server that denies.
abbrev denying : CreateResult
denying = record (allowing "") {
  decision = "DENY";
  denied = true;
  reservation_id = none;
  reason_code = some "BUDGET_EXCEEDED";
}

abbrev refuser : Client (Dict String)
refuser = record ledger {
  send = λ w c. (returned (success_with null), w);
  model_validate = λ v. ok denying;
}

abbrev asked : St (Dict String)
asked = start mandate (demo_context "run_demo_001" "acme" true) true empty

abbrev asked_body : ReservationBody
asked_body = record {
  idempotency_key = idempotency_key mandate "reserve" none;
  subject = build_subject builtins mandate (demo_context "run_demo_001" "acme" true);
  action = build_action "payment.charge";
  estimate = record { unit = "USD_MICROCENTS"; amount = 19900000000 };
  ttl_ms = pos 60000;
  overage_policy = "REJECT";
  dry_run = true;
  metadata = none;
}

asked-Denies : Denies refuser builtins asked
unfolding build_reservation_body build_estimate amount_micros upper parse new_guard nonempty
asked-Denies = record {
  body = asked_body;
  response = success_with null;
  result = denying;
  built = refl;
  replied = refl;
  success = refl;
  valid = refl;
  denied = refl;
}

run_dry_run-Denied_example :
    Denied asked-Denies.result (run_dry_run refuser builtins mandate "acme" empty).result
    × ((run_dry_run refuser builtins mandate "acme" empty).printed ≡ [])
run_dry_run-Denied_example = run_dry_run-Denied refuser builtins mandate "acme" empty asked-Denies
