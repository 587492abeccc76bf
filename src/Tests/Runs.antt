-- ===== src/Tests/Runs.antt =====
-- The guard at concrete replies.
use cycles_ap2_python.Base.{◌≤◌, true, none, some, List, [], ◌∷◌, ◌++◌, ◌≡◌, refl}
use mathlib.Core.Option
use cycles_ap2_python.Base.Int.{pos}
use cycles_ap2_python.Value.{int}
use cycles_ap2_python.Errors.{foreign, exception_name}
use cycles_ap2_python.Mapping.Bodies.{CommitBody}
use cycles_ap2_python.Client.{Event, Reply}
use cycles_ap2_python.Guard.State.{St, new_guard}
use cycles_ap2_python.Guard.{enter}
use cycles_ap2_python.Guard.Entry.{Ends, enter-Ends}
use cycles_ap2_python.Guard.Exit.{exit}
use cycles_ap2_python.Guard.Exit.Settle.{verdict}
use cycles_ap2_python.Guard.Exit.Leave.{Backs, exit-Backs, exit-aborted, Commits, exit-Commits}
use cycles_ap2_python.Guard.With.{Action, set_actual, pay, run_with}
use cycles_ap2_python.Guard.With.Protocol.{
  Granted, KeepsTo, run_with-KeepsTo, run_with-once, creates, commits, releases,
}
use cycles_ap2_python.Guard.With.DryRun.{Probes, run_with-Probes}
use cycles_ap2_python.Guard.With.Lifecycle.{Lifecycle}
use cycles_ap2_python.Guard.With.Lifecycle.Runs.{run_with-Lifecycle}
use cycles_ap2_python.Tests.Fixtures.{builtins}
use cycles_ap2_python.Tests.Opened.{price, open_state-IsOpen}
use cycles_ap2_python.Tests.Payment.{
  mandate, context, connection_reset, success, http_error, client, world, open_guard, open_state,
}

abbrev script : List Reply
script = success ∷ success ∷ []

abbrev refusing : List Reply
refusing = http_error 409 "UNIT_MISMATCH" ∷ success ∷ []

abbrev actions : List Action
actions = set_actual (int (pos 19800000000)) ∷ pay ∷ []

run_with-Lifecycle_example :
    Lifecycle client builtins mandate context true actions
      (world script)
      verdict
      (run_with client builtins mandate context true actions (world script))
run_with-Lifecycle_example =
    run_with-Lifecycle client builtins mandate context true actions (world script)

exit-Commits_example :
    (body : CommitBody) × (body.actual.amount ≡ Option.get_or none 19900000000)
    × Commits (open_state script) body (exit client builtins none (open_state script))
exit-Commits_example =
    exit-Commits client builtins 19900000000 (open_state script) (open_state-IsOpen script) price tt
      refl

exit-Backs_example :
    Backs
      (open_state script)
      "ap2_guard_failed:ConnectionError"
      "ConnectionError"
      (exit client builtins (some (foreign connection_reset)) (open_state script))
unfolding exception_name
exit-Backs_example =
    exit-Backs client builtins (foreign connection_reset) (open_state script)
      (open_state-IsOpen script)

abbrev given_up : St (List Reply)
given_up = record {
  guard = record open_guard { aborted_reason = some "changed my mind" };
  world = world script;
}

exit-aborted_example :
    Backs given_up "ap2_guard_aborted:changed my mind" "Aborted"
      (exit client builtins none given_up)
exit-aborted_example =
    exit-aborted client builtins "changed my mind" given_up
      (record {
        id = "rsv_ap2_001";
        reserved = refl;
        decision = "ALLOW";
        decided = refl;
        amount = 19900000000;
        priced = price;
      })
      refl

abbrev fresh : St (List Reply)
fresh = record { guard = new_guard mandate context true; world = world script }

enter-Ends_example : Ends client builtins fresh (enter client builtins fresh)
enter-Ends_example = enter-Ends client builtins fresh

run_with-KeepsTo_example :
    KeepsTo
      (Granted client (world script))
      []
      (run_with client builtins mandate context true actions (world script)).1.world.log
run_with-KeepsTo_example =
    run_with-KeepsTo client builtins mandate context (world script) true actions

run_with-once_example :
    (events : List Event) × ((run_with client builtins mandate context true actions
        (world script)).1.world.log
      ≡ [] ++ events)
    × (creates events ≤ 1)
    × (commits events ≤ 1)
    × (releases events ≤ 1)
run_with-once_example = run_with-once client builtins mandate context (world script) true actions

run_with-Probes_example : Probes (world script) (
    run_with client builtins mandate
      (record context { dry_run = true })
      true
      actions
      (world script))
run_with-Probes_example =
    run_with-Probes builtins mandate (record context { dry_run = true }) (world script) client true
      actions refl
