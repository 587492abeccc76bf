-- ===== src/Examples/Probe.antt =====
-- The dry runs of examples/ap2_human_not_present.py and examples/ap2_human_not_present_async.py.
use mathlib.Core.Option
use cycles_ap2_python.Base.{
  String, Bool, true, Option, some, [], ◌∷◌, ◌++◌, List, ◌≡◌, refl, ◌⊎◌, inl, inr, subst, truthy,
}
use cycles_ap2_python.Builtins.{Builtins}
use cycles_ap2_python.Errors.{Exc, Raised, DryRunResult, dry_run_result, Result, ok, err}
use cycles_ap2_python.Mandate.{Mandate}
use cycles_ap2_python.Mandate.Exact.{err-injective}
use cycles_ap2_python.Mapping.Bodies.{Context, ReservationBody}
use cycles_ap2_python.Client.{Client, World, CreateResult, sent, create_reservation}
use cycles_ap2_python.Guard.State.{St, start, new_guard}
use cycles_ap2_python.Guard.{enter}
use cycles_ap2_python.Guard.Entry.{Ends, enter-Ends}
use cycles_ap2_python.Guard.Denied.{Denies, Denied, enter-Denied}
use cycles_ap2_python.Guard.With.{Action, throw, entered, run_with}
use cycles_ap2_python.Guard.With.DryRun.{Probes, Lifecycle-Probes, run_with-Probes}
use cycles_ap2_python.AsyncGuard.{aentered, run_async_with}
use cycles_ap2_python.AsyncGuard.Mirror.{new_async_guard-new_guard, aenter-enter}
use cycles_ap2_python.AsyncGuard.Commit.{async_verdict}
use cycles_ap2_python.AsyncGuard.Lifecycle.{run_async_with-Lifecycle}
use cycles_ap2_python.Examples.Told.{Told, Foreign, Turns-Told}
use cycles_ap2_python.Examples.{
  Config, probe, Outcome, probed, run_dry_run, arun_dry_run, demo_context, must_not_execute, run_as,
  is_dry_run, config, demo_mandate, ademo_mandate, main, amain,
}

-- Nothing is paid, committed or released: at most one reservation was asked for. The function
-- returns after it has printed what the server has told of the mandate, or it raises and has printed
-- nothing.
pub record Asks {W : Type 0} (client : Client W) (b : Builtins) (made : Result Mandate)
    (run_id tenant : String) (w : World W) (o : Outcome W) : Type 0 where
  pub log :
      (o.world.log ≡ w.log)
      ⊎ ((body : ReservationBody) × (o.world.log ≡ w.log ++ (sent (create_reservation body) ∷ [])))
  pub ends :
      ((m : Mandate) × (decision : String) × (reason_code : Option String) × (made ≡ ok m)
        × Told client b (start m (demo_context run_id tenant true) true w) decision reason_code
        × (o.result ≡ ok tt)
        × (o.printed ≡ probe decision reason_code ∷ []))
      ⊎ ((e : Raised) × (o.result ≡ err e) × (o.printed ≡ []))

-- An `async with`, over the entry that both guards share.
run_async_with-aentered :
    {W : Type 0} (client : Client W) (b : Builtins) (m : Mandate) (c : Context) (emit : Bool)
    (body : List Action) (w : World W)
    → run_async_with client b m c emit body w
      ≡ aentered client b body (enter client b (start m c emit w))
unfolding run_async_with new_guard
run_async_with-aentered client b m c emit body w =
    rw (new_async_guard-new_guard m c emit, aenter-enter client b (start m c emit w)) refl

-- What a `with` raises whose body is not entered.
module _ {W : Type 0} (client : Client W) (b : Builtins) (m : Mandate) (run_id tenant : String)
    (w : World W) (plain : Foreign client) where
  abbrev s0 : St W
  s0 = start m (demo_context run_id tenant true) true w

  entered-Told :
      (body : List Action) (o : Result (Unit {0}) × St W) (d : DryRunResult)
      → Ends client b s0 o
      → (entered client b body o).0 ≡ err (dry_run_result d)
      → Told client b s0 d.decision d.reason_code
  unfolding entered new_guard
  entered-Told body (ok _, t) d a h = cc (a.real)
  entered-Told body (err e, t) d a h =
      Turns-Told client b s0 t e d plain a (err-injective e (dry_run_result d) h)

  aentered-Told :
      (body : List Action) (o : Result (Unit {0}) × St W) (d : DryRunResult)
      → Ends client b s0 o
      → (aentered client b body o).0 ≡ err (dry_run_result d)
      → Told client b s0 d.decision d.reason_code
  unfolding aentered new_guard
  aentered-Told body (ok _, t) d a h = cc (a.real)
  aentered-Told body (err e, t) d a h =
      Turns-Told client b s0 t e d plain a (err-injective e (dry_run_result d) h)

  probed-Asks :
      (o : Result (Unit {0}) × St W)
      → Probes w o
      → ((d : DryRunResult)
          → o.0 ≡ err (dry_run_result d)
          → Told client b s0 d.decision d.reason_code)
      → Asks client b (ok m) run_id tenant w (probed o)
  unfolding probed
  probed-Asks (ok _, s) p h = cc (p.result)
  probed-Asks (err (dry_run_result r), s) p h = record {
    log = p.log;
    ends = inl (m, r.decision, r.reason_code, refl, h r refl, refl, refl);
  }
  probed-Asks (err e, s) p h = record { log = p.log; ends = inr (e, refl, refl) }

module _ {W : Type 0} (client : Client W) (b : Builtins) (plain : Foreign client) where
  run_dry_run-Asks :
      (m : Mandate) (tenant : String) (w : World W)
      → Asks client b (ok m) "run_demo_001" tenant w (run_dry_run client b m tenant w)
  unfolding run_dry_run run_with
  run_dry_run-Asks m tenant w =
      let s = start m (demo_context "run_demo_001" tenant true) true w in
      let body = throw must_not_execute ∷ [] in
      probed-Asks client b m "run_demo_001" tenant w plain _
        (run_with-Probes b m (demo_context "run_demo_001" tenant true) w client true body refl)
        (λ d h.
          entered-Told client b m "run_demo_001" tenant w plain body (enter client b s) d
            (enter-Ends client b s) h)

  arun_dry_run-Asks :
      (m : Mandate) (tenant : String) (w : World W)
      → Asks client b (ok m) "run_demo_async_001" tenant w (arun_dry_run client b m tenant w)
  unfolding arun_dry_run
  arun_dry_run-Asks m tenant w =
      let s = start m (demo_context "run_demo_async_001" tenant true) true w in
      let body = throw must_not_execute ∷ [] in
      probed-Asks client b m "run_demo_async_001" tenant w plain _
        (Lifecycle-Probes client b m (demo_context "run_demo_async_001" tenant true) true body w
          async_verdict _ refl
          (run_async_with-Lifecycle client b m (demo_context "run_demo_async_001" tenant true) true
            body w))
        (λ d h.
          aentered-Told client b m "run_demo_async_001" tenant w plain body (enter client b s) d
            (enter-Ends client b s)
            (subst (λ o. o.0 ≡ err (dry_run_result d))
              (run_async_with-aentered client b m (demo_context "run_demo_async_001" tenant true)
                true body w)
              h))

-- What the example makes of a denial.
probed-Denied :
    {W : Type 0} (r : CreateResult) (o : Result (Unit {0}) × St W)
    → Denied r o.0
    → Denied r (probed o).result × ((probed o).printed ≡ [])
unfolding probed
probed-Denied r o d =
    rw d.raised (record { denial = d.denial; raised = refl; reason_code = d.reason_code }, refl)

entered-Denied :
    {W : Type 0} (client : Client W) (b : Builtins) (body : List Action) (r : CreateResult)
    (o : Result (Unit {0}) × St W)
    → Denied r o.0
    → Denied r (entered client b body o).0
unfolding entered
entered-Denied client b body r o d =
    rw d.raised (record { denial = d.denial; raised = refl; reason_code = d.reason_code })

-- Where the server answers the dry run of the example with a success that can be read and that
-- denies, run_dry_run prints nothing and raises AP2GuardDenied with the reason code of the server,
-- not AP2DryRunResult.
pub run_dry_run-Denied :
    {W : Type 0} (client : Client W) (b : Builtins) (m : Mandate) (tenant : String) (w : World W)
    (d : Denies client b (start m (demo_context "run_demo_001" tenant true) true w))
    → Denied d.result (run_dry_run client b m tenant w).result
      × ((run_dry_run client b m tenant w).printed ≡ [])
unfolding run_dry_run run_with
run_dry_run-Denied client b m tenant w d =
    let s = start m (demo_context "run_demo_001" tenant true) true w in
    probed-Denied d.result _ (
      entered-Denied client b (throw must_not_execute ∷ []) d.result (enter client b s)
        (enter-Denied client b s d))

run_as-Asks :
    {W : Type 0} (client : Client W) (b : Builtins) (run_id : String)
    (run : Mandate → String → World W → Outcome W)
    → ((m : Mandate) (tenant : String) (w : World W)
        → Asks client b (ok m) run_id tenant w (run m tenant w))
    → (r : Result Mandate) (tenant : String) (w : World W)
    → Asks client b r run_id tenant w (run_as run r tenant w)
unfolding run_as
run_as-Asks client b run_id run h (err e) tenant w = record {
  log = inl refl;
  ends = inr (e, refl, refl);
}
run_as-Asks client b run_id run h (ok m) tenant w = h m tenant w

module _ {W : Type 0} (environ : String → Option String) (tenant_of : Config → Option String)
    (connect : Config → Client W) (b : Builtins) where
  -- The tenant and the client of both examples.
  abbrev pub tenant_in : String
  tenant_in = Option.get_or (truthy (tenant_of (config environ))) "acme"

  abbrev pub client_in : Client W
  client_in = connect (config environ)

  -- Where DRY_RUN is 1, and the reading of a reply raises no AP2DryRunResult of its own, both
  -- examples, whatever the rest of the environment, the server, the network and an interruption of
  -- the task are, pay, commit and release nothing and ask for at most one reservation. Each
  -- returns after it has printed the decision and the reason code that the server's answer to the
  -- request for the mandate has, an answer that is read and is no denial; or it raises and has
  -- printed nothing.
  pub main-Asks :
      (w : World W) (interrupt : Option Exc)
      → environ "DRY_RUN" ≡ some "1"
      → Foreign client_in
      → Asks client_in b
          (demo_mandate b)
          "run_demo_001"
          tenant_in
          w
          (main environ tenant_of connect b w)
        × Asks client_in b
            (ademo_mandate b)
            "run_demo_async_001"
            tenant_in
            w
            (amain environ tenant_of connect b interrupt w)
  unfolding main amain is_dry_run config
  main-Asks w interrupt dry plain = (
    rw dry (
        run_as-Asks client_in b "run_demo_001" _ (run_dry_run-Asks client_in b plain)
          (demo_mandate b) _ w),
    rw dry (
        run_as-Asks client_in b "run_demo_async_001" _ (arun_dry_run-Asks client_in b plain)
          (ademo_mandate b) _ w),
  )
