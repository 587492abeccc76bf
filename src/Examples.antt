-- ===== src/Examples.antt =====
-- examples/ap2_human_not_present.py and examples/ap2_human_not_present_async.py: a payment by an
-- agent, behind a guard. What is printed is kept as data. The environment, the configuration and
-- the client that is made of it are parameters; leaving the client's own `with` is not modelled.
pub mod Told
pub mod Probe
pub mod Payment
use cycles_ap2_python.Base.{
  ◌<>◌, ◌===◌, String, Bool, true, false, Option, none, some, List, [], ◌∷◌, ◌++◌, truthy,
  if◌then◌else◌,
}
use mathlib.Core.Option
use cycles_ap2_python.Base.Int.{pos}
use cycles_ap2_python.Constants.{default_action_kind, default_ttl_ms, default_overage_policy}
use cycles_ap2_python.Value.{str, null}
use cycles_ap2_python.Builtins.{Builtins}
use cycles_ap2_python.Errors.{ordinary, Exc, Raised, dry_run_result, foreign, Result, ok, err}
use cycles_ap2_python.Mandate.{Mandate, new_mandate}
use cycles_ap2_python.Mapping.Bodies.{Context}
use cycles_ap2_python.Receipt.{Receipt}
use cycles_ap2_python.Client.{Client, World}
use cycles_ap2_python.Guard.State.{Guard, St, new_guard}
use cycles_ap2_python.Guard.{enter}
use cycles_ap2_python.Guard.With.{Action, attach, pay, throw, run_body, leave, run_with}
use cycles_ap2_python.AsyncGuard.{aleave, run_async_with}
use cycles_ap2_python.AsyncGuard.Settings.{new_async_guard, arun_body}
use cycles_ap2_python.AsyncGuard.Entry.{aenter}

-- What the stub of the payment provider answers.
pub record Charge : Type 0 where
  pub id : String
  pub status : String

unfoldable pub fake_psp_charge : Mandate → Charge
fake_psp_charge m = record { id = "psp_" <> m.transaction_id; status = "captured" }

-- `await asyncio.sleep(0)` comes first: it may be interrupted, by a cancellation of the task, and
-- then raises.
unfoldable pub fake_psp_charge_async : Option Exc → Mandate → Result Charge
fake_psp_charge_async (some e) m = err (foreign e)
fake_psp_charge_async none m = ok (record { id = "psp_" <> m.transaction_id; status = "captured" })

-- A call of `print`: the result of a dry run, the state of the guard inside the `with`, or a receipt.
pub data Printed : Type 0 where
  probe : String → Option String → Printed
  entry : Option String → Option String → Printed
  receipt : Receipt → Printed

-- How a function of the examples ends.
pub record Outcome (W : Type 0) : Type 0 where
  pub result : Result (Unit {0})
  pub world : World W
  pub printed : List Printed

-- The keyword arguments of the examples, with the defaults of `cycles_guard_payment`.
abbrev pub demo_context : String → String → Bool → Context
demo_context run_id tenant dry_run = record {
  run_id = run_id;
  tenant = some tenant;
  workspace = none;
  app = none;
  workflow = some "ap2-human-not-present";
  agent = some "checkout-bot";
  toolset = none;
  action_kind = default_action_kind;
  ttl_ms = pos default_ttl_ms;
  overage_policy = default_overage_policy;
  dry_run = dry_run;
  metadata = none;
  extra_dimensions = none;
}

-- `raise AssertionError(…)` in the body of the dry run.
abbrev pub must_not_execute : Raised
must_not_execute = foreign (record {
  kind = ordinary;
  class_name = "AssertionError";
  text = "dry-run body must not execute";
})

-- The payment, and the reference of its charge for the receipt.
abbrev pub charging : Mandate → Charge → List Action
charging m psp = pay ∷ attach (("psp_ref", str psp.id) ∷ []) ∷ []

-- The body of the asynchronous example, behind the `await` of its charge.
unfoldable pub acharging : Mandate → Result Charge → List Action
acharging m (err e) = throw e ∷ []
acharging m (ok psp) = charging m psp

module _ {W : Type 0} where
  -- `except AP2DryRunResult as result: print(…)`
  unfoldable pub probed : Result (Unit {0}) × St W → Outcome W
  probed (ok _, s) = record { result = ok tt; world = s.world; printed = [] }
  probed (err (dry_run_result r), s) = record {
    result = ok tt;
    world = s.world;
    printed = probe r.decision r.reason_code ∷ [];
  }
  probed (err e, s) = record { result = err e; world = s.world; printed = [] }

  -- `if guard.receipt is not None: print(…)`, after the `with`
  unfoldable pub receipts : Result (Unit {0}) × St W → List Printed
  receipts (ok _, s) = elim s.guard.receipt [ some r ↦ receipt r ∷ [] | none ↦ [] ]
  receipts (err e, s) = []

  -- The end of the `with` of a guard that was in the state `t` when it was entered.
  unfoldable pub left : St W → Result (Unit {0}) × St W → Outcome W
  unfolding receipts
  left t o = record {
    result = o.0;
    world = o.1.world;
    printed = entry t.guard.decision t.guard.reservation_id ∷ receipts o;
  }

module _ {W : Type 0} (client : Client W) (b : Builtins) where
  unfoldable pub run_dry_run : Mandate → String → World W → Outcome W
  unfolding probed run_with
  run_dry_run m tenant w = probed (
      run_with client b m (demo_context "run_demo_001" tenant true) true
        (throw must_not_execute ∷ []) w)

  unfoldable pub inside : Mandate → Result (Unit {0}) × St W → Outcome W
  unfolding left leave run_body fake_psp_charge
  inside m (err e, s) = record { result = err e; world = s.world; printed = [] }
  inside m (ok _, t) = left t (leave client b (run_body b (charging m (fake_psp_charge m)) t))

  unfoldable pub run_real : Mandate → String → World W → Outcome W
  unfolding inside enter new_guard
  run_real m tenant w = inside m (
      enter client b
        (record { guard = new_guard m (demo_context "run_demo_001" tenant false) true; world = w }))

  unfoldable pub arun_dry_run : Mandate → String → World W → Outcome W
  unfolding probed run_async_with
  arun_dry_run m tenant w = probed (
      run_async_with client b m (demo_context "run_demo_async_001" tenant true) true
        (throw must_not_execute ∷ []) w)

  -- The first argument of these is what interrupts the task at its `sleep`, if anything does.
  unfoldable pub ainside : Option Exc → Mandate → Result (Unit {0}) × St W → Outcome W
  unfolding left aleave arun_body acharging fake_psp_charge_async
  ainside interrupt m (err e, s) = record { result = err e; world = s.world; printed = [] }
  ainside interrupt m (ok _, t) =
      left t (aleave client b (arun_body b (acharging m (fake_psp_charge_async interrupt m)) t))

  unfoldable pub arun_real : Option Exc → Mandate → String → World W → Outcome W
  unfolding ainside aenter new_async_guard
  arun_real interrupt m tenant w = ainside interrupt m (
      aenter client b (record {
        guard = new_async_guard m (demo_context "run_demo_async_001" tenant false) true;
        world = w;
      }))

-- The arguments that `main` gives to `CyclesConfig`.
pub record Config : Type 0 where
  pub base_url : String
  pub api_key : String
  pub tenant : String

abbrev pub demo_mandate : Builtins → Result Mandate
demo_mandate b =
    new_mandate b (str "ap2-tx-demo-001") (str "199.00") (str "USD") (str "merchant.example")
      (str "ch_demo_001") null

abbrev pub ademo_mandate : Builtins → Result Mandate
ademo_mandate b =
    new_mandate b (str "ap2-tx-demo-async-001") (str "199.00") (str "USD") (str "merchant.example")
      (str "ch_demo_async_001") (str "omh_demo_async_001")

-- The configuration, from `os.environ`.
unfoldable pub config : (String → Option String) → Config
config environ = record {
  base_url = Option.get_or (environ "CYCLES_BASE_URL") "http://localhost:7878";
  api_key = Option.get_or (environ "CYCLES_API_KEY") "test-key";
  tenant = Option.get_or (environ "CYCLES_TENANT") "acme";
}

unfoldable pub is_dry_run : Option String → Bool
is_dry_run none = false
is_dry_run (some v) = v === "1"

-- A run for the mandate and the tenant, where the mandate can be made.
unfoldable pub run_as :
    {W : Type 0}
    → (Mandate → String → World W → Outcome W)
    → Result Mandate
    → String
    → World W
    → Outcome W
run_as run (err e) tenant w = record { result = err e; world = w; printed = [] }
run_as run (ok m) tenant w = run m tenant w

-- `os.environ`, the attribute `tenant` of a `CyclesConfig`, and the client that is made of one.
module _ {W : Type 0} (environ : String → Option String) (tenant_of : Config → Option String)
    (connect : Config → Client W) (b : Builtins) where
  unfoldable pub main : World W → Outcome W
  unfolding run_as is_dry_run config run_dry_run run_real
  main w =
      let client = connect (config environ) in
      let tenant = Option.get_or (truthy (tenant_of (config environ))) "acme" in
      run_as (if is_dry_run (environ "DRY_RUN") then run_dry_run client b else run_real client b)
        (demo_mandate b) tenant w

  unfoldable pub amain : Option Exc → World W → Outcome W
  unfolding run_as is_dry_run config arun_dry_run arun_real
  amain interrupt w =
      let client = connect (config environ) in
      let tenant = Option.get_or (truthy (tenant_of (config environ))) "acme" in
      run_as
        (if is_dry_run (environ "DRY_RUN")
          then arun_dry_run client b
          else arun_real client b interrupt)
        (ademo_mandate b) tenant w
