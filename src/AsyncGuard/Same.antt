-- ===== src/AsyncGuard/Same.antt =====
-- Whole runs of the two guards of runcycles_ap2/guard.py, where nothing is cancelled.
use cycles_ap2_python.Base.{String, Bool, Option, none, some, List, ◌≡◌, ◌≢◌, refl, ◌∙◌, ap}
use cycles_ap2_python.Builtins.{Builtins}
use cycles_ap2_python.Errors.{cancelled, Exc, Raised, Result, ok, err}
use cycles_ap2_python.Mandate.{Mandate}
use cycles_ap2_python.Mapping.Bodies.{Context}
use cycles_ap2_python.Client.{Client, World, Call, call, raised}
use cycles_ap2_python.Guard.State.{St, start}
use cycles_ap2_python.Guard.{enter}
use cycles_ap2_python.Guard.Exit.{exit_of, exit}
use cycles_ap2_python.Guard.With.{Action, after_exit, leave, entered, run_with}
use cycles_ap2_python.AsyncGuard.{aexit_of, aexit, aleave, aentered, run_async_with}
use cycles_ap2_python.AsyncGuard.Mirror.{
  new_async_guard-new_guard, aenter-enter, ahandle_release-handle_release, arun_body-run_body,
}
use cycles_ap2_python.AsyncGuard.Commit.{handle_commit_async-handle_commit}

-- No call of the client is cancelled.
abbrev pub Calm : {W : Type 0} → Client W → Type 0
Calm {W} client = (w : W) (c : Call) (e : Exc) → (client.send w c).0 ≡ raised e → e.kind ≢ cancelled

module _ {W : Type 0} (client : Client W) (b : Builtins) (calm : Calm client) where
  aexit_of-exit_of :
      (o : Option String) (e : Option Raised) (aborted : Option String) (s : St W)
      → aexit_of client b o e aborted s ≡ exit_of client b o e aborted s
  unfolding aexit_of exit_of call
  aexit_of-exit_of none e aborted s = refl
  aexit_of-exit_of (some id) (some e) aborted s = rw (ahandle_release-handle_release client b) refl
  aexit_of-exit_of (some id) none (some reason) s =
      rw (ahandle_release-handle_release client b) refl
  aexit_of-exit_of (some id) none none s =
      handle_commit_async-handle_commit client b s (calm s.world.server)

  aleave-leave : (x : Option Raised × St W) → aleave client b x ≡ leave client b x
  unfolding aleave leave aexit exit
  aleave-leave (e, s) =
      ap (after_exit client b e)
        (aexit_of-exit_of s.guard.reservation_id e s.guard.aborted_reason s)

  pub aentered-entered :
      (body : List Action) (o : Result (Unit {0}) × St W)
      → aentered client b body o ≡ entered client b body o
  unfolding aentered entered
  aentered-entered body (err e, s) = refl
  aentered-entered body (ok _, s) =
      aleave-leave _ ∙ ap (leave client b) (arun_body-run_body b body s)

  -- Where the client cancels no call, an `async with` does what the `with` does on the same
  -- arguments and the same body: the same result or exception, the same guard, with the same
  -- receipt, and the same calls and payments in the same order.
  pub run_async_with-run_with :
      (m : Mandate) (c : Context) (emit_receipt : Bool) (body : List Action) (w : World W)
      → run_async_with client b m c emit_receipt body w ≡ run_with client b m c emit_receipt body w
  unfolding run_async_with run_with
  run_async_with-run_with m c emit_receipt body w =
      rw
        (
          new_async_guard-new_guard m c emit_receipt,
          aenter-enter client b (start m c emit_receipt w),
        )
        (aentered-entered body (enter client b (start m c emit_receipt w)))
