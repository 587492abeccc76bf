-- ===== src/AsyncGuard/Lifecycle.antt =====
-- The runs of an `async with`, to the ways of the synchronous guard's.
use cycles_ap2_python.Base.{
  String, Bool, Option, none, some, List, ◌≡◌, refl, ap, inl, inr, Option-cases,
}
use cycles_ap2_python.Builtins.{Builtins}
use cycles_ap2_python.Errors.{Raised, Result, ok, err}
use cycles_ap2_python.Mandate.{Mandate}
use cycles_ap2_python.Mapping.{build_reservation_body}
use cycles_ap2_python.Mapping.Bodies.{Context}
use cycles_ap2_python.Client.{Client, World}
use cycles_ap2_python.Guard.State.{St, new_guard, start}
use cycles_ap2_python.Guard.{enter}
use cycles_ap2_python.Guard.Admits.{Admits, Returns, enter-Returns}
use cycles_ap2_python.Guard.Reserve.{Enters, enter-Enters}
use cycles_ap2_python.Guard.Exit.Price.{commit_body_of-Priced}
use cycles_ap2_python.Guard.Exit.{exit_of, exit}
use cycles_ap2_python.Guard.Exit.Leave.{exit-Backs, exit-aborted}
use cycles_ap2_python.Guard.With.{Action, run_body, after_exit}
use cycles_ap2_python.Guard.With.Lifecycle.{Ready, Lifecycle, unsent, shut}
use cycles_ap2_python.Guard.With.Lifecycle.Runs.{
  Backs-failed, Backs-aborted, Follows-Lifecycle, commit-small, body-Ready,
}
use cycles_ap2_python.AsyncGuard.{
  aexit_of, aexit, aleave, aentered, run_async_with, handle_commit_async,
}
use cycles_ap2_python.AsyncGuard.Mirror.{
  new_async_guard-new_guard, aenter-enter, ahandle_release-handle_release, arun_body-run_body,
}
use cycles_ap2_python.AsyncGuard.Commit.{async_verdict, handle_commit_async-Follows}

module _ {W : Type 0} (client : Client W) (b : Builtins) where
  aexit_of-failed :
      (o : Option String) (e : Raised) (aborted : Option String) (s : St W)
      → aexit_of client b o (some e) aborted s ≡ exit_of client b o (some e) aborted s
  unfolding aexit_of exit_of
  aexit_of-failed none e aborted s = refl
  aexit_of-failed (some id) e aborted s = rw (ahandle_release-handle_release client b) refl

  aexit_of-aborted :
      (o : Option String) (reason : String) (aborted : Option String) (s : St W)
      → aborted ≡ some reason
      → aexit_of client b o none aborted s ≡ exit_of client b o none aborted s
  unfolding aexit_of exit_of
  aexit_of-aborted none reason none s h = cc
  aexit_of-aborted none reason (some r) s h = refl
  aexit_of-aborted (some id) reason none s h = cc
  aexit_of-aborted (some id) reason (some r) s h = rw (ahandle_release-handle_release client b) refl

  aexit_of-clean :
      (o : Option String) (id : String) (aborted : Option String) (s : St W)
      → o ≡ some id
      → aborted ≡ none
      → aexit_of client b o none aborted s ≡ handle_commit_async client b s
  unfolding aexit_of
  aexit_of-clean none id aborted s h a = cc
  aexit_of-clean (some j) id none s h a = refl
  aexit_of-clean (some j) id (some given) s h a = cc

  -- `__aexit__` does what `__exit__` does after an exception of the body or an abort.
  pub aexit-failed : (e : Raised) (s : St W) → aexit client b (some e) s ≡ exit client b (some e) s
  unfolding aexit exit
  aexit-failed e s = aexit_of-failed s.guard.reservation_id e s.guard.aborted_reason s

  pub aexit-aborted :
      (reason : String) (s : St W)
      → s.guard.aborted_reason ≡ some reason
      → aexit client b none s ≡ exit client b none s
  unfolding aexit exit
  aexit-aborted reason s h =
      aexit_of-aborted s.guard.reservation_id reason s.guard.aborted_reason s h

module _ {W : Type 0} (client : Client W) (b : Builtins) (m : Mandate) (c : Context)
    (emit_receipt : Bool) (actions : List Action) (w : World W) where
  afinished :
      (u : St W) (r : Ready client b m c emit_receipt actions w none u)
      → u.guard.aborted_reason ≡ none
      → Lifecycle client b m c emit_receipt actions w async_verdict
          (after_exit client b none (aexit client b none u))
  unfolding aexit
  afinished u r calm =
      let k = r.opened in
      let p = commit_body_of-Priced b u.guard k.amount k.priced r.bounded in
      rw
        (aexit_of-clean client b u.guard.reservation_id k.id u.guard.aborted_reason u k.reserved
          calm)
        (Follows-Lifecycle client b m c emit_receipt actions w async_verdict _ u r p.body _ calm
          (commit-small client b m c emit_receipt actions w async_verdict u r p) refl
          (handle_commit_async-Follows client b k.id p.body u k.reserved p.built k))

  aleave-Lifecycle :
      (e : Option Raised) (u : St W)
      → Ready client b m c emit_receipt actions w e u
      → Lifecycle client b m c emit_receipt actions w async_verdict (aleave client b (e, u))
  unfolding aleave
  aleave-Lifecycle (some e) u r = rw (aexit-failed client b e u) (
      Backs-failed client b m c emit_receipt actions w async_verdict e u _ r
        (exit-Backs client b e u r.opened))
  aleave-Lifecycle none u r = elim (Option-cases u.guard.aborted_reason) [
    | inl calm ↦ afinished u r calm
    | inr (reason, given) ↦ rw (aexit-aborted client b reason u given) (
        Backs-aborted client b m c emit_receipt actions w async_verdict reason u _ r given
          (exit-aborted client b reason u r.opened given))
  ]

  aentered-Lifecycle :
      (o : Result (Unit {0}) × St W)
      → Enters client b (start m c emit_receipt w) o
      → Returns (Admits client b (start m c emit_receipt w)) o
      → Lifecycle client b m c emit_receipt actions w async_verdict (aentered client b actions o)
  unfolding aentered new_guard
  aentered-Lifecycle (err e, t) (s, inl log) a = unsent e refl (ap (λ g. g.committed) s.guard) log
  aentered-Lifecycle (err e, t) (s, inr (r, built, log)) a =
      shut e r built refl (ap (λ g. g.committed) s.guard) log
  aentered-Lifecycle (ok _, t) o a = rw (arun_body-run_body b actions t) (
      aleave-Lifecycle (run_body b actions t).0 (run_body b actions t).1
        (body-Ready client b m c emit_receipt actions w async_verdict t _ _ a refl))

  -- Whatever the body, the server and the network do, a cancelled call included, an `async with`
  -- goes one of the seven ways of the synchronous guard, where a cancelled commit is one of unknown
  -- outcome: the reservation, which the server has granted before any payment, is released once
  -- after a body that raised or has aborted; otherwise it is committed once, and released after the
  -- commit only if the server has refused that.
  pub run_async_with-Lifecycle :
      Lifecycle client b m c emit_receipt actions w async_verdict
        (run_async_with client b m c emit_receipt actions w)
  unfolding run_async_with async_verdict build_reservation_body new_guard
  run_async_with-Lifecycle =
      let s = start m c emit_receipt w in
      rw (new_async_guard-new_guard m c emit_receipt, aenter-enter client b s)
        (aentered-Lifecycle (enter client b s) (enter-Enters client b s) (enter-Returns client b s))
