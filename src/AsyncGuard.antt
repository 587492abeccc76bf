-- ===== src/AsyncGuard.antt =====
-- `AsyncGuardedPayment` of runcycles_ap2/guard.py: its `_handle_commit`, `__aexit__` and the
-- `async with` around a body. An awaited call may raise `asyncio.CancelledError`, which
-- `_handle_commit` handles. The texts of the exceptions are built as for the synchronous guard, and
-- other tasks do not act on a guard meanwhile.
pub mod Settings
pub mod Entry
pub mod Release
pub mod Mirror
pub mod Commit
pub mod Lifecycle
pub mod Same
pub mod Moves
use cycles_ap2_python.Base.{String, ◌<>◌, Bool, true, false, ◌||◌, Option, none, some, List}
use cycles_ap2_python.Builtins.{Builtins}
use cycles_ap2_python.Errors.{
  Kind, cancelled, ordinary, other_base, Exc, CommitUncertain, Raised, commit_uncertain,
  commit_failed, foreign, exception_name, Result, ok, err,
}
use cycles_ap2_python.Mandate.{Mandate}
use cycles_ap2_python.Mapping.Bodies.{Context, CommitBody}
use cycles_ap2_python.Client.{
  Client, World, call, commit_reservation, Reply, raised, returned, Response,
}
use cycles_ap2_python.Guard.State.{Guard, St, with_guard, with_world}
use cycles_ap2_python.Guard.{assertion_error, code_of, is_terminal}
use cycles_ap2_python.Guard.Exit.{
  commit_raised, commit_body_of, lost_response, terminal_status, rejected, refusal_reason, dropped,
}
use cycles_ap2_python.Guard.With.{Action, after_exit}
use cycles_ap2_python.AsyncGuard.Settings.{new_async_guard, arun_body}
use cycles_ap2_python.AsyncGuard.Entry.{aenter}
use cycles_ap2_python.AsyncGuard.Release.{arelease, ahandle_release, abuild_receipt}

-- The exception for a commit that was cancelled.
unfoldable pub commit_cancelled : String → String → Exc → CommitUncertain
commit_cancelled tx id e = record {
  message =
      "AP2 commit cancelled mid-flight for transaction " <> tx
      <> ". Commit may have reached Cycles before cancellation; no release was attempted.";
  error_code = some "COMMIT_CANCELLED";
  request_id = none;
  reservation_id = some id;
  cause = some e;
}

-- A commit whose call raised, by the two `except` clauses.
unfoldable pub commit_stopped : {W : Type 0} → Kind → String → Exc → St W → Result (Unit {0}) × St W
unfolding commit_cancelled commit_raised
commit_stopped cancelled id e s =
    (err (commit_uncertain (commit_cancelled s.guard.mandate.transaction_id id e)), s)
commit_stopped ordinary id e s =
    (err (commit_uncertain (commit_raised s.guard.mandate.transaction_id id e)), s)
commit_stopped other_base id e s = (err (foreign e), s)

module _ {W : Type 0} (client : Client W) (b : Builtins) where
  -- The release after a rejected commit, and the exception that tells of both.
  unfoldable pub aafter_release :
      String → Response → Result (Bool × Option String) × St W → Result (Unit {0}) × St W
  unfolding rejected
  aafter_release id r (err e, s) = (err e, s)
  aafter_release id r (ok outcome, s) =
      (err (commit_failed (rejected s.guard.mandate.transaction_id id r outcome)), s)

  unfoldable pub arefuse : String → Response → St W → Result (Unit {0}) × St W
  unfolding aafter_release arelease
  arefuse id r s = aafter_release id r (arelease client b id (refusal_reason r) "CommitRejected" s)

  -- After a successful commit, by `emit_receipt`.
  unfoldable pub aemit : Bool → St W → Result (Unit {0}) × St W
  unfolding abuild_receipt
  aemit true s = abuild_receipt client b s
  aemit false s = (ok tt, s)

  unfoldable pub aaccept : St W → Result (Unit {0}) × St W
  unfolding aemit
  aaccept s = aemit s.guard.emit_receipt (with_guard s (record s.guard { committed = true }))

  -- A response, by whether it is a success, was lost on the way, or tells of a terminal state.
  unfoldable pub aanswered :
      Bool → Bool → Bool → String → Response → St W → Result (Unit {0}) × St W
  unfolding aaccept arefuse lost_response terminal_status
  aanswered true lost terminal id r s = aaccept s
  aanswered false true terminal id r s =
      (err (commit_uncertain (lost_response s.guard.mandate.transaction_id id r)), s)
  aanswered false false true id r s =
      (err (commit_uncertain (terminal_status s.guard.mandate.transaction_id id r)), s)
  aanswered false false false id r s = arefuse id r s

  -- The reply to the commit.
  unfoldable pub commit_awaited : String → Reply → St W → Result (Unit {0}) × St W
  unfolding commit_stopped aanswered is_terminal
  commit_awaited id (raised e) s = commit_stopped e.kind id e s
  commit_awaited id (returned r) s =
      aanswered r.is_success (r.is_transport_error || r.is_server_error) (is_terminal (code_of r))
        id r s

  unfoldable pub await_commit : String → Result CommitBody → St W → Result (Unit {0}) × St W
  unfolding commit_awaited call
  await_commit id (err e) s = (err e, s)
  await_commit id (ok body) s =
      let (reply, w) = call client (commit_reservation id body) s.world in
      commit_awaited id reply (with_world s w)

  unfoldable pub await_commit_of : Option String → St W → Result (Unit {0}) × St W
  unfolding await_commit commit_body_of
  await_commit_of none s = (err (foreign assertion_error), s)
  await_commit_of (some id) s = await_commit id (commit_body_of b s.guard) s

  -- `_handle_commit`
  unfoldable pub handle_commit_async : St W → Result (Unit {0}) × St W
  unfolding await_commit_of
  handle_commit_async s = await_commit_of s.guard.reservation_id s

  unfoldable pub aexit_of :
      Option String → Option Raised → Option String → St W → Result (Unit {0}) × St W
  unfolding dropped ahandle_release handle_commit_async exception_name
  aexit_of none e aborted s = (ok tt, s)
  aexit_of (some id) (some e) aborted s =
      dropped client b
        (ahandle_release client b ("ap2_guard_failed:" <> exception_name e) (exception_name e) s)
  aexit_of (some id) none (some reason) s =
      dropped client b (ahandle_release client b ("ap2_guard_aborted:" <> reason) "Aborted" s)
  aexit_of (some id) none none s = handle_commit_async s

  -- `__aexit__`, with the exception of the body
  unfoldable pub aexit : Option Raised → St W → Result (Unit {0}) × St W
  unfolding aexit_of
  aexit raised_by_body s = aexit_of s.guard.reservation_id raised_by_body s.guard.aborted_reason s

  unfoldable pub aleave : Option Raised × St W → Result (Unit {0}) × St W
  unfolding after_exit aexit
  aleave (e, s) = after_exit client b e (aexit e s)

  unfoldable pub aentered : List Action → Result (Unit {0}) × St W → Result (Unit {0}) × St W
  unfolding aleave arun_body
  aentered body (err e, s) = (err e, s)
  aentered body (ok _, s) = aleave (arun_body b body s)

  -- `async with cycles_guard_payment_async(…)`, over what the body does.
  unfoldable pub run_async_with :
      Mandate → Context → Bool → List Action → World W → Result (Unit {0}) × St W
  unfolding aentered aenter new_async_guard
  run_async_with mandate context emit_receipt body w =
      aentered body (
        aenter client b
          (record { guard = new_async_guard mandate context emit_receipt; world = w }))
