-- ===== src/Guard/Exit.antt =====
-- `_handle_commit` and `__exit__` of `GuardedPayment`.
pub mod Settle
pub mod Outcomes
pub mod Price
pub mod Leave
pub mod Receipts
use mathlib.Core.Option
use cycles_ap2_python.Base.{
  ℕ, String, ◌<>◌, Bool, true, false, ◌||◌, Option, none, some, truthy, if◌then◌else◌,
}
use cycles_ap2_python.Base.Int.{pos, show_int}
use cycles_ap2_python.Base.Dict
use cycles_ap2_python.Value.{Value, int}
use cycles_ap2_python.Builtins.{Builtins}
use cycles_ap2_python.Errors.{
  Kind, cancelled, ordinary, other_base, Exc, CommitUncertain, CommitFailed, Raised,
  commit_uncertain, commit_failed, foreign, exception_name, Result, ok, err,
}
use cycles_ap2_python.Mapping.{build_commit_body}
use cycles_ap2_python.Mapping.Bodies.{CommitBody}
use cycles_ap2_python.Client.{Client, call, commit_reservation, Response, Reply, raised, returned}
use cycles_ap2_python.Guard.State.{Guard, St, with_guard, with_world}
use cycles_ap2_python.Guard.{
  assertion_error, code_of, request_of, text_or, shown, describe, is_terminal, release,
  handle_release, build_receipt,
}

-- The exception for a commit whose call raised.
unfoldable pub commit_raised : String → String → Exc → CommitUncertain
commit_raised tx id e = record {
  message =
      "AP2 commit raised before a response was received for transaction "
      <> tx
      <> ": "
      <> describe e
      <> ". Commit outcome is unknown; no release was attempted.";
  error_code = some "COMMIT_RAISED";
  request_id = none;
  reservation_id = some id;
  cause = some e;
}

-- `error_code or ("TRANSPORT_ERROR" if response.is_transport_error else "SERVER_ERROR")`
abbrev pub synthetic_code : Response → String
synthetic_code r =
    text_or (code_of r) (if r.is_transport_error then "TRANSPORT_ERROR" else "SERVER_ERROR")

unfoldable pub lost_response : String → String → Response → CommitUncertain
lost_response tx id r = record {
  message =
      "AP2 commit failed at the transport/server layer for transaction "
      <> tx
      <> " (status="
      <> show_int r.status
      <> ", code="
      <> synthetic_code r
      <> "). Commit may have reached Cycles before the failure; no release was attempted.";
  error_code = some (synthetic_code r);
  request_id = request_of r;
  reservation_id = some id;
  cause = none;
}

unfoldable pub terminal_status : String → String → Response → CommitUncertain
terminal_status tx id r = record {
  message =
      "AP2 commit returned "
      <> shown (code_of r)
      <> " for transaction "
      <> tx
      <> ". Reservation is in a terminal state; PSP state may need reconciliation. No release was attempted (a prior commit may already have settled).";
  error_code = code_of r;
  request_id = request_of r;
  reservation_id = some id;
  cause = none;
}

unfoldable pub rejected : String → String → Response → Bool × Option String → CommitFailed
rejected tx id r outcome =
    let status_phrase =
      if outcome.0
      then "reservation released"
      else "reservation release FAILED ("
        <> text_or outcome.1 "unknown"
        <> "); budget stranded until TTL" in
    record {
      message =
          "AP2 commit rejected for transaction "
          <> tx
          <> " (code="
          <> shown (code_of r)
          <> "); "
          <> status_phrase
          <> ". PSP state may need reconciliation.";
      error_code = code_of r;
      request_id = request_of r;
      reservation_id = some id;
      released = outcome.0;
      release_error = outcome.1;
    }

-- A commit whose call raised: only a subclass of `Exception` is caught.
unfoldable pub commit_interrupted :
    {W : Type 0} → Kind → String → Exc → St W → Result (Unit {0}) × St W
unfolding commit_raised
commit_interrupted ordinary id e s =
    (err (commit_uncertain (commit_raised s.guard.mandate.transaction_id id e)), s)
commit_interrupted cancelled id e s = (err (foreign e), s)
commit_interrupted other_base id e s = (err (foreign e), s)

abbrev pub refusal_reason : Response → String
refusal_reason r = "ap2_commit_rejected:" <> text_or (code_of r) "UNKNOWN"

-- The body of the commit that a guard sends.
unfoldable pub commit_body_of : Builtins → Guard → Result CommitBody
unfolding build_commit_body Dict.or_none
commit_body_of b g =
    build_commit_body b g.mandate (Option.map (λ n. int (pos n)) g.actual_micros)
      (Dict.or_none g.commit_metadata)

module _ {W : Type 0} (client : Client W) (b : Builtins) where
  -- The release after a rejected commit, and the exception that tells of both.
  unfoldable pub after_release :
      String → Response → Result (Bool × Option String) × St W → Result (Unit {0}) × St W
  unfolding rejected
  after_release id r (err e, s) = (err e, s)
  after_release id r (ok outcome, s) =
      (err (commit_failed (rejected s.guard.mandate.transaction_id id r outcome)), s)

  unfoldable pub refuse : String → Response → St W → Result (Unit {0}) × St W
  unfolding after_release release
  refuse id r s = after_release id r (release client b id (refusal_reason r) "CommitRejected" s)

  -- After a successful commit, by `emit_receipt`.
  unfoldable pub emit : Bool → St W → Result (Unit {0}) × St W
  unfolding build_receipt
  emit true s = build_receipt client b s
  emit false s = (ok tt, s)

  unfoldable pub accept : St W → Result (Unit {0}) × St W
  unfolding emit
  accept s = emit s.guard.emit_receipt (with_guard s (record s.guard { committed = true }))

  -- A response, by whether it is a success, was lost on the way, or tells of a terminal state.
  unfoldable pub answered : Bool → Bool → Bool → String → Response → St W → Result (Unit {0}) × St W
  unfolding accept refuse lost_response terminal_status
  answered true lost terminal id r s = accept s
  answered false true terminal id r s =
      (err (commit_uncertain (lost_response s.guard.mandate.transaction_id id r)), s)
  answered false false true id r s =
      (err (commit_uncertain (terminal_status s.guard.mandate.transaction_id id r)), s)
  answered false false false id r s = refuse id r s

  -- The reply to the commit.
  unfoldable pub committing : String → Reply → St W → Result (Unit {0}) × St W
  unfolding answered commit_interrupted is_terminal
  committing id (raised e) s = commit_interrupted e.kind id e s
  committing id (returned r) s =
      answered r.is_success (r.is_transport_error || r.is_server_error) (is_terminal (code_of r)) id
        r s

  unfoldable pub send_commit : String → Result CommitBody → St W → Result (Unit {0}) × St W
  unfolding committing call
  send_commit id (err e) s = (err e, s)
  send_commit id (ok body) s =
      let (reply, w) = call client (commit_reservation id body) s.world in
      committing id reply (with_world s w)

  unfoldable pub commit_of : Option String → St W → Result (Unit {0}) × St W
  unfolding send_commit commit_body_of
  commit_of none s = (err (foreign assertion_error), s)
  commit_of (some id) s = send_commit id (commit_body_of b s.guard) s

  -- `_handle_commit`
  unfoldable pub handle_commit : St W → Result (Unit {0}) × St W
  unfolding commit_of
  handle_commit s = commit_of s.guard.reservation_id s

  -- A release on the way out: its outcome is dropped, unless it raises.
  unfoldable pub dropped : Result (Bool × Option String) × St W → Result (Unit {0}) × St W
  dropped (ok outcome, s) = (ok tt, s)
  dropped (err e, s) = (err e, s)

  -- By the reservation, the exception of the body and the reason of `abort`.
  unfoldable pub exit_of :
      Option String → Option Raised → Option String → St W → Result (Unit {0}) × St W
  unfolding dropped handle_release handle_commit exception_name
  exit_of none e aborted s = (ok tt, s)
  exit_of (some id) (some e) aborted s =
      dropped
        (handle_release client b ("ap2_guard_failed:" <> exception_name e) (exception_name e) s)
  exit_of (some id) none (some reason) s =
      dropped (handle_release client b ("ap2_guard_aborted:" <> reason) "Aborted" s)
  exit_of (some id) none none s = handle_commit s

  -- `__exit__`, with the exception of the body
  unfoldable pub exit : Option Raised → St W → Result (Unit {0}) × St W
  unfolding exit_of
  exit raised_by_body s = exit_of s.guard.reservation_id raised_by_body s.guard.aborted_reason s
