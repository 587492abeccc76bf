-- ===== src/Guard/Evolves.antt =====
-- How the methods of runcycles_ap2/guard.py move the world: by calls and payments only.
pub mod Runs
use cycles_ap2_python.Base.{
  ℕ, String, Bool, true, false, Option, none, some, List, [], ◌∷◌, ◌≡◌, refl, ◌∙◌, ◌||◌,
}
use cycles_ap2_python.Value.{Value}
use cycles_ap2_python.Builtins.{Builtins}
use cycles_ap2_python.Errors.{Kind, cancelled, ordinary, other_base, Exc, Raised, Result, ok, err}
use cycles_ap2_python.Mandate.{Mandate}
use cycles_ap2_python.Mapping.{build_release_body}
use cycles_ap2_python.Mapping.Bodies.{Context, ReservationBody, CommitBody}
use cycles_ap2_python.Client.{
  Client, World, Call, call, create_reservation, commit_reservation, release_reservation, Reply,
  raised, returned, Response,
}
use cycles_ap2_python.ConsumeOnce.{Later, now, called, paid, Later-trans}
use cycles_ap2_python.Guard.State.{Guard, St, new_guard, with_guard, with_world}
use cycles_ap2_python.Guard.{
  set_amount, set_actual_micros, attach_receipt_fields, abort, is_terminal, code_of, settle,
  committed_amount, receipt_for, build_receipt, release, release_of, handle_release, reserve, enter,
}
use cycles_ap2_python.Guard.Reserve.{Enters, enter-Enters}
use cycles_ap2_python.Guard.Exit.{
  commit_interrupted, after_release, refuse, emit, accept, answered, committing, send_commit,
  commit_body_of, commit_of, handle_commit, dropped, exit_of, exit,
}
use cycles_ap2_python.Guard.With.{
  Action, set_actual, attach, give_up, pay, throw, act, run_body, after_exit, leave, entered,
  run_with,
}

module _ {W : Type 0} (client : Client W) where
  -- From one state to a later one, with the mandate, the context and the reservation unchanged.
  pub record Evolves (s t : St W) : Type 0 where
    pub mandate : t.guard.mandate ≡ s.guard.mandate
    pub context : t.guard.context ≡ s.guard.context
    pub reservation_id : t.guard.reservation_id ≡ s.guard.reservation_id
    pub later : Later client s.world t.world

  pub Evolves-refl : (s : St W) → Evolves s s
  Evolves-refl s = record { mandate = refl; context = refl; reservation_id = refl; later = now }

  pub Evolves-trans : (s t u : St W) → Evolves s t → Evolves t u → Evolves s u
  Evolves-trans s t u f g = record {
    mandate = g.mandate ∙ f.mandate;
    context = g.context ∙ f.context;
    reservation_id = g.reservation_id ∙ f.reservation_id;
    later = Later-trans f.later g.later;
  }

  -- A call, before the reply is looked at.
  pub called-Evolves : (c : Call) (s : St W) → Evolves s (with_world s (call client c s.world).1)
  called-Evolves c s = record {
    mandate = refl;
    context = refl;
    reservation_id = refl;
    later = called c now;
  }

  module _ (b : Builtins) where
    settle-Evolves :
        (r : Result ℕ) (id decision : String) (s : St W)
        → Evolves s (settle client b r id decision s).1
    unfolding settle
    settle-Evolves (err e) id decision s = Evolves-refl s
    settle-Evolves (ok n) id decision s = record {
      mandate = refl;
      context = refl;
      reservation_id = refl;
      later = now;
    }

    receipt_for-Evolves :
        (o d : Option String) (s : St W) → Evolves s (receipt_for client b o d s).1
    unfolding receipt_for
    receipt_for-Evolves none d s = Evolves-refl s
    receipt_for-Evolves (some id) none s = Evolves-refl s
    receipt_for-Evolves (some id) (some d) s =
        settle-Evolves (committed_amount client b s.guard.actual_micros s.guard.mandate) id d s

    emit-Evolves : (e : Bool) (s : St W) → Evolves s (emit client b e s).1
    unfolding emit build_receipt
    emit-Evolves true s = receipt_for-Evolves s.guard.reservation_id s.guard.decision s
    emit-Evolves false s = Evolves-refl s

    accept-Evolves : (s : St W) → Evolves s (accept client b s).1
    unfolding accept
    accept-Evolves s =
        let t = with_guard s (record s.guard { committed = true }) in
        Evolves-trans s t _
          (record { mandate = refl; context = refl; reservation_id = refl; later = now })
          (emit-Evolves s.guard.emit_receipt t)

    release-Evolves :
        (id reason name : String) (s : St W) → Evolves s (release client b id reason name s).1
    unfolding release
    release-Evolves id reason name s =
        called-Evolves
          (release_reservation id (build_release_body s.guard.mandate reason (some name))) s

    after_release-Evolves :
        (id : String) (r : Response) (s : St W) (o : Result (Bool × Option String) × St W)
        → Evolves s o.1
        → Evolves s (after_release client b id r o).1
    unfolding after_release
    after_release-Evolves id r s (err e, t) h = h
    after_release-Evolves id r s (ok outcome, t) h = h

    pub answered-Evolves :
        (success lost terminal : Bool) (id : String) (r : Response) (s : St W)
        → Evolves s (answered client b success lost terminal id r s).1
    unfolding answered refuse
    answered-Evolves true lost terminal id r s = accept-Evolves s
    answered-Evolves false true terminal id r s = Evolves-refl s
    answered-Evolves false false true id r s = Evolves-refl s
    answered-Evolves false false false id r s =
        after_release-Evolves id r s _ (release-Evolves id _ "CommitRejected" s)

    interrupted-Evolves :
        (k : Kind) (id : String) (e : Exc) (s : St W) → Evolves s (commit_interrupted k id e s).1
    unfolding commit_interrupted
    interrupted-Evolves cancelled id e s = Evolves-refl s
    interrupted-Evolves ordinary id e s = Evolves-refl s
    interrupted-Evolves other_base id e s = Evolves-refl s

    committing-Evolves :
        (id : String) (reply : Reply) (s : St W) → Evolves s (committing client b id reply s).1
    unfolding committing
    committing-Evolves id (raised e) s = interrupted-Evolves e.kind id e s
    committing-Evolves id (returned r) s =
        answered-Evolves r.is_success (r.is_transport_error || r.is_server_error)
          (is_terminal (code_of r)) id r s

    send_commit-Evolves :
        (id : String) (r : Result CommitBody) (s : St W) → Evolves s (send_commit client b id r s).1
    unfolding send_commit
    send_commit-Evolves id (err e) s = Evolves-refl s
    send_commit-Evolves id (ok body) s =
        let (reply, w) = call client (commit_reservation id body) s.world in
        Evolves-trans s (with_world s w) _ (called-Evolves (commit_reservation id body) s)
          (committing-Evolves id reply (with_world s w))

    commit_of-Evolves : (o : Option String) (s : St W) → Evolves s (commit_of client b o s).1
    unfolding commit_of
    commit_of-Evolves none s = Evolves-refl s
    commit_of-Evolves (some id) s = send_commit-Evolves id (commit_body_of b s.guard) s

    pub dropped-Evolves :
        (s : St W) (o : Result (Bool × Option String) × St W)
        → Evolves s o.1
        → Evolves s (dropped client b o).1
    unfolding dropped
    dropped-Evolves s (err e, t) h = h
    dropped-Evolves s (ok outcome, t) h = h

    pub release_of-Evolves :
        (o : Option String) (reason name : String) (s : St W)
        → Evolves s (release_of client b o reason name s).1
    unfolding release_of
    release_of-Evolves none reason name s = Evolves-refl s
    release_of-Evolves (some id) reason name s = release-Evolves id reason name s

    exit_of-Evolves :
        (o : Option String) (e : Option Raised) (aborted : Option String) (s : St W)
        → Evolves s (exit_of client b o e aborted s).1
    unfolding exit_of handle_release handle_commit
    exit_of-Evolves none e aborted s = Evolves-refl s
    exit_of-Evolves (some id) (some e) aborted s =
        dropped-Evolves s _ (release_of-Evolves s.guard.reservation_id _ _ s)
    exit_of-Evolves (some id) none (some reason) s =
        dropped-Evolves s _ (release_of-Evolves s.guard.reservation_id _ _ s)
    exit_of-Evolves (some id) none none s = commit_of-Evolves s.guard.reservation_id s

    -- `__exit__` moves the world by calls only, and leaves the guard its reservation.
    pub exit-Evolves : (e : Option Raised) (s : St W) → Evolves s (exit client b e s).1
    unfolding exit
    exit-Evolves e s = exit_of-Evolves s.guard.reservation_id e s.guard.aborted_reason s
