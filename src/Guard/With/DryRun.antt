-- ===== src/Guard/With/DryRun.antt =====
-- A `with` under `dry_run` (runcycles_ap2/guard.py).
use cycles_ap2_python.Base.{
  Option, String, Bool, true, false, List, [], ◌∷◌, ◌++◌, ◌≡◌, ◌⊎◌, inl, inr,
}
use cycles_ap2_python.Builtins.{Builtins}
use cycles_ap2_python.Errors.{Raised, Result, err}
use cycles_ap2_python.Mandate.{Mandate}
use cycles_ap2_python.Mapping.Bodies.{Context, ReservationBody}
use cycles_ap2_python.Client.{Client, Reply, World, Event, sent, create_reservation}
use cycles_ap2_python.Guard.State.{St, new_guard}
use cycles_ap2_python.Guard.Exit.Settle.{Verdict, verdict}
use cycles_ap2_python.Guard.With.{Action, run_with}
use cycles_ap2_python.Guard.With.Lifecycle.{
  Entered, Lifecycle, unsent, shut, failed, aborted, paid_for, uncertain, rejected,
}
use cycles_ap2_python.Guard.With.Lifecycle.Runs.{run_with-Lifecycle}

-- It raises, the guard is not committed, and at most one reservation was asked for.
pub record Probes {W : Type 0} (w : World W) (o : Result (Unit {0}) × St W) : Type 0 where
  pub raised : Raised
  pub result : o.0 ≡ err raised
  pub uncommitted : o.1.guard.committed ≡ false
  pub log :
      (o.1.world.log ≡ w.log)
      ⊎ ((body : ReservationBody) × (o.1.world.log
            ≡ w.log ++ (sent (create_reservation body) ∷ [])))

module _ {W : Type 0} (client : Client W) (b : Builtins) (m : Mandate) (c : Context)
    (emit_receipt : Bool) (actions : List Action) (w : World W) (read : Reply → Verdict) where
  Entered-absurd :
      {e : Option Raised} {u : St W} {id : String} {log rest : List Event}
      → c.dry_run ≡ true
      → Entered client b m c emit_receipt actions w e u id log rest
      → ⊥
  unfolding new_guard
  Entered-absurd dry e = cc (dry, e.admits.real)

  pub Lifecycle-Probes :
      (o : Result (Unit {0}) × St W)
      → c.dry_run ≡ true
      → Lifecycle client b m c emit_receipt actions w read o
      → Probes w o
  Lifecycle-Probes o dry (unsent e raised uncommitted log) = record {
    raised = e;
    result = raised;
    uncommitted = uncommitted;
    log = inl log;
  }
  Lifecycle-Probes o dry (shut e body built raised uncommitted log) = record {
    raised = e;
    result = raised;
    uncommitted = uncommitted;
    log = inr (body, log);
  }
  Lifecycle-Probes o dry (failed x u id here raised uncommitted h) = absurd (Entered-absurd dry h)
  Lifecycle-Probes o dry (aborted reason u id here given ends uncommitted h) =
      absurd (Entered-absurd dry h)
  Lifecycle-Probes o dry (paid_for u id body here calm told small fine committed h) =
      absurd (Entered-absurd dry h)
  Lifecycle-Probes o dry (uncertain e u id body here calm told small raised uncommitted h) =
      absurd (Entered-absurd dry h)
  Lifecycle-Probes o dry (rejected e u id body back here calm told small raised uncommitted h) =
      absurd (Entered-absurd dry h)

module _ {W : Type 0} (b : Builtins) (m : Mandate) (c : Context) (w : World W) where
  -- Under `dry_run`, whatever the body would do, a `with` raises, commits nothing, and calls and pays
  -- nothing but at most one reservation.
  pub run_with-Probes :
      (client : Client W) (emit_receipt : Bool) (body : List Action)
      → c.dry_run ≡ true
      → Probes w (run_with client b m c emit_receipt body w)
  run_with-Probes client emit_receipt body dry =
      Lifecycle-Probes client b m c emit_receipt body w verdict _ dry
        (run_with-Lifecycle client b m c emit_receipt body w)
