-- ===== src/Guard/With/Lifecycle/Runs.antt =====
-- The runs of a `with`, step by step, to the ways of `Lifecycle`.
use mathlib.Core.List.{append_assoc}
use cycles_ap2_python.Base.{
  ◌<>◌, ◌≤◌, String, Bool, Option, none, some, List, ◌≡◌, refl, sym, subst, ◌∙◌, ap, inl, inr,
  Option-cases,
}
use cycles_ap2_python.Constants.{max_usd_micros}
use cycles_ap2_python.Builtins.{Builtins}
use cycles_ap2_python.Errors.{exception_name, Raised, commit_uncertain, foreign, Result, ok, err}
use cycles_ap2_python.Mandate.{Mandate}
use cycles_ap2_python.Mandate.Exact.{amount_micros_iff}
use cycles_ap2_python.Mapping.Bodies.{Context, CommitBody}
use cycles_ap2_python.Client.{Client, Reply, call, World}
use cycles_ap2_python.Guard.State.{St, new_guard, start}
use cycles_ap2_python.Guard.Admits.{Admits, Returns, enter-Returns}
use cycles_ap2_python.Guard.Exit.Settle.{Verdict, settled, unknown, refused, crashed, verdict}
use cycles_ap2_python.Guard.Exit.Price.{Priced, commit_body_of-Priced}
use cycles_ap2_python.Guard.Exit.Outcomes.{Follows, after_commit, handle_commit-Follows}
use cycles_ap2_python.Guard.{enter}
use mathlib.Core.Option.{some-injective}
use cycles_ap2_python.Guard.Reserve.{Enters, enter-Enters}
use cycles_ap2_python.Guard.Exit.{exit}
use cycles_ap2_python.Guard.Exit.Leave.{
  Ends, Backs, Tells-err, exit_of-clean, exit-Backs, exit-aborted,
}
use cycles_ap2_python.Guard.With.{Action, run_body, after_exit, leave, entered, run_with}
use cycles_ap2_python.Guard.With.Body.{Works, run_body-Works}
use cycles_ap2_python.Guard.With.Lifecycle.{
  Ready, Ready-Entered, Lifecycle, unsent, shut, failed, aborted, paid_for, uncertain, rejected,
  get_or-Bounded, estimate_amount, after_exit-state, after_exit-none, after_exit-some,
}

module _ {W : Type 0} (client : Client W) (b : Builtins) (m : Mandate) (c : Context)
    (emit_receipt : Bool) (actions : List Action) (w : World W) (read : Reply → Verdict) where
  -- With an exception of the body.
  pub Backs-failed :
      (x : Raised) (u : St W) (o : Result (Unit {0}) × St W)
      → Ready client b m c emit_receipt actions w (some x) u
      → Backs u ("ap2_guard_failed:" <> exception_name x) (exception_name x) o
      → Lifecycle client b m c emit_receipt actions w read (after_exit client b (some x) o)
  Backs-failed x u o r k =
      failed x u k.id (rw (after_exit-state, k.guard) k.reserved)
        (after_exit-some client b x o k.result) (rw (after_exit-state, k.guard) r.uncommitted)
        (Ready-Entered client b m c emit_receipt actions w (some x) u k.id r
          (some-injective r.opened.id k.id (sym r.opened.reserved ∙ k.reserved))
          (rw (after_exit-state, ← r.mandate) k.log))

  pub Backs-aborted :
      (reason : String) (u : St W) (o : Result (Unit {0}) × St W)
      → Ready client b m c emit_receipt actions w none u
      → u.guard.aborted_reason ≡ some reason
      → Backs u ("ap2_guard_aborted:" <> reason) "Aborted" o
      → Lifecycle client b m c emit_receipt actions w read (after_exit client b none o)
  Backs-aborted reason u o r given k =
      aborted reason u k.id (rw (after_exit-state, k.guard) k.reserved) given
        (subst Ends (sym (after_exit-none client b o)) k.result)
        (rw (after_exit-state, k.guard) r.uncommitted)
        (Ready-Entered client b m c emit_receipt actions w none u k.id r
          (some-injective r.opened.id k.id (sym r.opened.reserved ∙ k.reserved))
          (rw (after_exit-state, ← r.mandate) k.log))

  -- Without an exception and without an abort, by the verdict on the reply to the commit.
  pub Follows-Lifecycle :
      (v : Verdict) (u : St W) (r : Ready client b m c emit_receipt actions w none u)
      (body : CommitBody) (o : Result (Unit {0}) × St W)
      → u.guard.aborted_reason ≡ none
      → body.actual.amount ≤ max_usd_micros
      → read (after_commit client b r.opened.id body u).0 ≡ v
      → Follows client r.opened.id (after_commit client b r.opened.id body u).1 o v
      → Lifecycle client b m c emit_receipt actions w read (after_exit client b none o)
  unfolding call
  Follows-Lifecycle settled u r body o calm small told f =
      paid_for u r.opened.id body
        (rw after_exit-state (ap (λ g. g.reservation_id) f.guard ∙ r.opened.reserved)) calm told
        small (after_exit-none client b o ∙ f.result)
        (rw after_exit-state (ap (λ g. g.committed) f.guard))
        (Ready-Entered client b m c emit_receipt actions w none u r.opened.id r refl
          (rw after_exit-state (ap (λ x. x.log) f.world)))
  Follows-Lifecycle unknown u r body o calm small told f =
      uncertain (commit_uncertain f.0) u r.opened.id body
        (rw (after_exit-state, ap (λ t. t.guard) f.3) r.opened.reserved) calm (inl told) small
        (after_exit-none client b o ∙ f.1)
        (rw (after_exit-state, ap (λ t. t.guard) f.3) r.uncommitted)
        (Ready-Entered client b m c emit_receipt actions w none u r.opened.id r refl
          (rw after_exit-state (ap (λ t. t.world.log) f.3)))
  Follows-Lifecycle crashed u r body o calm small told f =
      uncertain (foreign f.0) u r.opened.id body
        (rw (after_exit-state, ap (λ t. t.guard) f.2) r.opened.reserved) calm (inr told) small
        (after_exit-none client b o ∙ f.1)
        (rw (after_exit-state, ap (λ t. t.guard) f.2) r.uncommitted)
        (Ready-Entered client b m c emit_receipt actions w none u r.opened.id r refl
          (rw after_exit-state (ap (λ t. t.world.log) f.2)))
  Follows-Lifecycle refused u r body o calm small told f =
      let (e, raised) = Tells-err r.opened.id _ o.0 f.2.1 in
      rejected e u r.opened.id body f.0
        (rw (after_exit-state, ap (λ t. t.guard) f.2.0) r.opened.reserved) calm told small
        (after_exit-none client b o ∙ raised)
        (rw (after_exit-state, ap (λ t. t.guard) f.2.0) r.uncommitted)
        (Ready-Entered client b m c emit_receipt actions w none u r.opened.id r refl
          (rw after_exit-state (ap (λ t. t.world.log) f.2.0 ∙ append_assoc u.world.log _ _)))

  -- The amount of the commit is one that the protocol allows.
  pub commit-small :
      (u : St W) (r : Ready client b m c emit_receipt actions w none u)
      (p : Priced b u.guard r.opened.amount)
      → p.body.actual.amount ≤ max_usd_micros
  commit-small u r p =
      let fits =
        ((amount_micros_iff b u.guard.mandate r.opened.amount).0 r.opened.priced).in_range in
      rw p.amount (get_or-Bounded u.guard.actual_micros r.opened.amount fits r.bounded)

  -- From an admitted guard, through the body.
  pub body-Ready :
      (t u : St W) (e : Option Raised)
      → Admits client b (start m c emit_receipt w) t
      → run_body b actions t ≡ (e, u)
      → Ready client b m c emit_receipt actions w e u
  unfolding new_guard call
  body-Ready t u e a ran =
      let k = subst (λ x. Works t x.1) ran (run_body-Works b actions t) in
      let (n, priced) = estimate_amount b m _ c refl a.built in
      let same : u.guard.mandate ≡ m = k.mandate ∙ ap (λ x. x.guard.mandate) a.state in
      record {
        before = t;
        admits = a;
        ran = ran;
        charges = k.charges;
        paid = k.paid;
        opened = record {
          id = a.id;
          reserved = k.reservation_id ∙ ap (λ x. x.guard.reservation_id) a.state;
          decision = a.result.decision;
          decided = k.decision ∙ ap (λ x. x.guard.decision) a.state;
          amount = n;
          priced = rw same priced;
        };
        granted = refl;
        mandate = same;
        uncommitted = k.committed ∙ ap (λ x. x.guard.committed) a.state;
        bounded = k.bounded (rw a.state tt);
        log = k.log ∙ rw (ap (λ x. x.world.log) a.state, append_assoc);
      }

module _ {W : Type 0} (client : Client W) (b : Builtins) (m : Mandate) (c : Context)
    (emit_receipt : Bool) (actions : List Action) (w : World W) where
  finished :
      (u : St W) (r : Ready client b m c emit_receipt actions w none u)
      → u.guard.aborted_reason ≡ none
      → Lifecycle client b m c emit_receipt actions w verdict
          (after_exit client b none (exit client b none u))
  unfolding exit
  finished u r calm =
      let k = r.opened in
      let p = commit_body_of-Priced b u.guard k.amount k.priced r.bounded in
      rw
        (exit_of-clean client b u.guard.reservation_id k.id u.guard.aborted_reason u k.reserved
          calm)
        (Follows-Lifecycle client b m c emit_receipt actions w verdict _ u r p.body _ calm
          (commit-small client b m c emit_receipt actions w verdict u r p) refl
          (handle_commit-Follows client b k.id p.body u k.reserved p.built k))

  leave-Lifecycle :
      (e : Option Raised) (u : St W)
      → Ready client b m c emit_receipt actions w e u
      → Lifecycle client b m c emit_receipt actions w verdict (leave client b (e, u))
  unfolding leave
  leave-Lifecycle (some e) u r =
      Backs-failed client b m c emit_receipt actions w verdict e u _ r
        (exit-Backs client b e u r.opened)
  leave-Lifecycle none u r = elim (Option-cases u.guard.aborted_reason) [
    | inl calm ↦ finished u r calm
    | inr (reason, given) ↦
        Backs-aborted client b m c emit_receipt actions w verdict reason u _ r given
          (exit-aborted client b reason u r.opened given)
  ]

  entered-Lifecycle :
      (o : Result (Unit {0}) × St W)
      → Enters client b (start m c emit_receipt w) o
      → Returns (Admits client b (start m c emit_receipt w)) o
      → Lifecycle client b m c emit_receipt actions w verdict (entered client b actions o)
  unfolding entered new_guard
  entered-Lifecycle (err e, t) (s, inl log) a = unsent e refl (ap (λ g. g.committed) s.guard) log
  entered-Lifecycle (err e, t) (s, inr (r, built, log)) a =
      shut e r built refl (ap (λ g. g.committed) s.guard) log
  entered-Lifecycle (ok _, t) o a =
      leave-Lifecycle (run_body b actions t).0 (run_body b actions t).1
        (body-Ready client b m c emit_receipt actions w verdict t _ _ a refl)

  -- Whatever the body, the server and the network do, a `with` goes one of these ways. It raises
  -- and has called nothing (`unsent`), or has made one reservation, with the body for the mandate,
  -- and no payment (`shut`). Or the guard is admitted: the run is a real one, and the server has
  -- answered its one reservation, made before every payment, with a success that does not deny and
  -- gives the id that is committed or released in the end. Then, where the body raises, the
  -- reservation is released once, with the reason and the key of that exception, and the `with`
  -- raises that exception or what is no `Exception` and has stopped the release (`failed`); where
  -- the body has ended with an abort, it is released once, for that reason, and the `with` returns,
  -- unless what is no `Exception` stopped the release (`aborted`); and where the body has ended
  -- without an abort, it is committed once, for at most 2 ^ 63 - 1 micro-cents. If the reply is a
  -- success, the guard is committed and nothing is raised (`paid_for`); if the outcome is unknown or
  -- the call was stopped, the `with` raises and calls nothing more (`uncertain`); and only if the
  -- server has refused, it raises with one release behind the commit (`rejected`). In all ways but
  -- `paid_for` the guard is not committed.
  pub run_with-Lifecycle :
      Lifecycle client b m c emit_receipt actions w verdict
        (run_with client b m c emit_receipt actions w)
  unfolding run_with
  run_with-Lifecycle =
      let s = start m c emit_receipt w in
      entered-Lifecycle (enter client b s) (enter-Enters client b s) (enter-Returns client b s)
