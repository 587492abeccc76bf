-- ===== src/Guard/With/Progress.antt =====
-- A `with` that nothing goes wrong in (runcycles_ap2/guard.py).
use mathlib.Core.Option
use cycles_ap2_python.Base.{
  ℕ, String, Bool, true, Option, none, some, List, [], ◌∷◌, ◌++◌, ◌≡◌, refl, ◌∙◌, sym, ap, subst,
}
use cycles_ap2_python.Builtins.{Builtins}
use cycles_ap2_python.Errors.{Result, ok}
use cycles_ap2_python.Mandate.{Mandate, amount_micros}
use cycles_ap2_python.Mapping.Bodies.{Context, CommitBody}
use cycles_ap2_python.Client.{Client, World, sent, call, commit_reservation, returned, Response}
use cycles_ap2_python.Guard.State.{St, start}
use cycles_ap2_python.Guard.{enter}
use cycles_ap2_python.Guard.Admits.{Admits, enter_iff}
use cycles_ap2_python.Guard.Exit.{
  exit, handle_commit, commit_of, send_commit, committing, answered, accept, commit_body_of,
}
use cycles_ap2_python.Guard.Exit.Settle.{IsOpen, verdict, settled, Committed}
use cycles_ap2_python.Guard.Exit.Outcomes.{
  IsOpen-same, Follows, after_commit, handle_commit-Follows,
}
use cycles_ap2_python.Guard.Exit.Price.{commit_body_of-Priced}
use cycles_ap2_python.Guard.Exit.Leave.{exit_of-clean}
use cycles_ap2_python.Guard.With.{Action, run_body, leave, entered, run_with}
use cycles_ap2_python.Guard.With.Body.{Bounded}
use cycles_ap2_python.Guard.Exit.Receipts.{Shown, accept-receipt}
use cycles_ap2_python.Guard.With.Lifecycle.{Ready, after_exit-none, after_exit-state}
use cycles_ap2_python.Guard.With.Lifecycle.Runs.{body-Ready}

-- A commit from this state is answered with a success.
abbrev pub Settles : {W : Type 0} → Client W → St W → Type 0
Settles client u =
    (id : String) (body : CommitBody)
    → (r : Response) × ((client.send u.world.server (commit_reservation id body)).0 ≡ returned r)
      × (r.is_success ≡ true)

verdict-settled : (r : Response) → r.is_success ≡ true → verdict (returned r) ≡ settled
unfolding verdict
verdict-settled r h = rw h refl

-- After the body, in the state `u`: the commit is sent and nothing is raised.
pub record Finishes {W : Type 0} (n : ℕ) (u : St W) (o : Result (Unit {0}) × St W) : Type 0 where
  pub id : String
  pub body : CommitBody
  pub reserved : u.guard.reservation_id ≡ some id
  pub amount : body.actual.amount ≡ Option.get_or u.guard.actual_micros n
  pub result : o.0 ≡ ok tt
  pub committed : o.1.guard.committed ≡ true
  pub log : o.1.world.log ≡ u.world.log ++ (sent (commit_reservation id body) ∷ [])
  pub receipt : u.guard.emit_receipt ≡ true → Shown u body.actual.amount id o

module _ {W : Type 0} (client : Client W) (b : Builtins) where
  -- The commit of an open guard, answered with a success, is what follows a success.
  commit_of-accept :
      (o : Option String) (id : String) (body : CommitBody) (x : Response) (s : St W)
      → o ≡ some id
      → commit_body_of b s.guard ≡ ok body
      → (client.send s.world.server (commit_reservation id body)).0 ≡ returned x
      → x.is_success ≡ true
      → commit_of client b o s ≡ accept client b (after_commit client b id body s).1
  unfolding commit_of send_commit committing answered call
  commit_of-accept o id body x s here built replied success =
      rw (here, commit_of, built, send_commit, replied, committing, success, answered) refl

  commit-Shown :
      (id : String) (body : CommitBody) (x : Response) (s : St W)
      → s.guard.reservation_id ≡ some id
      → commit_body_of b s.guard ≡ ok body
      → (client.send s.world.server (commit_reservation id body)).0 ≡ returned x
      → x.is_success ≡ true
      → Bounded s.guard.actual_micros
      → IsOpen b s
      → s.guard.emit_receipt ≡ true
      → Shown s body.actual.amount id (handle_commit client b s)
  unfolding handle_commit call
  commit-Shown id body x s here built replied success bounded k emits =
      let t = (after_commit client b id body s).1 in
      let r =
        accept-receipt client b id body t here built bounded (IsOpen-same client b s t k refl)
          emits in
      rw (commit_of-accept _ id body x s here built replied success)
        (record { receipt = r.receipt; kept = r.kept; tells = r.tells })

  commit-Committed :
      (m : Mandate) (c : Context) (emit_receipt : Bool) (actions : List Action) (w : World W)
      (u : St W) (r : Ready client b m c emit_receipt actions w none u)
      → Settles client u
      → (body : CommitBody) × (body.actual.amount
          ≡ Option.get_or u.guard.actual_micros r.opened.amount)
        × Committed (after_commit client b r.opened.id body u).1 (handle_commit client b u)
        × (u.guard.emit_receipt ≡ true
            → Shown u body.actual.amount r.opened.id (handle_commit client b u))
  unfolding call
  commit-Committed m c emit_receipt actions w u r agrees =
      let k = r.opened in
      let p = commit_body_of-Priced b u.guard k.amount k.priced r.bounded in
      let (x, replied, success) = agrees k.id p.body in
      let reply = after_commit client b k.id p.body u in
      let good : verdict reply.0 ≡ settled = ap verdict replied ∙ verdict-settled x success in
      (
        p.body,
        p.amount,
        subst (Follows client k.id reply.1 (handle_commit client b u)) good
            (handle_commit-Follows client b k.id p.body u k.reserved p.built k),
        commit-Shown k.id p.body x u k.reserved p.built replied success r.bounded k,
      )

  exit-Finishes :
      (m : Mandate) (c : Context) (emit_receipt : Bool) (actions : List Action) (w : World W)
      (u : St W) (r : Ready client b m c emit_receipt actions w none u)
      → Settles client u
      → u.guard.aborted_reason ≡ none
      → Finishes r.opened.amount u (leave client b (none, u))
  unfolding leave exit call
  exit-Finishes m c emit_receipt actions w u r agrees calm =
      let (body, amount, done, receipt) = commit-Committed m c emit_receipt actions w u r agrees in
      let same =
        exit_of-clean client b u.guard.reservation_id r.opened.id u.guard.aborted_reason u
          r.opened.reserved calm in
      record {
        id = r.opened.id;
        body = body;
        reserved = r.opened.reserved;
        amount = amount;
        result = after_exit-none client b _ ∙ rw same done.result;
        committed = rw (after_exit-state, same) (ap (λ g. g.committed) done.guard);
        log = rw (after_exit-state, same) (ap (λ x. x.log) done.world);
        receipt = λ emits.
            let r = receipt emits in
            record {
              receipt = r.receipt;
              kept = rw (after_exit-state, same) r.kept;
              tells = r.tells;
            };
      }

  result_ok : (x y : ℕ) → ok x ≡ ok y → x ≡ y
  result_ok x y h = cc

  entered_leaves :
      (body : List Action) (s t u : St W)
      → enter client b s ≡ (ok tt, t)
      → run_body b body t ≡ (none, u)
      → entered client b body (enter client b s) ≡ leave client b (none, u)
  unfolding entered
  entered_leaves body s t u came ran = ap (entered client b body) came ∙ ap (leave client b) ran

  -- If the server admits the guard and settles its commit, and the body neither raises nor aborts,
  -- then the `with` does finish: it returns, the guard is committed, and after what the body has left
  -- (the state `u`) exactly one call is made, the commit of the reservation for the amount that the
  -- body has set, or else the mandate's. Where the guard emits receipts, it has a receipt of that
  -- amount and reservation, with the fields that the body has attached, but for a reference of the
  -- payment that is no text.
  pub run_with-Finishes :
      (m : Mandate) (c : Context) (emit_receipt : Bool) (body : List Action) (w : World W)
      (t u : St W) (n : ℕ)
      → Admits client b (start m c emit_receipt w) t
      → amount_micros b m ≡ ok n
      → run_body b body t ≡ (none, u)
      → u.guard.aborted_reason ≡ none
      → Settles client u
      → Finishes n u (run_with client b m c emit_receipt body w)
  unfolding run_with
  run_with-Finishes m c emit_receipt body w t u n a price ran calm agrees =
      let s = start m c emit_receipt w in
      let came = (enter_iff client b s t).1 a in
      let ready = body-Ready client b m c emit_receipt body w verdict t u none a ran in
      let f = exit-Finishes m c emit_receipt body w u ready agrees calm in
      let same =
        result_ok ready.opened.amount n (sym ready.opened.priced ∙ rw ready.mandate price) in
      rw (← same)
        (subst (Finishes ready.opened.amount u) (sym (entered_leaves body s t u came ran)) f)
