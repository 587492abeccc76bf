-- ===== src/ConsumeOnce/Attempts.antt =====
-- One attempt at a payment at a server that keeps its promise (runcycles_ap2/guard.py).
pub mod Retries
use mathlib.Core.List.{append-nil, append_assoc}
use mathlib.Core.Option.{some-injective}
use cycles_ap2_python.Base.{
  String, Bool, Option, none, some, List, [], ◌∷◌, ◌++◌, truthy, ◌≡◌, refl, ◌∙◌, sym, ap, subst,
}
use cycles_ap2_python.Builtins.{Builtins}
use cycles_ap2_python.Errors.{Raised, Result, ok, err}
use cycles_ap2_python.Mandate.{Mandate}
use cycles_ap2_python.Mapping.{consume_once_input, idempotency_key}
use cycles_ap2_python.Mapping.Bodies.{Context}
use cycles_ap2_python.Mapping.Separation.{key_of_input}
use cycles_ap2_python.Client.{
  Client, Reply, World, Event, sent, charge, create_reservation, commit_reservation,
  release_reservation,
}
use cycles_ap2_python.Guard.State.{St, new_guard}
use cycles_ap2_python.Guard.{enter}
use cycles_ap2_python.Guard.With.{Action, run_body, leave, entered, run_with}
use cycles_ap2_python.Guard.With.Body.{Charges}
use cycles_ap2_python.Guard.With.Lifecycle.{
  Lifecycle, Entered, unsent, shut, failed, aborted, paid_for, uncertain, rejected,
}
use cycles_ap2_python.Guard.With.Lifecycle.Runs.{run_with-Lifecycle}
use cycles_ap2_python.Guard.Reserve.{Enters, enter-Enters, Shut}
use cycles_ap2_python.Guard.Exit.Settle.{Verdict, verdict}
use cycles_ap2_python.Guard.Evolves.{Evolves, Evolves-trans}
use cycles_ap2_python.Guard.Evolves.Runs.{run_body-Evolves, leave-Evolves, enter-Later}
use cycles_ap2_python.ConsumeOnce.{Honours, Later, now, Later-trans, Later-granted}
use cycles_ap2_python.ConsumeOnce.Grants.{Grants, enter-Grants}

none_ne_some : (id : String) → ◌≡◌ {A = Option String} none (some id) → ⊥
none_ne_some id h = cc

-- Every commit and release of the events is of a reservation that satisfies a predicate.
abbrev pub AllOf : (String → Type 0) → List Event → Type 0
AllOf P [] = Unit
AllOf P (sent (commit_reservation id body) ∷ es) = P id × AllOf P es
AllOf P (sent (release_reservation id back) ∷ es) = P id × AllOf P es
AllOf P (e ∷ es) = AllOf P es

pub AllOf-append :
    (P : String → Type 0) (xs ys : List Event) → AllOf P xs → AllOf P ys → AllOf P (xs ++ ys)
AllOf-append P [] ys hx hy = hy
AllOf-append P (sent (commit_reservation id body) ∷ xs) ys hx hy =
    (hx.0, AllOf-append P xs ys hx.1 hy)
AllOf-append P (sent (release_reservation id back) ∷ xs) ys hx hy =
    (hx.0, AllOf-append P xs ys hx.1 hy)
AllOf-append P (sent (create_reservation body) ∷ xs) ys hx hy = AllOf-append P xs ys hx hy
AllOf-append P (charge ∷ xs) ys hx hy = AllOf-append P xs ys hx hy

pub AllOf-imp :
    (P Q : String → Type 0) (es : List Event)
    → ((id : String) → P id → Q id)
    → AllOf P es
    → AllOf Q es
AllOf-imp P Q [] f h = tt
AllOf-imp P Q (sent (commit_reservation id body) ∷ es) f h = (f id h.0, AllOf-imp P Q es f h.1)
AllOf-imp P Q (sent (release_reservation id back) ∷ es) f h = (f id h.0, AllOf-imp P Q es f h.1)
AllOf-imp P Q (sent (create_reservation body) ∷ es) f h = AllOf-imp P Q es f h
AllOf-imp P Q (charge ∷ es) f h = AllOf-imp P Q es f h

AllOf-Charges :
    (P : String → Type 0) (charges rest : List Event)
    → Charges charges
    → AllOf P rest
    → AllOf P (charges ++ rest)
AllOf-Charges P [] rest paid h = h
AllOf-Charges P (charge ∷ more) rest paid h = AllOf-Charges P more rest paid h
AllOf-Charges P (sent c ∷ more) rest paid h = absurd paid

-- The events between two logs, all of whose commits and releases satisfy a predicate.
pub record Spends (P : String → Type 0) (before after : List Event) : Type 0 where
  pub events : List Event
  pub log : after ≡ before ++ events
  pub all : AllOf P events

module _ {W : Type 0} (client : Client W) (b : Builtins) (m : Mandate) (c : Context)
    (emit_receipt : Bool) (actions : List Action) (w : World W) (read : Reply → Verdict) where
  Entered-Spends :
      (P : String → Type 0) {e : Option Raised} {u : St W} {id : String} {log rest : List Event}
      → Entered client b m c emit_receipt actions w e u id log rest
      → AllOf P rest
      → Spends P w.log log
  Entered-Spends P {rest = rest} e h = record {
    events = sent (create_reservation e.admits.body) ∷ e.charges ++ rest;
    log = e.events;
    all = AllOf-Charges P e.charges rest e.paid h;
  }

  Lifecycle-Spends :
      (P : String → Type 0) (o : Result (Unit {0}) × St W)
      → ((id : String) → o.1.guard.reservation_id ≡ some id → P id)
      → Lifecycle client b m c emit_receipt actions w read o
      → Spends P w.log o.1.world.log
  Lifecycle-Spends P o own (unsent e raised uncommitted log) = record {
    events = [];
    log = rw (log, append-nil);
    all = tt;
  }
  Lifecycle-Spends P o own (shut e body built raised uncommitted log) = record {
    events = sent (create_reservation body) ∷ [];
    log = log;
    all = tt;
  }
  Lifecycle-Spends P o own (failed y u id here raised uncommitted x) =
      Entered-Spends P x (own id here, tt)
  Lifecycle-Spends P o own (aborted reason u id here given ends uncommitted x) =
      Entered-Spends P x (own id here, tt)
  Lifecycle-Spends P o own (paid_for u id body here calm told small fine committed x) =
      Entered-Spends P x (own id here, tt)
  Lifecycle-Spends P o own (uncertain e u id body here calm told small raised uncommitted x) =
      Entered-Spends P x (own id here, tt)
  Lifecycle-Spends P o own (rejected e u id body back here calm told small raised uncommitted x) =
      Entered-Spends P x (own id here, (own id here, tt))

module _ {W : Type 0} (client : Client W) (h : Honours client) (b : Builtins) where
  -- The reservation that a guard has at the end is the one that is granted.
  Held : Option String → String → Result (Unit {0}) × St W → Type 0
  Held tenant key o =
      (id : String)
      → o.1.guard.reservation_id ≡ some id
      → h.granted o.1.world.server tenant key ≡ some id

  entered-Held :
      (tenant : Option String) (key : String) (body : List Action) (s : St W)
      (o : Result (Unit {0}) × St W)
      → s.guard.reservation_id ≡ none
      → Enters client b s o
      → Grants client h tenant key o
      → Held tenant key (entered client b body o)
  unfolding entered Held
  entered-Held tenant key body s (err e, t) new x g = λ id here.
      absurd (none_ne_some id (sym new ∙ sym (ap (λ y. y.reservation_id) x.0.guard) ∙ here))
  entered-Held tenant key body s (ok _, t) new x g =
      let u = run_body b body t in
      let v =
        Evolves-trans client t u.1 _ (run_body-Evolves client b body t)
          (leave-Evolves client b u.0 u.1) in
      λ id here.
        let same = some-injective g.0 id (sym g.1 ∙ sym v.reservation_id ∙ here) in
        Later-granted h tenant key id v.later (rw (← same) g.2)

  entered-Later :
      (body : List Action) (o : Result (Unit {0}) × St W)
      → Later client o.1.world (entered client b body o).1.world
  unfolding entered
  entered-Later body (err e, t) = now
  entered-Later body (ok _, t) =
      let u = run_body b body t in
      (Evolves-trans client t u.1 _ (run_body-Evolves client b body t)
        (leave-Evolves client b u.0 u.1)).later

  run_with-Held :
      (m : Mandate) (c : Context) (emit_receipt : Bool) (body : List Action) (w : World W)
      → Held
          (truthy c.tenant)
          (idempotency_key m "reserve" none)
          (run_with client b m c emit_receipt body w)
  unfolding run_with new_guard
  run_with-Held m c emit_receipt body w =
      let s : St W = record { guard = new_guard m c emit_receipt; world = w } in
      entered-Held _ _ body s (enter client b s) refl (enter-Enters client b s)
        (enter-Grants client h b s)

  pub run_with-Later :
      (m : Mandate) (c : Context) (emit_receipt : Bool) (body : List Action) (w : World W)
      → Later client w (run_with client b m c emit_receipt body w).1.world
  unfolding run_with new_guard
  run_with-Later m c emit_receipt body w =
      let s : St W = record { guard = new_guard m c emit_receipt; world = w } in
      Later-trans (enter-Later client b s) (entered-Later body (enter client b s))

  -- One attempt: what it commits and releases is the reservation that is granted after it.
  pub run_with-Spends :
      (m : Mandate) (c : Context) (emit_receipt : Bool) (body : List Action) (w : World W)
      → (let w' = (run_with client b m c emit_receipt body w).1.world in
          Spends
            (λ id.
              h.granted w'.server (truthy c.tenant) (idempotency_key m "reserve" none) ≡ some id)
            w.log
            w'.log)
  unfolding Held
  run_with-Spends m c emit_receipt body w =
      Lifecycle-Spends client b m c emit_receipt body w verdict _ _
        (run_with-Held m c emit_receipt body w)
        (run_with-Lifecycle client b m c emit_receipt body w)
