-- ===== src/Guard/With/Protocol.antt =====
-- The protocol between a guard of runcycles_ap2/guard.py, the server and the payee.
use mathlib.Core.List.{append-nil}
use cycles_ap2_python.Base.{
  true, false, Option, some, ◌∙◌, ap, ℕ, ◌+◌, ◌≤◌, String, Bool, List, [], ◌∷◌, ◌++◌, ◌≡◌, refl,
  arith,
}
use cycles_ap2_python.Builtins.{Builtins}
use cycles_ap2_python.Errors.{Raised, Result, ok}
use cycles_ap2_python.Mandate.{Mandate}
use cycles_ap2_python.Mapping.Bodies.{Context, ReservationBody, CommitBody, ReleaseBody}
use cycles_ap2_python.Client.{
  Client, Reply, returned, Response, CreateResult, World, Event, sent, charge, create_reservation,
  commit_reservation, release_reservation,
}
use cycles_ap2_python.Guard.State.{St}
use cycles_ap2_python.Guard.Exit.Settle.{Verdict, verdict}
use cycles_ap2_python.Guard.With.{Action, run_with}
use cycles_ap2_python.Guard.With.Body.{Charges}
use cycles_ap2_python.Guard.With.Lifecycle.{
  Entered, Lifecycle, unsent, shut, failed, aborted, paid_for, uncertain, rejected,
}
use cycles_ap2_python.Guard.With.Lifecycle.Runs.{run_with-Lifecycle}

-- The server has answered a request to reserve, in the world `w`, with a success that can be read,
-- does not deny and gives the reservation of an id.
pub record Granted {W : Type 0} (client : Client W) (w : World W) (body : ReservationBody)
    (id : String) : Type 0 where
  pub response : Response
  pub result : CreateResult
  pub replied : (client.send w.server (create_reservation body)).0 ≡ returned response
  pub success : response.is_success ≡ true
  pub valid : client.model_validate response.body ≡ ok result
  pub allowed : result.denied ≡ false
  pub named : result.reservation_id ≡ some id

-- Nothing is reserved; the request to reserve has come to nothing; the reservation of an id is
-- granted; it is asked to be committed; it is released.
pub data Stage : Type 0 where
  fresh : Stage
  turned_away : Stage
  held : String → Stage
  spent : String → Stage
  given_back : Stage

-- A payment is made only while a reservation is held, which the server has granted, and it is that
-- reservation that is committed or released, also behind a commit.
pub data Step (Grants : ReservationBody → String → Type 0) : Stage → Event → Stage → Type 0 where
  reserve :
      (body : ReservationBody) (id : String)
      → Grants body id
      → Step Grants fresh (sent (create_reservation body)) (held id)
  lose : (body : ReservationBody) → Step Grants fresh (sent (create_reservation body)) turned_away
  spend : (id : String) → Step Grants (held id) charge (held id)
  settle :
      (id : String) (body : CommitBody)
      → Step Grants (held id) (sent (commit_reservation id body)) (spent id)
  drop :
      (id : String) (back : ReleaseBody)
      → Step Grants (held id) (sent (release_reservation id back)) given_back
  undo :
      (id : String) (back : ReleaseBody)
      → Step Grants (spent id) (sent (release_reservation id back)) given_back

-- Events in order, from one stage to another.
pub data Trace (Grants : ReservationBody → String → Type 0)
    : Stage → List Event → Stage → Type 0 where
  done : {s : Stage} → Trace Grants s [] s
  also :
      {s t u : Stage} (e : Event) (es : List Event)
      → Step Grants s e t
      → Trace Grants t es u
      → Trace Grants s (e ∷ es) u

Charges-Trace :
    (Grants : ReservationBody → String → Type 0) (id : String) (charges rest : List Event)
    (t : Stage)
    → Charges charges
    → Trace Grants (held id) rest t
    → Trace Grants (held id) (charges ++ rest) t
Charges-Trace G id [] rest t paid after = after
Charges-Trace G id (charge ∷ more) rest t paid after =
    also charge (more ++ rest) (spend id) (Charges-Trace G id more rest t paid after)
Charges-Trace G id (sent c ∷ more) rest t paid after = absurd paid

-- The new events of a log make a trace.
pub record KeepsTo (Grants : ReservationBody → String → Type 0) (before after : List Event)
    : Type 0 where
  pub events : List Event
  pub stage : Stage
  pub log : after ≡ before ++ events
  pub trace : Trace Grants fresh events stage

module _ {W : Type 0} (client : Client W) (b : Builtins) (m : Mandate) (c : Context)
    (emit_receipt : Bool) (actions : List Action) (w : World W) (read : Reply → Verdict) where
  Entered-KeepsTo :
      (e : Option Raised) (u : St W) (id : String) (log rest : List Event) (t : Stage)
      → Entered client b m c emit_receipt actions w e u id log rest
      → Trace (Granted client w) (held id) rest t
      → KeepsTo (Granted client w) w.log log
  Entered-KeepsTo e u id log rest t h after =
      let a = h.admits in
      record {
        events = sent (create_reservation a.body) ∷ h.charges ++ rest;
        stage = t;
        log = h.events;
        trace =
            also (sent (create_reservation a.body)) (h.charges ++ rest)
              (reserve a.body id (record {
                response = a.response;
                result = a.result;
                replied = a.replied;
                success = a.success;
                valid = a.valid;
                allowed = a.allowed;
                named = a.named ∙ ap some h.granted;
              }))
              (Charges-Trace (Granted client w) id h.charges rest t h.paid after);
      }

  Lifecycle-KeepsTo :
      (o : Result (Unit {0}) × St W)
      → Lifecycle client b m c emit_receipt actions w read o
      → KeepsTo (Granted client w) w.log o.1.world.log
  Lifecycle-KeepsTo o (unsent e raised open_still log) = record {
    events = [];
    stage = fresh;
    log = rw (log, append-nil);
    trace = done;
  }
  Lifecycle-KeepsTo o (shut e body built raised uncommitted log) = record {
    events = sent (create_reservation body) ∷ [];
    stage = turned_away;
    log = log;
    trace = also _ [] (lose body) done;
  }
  Lifecycle-KeepsTo o (failed x u id here raised uncommitted h) =
      Entered-KeepsTo _ u id _ _ given_back h (also _ [] (drop id _) done)
  Lifecycle-KeepsTo o (aborted reason u id here given ends uncommitted h) =
      Entered-KeepsTo _ u id _ _ given_back h (also _ [] (drop id _) done)
  Lifecycle-KeepsTo o (paid_for u id body here calm told small fine committed h) =
      Entered-KeepsTo _ u id _ _ (spent id) h (also _ [] (settle id body) done)
  Lifecycle-KeepsTo o (uncertain e u id body here calm told small raised uncommitted h) =
      Entered-KeepsTo _ u id _ _ (spent id) h (also _ [] (settle id body) done)
  Lifecycle-KeepsTo o (rejected e u id body back here calm told small raised uncommitted h) =
      Entered-KeepsTo _ u id _ _ given_back h
        (also _ _ (settle id body) (also _ [] (undo id back) done))

-- How many of the events are of a kind.
abbrev pub creates : List Event → ℕ
creates [] = 0
creates (sent (create_reservation body) ∷ es) = 1 + creates es
creates (e ∷ es) = creates es

abbrev pub commits : List Event → ℕ
commits [] = 0
commits (sent (commit_reservation id body) ∷ es) = 1 + commits es
commits (e ∷ es) = commits es

abbrev pub releases : List Event → ℕ
releases [] = 0
releases (sent (release_reservation id back) ∷ es) = 1 + releases es
releases (e ∷ es) = releases es

-- What is left to do at a stage: reservations, commits and releases.
abbrev Left : Stage → List Event → Type 0
Left fresh es = (creates es ≤ 1) × (commits es ≤ 1) × (releases es ≤ 1)
Left turned_away es = (creates es ≡ 0) × (commits es ≡ 0) × (releases es ≡ 0)
Left (held id) es = (creates es ≡ 0) × (commits es ≤ 1) × (releases es ≤ 1)
Left (spent id) es = (creates es ≡ 0) × (commits es ≡ 0) × (releases es ≤ 1)
Left given_back es = (creates es ≡ 0) × (commits es ≡ 0) × (releases es ≡ 0)

Trace-Left :
    {Grants : ReservationBody → String → Type 0} {s t : Stage} (es : List Event)
    → Trace Grants s es t
    → Left s es
Trace-Left {s = fresh} [] done = (omega arith, omega arith, omega arith)
Trace-Left {s = turned_away} [] done = (refl, refl, refl)
Trace-Left {s = held id} [] done = (refl, omega arith, omega arith)
Trace-Left {s = spent id} [] done = (refl, refl, omega arith)
Trace-Left {s = given_back} [] done = (refl, refl, refl)
Trace-Left (e ∷ es) (also _ _ (reserve body id g) more) =
    let h = Trace-Left es more in (omega (arith, h.0), h.1, h.2)
Trace-Left (e ∷ es) (also _ _ (lose body) more) =
    let h = Trace-Left es more in (omega (arith, h.0), omega (arith, h.1), omega (arith, h.2))
Trace-Left (e ∷ es) (also _ _ (spend id) more) = Trace-Left es more
Trace-Left (e ∷ es) (also _ _ (settle id body) more) =
    let h = Trace-Left es more in (h.0, omega (arith, h.1), h.2)
Trace-Left (e ∷ es) (also _ _ (drop id back) more) =
    let h = Trace-Left es more in (h.0, omega (arith, h.1), omega (arith, h.2))
Trace-Left (e ∷ es) (also _ _ (undo id back) more) =
    let h = Trace-Left es more in (h.0, h.1, omega (arith, h.2))

module _ {W : Type 0} (client : Client W) (b : Builtins) (m : Mandate) (c : Context)
    (w : World W) where
  -- What a `with` adds to the log is a trace of the protocol from its start: every payment is made
  -- while a reservation is held, which the server has granted in its reply to the one request, by a
  -- success that does not deny; nothing is paid after a commit or a release, and only the
  -- reservation that was granted is committed or released.
  pub run_with-KeepsTo :
      (emit_receipt : Bool) (body : List Action)
      → KeepsTo (Granted client w) w.log (run_with client b m c emit_receipt body w).1.world.log
  run_with-KeepsTo emit_receipt body =
      Lifecycle-KeepsTo client b m c emit_receipt body w verdict _
        (run_with-Lifecycle client b m c emit_receipt body w)

  -- A `with` adds to the log at most one reservation, at most one commit and at most one release.
  pub run_with-once :
      (emit_receipt : Bool) (body : List Action)
      → (events : List Event) × ((run_with client b m c emit_receipt body w).1.world.log
          ≡ w.log ++ events)
        × (creates events ≤ 1)
        × (commits events ≤ 1)
        × (releases events ≤ 1)
  run_with-once emit_receipt body =
      let f = run_with-KeepsTo emit_receipt body in
      let left = Trace-Left f.events f.trace in (f.events, f.log, left.0, left.1, left.2)
