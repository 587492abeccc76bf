-- ===== src/Guard/Entry.antt =====
-- How `__enter__` of runcycles_ap2/guard.py ends: with an open guard, or with which exception.
use cycles_ap2_python.Base.{String, Bool, true, false, Option, none, some, ◌≡◌, refl}
use cycles_ap2_python.Builtins.{Builtins}
use cycles_ap2_python.Errors.{
  Exc, Raised, GuardDenied, guard_denied, DryRunResult, dry_run_result, foreign, Result, ok, err,
}
use cycles_ap2_python.Mapping.{build_reservation_body}
use cycles_ap2_python.Mapping.Bodies.{ReservationBody}
use cycles_ap2_python.Client.{
  Client, create_reservation, call, Reply, raised, returned, Response, CreateResult,
}
use cycles_ap2_python.Guard.State.{St, with_guard, with_world}
use cycles_ap2_python.Guard.{request_of, conclude, parsed, responded, opened, reserve, enter}
use cycles_ap2_python.Guard.Admits.{Admits}

module _ {W : Type 0} (client : Client W) (b : Builtins) where
  -- The state after the call to reserve.
  abbrev pub asked : St W → ReservationBody → St W
  asked s body = with_world s (call client (create_reservation body) s.world).1

  -- That state, with the decision of the reply.
  abbrev pub decided : St W → ReservationBody → CreateResult → St W
  decided s body r =
      with_guard (asked s body) (record (asked s body).guard { decision = some r.decision })

  -- The body for the mandate is built, and the call to reserve it is answered.
  pub record Answers (s : St W) (body : ReservationBody) (reply : Reply) : Type 0 where
    pub built : build_reservation_body b s.guard.mandate s.guard.context ≡ ok body
    pub replied : (client.send s.world.server (create_reservation body)).0 ≡ reply

  -- The answer is a success that can be read.
  pub record Reads (s : St W) (body : ReservationBody) (r : CreateResult) : Type 0 where
    pub response : Response
    pub answers : Answers s body (returned response)
    pub success : response.is_success ≡ true
    pub valid : client.model_validate response.body ≡ ok r

  -- What `__enter__` raises, why, and the state it leaves.
  pub data Turns (s : St W) : Raised → St W → Type 0 where
    unbuilt :
        (e : Raised)
        → build_reservation_body b s.guard.mandate s.guard.context ≡ err e
        → Turns s e s
    lost :
        (body : ReservationBody) (e : Exc)
        → Answers s body (raised e)
        → Turns s (foreign e) (asked s body)
    refused :
        (body : ReservationBody) (r : Response) (d : GuardDenied)
        → Answers s body (returned r)
        → r.is_success ≡ false
        → d.reason_code ≡ elim r.error [ none ↦ none | some e ↦ e.error ]
        → d.request_id ≡ request_of r
        → Turns s (guard_denied d) (asked s body)
    unread :
        (body : ReservationBody) (r : Response) (e : Raised)
        → Answers s body (returned r)
        → r.is_success ≡ true
        → client.model_validate r.body ≡ err e
        → Turns s e (asked s body)
    denied :
        (body : ReservationBody) (r : CreateResult) (d : GuardDenied)
        → Reads s body r
        → r.denied ≡ true
        → d.reason_code ≡ r.reason_code
        → Turns s (guard_denied d) (decided s body r)
    told :
        (body : ReservationBody) (r : CreateResult) (d : DryRunResult)
        → Reads s body r
        → r.denied ≡ false
        → s.guard.context.dry_run ≡ true
        → d.decision ≡ r.decision
        → d.reason_code ≡ r.reason_code
        → Turns s (dry_run_result d) (decided s body r)
    unnamed :
        (body : ReservationBody) (r : CreateResult) (d : GuardDenied)
        → Reads s body r
        → r.denied ≡ false
        → s.guard.context.dry_run ≡ false
        → r.reservation_id ≡ none
        → d.reason_code ≡ r.reason_code
        → Turns s (guard_denied d) (decided s body r)

  -- It returns in a state that it admits, or raises as above.
  abbrev pub Ends : St W → Result (Unit {0}) × St W → Type 0
  Ends s (ok _, t) = Admits client b s t
  Ends s (err e, t) = Turns s e t

  conclude-Ends :
      (s : St W) (body : ReservationBody) (r : CreateResult) (verdict dry : Bool)
      (id : Option String)
      → Reads s body r
      → r.denied ≡ verdict
      → s.guard.context.dry_run ≡ dry
      → r.reservation_id ≡ id
      → Ends s (conclude r verdict dry id (decided s body r))
  unfolding conclude
  conclude-Ends s body r true dry id reads allow kind named = denied body r _ reads allow refl
  conclude-Ends s body r false true id reads allow kind named =
      told body r _ reads allow kind refl refl
  conclude-Ends s body r false false none reads allow kind named =
      unnamed body r _ reads allow kind named refl
  conclude-Ends s body r false false (some id) reads allow kind named = record {
    body = body;
    response = reads.response;
    result = r;
    id = id;
    built = reads.answers.built;
    replied = reads.answers.replied;
    success = reads.success;
    valid = reads.valid;
    allowed = allow;
    real = kind;
    named = named;
    state = refl;
  }

  parsed-Ends :
      (s : St W) (body : ReservationBody) (x : Response) (p : Result CreateResult)
      → Answers s body (returned x)
      → x.is_success ≡ true
      → client.model_validate x.body ≡ p
      → Ends s (parsed client b p (asked s body))
  unfolding parsed
  parsed-Ends s body x (err e) answers success h = unread body x e answers success h
  parsed-Ends s body x (ok r) answers success h =
      let reads : Reads s body r = record {
        response = x;
        answers = answers;
        success = success;
        valid = h;
      } in
      conclude-Ends s body r _ _ _ reads refl refl refl

  responded-Ends :
      (s : St W) (body : ReservationBody) (x : Response) (success : Bool)
      → Answers s body (returned x)
      → x.is_success ≡ success
      → Ends s (responded client b success x (asked s body))
  unfolding responded
  responded-Ends s body x true answers h = parsed-Ends s body x _ answers h refl
  responded-Ends s body x false answers h = refused body x _ answers h refl refl

  opened-Ends :
      (s : St W) (body : ReservationBody) (reply : Reply)
      → Answers s body reply
      → Ends s (opened client b reply (asked s body))
  unfolding opened
  opened-Ends s body (raised e) answers = lost body e answers
  opened-Ends s body (returned x) answers = responded-Ends s body x _ answers refl

  reserve-Ends :
      (s : St W) (p : Result ReservationBody)
      → build_reservation_body b s.guard.mandate s.guard.context ≡ p
      → Ends s (reserve client b p s)
  unfolding reserve
  reserve-Ends s (err e) h = unbuilt e h
  reserve-Ends s (ok body) h = opened-Ends s body _ (record { built = h; replied = refl })

  -- __enter__ returns in the state that an admission gives, or raises. Nothing is called where the
  -- body cannot be built. Otherwise one call is made, the reservation with the body for the
  -- mandate. Where that call raises, its exception escapes; a failure is AP2GuardDenied with the
  -- server's reason and request; a success that cannot be read raises what its reading raises; a
  -- denial is AP2GuardDenied, whatever dry_run is; else a dry run raises AP2DryRunResult with the
  -- decision and the reason code of the server, and a real run without a reservation's id raises
  -- AP2GuardDenied. Where the success can be read, the guard has its decision, and else nothing
  -- of the guard is changed.
  pub enter-Ends : (s : St W) → Ends s (enter client b s)
  unfolding enter
  enter-Ends s = reserve-Ends s _ refl
