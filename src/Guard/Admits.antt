-- ===== src/Guard/Admits.antt =====
-- When `__enter__` of runcycles_ap2/guard.py returns, and the state that it returns in.
use cycles_ap2_python.Base.{String, Bool, true, false, Option, none, some, ◌≡◌, ◌↔◌, refl, subst}
use cycles_ap2_python.Builtins.{Builtins}
use cycles_ap2_python.Errors.{Result, ok, err}
use cycles_ap2_python.Mapping.{build_reservation_body}
use cycles_ap2_python.Mapping.Bodies.{ReservationBody}
use cycles_ap2_python.Client.{
  Client, create_reservation, call, Reply, raised, returned, Response, CreateResult,
}
use cycles_ap2_python.Guard.State.{St, with_guard, with_world}
use cycles_ap2_python.Guard.{conclude, parsed, responded, opened, reserve, enter}

module _ {W : Type 0} where
  -- The state after an allowed reservation.
  abbrev pub admitted : St W → CreateResult → String → St W
  admitted s r id =
      with_guard s (record s.guard { decision = some r.decision; reservation_id = some id })

  -- A predicate of the state, where a method has returned.
  abbrev pub Returns : (St W → Type 0) → Result (Unit {0}) × St W → Type 0
  Returns P (ok _, t) = P t
  Returns P (err e, t) = Unit

module _ {W : Type 0} (client : Client W) (b : Builtins) where
  -- The body can be built, its call is answered with a success that can be read, which allows the
  -- payment and names a reservation, and the run is a real one. `t` is the state after that.
  pub record Admits (s t : St W) : Type 0 where
    pub body : ReservationBody
    pub response : Response
    pub result : CreateResult
    pub id : String
    pub built : build_reservation_body b s.guard.mandate s.guard.context ≡ ok body
    pub replied : (client.send s.world.server (create_reservation body)).0 ≡ returned response
    pub success : response.is_success ≡ true
    pub valid : client.model_validate response.body ≡ ok result
    pub allowed : result.denied ≡ false
    pub real : s.guard.context.dry_run ≡ false
    pub named : result.reservation_id ≡ some id
    pub state :
        t ≡ admitted (with_world s (call client (create_reservation body) s.world).1) result id

  conclude-Returns :
      (P : St W → Type 0) (r : CreateResult) (denied dry : Bool) (o : Option String) (s : St W)
      → (denied ≡ false → dry ≡ false → (id : String) → o ≡ some id → P (admitted s r id))
      → Returns P
          (conclude r denied dry o (with_guard s (record s.guard { decision = some r.decision })))
  unfolding conclude
  conclude-Returns P r true dry o s h = tt
  conclude-Returns P r false true o s h = tt
  conclude-Returns P r false false none s h = tt
  conclude-Returns P r false false (some id) s h = h refl refl id refl

  parsed-Returns :
      (P : St W → Type 0) (p : Result CreateResult) (s : St W)
      → ((r : CreateResult)
          → p ≡ ok r
          → r.denied ≡ false
          → s.guard.context.dry_run ≡ false
          → (id : String) → r.reservation_id ≡ some id
          → P (admitted s r id))
      → Returns P (parsed client b p s)
  unfolding parsed
  parsed-Returns P (err e) s h = tt
  parsed-Returns P (ok r) s h = conclude-Returns P r _ _ _ s (h r refl)

  responded-Returns :
      (P : St W → Type 0) (success : Bool) (x : Response) (s : St W)
      → (success ≡ true
          → (r : CreateResult) → client.model_validate x.body ≡ ok r
          → r.denied ≡ false
          → s.guard.context.dry_run ≡ false
          → (id : String) → r.reservation_id ≡ some id
          → P (admitted s r id))
      → Returns P (responded client b success x s)
  unfolding responded
  responded-Returns P true x s h = parsed-Returns P _ s (h refl)
  responded-Returns P false x s h = tt

  opened-Returns :
      (P : St W → Type 0) (reply : Reply) (s : St W)
      → ((x : Response)
          → reply ≡ returned x
          → x.is_success ≡ true
          → (r : CreateResult) → client.model_validate x.body ≡ ok r
          → r.denied ≡ false
          → s.guard.context.dry_run ≡ false
          → (id : String) → r.reservation_id ≡ some id
          → P (admitted s r id))
      → Returns P (opened client b reply s)
  unfolding opened
  opened-Returns P (raised e) s h = tt
  opened-Returns P (returned x) s h = responded-Returns P x.is_success x s (h x refl)

  reserve-Returns :
      (p : Result ReservationBody) (s : St W)
      → build_reservation_body b s.guard.mandate s.guard.context ≡ p
      → Returns (Admits s) (reserve client b p s)
  unfolding reserve call
  reserve-Returns (err e) s built = tt
  reserve-Returns (ok body) s built =
      let (reply, w) = call client (create_reservation body) s.world in
      opened-Returns (Admits s) reply (with_world s w)
        (λ x replied success r valid allowed real id named. record {
          body = body;
          response = x;
          result = r;
          id = id;
          built = built;
          replied = replied;
          success = success;
          valid = valid;
          allowed = allowed;
          real = real;
          named = named;
          state = refl;
        })

  pub enter-Returns : (s : St W) → Returns (Admits s) (enter client b s)
  unfolding enter
  enter-Returns s = reserve-Returns _ s refl

  -- The other way: each test goes through.
  admitted-enter : (s t : St W) → Admits s t → enter client b s ≡ (ok tt, t)
  unfolding enter reserve opened responded parsed conclude call
  admitted-enter s t a =
      rw
        (
          a.state, a.built, reserve, a.replied, opened, a.success, responded, a.valid, parsed,
          a.allowed, a.real, a.named, conclude,
        )
        refl

  -- `__enter__` returns, and in the state `t`, exactly where `Admits` holds: the amount of the mandate
  -- is accepted, the call to reserve is answered with a success that can be read, the decision is no
  -- denial, the run is no dry run, and the reservation has an id. `t` has that id and the decision,
  -- and nothing else but the call is changed.
  pub enter_iff : (s t : St W) → (enter client b s ≡ (ok tt, t)) ↔ Admits s t
  enter_iff s t = (λ h. subst (Returns (Admits s)) h (enter-Returns s), admitted-enter s t)
