-- ===== src/Guard/Reserve.antt =====
-- `__enter__` of runcycles_ap2/guard.py: what it leaves of the guard and what it calls.
use cycles_ap2_python.Base.{
  String, Bool, true, false, Option, none, some, [], ◌∷◌, ◌++◌, ◌≡◌, ◌⊎◌, inl, inr, refl,
}
use cycles_ap2_python.Builtins.{Builtins}
use cycles_ap2_python.Errors.{Result, ok, err}
use cycles_ap2_python.Mapping.{build_reservation_body}
use cycles_ap2_python.Mapping.Bodies.{ReservationBody}
use cycles_ap2_python.Client.{
  Client, sent, call, create_reservation, Reply, raised, returned, Response, CreateResult,
}
use cycles_ap2_python.Guard.State.{St, with_guard, with_world}
use cycles_ap2_python.Guard.{conclude, parsed, responded, opened, reserve, enter}

module _ {W : Type 0} where
  -- The guard is open: it has a reservation's id and a decision, and is no dry run.
  pub record Opened (s t : St W) : Type 0 where
    pub id : String
    pub verdict : String
    pub real : s.guard.context.dry_run ≡ false
    pub guard : t.guard ≡ record s.guard { decision = some verdict; reservation_id = some id }

  -- The guard is as it was, but perhaps for the decision.
  pub record Shut (s t : St W) : Type 0 where
    pub verdict : Option String
    pub guard : t.guard ≡ record s.guard { decision = verdict }

  -- What a step of `__enter__` leaves, by how it ended.
  abbrev pub Opens : St W → Result (Unit {0}) × St W → Type 0
  Opens s (ok _, t) = Opened s t × (t.world ≡ s.world)
  Opens s (err _, t) = Shut s t × (t.world ≡ s.world)

  conclude-Opens :
      (r : CreateResult) (denied dry : Bool) (id : Option String) (s : St W)
      → s.guard.context.dry_run ≡ dry
      → Opens s
          (conclude r denied dry id (with_guard s (record s.guard { decision = some r.decision })))
  unfolding conclude
  conclude-Opens r true dry id s h = (record { verdict = some r.decision; guard = refl }, refl)
  conclude-Opens r false true id s h = (record { verdict = some r.decision; guard = refl }, refl)
  conclude-Opens r false false none s h = (record { verdict = some r.decision; guard = refl }, refl)
  conclude-Opens r false false (some id) s h =
      (record { id = id; verdict = r.decision; real = h; guard = refl }, refl)

  untouched : (s : St W) → Shut s s
  untouched s = record { verdict = s.guard.decision; guard = refl }

module _ {W : Type 0} (client : Client W) (b : Builtins) where
  parsed-Opens : (r : Result CreateResult) (s : St W) → Opens s (parsed client b r s)
  unfolding parsed
  parsed-Opens (err e) s = (untouched s, refl)
  parsed-Opens (ok r) s = conclude-Opens r r.denied s.guard.context.dry_run r.reservation_id s refl

  responded-Opens :
      (success : Bool) (r : Response) (s : St W) → Opens s (responded client b success r s)
  unfolding responded
  responded-Opens true r s = parsed-Opens (client.model_validate r.body) s
  responded-Opens false r s = (untouched s, refl)

  opened-Opens : (r : Reply) (s : St W) → Opens s (opened client b r s)
  unfolding opened
  opened-Opens (raised e) s = (untouched s, refl)
  opened-Opens (returned r) s = responded-Opens r.is_success r s

  -- What `__enter__` as a whole leaves: an open guard after one reservation with the body for its
  -- mandate, or a shut one after at most that.
  abbrev pub Enters : St W → Result (Unit {0}) × St W → Type 0
  Enters s (ok _, t) =
      Opened s t
      × ((body : ReservationBody) × (build_reservation_body b s.guard.mandate s.guard.context
            ≡ ok body)
          × (t.world.log ≡ s.world.log ++ (sent (create_reservation body) ∷ [])))
  Enters s (err _, t) =
      Shut s t
      × ((t.world.log ≡ s.world.log)
          ⊎ ((body : ReservationBody) × (build_reservation_body b s.guard.mandate s.guard.context
                ≡ ok body)
              × (t.world.log ≡ s.world.log ++ (sent (create_reservation body) ∷ []))))

  lift_call :
      (s s' : St W) (body : ReservationBody) (o : Result (Unit {0}) × St W)
      → s'.guard ≡ s.guard
      → build_reservation_body b s.guard.mandate s.guard.context ≡ ok body
      → s'.world.log ≡ s.world.log ++ (sent (create_reservation body) ∷ [])
      → Opens s' o
      → Enters s o
  lift_call s s' body (ok _, t) same built logged (o, w) = (
    record {
      id = o.id;
      verdict = o.verdict;
      real = rw (← same) o.real;
      guard = rw (← same) o.guard;
    },
    (body, built, rw w logged),
  )
  lift_call s s' body (err _, t) same built logged (o, w) =
      (record { verdict = o.verdict; guard = rw (← same) o.guard }, inr (body, built, rw w logged))

  reserve-Enters :
      (r : Result ReservationBody) (s : St W)
      → build_reservation_body b s.guard.mandate s.guard.context ≡ r
      → Enters s (reserve client b r s)
  unfolding reserve
  reserve-Enters (err e) s built = (untouched s, inl refl)
  reserve-Enters (ok body) s built =
      let (reply, w) = call client (create_reservation body) s.world in
      lift_call s (with_world s w) body _ refl built refl (opened-Opens reply (with_world s w))

  -- `__enter__` returns only for a real run, with a reservation's id and a decision set and
  -- nothing else of the guard changed, after exactly one call: the reservation with the body for
  -- the mandate. If it raises, the guard has no new reservation (only the decision may be set), and
  -- at most one reservation was asked for.
  pub enter-Enters : (s : St W) → Enters s (enter client b s)
  unfolding enter
  enter-Enters s = reserve-Enters _ s refl
