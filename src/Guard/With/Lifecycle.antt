-- ===== src/Guard/With/Lifecycle.antt =====
-- All that a `with` can do, from the constructor of the guard to the end of `__exit__`: the calls and
-- payments in their order, what is raised, and whether the guard is committed.
pub mod Runs
use mathlib.Core.List.{append_assoc}
use mathlib.Core.Option
use cycles_ap2_python.Base.{
  ◌≢◌, ◌⊎◌, ℕ, ◌≤◌, String, ◌<>◌, Bool, true, false, Option, none, some, List, [], ◌∷◌, ◌++◌, ◌≡◌,
  refl, ◌∙◌, sym, ap, inl, inr, Option-cases,
}
use cycles_ap2_python.Constants.{max_usd_micros}
use cycles_ap2_python.Builtins.{Builtins}
use cycles_ap2_python.Errors.{ordinary, Exc, foreign, Raised, Result, ok, err, exception_name}
use cycles_ap2_python.Mandate.{Mandate, amount_micros}
use cycles_ap2_python.Mandate.Exact.{Accepted, amount_micros_iff}
use cycles_ap2_python.Mapping.{build_reservation_body, build_release_body, build_estimate}
use cycles_ap2_python.Mapping.Bodies.{Context, ReservationBody, CommitBody, ReleaseBody}
use cycles_ap2_python.Client.{
  Client, Reply, World, Event, sent, create_reservation, commit_reservation, release_reservation,
}
use cycles_ap2_python.Guard.State.{Guard, St, new_guard, start}
use cycles_ap2_python.Guard.Admits.{Admits}
use cycles_ap2_python.Guard.{enter}
use cycles_ap2_python.Guard.Reserve.{Opened, Enters, enter-Enters}
use cycles_ap2_python.Guard.Exit.{exit}
use cycles_ap2_python.Guard.Exit.Leave.{Ends}
use cycles_ap2_python.Guard.Exit.Settle.{IsOpen, Verdict, settled, unknown, refused, crashed}
use cycles_ap2_python.Guard.Exit.Leave.{
  Backs, Commits, good, unsure, bad, exit-Backs, exit-aborted, exit-Commits,
}
use cycles_ap2_python.Guard.With.{Action, run_body, after_exit, leave, entered, run_with}
use cycles_ap2_python.Guard.With.Body.{Charges, Bounded, Works, run_body-Works}

-- A release of the exception of the body, or of an abort.
abbrev pub after_failure : Mandate → Raised → ReleaseBody
after_failure m x =
    build_release_body m ("ap2_guard_failed:" <> exception_name x) (some (exception_name x))

abbrev pub after_abort : Mandate → String → ReleaseBody
after_abort m reason = build_release_body m ("ap2_guard_aborted:" <> reason) (some "Aborted")

module _ {W : Type 0} (client : Client W) (b : Builtins) (m : Mandate) (c : Context)
    (emit_receipt : Bool) (actions : List Action) (w : World W) where
  -- The guard was admitted, in the state `before`, and its body is over, in the state `u`: it has
  -- raised `e`, if anything. The events so far are the reservation and the payments of the body.
  pub record Ready (e : Option Raised) (u : St W) : Type 0 where
    pub before : St W
    pub admits : Admits client b (start m c emit_receipt w) before
    pub ran : run_body b actions before ≡ (e, u)
    pub charges : List Event
    pub paid : Charges charges
    pub opened : IsOpen b u
    pub granted : admits.id ≡ opened.id
    pub mandate : u.guard.mandate ≡ m
    pub uncommitted : u.guard.committed ≡ false
    pub bounded : Bounded u.guard.actual_micros
    pub log : u.world.log ≡ w.log ++ (sent (create_reservation admits.body) ∷ charges)

  -- A guard that was entered has made one reservation, which the server has granted with the id
  -- `id`; then the body was run, which has ended in the state `u` and raised `e`, if anything, and
  -- has made payments only; then there is `rest`.
  pub record Entered (e : Option Raised) (u : St W) (id : String) (log : List Event)
      (rest : List Event) : Type 0 where
    pub before : St W
    pub admits : Admits client b (start m c emit_receipt w) before
    pub ran : run_body b actions before ≡ (e, u)
    pub granted : admits.id ≡ id
    pub charges : List Event
    pub paid : Charges charges
    pub events : log ≡ w.log ++ (sent (create_reservation admits.body) ∷ charges ++ rest)

  -- The reply to a commit in the state `u` is read as a verdict.
  abbrev pub Replies : (Reply → Verdict) → St W → String → CommitBody → Verdict → Type 0
  Replies read u id body v = read (client.send u.world.server (commit_reservation id body)).0 ≡ v

  -- The ways that a `with` can go, for a reading of the reply to its commit.
  pub data Lifecycle (read : Reply → Verdict) (o : Result (Unit {0}) × St W) : Type 0 where
    unsent :
        (e : Raised)
        → o.0 ≡ err e
        → o.1.guard.committed ≡ false
        → o.1.world.log ≡ w.log
        → Lifecycle read o
    shut :
        (e : Raised) (body : ReservationBody)
        → build_reservation_body b m c ≡ ok body
        → o.0 ≡ err e
        → o.1.guard.committed ≡ false
        → o.1.world.log ≡ w.log ++ (sent (create_reservation body) ∷ [])
        → Lifecycle read o
    failed :
        (x : Raised) (u : St W) (id : String)
        → o.1.guard.reservation_id ≡ some id
        → (o.0 ≡ err x) ⊎ ((y : Exc) × (y.kind ≢ ordinary) × (o.0 ≡ err (foreign y)))
        → o.1.guard.committed ≡ false
        → Entered
            (some x)
            u
            id
            o.1.world.log
            (sent (release_reservation id (after_failure m x)) ∷ [])
        → Lifecycle read o
    aborted :
        (reason : String) (u : St W) (id : String)
        → o.1.guard.reservation_id ≡ some id
        → u.guard.aborted_reason ≡ some reason
        → Ends o.0
        → o.1.guard.committed ≡ false
        → Entered none u id o.1.world.log
            (sent (release_reservation id (after_abort m reason)) ∷ [])
        → Lifecycle read o
    paid_for :
        (u : St W) (id : String) (body : CommitBody)
        → o.1.guard.reservation_id ≡ some id
        → u.guard.aborted_reason ≡ none
        → Replies read u id body settled
        → body.actual.amount ≤ max_usd_micros
        → o.0 ≡ ok tt
        → o.1.guard.committed ≡ true
        → Entered none u id o.1.world.log (sent (commit_reservation id body) ∷ [])
        → Lifecycle read o
    uncertain :
        (e : Raised) (u : St W) (id : String) (body : CommitBody)
        → o.1.guard.reservation_id ≡ some id
        → u.guard.aborted_reason ≡ none
        → Replies read u id body unknown ⊎ Replies read u id body crashed
        → body.actual.amount ≤ max_usd_micros
        → o.0 ≡ err e
        → o.1.guard.committed ≡ false
        → Entered none u id o.1.world.log (sent (commit_reservation id body) ∷ [])
        → Lifecycle read o
    rejected :
        (e : Raised) (u : St W) (id : String) (body : CommitBody) (back : ReleaseBody)
        → o.1.guard.reservation_id ≡ some id
        → u.guard.aborted_reason ≡ none
        → Replies read u id body refused
        → body.actual.amount ≤ max_usd_micros
        → o.0 ≡ err e
        → o.1.guard.committed ≡ false
        → Entered none u id o.1.world.log
            (sent (commit_reservation id body) ∷ sent (release_reservation id back) ∷ [])
        → Lifecycle read o

  pub Ready-Entered :
      {log rest : List Event} (e : Option Raised) (u : St W) (id : String) (r : Ready e u)
      → r.opened.id ≡ id
      → log ≡ u.world.log ++ rest
      → Entered e u id log rest
  Ready-Entered e u id r same h = record {
    before = r.before;
    admits = r.admits;
    ran = r.ran;
    granted = r.granted ∙ same;
    charges = r.charges;
    paid = r.paid;
    events = h ∙ rw (r.log, append_assoc);
  }

pub get_or-Bounded :
    (o : Option ℕ) (n : ℕ) → n ≤ max_usd_micros → Bounded o → Option.get_or o n ≤ max_usd_micros
get_or-Bounded none n h bounded = h
get_or-Bounded (some k) n h bounded = bounded

-- A reservation is built only for a mandate that has an amount.
estimate_amount :
    (b : Builtins) (m : Mandate) (r : Result ℕ) {body : ReservationBody} (c : Context)
    → amount_micros b m ≡ r
    → build_reservation_body b m c ≡ ok body
    → (n : ℕ) × (amount_micros b m ≡ ok n)
unfolding build_reservation_body build_estimate
estimate_amount b m (ok n) c h built = (n, h)
estimate_amount b m (err e) c h built = cc (rw h at built)

module _ {W : Type 0} (client : Client W) (b : Builtins) where
  pub after_exit-state :
      (e : Option Raised) (o : Result (Unit {0}) × St W) → (after_exit client b e o).1 ≡ o.1
  unfolding after_exit
  after_exit-state e (err x, s) = refl
  after_exit-state none (ok _, s) = refl
  after_exit-state (some x) (ok _, s) = refl

  pub after_exit-none : (o : Result (Unit {0}) × St W) → (after_exit client b none o).0 ≡ o.0
  unfolding after_exit
  after_exit-none (err x, s) = refl
  after_exit-none (ok _, s) = refl

  -- What a `with` raises after an exception of its body: that, or what has stopped the release.
  pub after_exit-some :
      (x : Raised) (o : Result (Unit {0}) × St W)
      → Ends o.0
      → ((after_exit client b (some x) o).0 ≡ err x)
        ⊎ ((y : Exc) × (y.kind ≢ ordinary) × ((after_exit client b (some x) o).0 ≡ err (foreign y)))
  unfolding after_exit
  after_exit-some x (ok _, s) ends = inl refl
  after_exit-some x (err e, s) (inl h) = cc
  after_exit-some x (err e, s) (inr (y, kind, h)) = inr (y, kind, h)
