-- ===== src/Guard/Exit/Leave.antt =====
-- `__exit__` of runcycles_ap2/guard.py, for a guard that is open.
use mathlib.Core.Option
use mathlib.Core.Option.{some-injective}
use mathlib.Core.List.{append_assoc}
use cycles_ap2_python.Base.{
  arith, ◌≢◌, ◌⊎◌, inl, inr, ℕ, String, ◌<>◌, Bool, true, Option, none, some, [], ◌∷◌, ◌++◌, ◌≡◌,
  refl, ◌∙◌, sym, ap,
}
use cycles_ap2_python.Builtins.{Builtins}
use cycles_ap2_python.Errors.{
  Kind, cancelled, ordinary, other_base, Exc, Raised, commit_uncertain, commit_failed, foreign,
  Result, ok, err, exception_name,
}
use cycles_ap2_python.Mandate.{amount_micros}
use cycles_ap2_python.Mapping.{build_release_body}
use cycles_ap2_python.Mapping.Bodies.{CommitBody, ReleaseBody}
use cycles_ap2_python.Client.{
  Client, Reply, raised, returned, sent, call, commit_reservation, release_reservation,
}
use cycles_ap2_python.Guard.State.{St}
use cycles_ap2_python.Guard.{release, release_of, handle_release, released}
use cycles_ap2_python.Guard.Exit.{dropped, exit_of, exit, handle_commit}
use cycles_ap2_python.Guard.Exit.Settle.{
  Verdict, settled, unknown, refused, crashed, verdict, IsOpen,
}
use cycles_ap2_python.Guard.Exit.Price.{commit_body_of-Priced}
use cycles_ap2_python.Guard.Exit.Outcomes.{Follows, Tells, after_commit, handle_commit-Follows}
use cycles_ap2_python.Guard.With.Body.{Bounded}

-- A release does not raise an `Exception`: only another exception passes through it.
abbrev pub Stops : {A : Type 0} → Result A → Type 0
Stops (ok _) = Unit
Stops (err (foreign e)) = e.kind ≢ ordinary
Stops (err _) = ⊥

abbrev pub Ends : Result (Unit {0}) → Type 0
Ends r = (r ≡ ok tt) ⊎ ((e : Exc) × (e.kind ≢ ordinary) × (r ≡ err (foreign e)))

raised-Stops : (e : Exc) (k : Kind) → e.kind ≡ k → Stops (released (raised e))
unfolding released
raised-Stops e ordinary h = rw (h, released, Stops) tt
raised-Stops e cancelled h = rw (h, released, Stops) (λ same. cc (h, same))
raised-Stops e other_base h = rw (h, released, Stops) (λ same. cc (h, same))

released-Stops : (reply : Reply) → Stops (released reply)
unfolding released
released-Stops (raised e) = raised-Stops e e.kind refl
released-Stops (returned r) = ground arith

module _ {W : Type 0} where
  -- The reservation is released, with the key of the exception's name and the reason, and nothing
  -- of the guard is changed. The call may raise only what is no `Exception`.
  pub record Backs (s : St W) (reason exc_name : String) (o : Result (Unit {0}) × St W)
      : Type 0 where
    pub id : String
    pub reserved : s.guard.reservation_id ≡ some id
    pub guard : o.1.guard ≡ s.guard
    pub result : Ends o.0
    pub log :
        o.1.world.log
        ≡ s.world.log
          ++ (sent
                (release_reservation id (build_release_body s.guard.mandate reason (some exc_name)))
              ∷ [])

  -- The reservation is committed with `body`, and the outcome is known to be good, unknown, or a
  -- refusal with a release behind it.
  pub data Commits (s : St W) (body : CommitBody) (o : Result (Unit {0}) × St W) : Type 0 where
    good :
        (id : String)
        → s.guard.reservation_id ≡ some id
        → o.1.guard.reservation_id ≡ s.guard.reservation_id
        → o.0 ≡ ok tt
        → o.1.guard.committed ≡ true
        → o.1.world.log ≡ s.world.log ++ (sent (commit_reservation id body) ∷ [])
        → Commits s body o
    unsure :
        (id : String) (e : Raised)
        → s.guard.reservation_id ≡ some id
        → o.0 ≡ err e
        → o.1.guard ≡ s.guard
        → o.1.world.log ≡ s.world.log ++ (sent (commit_reservation id body) ∷ [])
        → Commits s body o
    bad :
        (id : String) (back : ReleaseBody) (e : Raised)
        → s.guard.reservation_id ≡ some id
        → o.0 ≡ err e
        → o.1.guard ≡ s.guard
        → o.1.world.log
          ≡ s.world.log
            ++ (sent (commit_reservation id body) ∷ sent (release_reservation id back) ∷ [])
        → Commits s body o

pub Tells-err :
    (id : String) (x : Result (Bool × Option String)) (r : Result (Unit {0}))
    → Tells id x r
    → (e : Raised) × (r ≡ err e)
Tells-err id (ok outcome) r t = (commit_failed t.0, t.1)
Tells-err id (err e) r t = (e, t)

module _ {W : Type 0} (client : Client W) (b : Builtins) where
  -- The log after the commit's call.
  pub Follows-Commits :
      (v : Verdict) (id : String) (body : CommitBody) (s : St W) (o : Result (Unit {0}) × St W)
      → s.guard.reservation_id ≡ some id
      → Follows client id (after_commit client b id body s).1 o v
      → Commits s body o
  unfolding call
  Follows-Commits settled id body s o h f =
      good id h (ap (λ g. g.reservation_id) f.guard) f.result (ap (λ g. g.committed) f.guard)
        (ap (λ w. w.log) f.world)
  Follows-Commits unknown id body s o h f =
      unsure id (commit_uncertain f.0) h f.1 (ap (λ t. t.guard) f.3) (ap (λ t. t.world.log) f.3)
  Follows-Commits refused id body s o h f =
      let (e, failed) = Tells-err id _ o.0 f.2.1 in
      bad id f.0 e h failed (ap (λ t. t.guard) f.2.0) (
        ap (λ t. t.world.log) f.2.0
        ∙ append_assoc s.world.log (sent (commit_reservation id body) ∷ [])
            (sent (release_reservation id f.0) ∷ []))
  Follows-Commits crashed id body s o h f =
      unsure id (foreign f.0) h f.1 (ap (λ t. t.guard) f.2) (ap (λ t. t.world.log) f.2)

  dropped-Backs :
      (x : Result (Bool × Option String)) (t s : St W) (id reason exc_name : String)
      → s.guard.reservation_id ≡ some id
      → t.guard ≡ s.guard
      → Stops x
      → t.world.log
        ≡ s.world.log
          ++ (sent
                (release_reservation id (build_release_body s.guard.mandate reason (some exc_name)))
              ∷ [])
      → Backs s reason exc_name (dropped client b (x, t))
  unfolding dropped
  dropped-Backs (ok outcome) t s id reason exc_name h g stops l = record {
    id = id;
    reserved = h;
    guard = g;
    result = inl refl;
    log = l;
  }
  dropped-Backs (err (foreign e)) t s id reason exc_name h g stops l = record {
    id = id;
    reserved = h;
    guard = g;
    result = inr (e, stops, refl);
    log = l;
  }
  dropped-Backs (err _) t s id reason exc_name h g stops l = absurd stops

  release_of-Backs :
      (o : Option String) (id reason exc_name : String) (s : St W)
      → o ≡ some id
      → s.guard.reservation_id ≡ some id
      → Backs s reason exc_name (dropped client b (release_of client b o reason exc_name s))
  unfolding release_of release call
  release_of-Backs none id reason exc_name s e h = cc
  release_of-Backs (some j) id reason exc_name s e h =
      dropped-Backs (released _) _ s j reason exc_name (h ∙ sym e) refl (released-Stops _) refl

  exit_of-failed :
      (o : Option String) (id : String) (e : Raised) (aborted : Option String) (s : St W)
      → o ≡ some id
      → s.guard.reservation_id ≡ some id
      → Backs s
          ("ap2_guard_failed:" <> exception_name e)
          (exception_name e)
          (exit_of client b o (some e) aborted s)
  unfolding exit_of handle_release
  exit_of-failed none id e aborted s h r = cc
  exit_of-failed (some j) id e aborted s h r = release_of-Backs s.guard.reservation_id id _ _ s r r

  exit_of-aborted :
      (o : Option String) (id reason : String) (aborted : Option String) (s : St W)
      → o ≡ some id
      → aborted ≡ some reason
      → s.guard.reservation_id ≡ some id
      → Backs s ("ap2_guard_aborted:" <> reason) "Aborted" (exit_of client b o none aborted s)
  unfolding exit_of handle_release
  exit_of-aborted none id reason aborted s h a r = cc
  exit_of-aborted (some j) id reason none s h a r = cc
  exit_of-aborted (some j) id reason (some given) s h a r =
      rw (← some-injective given reason a) (release_of-Backs s.guard.reservation_id id _ _ s r r)

  pub exit_of-clean :
      (o : Option String) (id : String) (aborted : Option String) (s : St W)
      → o ≡ some id
      → aborted ≡ none
      → exit_of client b o none aborted s ≡ handle_commit client b s
  unfolding exit_of
  exit_of-clean none id aborted s h a = cc
  exit_of-clean (some j) id none s h a = refl
  exit_of-clean (some j) id (some given) s h a = cc

  -- `__exit__` with an exception of the body, for an open guard: the reservation is released once,
  -- for the exception, and no commit is sent, and the guard is not changed. It returns, or the
  -- release was stopped by what is no `Exception` and that is passed on.
  pub exit-Backs :
      (e : Raised) (s : St W)
      → IsOpen b s
      → Backs s
          ("ap2_guard_failed:" <> exception_name e)
          (exception_name e)
          (exit client b (some e) s)
  unfolding exit
  exit-Backs e s h = exit_of-failed _ h.id e _ s h.reserved h.reserved

  -- `__exit__` with no exception, after `abort`: the reservation is released once, for the reason
  -- given, and no commit is sent, and the guard is not changed. It returns, or the release was
  -- stopped by what is no `Exception` and that is passed on.
  pub exit-aborted :
      (reason : String) (s : St W)
      → IsOpen b s
      → s.guard.aborted_reason ≡ some reason
      → Backs s ("ap2_guard_aborted:" <> reason) "Aborted" (exit client b none s)
  unfolding exit
  exit-aborted reason s h a = exit_of-aborted _ h.id reason _ s h.reserved a h.reserved

  -- `__exit__` with no exception and no abort: one commit is sent, of the amount that the body has
  -- set or else of the mandate's.
  pub exit-Commits :
      (n : ℕ) (s : St W)
      → IsOpen b s
      → amount_micros b s.guard.mandate ≡ ok n
      → Bounded s.guard.actual_micros
      → s.guard.aborted_reason ≡ none
      → (body : CommitBody) × (body.actual.amount ≡ Option.get_or s.guard.actual_micros n)
        × Commits s body (exit client b none s)
  unfolding exit
  exit-Commits n s h p bounded a =
      let c = commit_body_of-Priced b s.guard n p bounded in
      let same = exit_of-clean s.guard.reservation_id h.id s.guard.aborted_reason s h.reserved a in
      (
        c.body,
        c.amount,
        rw same (
            Follows-Commits (verdict (after_commit client b h.id c.body s).0) h.id c.body s
              (handle_commit client b s) h.reserved
              (handle_commit-Follows client b h.id c.body s h.reserved c.built h)),
      )
