-- ===== src/AsyncGuard/Moves.antt =====
-- How `__aexit__` of runcycles_ap2/guard.py moves the world: by calls only, as `__exit__` does.
use cycles_ap2_python.Base.{String, Option, none, some, ◌||◌}
use cycles_ap2_python.Builtins.{Builtins}
use cycles_ap2_python.Errors.{Kind, cancelled, ordinary, other_base, Exc, Raised, Result, ok, err}
use cycles_ap2_python.Mapping.Bodies.{CommitBody}
use cycles_ap2_python.Client.{Client, call, commit_reservation, Reply, raised, returned}
use cycles_ap2_python.Guard.State.{St, with_world}
use cycles_ap2_python.Guard.{is_terminal, code_of, handle_release}
use cycles_ap2_python.Guard.Exit.{commit_body_of}
use cycles_ap2_python.Guard.Evolves.{
  Evolves, Evolves-refl, Evolves-trans, called-Evolves, answered-Evolves, dropped-Evolves,
  release_of-Evolves,
}
use cycles_ap2_python.AsyncGuard.{
  commit_stopped, commit_awaited, await_commit, await_commit_of, handle_commit_async, aexit_of,
  aexit,
}
use cycles_ap2_python.AsyncGuard.Release.{ahandle_release}
use cycles_ap2_python.AsyncGuard.Mirror.{ahandle_release-handle_release, aanswered-answered}

module _ {W : Type 0} (client : Client W) (b : Builtins) where
  commit_stopped-Evolves :
      (k : Kind) (id : String) (e : Exc) (s : St W) → Evolves client s (commit_stopped k id e s).1
  unfolding commit_stopped
  commit_stopped-Evolves cancelled id e s = Evolves-refl client s
  commit_stopped-Evolves ordinary id e s = Evolves-refl client s
  commit_stopped-Evolves other_base id e s = Evolves-refl client s

  commit_awaited-Evolves :
      (id : String) (reply : Reply) (s : St W)
      → Evolves client s (commit_awaited client b id reply s).1
  unfolding commit_awaited
  commit_awaited-Evolves id (raised e) s = commit_stopped-Evolves e.kind id e s
  commit_awaited-Evolves id (returned r) s = rw (aanswered-answered client b) (
      answered-Evolves client b r.is_success (r.is_transport_error || r.is_server_error)
        (is_terminal (code_of r)) id r s)

  await_commit-Evolves :
      (id : String) (r : Result CommitBody) (s : St W)
      → Evolves client s (await_commit client b id r s).1
  unfolding await_commit
  await_commit-Evolves id (err e) s = Evolves-refl client s
  await_commit-Evolves id (ok body) s =
      let (reply, w) = call client (commit_reservation id body) s.world in
      Evolves-trans client s (with_world s w) _
        (called-Evolves client (commit_reservation id body) s)
        (commit_awaited-Evolves id reply (with_world s w))

  await_commit_of-Evolves :
      (o : Option String) (s : St W) → Evolves client s (await_commit_of client b o s).1
  unfolding await_commit_of
  await_commit_of-Evolves none s = Evolves-refl client s
  await_commit_of-Evolves (some id) s = await_commit-Evolves id (commit_body_of b s.guard) s

  ahandle_release-Evolves :
      (reason name : String) (s : St W)
      → Evolves client s (ahandle_release client b reason name s).1
  unfolding handle_release
  ahandle_release-Evolves reason name s =
      rw (ahandle_release-handle_release client b)
        (release_of-Evolves client b s.guard.reservation_id reason name s)

  aexit_of-Evolves :
      (o : Option String) (e : Option Raised) (aborted : Option String) (s : St W)
      → Evolves client s (aexit_of client b o e aborted s).1
  unfolding aexit_of handle_commit_async
  aexit_of-Evolves none e aborted s = Evolves-refl client s
  aexit_of-Evolves (some id) (some e) aborted s =
      dropped-Evolves client b s _ (ahandle_release-Evolves _ _ s)
  aexit_of-Evolves (some id) none (some reason) s =
      dropped-Evolves client b s _ (ahandle_release-Evolves _ _ s)
  aexit_of-Evolves (some id) none none s = await_commit_of-Evolves s.guard.reservation_id s

  -- `__aexit__` moves the world by calls only, and leaves the guard its reservation.
  pub aexit-Evolves : (e : Option Raised) (s : St W) → Evolves client s (aexit client b e s).1
  unfolding aexit
  aexit-Evolves e s = aexit_of-Evolves s.guard.reservation_id e s.guard.aborted_reason s
