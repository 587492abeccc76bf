-- ===== src/AsyncGuard/Commit.antt =====
-- The asynchronous `_handle_commit` of runcycles_ap2/guard.py, by the reply.
use mathlib.Core.Option.{some-injective}
use cycles_ap2_python.Base.{String, ◌||◌, Option, none, some, ◌≡◌, ◌≢◌, refl}
use cycles_ap2_python.Builtins.{Builtins}
use cycles_ap2_python.Errors.{Kind, cancelled, ordinary, other_base, Exc, Result, ok, err}
use cycles_ap2_python.Mapping.Bodies.{CommitBody}
use cycles_ap2_python.Client.{Client, Call, call, commit_reservation, Reply, raised, returned}
use cycles_ap2_python.Guard.State.{St}
use cycles_ap2_python.Guard.{code_of, is_terminal}
use cycles_ap2_python.Guard.Exit.{
  commit_body_of, committing, commit_interrupted, commit_raised, handle_commit, send_commit,
  commit_of,
}
use cycles_ap2_python.Guard.Exit.Settle.{Verdict, unknown, crashed, verdict, IsOpen}
use cycles_ap2_python.Guard.Exit.Outcomes.{
  Follows, after_commit, answered-Follows, verdict-answered, IsOpen-same,
}
use cycles_ap2_python.AsyncGuard.Mirror.{aanswered-answered}
use cycles_ap2_python.AsyncGuard.{
  commit_cancelled, commit_stopped, commit_awaited, await_commit, await_commit_of,
  handle_commit_async,
}

unfoldable pub stopped_by : Kind → Verdict
stopped_by cancelled = unknown
stopped_by ordinary = unknown
stopped_by other_base = crashed

-- The reading of the reply, where a cancelled call tells as little as one that raised.
unfoldable pub async_verdict : Reply → Verdict
unfolding stopped_by verdict
async_verdict (raised e) = stopped_by e.kind
async_verdict (returned r) = verdict (returned r)

module _ {W : Type 0} (client : Client W) (b : Builtins) where
  stopped-Follows :
      (k : Kind) (id : String) (e : Exc) (s : St W)
      → Follows client id s (commit_stopped k id e s) (stopped_by k)
  unfolding commit_stopped commit_cancelled commit_raised stopped_by
  stopped-Follows cancelled id e s =
      (commit_cancelled s.guard.mandate.transaction_id id e, refl, refl, refl)
  stopped-Follows ordinary id e s =
      (commit_raised s.guard.mandate.transaction_id id e, refl, refl, refl)
  stopped-Follows other_base id e s = (e, refl, refl)

  awaited-Follows :
      (id : String) (reply : Reply) (s : St W)
      → IsOpen b s
      → Follows client id s (commit_awaited client b id reply s) (async_verdict reply)
  unfolding commit_awaited async_verdict
  awaited-Follows id (returned r) s h =
      rw (verdict-answered client b, aanswered-answered client b)
        (answered-Follows client b r.is_success (r.is_transport_error || r.is_server_error)
          (is_terminal (code_of r)) id r s h)
  awaited-Follows id (raised e) s h = stopped-Follows e.kind id e s

  await_commit_of-Follows :
      (o : Option String) (id : String) (body : CommitBody) (s : St W)
      → o ≡ some id
      → commit_body_of b s.guard ≡ ok body
      → IsOpen b s
      → (let (reply, t) = after_commit client b id body s in
          Follows client id t (await_commit_of client b o s) (async_verdict reply))
  unfolding await_commit_of await_commit
  await_commit_of-Follows none id body s e c h = cc
  await_commit_of-Follows (some j) id body s e c h =
      let (reply, t) = after_commit client b j body s in
      rw (← some-injective j id e)
        (rw c (awaited-Follows j reply t (IsOpen-same client b s t h refl)))

  -- For an open guard, the asynchronous `_handle_commit` sends one commit of its reservation, and
  -- then does by the reply what the synchronous one does, but that a cancelled call is of unknown
  -- outcome too: it raises `AP2GuardCommitUncertain`, releases nothing and changes nothing.
  pub handle_commit_async-Follows :
      (id : String) (body : CommitBody) (s : St W)
      → s.guard.reservation_id ≡ some id
      → commit_body_of b s.guard ≡ ok body
      → IsOpen b s
      → (let (reply, t) = after_commit client b id body s in
          Follows client id t (handle_commit_async client b s) (async_verdict reply))
  unfolding handle_commit_async
  handle_commit_async-Follows id body s e c h =
      await_commit_of-Follows s.guard.reservation_id id body s e c h

  stopped-interrupted :
      (k : Kind) (id : String) (e : Exc) (s : St W)
      → k ≢ cancelled
      → commit_stopped k id e s ≡ commit_interrupted k id e s
  unfolding commit_stopped commit_interrupted
  stopped-interrupted cancelled id e s h = absurd (h refl)
  stopped-interrupted ordinary id e s h = refl
  stopped-interrupted other_base id e s h = refl

  awaited-committing :
      (id : String) (reply : Reply) (s : St W)
      → ((e : Exc) → reply ≡ raised e → e.kind ≢ cancelled)
      → commit_awaited client b id reply s ≡ committing client b id reply s
  unfolding commit_awaited committing
  awaited-committing id (returned r) s h =
      aanswered-answered client b r.is_success (r.is_transport_error || r.is_server_error)
        (is_terminal (code_of r)) id r s
  awaited-committing id (raised e) s h = stopped-interrupted e.kind id e s (h e refl)

  await-send :
      (id : String) (body : Result CommitBody) (s : St W)
      → ((c : Call) (e : Exc) → (call client c s.world).0 ≡ raised e → e.kind ≢ cancelled)
      → await_commit client b id body s ≡ send_commit client b id body s
  unfolding await_commit send_commit
  await-send id (err e) s h = refl
  await-send id (ok body) s h = awaited-committing id _ _ (h (commit_reservation id body))

  await_of-send :
      (o : Option String) (s : St W)
      → ((c : Call) (e : Exc) → (call client c s.world).0 ≡ raised e → e.kind ≢ cancelled)
      → await_commit_of client b o s ≡ commit_of client b o s
  unfolding await_commit_of commit_of
  await_of-send none s h = refl
  await_of-send (some id) s h = await-send id _ s h

  -- Where no call from a state is cancelled, the asynchronous `_handle_commit` does in that state
  -- what the synchronous one does: the same result, the same guard and the same events.
  pub handle_commit_async-handle_commit :
      (s : St W)
      → ((c : Call) (e : Exc) → (call client c s.world).0 ≡ raised e → e.kind ≢ cancelled)
      → handle_commit_async client b s ≡ handle_commit client b s
  unfolding handle_commit_async handle_commit
  handle_commit_async-handle_commit s h = await_of-send s.guard.reservation_id s h
