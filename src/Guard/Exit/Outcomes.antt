-- ===== src/Guard/Exit/Outcomes.antt =====
-- The outcome of `_handle_commit`, for each verdict on the reply.
use mathlib.Core.Option.{some-injective}
use cycles_ap2_python.Base.{
  String, Bool, true, false, ◌||◌, Option, none, some, ◌≡◌, refl, arith, if◌then◌else◌,
}
use cycles_ap2_python.Builtins.{Builtins}
use cycles_ap2_python.Errors.{
  Kind, cancelled, ordinary, other_base, Exc, CommitUncertain, CommitFailed, commit_uncertain,
  commit_failed, foreign, Result, ok, err,
}
use cycles_ap2_python.Mapping.{idempotency_key, build_release_body}
use cycles_ap2_python.Mapping.Bodies.{CommitBody, ReleaseBody}
use cycles_ap2_python.Client.{
  Client, call, commit_reservation, release_reservation, Reply, raised, returned, Response,
}
use cycles_ap2_python.Guard.State.{St, with_world}
use cycles_ap2_python.Guard.{code_of, is_terminal, released}
use cycles_ap2_python.Guard.Exit.{
  refusal_reason, commit_interrupted, commit_raised, lost_response, terminal_status, rejected,
  after_release, refuse, answered, committing, send_commit, commit_body_of, commit_of,
  handle_commit,
}
use cycles_ap2_python.Guard.Exit.Settle.{
  Verdict, settled, unknown, refused, crashed, verdict, by_kind, is_terminal-by_code, IsOpen,
  Committed, accept-Committed,
}

-- How the result tells of the release behind a refused commit: what came of it is in the
-- exception, unless the release itself was stopped by what is no `Exception`.
abbrev pub Tells : String → Result (Bool × Option String) → Result (Unit {0}) → Type 0
Tells id (ok outcome) r =
    (f : CommitFailed) × (r ≡ err (commit_failed f))
    × (f.reservation_id ≡ some id)
    × (f.released ≡ outcome.0)
    × (f.release_error ≡ outcome.1)
Tells id (err e) r = r ≡ err e

module _ {W : Type 0} (client : Client W) where
  -- What follows the reply to the commit of the reservation `id`, from the state that it came in.
  abbrev pub Follows : String → St W → Result (Unit {0}) × St W → Verdict → Type 0
  Follows id s o settled = Committed s o
  Follows id s o unknown =
      (u : CommitUncertain) × (o.0 ≡ err (commit_uncertain u))
      × (u.reservation_id ≡ some id)
      × (o.1 ≡ s)
  Follows id s o refused =
      (body : ReleaseBody) × (body.idempotency_key
        ≡ idempotency_key s.guard.mandate "release" (some "CommitRejected"))
      × (let (reply, w) = call client (release_reservation id body) s.world in
          (o.1 ≡ with_world s w) × Tells id (released reply) o.0)
  Follows id s o crashed = (e : Exc) × (o.0 ≡ err (foreign e)) × (o.1 ≡ s)

module _ {W : Type 0} (client : Client W) (b : Builtins) where
  after_release-Tells :
      (id : String) (r : Response) (x : Result (Bool × Option String)) (s : St W)
      → ((after_release client b id r (x, s)).1 ≡ s)
        × Tells id x (after_release client b id r (x, s)).0
  unfolding after_release rejected
  after_release-Tells id r (err e) s = (refl, refl)
  after_release-Tells id r (ok outcome) s =
      (refl, (rejected s.guard.mandate.transaction_id id r outcome, refl, refl, refl, refl))

  refuse-Follows :
      (id : String) (r : Response) (s : St W) → Follows client id s (refuse client b id r s) refused
  unfolding refuse build_release_body
  refuse-Follows id r s =
      let body = build_release_body s.guard.mandate (refusal_reason r) (some "CommitRejected") in
      (body, refl, after_release-Tells id r _ _)

  pub answered-Follows :
      (success lost terminal : Bool) (id : String) (r : Response) (s : St W)
      → IsOpen b s
      → Follows client id s (answered client b success lost terminal id r s) (
          if success
          then settled
          else if lost
          then unknown
          else if terminal
          then unknown
          else refused)
  unfolding answered lost_response terminal_status
  answered-Follows true lost terminal id r s h = accept-Committed client b s h
  answered-Follows false true terminal id r s h =
      (lost_response s.guard.mandate.transaction_id id r, refl, refl, refl)
  answered-Follows false false true id r s h =
      (terminal_status s.guard.mandate.transaction_id id r, refl, refl, refl)
  answered-Follows false false false id r s h = refuse-Follows id r s

  pub verdict-answered :
      (r : Response)
      → verdict (returned r) ≡ (
          if r.is_success
          then settled
          else if r.is_transport_error || r.is_server_error
          then unknown
          else if is_terminal (code_of r)
          then unknown
          else refused)
  unfolding verdict
  verdict-answered r = rw is_terminal-by_code (ground arith)

  pub interrupted-Follows :
      (k : Kind) (id : String) (e : Exc) (s : St W)
      → Follows client id s (commit_interrupted k id e s) (by_kind k)
  unfolding commit_interrupted commit_raised by_kind
  interrupted-Follows ordinary id e s =
      (commit_raised s.guard.mandate.transaction_id id e, refl, refl, refl)
  interrupted-Follows cancelled id e s = (e, refl, refl)
  interrupted-Follows other_base id e s = (e, refl, refl)

  committing-Follows :
      (id : String) (reply : Reply) (s : St W)
      → IsOpen b s
      → Follows client id s (committing client b id reply s) (verdict reply)
  unfolding committing
  committing-Follows id (returned r) s h = rw verdict-answered (
      answered-Follows r.is_success (r.is_transport_error || r.is_server_error)
        (is_terminal (code_of r)) id r s h)
  committing-Follows id (raised e) s h = unfold verdict in interrupted-Follows e.kind id e s

  pub IsOpen-same : (s t : St W) → IsOpen b s → t.guard ≡ s.guard → IsOpen b t
  IsOpen-same s t h e = record {
    id = h.id;
    reserved = rw e h.reserved;
    decision = h.decision;
    decided = rw e h.decided;
    amount = h.amount;
    priced = rw e h.priced;
  }

  -- The state that the reply to the commit comes in.
  abbrev pub after_commit : String → CommitBody → St W → Reply × St W
  after_commit id body s =
      let (reply, w) = call client (commit_reservation id body) s.world in (reply, with_world s w)

  send_commit-Follows :
      (id : String) (body : CommitBody) (s : St W)
      → IsOpen b s
      → (let (reply, t) = after_commit id body s in
          Follows client id t (send_commit client b id (ok body) s) (verdict reply))
  unfolding send_commit
  send_commit-Follows id body s h =
      let (reply, t) = after_commit id body s in
      committing-Follows id reply t (IsOpen-same s t h refl)

  commit_of-Follows :
      (o : Option String) (id : String) (body : CommitBody) (s : St W)
      → o ≡ some id
      → commit_body_of b s.guard ≡ ok body
      → IsOpen b s
      → (let (reply, t) = after_commit id body s in
          Follows client id t (commit_of client b o s) (verdict reply))
  unfolding commit_of
  commit_of-Follows none id body s e c h = cc
  commit_of-Follows (some j) id body s e c h =
      rw (← some-injective j id e) (rw c (send_commit-Follows j body s h))

  pub handle_commit-Follows :
      (id : String) (body : CommitBody) (s : St W)
      → s.guard.reservation_id ≡ some id
      → commit_body_of b s.guard ≡ ok body
      → IsOpen b s
      → (let (reply, t) = after_commit id body s in
          Follows client id t (handle_commit client b s) (verdict reply))
  unfolding handle_commit
  handle_commit-Follows id body s e c h = commit_of-Follows s.guard.reservation_id id body s e c h
