-- ===== src/AsyncGuard/Release.antt =====
-- `_handle_release` and `_build_receipt` of `AsyncGuardedPayment` (runcycles_ap2/guard.py).
use cycles_ap2_python.Base.{
  ℕ, String, ◌<>◌, Bool, true, false, Option, none, some, truthy, if◌then◌else◌,
}
use cycles_ap2_python.Base.Int.{show_int}
use cycles_ap2_python.Base.Dict
use cycles_ap2_python.Base.Dict.{Dict}
use cycles_ap2_python.Value.{str}
use cycles_ap2_python.Builtins.{Builtins}
use cycles_ap2_python.Errors.{cancelled, ordinary, other_base, foreign, Result, ok, err}
use cycles_ap2_python.Mandate.{Mandate, amount_micros}
use cycles_ap2_python.Mapping.{build_release_body, build_receipt_policy_keys}
use cycles_ap2_python.Receipt.{build_runtime_authority_receipt}
use cycles_ap2_python.Client.{Client, call, release_reservation, Reply, raised, returned}
use cycles_ap2_python.Guard.State.{St, with_guard, with_world}
use cycles_ap2_python.Guard.{assertion_error, code_of, describe}

unfoldable pub areleased : Reply → Result (Bool × Option String)
areleased (raised e) = elim e.kind [
  | ordinary ↦ ok (false, some (describe e))
  | cancelled ↦ err (foreign e)
  | other_base ↦ err (foreign e)
]
areleased (returned r) =
    if r.is_success
    then ok (true, none)
    else ok (
      false,
      some (elim (truthy (code_of r)) [
        | none ↦ "status=" <> show_int r.status
        | some c ↦ "status=" <> show_int r.status <> ", code=" <> c
      ]),
    )

module _ {W : Type 0} (client : Client W) (b : Builtins) where
  -- `_handle_release`, of the reservation `id`
  unfoldable pub arelease : String → String → String → St W → Result (Bool × Option String) × St W
  unfolding areleased call
  arelease id reason exc_name s =
      let body = build_release_body s.guard.mandate reason (some exc_name) in
      let (reply, w) = call client (release_reservation id body) s.world in
      (areleased reply, with_world s w)

  unfoldable pub arelease_of :
      Option String → String → String → St W → Result (Bool × Option String) × St W
  unfolding arelease
  arelease_of none reason exc_name s = (err (foreign assertion_error), s)
  arelease_of (some id) reason exc_name s = arelease id reason exc_name s

  unfoldable pub ahandle_release : String → String → St W → Result (Bool × Option String) × St W
  unfolding arelease_of
  ahandle_release reason exc_name s = arelease_of s.guard.reservation_id reason exc_name s

  unfoldable pub asettle : Result ℕ → String → String → St W → Result (Unit {0}) × St W
  unfolding build_runtime_authority_receipt build_receipt_policy_keys Dict.lookup Dict.without
      Dict.or_none
  asettle (err e) id decision s = (err e, s)
  asettle (ok committed_micros) id decision s =
      let g = s.guard in
      let receipt =
        build_runtime_authority_receipt g.mandate
          (record {
            decision = decision;
            reservation_id = id;
            tenant = g.context.tenant;
            agent = g.context.agent;
            action_kind = g.context.action_kind;
            policy_keys = build_receipt_policy_keys b g.mandate;
            amount_micros = committed_micros;
            committed = true;
            psp_ref = elim (Dict.lookup "psp_ref" g.commit_metadata) as (λ _. Option String) [
              | some (str ref) ↦ some ref
              | some _ ↦ none
              | none ↦ none
            ];
            extra = Dict.or_none (Dict.without "psp_ref" g.commit_metadata);
            issued_at_ms = some (client.now_ms s.world.server);
          })
          (client.now_ms s.world.server) in
      (ok tt, with_guard s (record g { receipt = some receipt }))

  -- The caller's amount, or that of the mandate.
  unfoldable pub acommitted_amount : Option ℕ → Mandate → Result ℕ
  acommitted_amount (some n) m = ok n
  acommitted_amount none m = amount_micros b m

  unfoldable pub areceipt_for : Option String → Option String → St W → Result (Unit {0}) × St W
  unfolding asettle acommitted_amount
  areceipt_for none decision s = (err (foreign assertion_error), s)
  areceipt_for (some id) none s = (err (foreign assertion_error), s)
  areceipt_for (some id) (some decision) s =
      asettle (acommitted_amount s.guard.actual_micros s.guard.mandate) id decision s

  -- `_build_receipt`
  unfoldable pub abuild_receipt : St W → Result (Unit {0}) × St W
  unfolding areceipt_for
  abuild_receipt s = areceipt_for s.guard.reservation_id s.guard.decision s
