-- ===== src/Guard/Settling.antt =====
-- `_build_receipt` of `GuardedPayment` (runcycles_ap2/guard.py).
use cycles_ap2_python.Base.{ℕ, String, true, Option, none, some}
use cycles_ap2_python.Base.Dict
use cycles_ap2_python.Value.{str}
use cycles_ap2_python.Builtins.{Builtins}
use cycles_ap2_python.Errors.{ordinary, Exc, foreign, Result, ok, err}
use cycles_ap2_python.Mandate.{Mandate, amount_micros}
use cycles_ap2_python.Mapping.{build_receipt_policy_keys}
use cycles_ap2_python.Receipt.{build_runtime_authority_receipt}
use cycles_ap2_python.Client.{Client}
use cycles_ap2_python.Guard.State.{St, with_guard}

-- The exception of a failed `assert`.
abbrev pub assertion_error : Exc
assertion_error = record { kind = ordinary; class_name = "AssertionError"; text = "" }

module _ {W : Type 0} (client : Client W) (b : Builtins) where
  unfoldable pub settle : Result ℕ → String → String → St W → Result (Unit {0}) × St W
  unfolding build_runtime_authority_receipt build_receipt_policy_keys Dict.lookup Dict.without
      Dict.or_none
  settle (err e) id decision s = (err e, s)
  settle (ok committed_micros) id decision s =
      let g = s.guard in
      let receipt =
        build_runtime_authority_receipt g.mandate
          (record {
            decision = decision;
            reservation_id = id;
            tenant = g.context.tenant;
            agent = g.context.agent;
            action_kind = g.context.action_kind;
            policy_keys = build_receipt_policy_keys b g.mandate;
            amount_micros = committed_micros;
            committed = true;
            psp_ref = elim (Dict.lookup "psp_ref" g.commit_metadata) as (λ _. Option String) [
              | some (str ref) ↦ some ref
              | some _ ↦ none
              | none ↦ none
            ];
            extra = Dict.or_none (Dict.without "psp_ref" g.commit_metadata);
            issued_at_ms = some (client.now_ms s.world.server);
          })
          (client.now_ms s.world.server) in
      (ok tt, with_guard s (record g { receipt = some receipt }))

  -- The caller's amount, or that of the mandate.
  unfoldable pub committed_amount : Option ℕ → Mandate → Result ℕ
  committed_amount (some n) m = ok n
  committed_amount none m = amount_micros b m

  unfoldable pub receipt_for : Option String → Option String → St W → Result (Unit {0}) × St W
  unfolding settle committed_amount
  receipt_for none decision s = (err (foreign assertion_error), s)
  receipt_for (some id) none s = (err (foreign assertion_error), s)
  receipt_for (some id) (some decision) s =
      settle (committed_amount s.guard.actual_micros s.guard.mandate) id decision s

  -- `_build_receipt`
  unfoldable pub build_receipt : St W → Result (Unit {0}) × St W
  unfolding receipt_for
  build_receipt s = receipt_for s.guard.reservation_id s.guard.decision s
