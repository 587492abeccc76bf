-- ===== src/Examples/Told.antt =====
-- What the dry runs of examples/ap2_human_not_present.py and
-- examples/ap2_human_not_present_async.py tell of the server.
use cycles_ap2_python.Base.{ℕ, String, ◌===◌, Bool, true, false, Option, ◌≡◌, refl, ap, sym, ◌∙◌}
use cycles_ap2_python.Value.{Value}
use cycles_ap2_python.Builtins.{Builtins, upper}
use cycles_ap2_python.Errors.{
  Raised, DryRunResult, dry_run_result, mandate_error, currency_error, Result, ok, err,
}
use cycles_ap2_python.Mandate.{Mandate, amount_micros}
use cycles_ap2_python.Mandate.Exact.{AmountError, amount_micros-AmountError}
use cycles_ap2_python.Mapping.{build_estimate, build_reservation_body}
use cycles_ap2_python.Mapping.Bodies.{Context, ReservationBody}
use cycles_ap2_python.Client.{Client, CreateResult}
use cycles_ap2_python.Guard.State.{St}
use cycles_ap2_python.Guard.Entry.{
  Reads, Turns, unbuilt, lost, refused, unread, denied, told, unnamed,
}

-- What a dry run prints of the server: the state `s` asks it, and its answer is a success that can be
-- read, allows the payment and says this.
pub record Told {W : Type 0} (client : Client W) (b : Builtins) (s : St W) (decision : String)
    (reason_code : Option String) : Type 0 where
  pub body : ReservationBody
  pub answer : CreateResult
  pub reads : Reads client b s body answer
  pub allowed : answer.denied ≡ false
  pub same_decision : decision ≡ answer.decision
  pub same_reason : reason_code ≡ answer.reason_code

-- The reading of a reply does not raise the package's own AP2DryRunResult.
abbrev pub Foreign : {W : Type 0} → Client W → Type 0
Foreign client =
    (v : Value) (d : DryRunResult) → client.model_validate v ≡ err (dry_run_result d) → ⊥

no-probe :
    {A : Type 0} (dollars : Bool) (e : Raised) (d : DryRunResult)
    → AmountError dollars e
    → ◌≡◌ {A = Result A} (err e) (err (dry_run_result d))
    → ⊥
no-probe true (mandate_error x) d h same = cc
no-probe false (currency_error x) d h same = cc
no-probe _ _ d h same = absurd h

dry_run_result-injective : (x y : DryRunResult) → dry_run_result x ≡ dry_run_result y → x ≡ y
dry_run_result-injective x y h = cc

module _ {W : Type 0} (client : Client W) (b : Builtins) where
  estimate-no-probe :
      (m : Mandate) (c : Context) (r : Result ℕ) (d : DryRunResult)
      → amount_micros b m ≡ r
      → build_reservation_body b m c ≡ err (dry_run_result d)
      → ⊥
  unfolding build_reservation_body build_estimate
  estimate-no-probe m c (ok n) d h built = cc (rw h at built)
  estimate-no-probe m c (err e) d h built =
      no-probe (upper b m.currency === "USD") e d (amount_micros-AmountError b m e h)
        (rw h at built)

  -- Only the answer of the server makes an AP2DryRunResult.
  pub Turns-Told :
      (s t : St W) (e : Raised) (d : DryRunResult)
      → Foreign client
      → Turns client b s e t
      → e ≡ dry_run_result d
      → Told client b s d.decision d.reason_code
  Turns-Told s t e d plain (unbuilt x h) same =
      absurd (estimate-no-probe s.guard.mandate s.guard.context _ d refl (rw same at h))
  Turns-Told s t e d plain (lost body x h) same = cc
  Turns-Told s t e d plain (refused body r x h failed why which) same = cc
  Turns-Told s t e d plain (unread body r x h good bad) same =
      absurd (plain r.body d (rw same at bad))
  Turns-Told s t e d plain (denied body r x h denies why) same = cc
  Turns-Told s t e d plain (told body r x h allows dry same_as why) same =
      let agree = dry_run_result-injective x d same in
      record {
        body = body;
        answer = r;
        reads = h;
        allowed = allows;
        same_decision = ap (λ y. y.decision) (sym agree) ∙ same_as;
        same_reason = ap (λ y. y.reason_code) (sym agree) ∙ why;
      }
  Turns-Told s t e d plain (unnamed body r x h allows real unset why) same = cc
