-- ===== src/Guard/Exit/Price.antt =====
-- The body of the commit that an open guard sends: `_handle_commit` of runcycles_ap2/guard.py.
use mathlib.Core.Option
use mathlib.Core.Option.{some-injective}
use cycles_ap2_python.Base.{ℕ, Option, none, some, ◌≡◌, refl, ◌∙◌}
use cycles_ap2_python.Base.Int.{pos}
use cycles_ap2_python.Base.Dict
use cycles_ap2_python.Value.{int}
use cycles_ap2_python.Builtins.{Builtins}
use cycles_ap2_python.Errors.{Result, ok, err}
use cycles_ap2_python.Validation.Bounds.{allowed}
use cycles_ap2_python.Mandate.{Mandate, amount_micros}
use cycles_ap2_python.Mapping.{build_commit_body, commit_amount, idempotency_key, nonempty}
use cycles_ap2_python.Mapping.Bodies.{CommitBody}
use cycles_ap2_python.Guard.State.{Guard}
use cycles_ap2_python.Guard.Exit.{commit_body_of}
use cycles_ap2_python.Guard.With.Body.{Bounded}

commit_amount-ok :
    (b : Builtins) (m : Mandate) (o : Option ℕ) {n : ℕ}
    → amount_micros b m ≡ ok n
    → Bounded o
    → commit_amount b m (Option.map (λ k. int (pos k)) o) ≡ ok (Option.get_or o n)
unfolding commit_amount
commit_amount-ok b m none h bounded = h
commit_amount-ok b m (some k) h bounded = allowed b (int (pos k)) k "actual_micros" refl bounded

-- The commit that an open guard sends can be built, and is of the amount that the caller has set,
-- or else of the mandate's.
pub record Priced (b : Builtins) (g : Guard) (n : ℕ) : Type 0 where
  pub body : CommitBody
  pub built : commit_body_of b g ≡ ok body
  pub amount : body.actual.amount ≡ Option.get_or g.actual_micros n

ok-injective : (j k : ℕ) → ok j ≡ ok k → j ≡ k
ok-injective j k h = cc

-- The body of a commit of `n`.
commit_body_with : Guard → ℕ → CommitBody
commit_body_with g n = record {
  idempotency_key = idempotency_key g.mandate "commit" none;
  actual = record { unit = "USD_MICROCENTS"; amount = n };
  metadata = nonempty (Dict.or_none g.commit_metadata);
}

Priced-of :
    (b : Builtins) (g : Guard) (n k : ℕ) (amount : Result ℕ)
    → amount ≡ ok k
    → commit_amount b g.mandate (Option.map (λ j. int (pos j)) g.actual_micros) ≡ amount
    → k ≡ Option.get_or g.actual_micros n
    → Priced b g n
unfolding commit_body_of build_commit_body commit_body_with
Priced-of b g n k (err e) h c a = cc
Priced-of b g n k (ok j) h c a = record {
  body = commit_body_with g j;
  built = rw c refl;
  amount = ok-injective j k h ∙ a;
}

pub commit_body_of-Priced :
    (b : Builtins) (g : Guard) (n : ℕ)
    → amount_micros b g.mandate ≡ ok n
    → Bounded g.actual_micros
    → Priced b g n
commit_body_of-Priced b g n h bounded =
    Priced-of b g n _ _ refl (commit_amount-ok b g.mandate g.actual_micros h bounded) refl
