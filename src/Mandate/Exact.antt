-- ===== src/Mandate/Exact.antt =====
-- `AP2Mandate.amount_micros` as a whole: what it accepts, and what it raises.
use cycles_ap2_python.Base.{
  ℕ, zero, suc, ◌+◌, ◌≤◌, Bool, true, false, Option, none, some, List, [], ◌∷◌, ◌≡◌, ◌≢◌, ◌⊎◌, ◌↔◌,
  inl, inr, refl, arith, ltb, not, ◌&&◌, ◌*◌, ◌^◌, ◌===◌, eq_iff, Bool-cases, subst,
}
use cycles_ap2_python.Base.Int.{ℤ, pos, negsuc, leb_ℤ, ltb_ℤ, ◌+ℤ◌, pos_part}
use cycles_ap2_python.Constants.{max_usd_micros}
use cycles_ap2_python.Builtins.{Builtins, upper}
use cycles_ap2_python.Errors.{
  Raised, Result, ok, err, currency_error, mandate_error, raise_if, ◌>>◌,
}
use cycles_ap2_python.Decimal.{Decimal, finite, infinite, nan, parse, length, is_zero, from_digits}
use cycles_ap2_python.Decimal.Canonical.{IsCanonical, parse-IsCanonical}
use cycles_ap2_python.Decimal.Positional.{value, value-zero, value-pos}
use cycles_ap2_python.Mandate.{Mandate, micros_of, micros_of_decimal, amount_micros}
use cycles_ap2_python.Mandate.Amount.{
  Denotes, Fits, not_ltb_of_leb, le→not_ltb, digits-le, micros_of-Fits, Fits-micros_of,
}

-- A mandate in dollars whose text is a decimal without a minus, of at most eight places, that is
-- exactly `n` micro-cents and fits an int64. A zero may have at most 18 for an exponent.
pub record Accepted (b : Builtins) (m : Mandate) (n : ℕ) : Type 0 where
  pub digits : List ℕ
  pub exponent : ℤ
  pub dollars : upper b m.currency ≡ "USD"
  pub parsed : parse b m.amount_value ≡ some (finite false digits exponent)
  pub places : leb_ℤ (negsuc 7) exponent ≡ true
  pub exact : Denotes digits exponent n
  pub in_range : n ≤ max_usd_micros
  pub zeros : (value digits ≢ 0) ⊎ (pos_part exponent ≤ 18)

one_digit : (ds : List ℕ) → IsCanonical ds → is_zero ds ≡ true → length ds ≡ 1
unfolding is_zero length
one_digit [] c z = absurd c.lead
one_digit (zero ∷ ds) c z = rw c.lead
one_digit (suc d ∷ ds) c z = cc

few_digits :
    {n : ℕ} (ds : List ℕ) (e : ℤ)
    → IsCanonical ds
    → Fits false ds e n
    → (value ds ≢ 0) ⊎ (pos_part e ≤ 18)
    → length ds + pos_part e ≤ 19
few_digits ds e c f (inl nonzero) = elim (Bool-cases (is_zero ds)) [
  | inl z ↦ absurd (nonzero (value-zero ds z))
  | inr z ↦ digits-le ds e f c z
]
few_digits ds e c f (inr small) = elim (Bool-cases (is_zero ds)) [
  | inl z ↦ omega (arith, one_digit ds c z)
  | inr z ↦ digits-le ds e f c z
]

zero_exponent :
    (ds : List ℕ) (e : ℤ)
    → IsCanonical ds
    → length ds + pos_part e ≤ 19
    → (value ds ≢ 0) ⊎ (pos_part e ≤ 18)
zero_exponent ds e c few = elim (Bool-cases (is_zero ds)) [
  | inl z ↦ inr (omega (arith, one_digit ds c z))
  | inr z ↦ inl (λ h. absurd (omega (arith, value-pos ds c.lead z)))
]

dollars-of :
    (b : Builtins) (m : Mandate) (n : ℕ) → amount_micros b m ≡ ok n → upper b m.currency ≡ "USD"
unfolding amount_micros
dollars-of b m n h = ground (arith, eq_iff (upper b m.currency) "USD")

decimal-of :
    (b : Builtins) (m : Mandate) (n : ℕ)
    → amount_micros b m ≡ ok n
    → micros_of_decimal b m (parse b m.amount_value) ≡ ok n
unfolding amount_micros
decimal-of b m n h = ground arith

finite-of :
    (b : Builtins) (m : Mandate) (n : ℕ) (o : Option Decimal)
    → parse b m.amount_value ≡ o
    → upper b m.currency ≡ "USD"
    → micros_of_decimal b m o ≡ ok n
    → Accepted b m n
unfolding micros_of_decimal
finite-of b m n none p u h = cc
finite-of b m n (some infinite) p u h = cc
finite-of b m n (some nan) p u h = cc
finite-of b m n (some (finite sign ds e)) p u h =
    let (f, few) = micros_of-Fits b m sign ds e n h in
    record {
      digits = ds;
      exponent = e;
      dollars = u;
      parsed = rw (p, f.plus);
      places = f.places;
      exact = f.exact;
      in_range = f.in_range;
      zeros = zero_exponent ds e (parse-IsCanonical b m.amount_value sign ds e p) few;
    }

amount_micros_of : (b : Builtins) (m : Mandate) (n : ℕ) → Accepted b m n → amount_micros b m ≡ ok n
unfolding amount_micros
amount_micros_of b m n a =
    let f : Fits false a.digits a.exponent n = record {
      plus = refl;
      exact = a.exact;
      in_range = a.in_range;
      places = a.places;
    } in
    let c = parse-IsCanonical b m.amount_value false a.digits a.exponent a.parsed in
    rw ((eq_iff (upper b m.currency) "USD").1 a.dollars, a.parsed, micros_of_decimal)
      (Fits-micros_of b m a.digits a.exponent n f (few_digits a.digits a.exponent c f a.zeros))

-- `amount_micros` returns `n` exactly for the mandates of `Accepted`: the amount is in dollars, its
-- text is a finite decimal without a minus and with an exponent of at least -8, `n` is that decimal
-- times 10 ^ 8 with nothing rounded, `n` is at most 2 ^ 63 - 1, and the exponent of a zero is at
-- most 18. So the cap of 19 digits refuses no other amount that fits.
pub amount_micros_iff :
    (b : Builtins) (m : Mandate) (n : ℕ) → (amount_micros b m ≡ ok n) ↔ Accepted b m n
amount_micros_iff b m n =
    (λ h. finite-of b m n _ refl (dollars-of b m n h) (decimal-of b m n h), amount_micros_of b m n)

pub err-injective : {A : Type 0} (x y : Raised) → ◌≡◌ {A = Result A} (err x) (err y) → x ≡ y
err-injective x y h = cc

ok_ne_err : {A : Type 0} (a : A) (x : Raised) → ◌≡◌ {A = Result A} (ok a) (err x) → ⊥
ok_ne_err a x h = cc

-- Which exception an amount may raise.
abbrev pub AmountError : Bool → Raised → Type 0
AmountError true (mandate_error message) = Unit
AmountError false (currency_error message) = Unit
AmountError _ _ = ⊥

-- One check of `micros_of`: what it raises is its exception, unless the rest raised.
raise_if-err :
    {A : Type 0} (c : Bool) (e : Raised) (k : Result A) (x : Raised)
    → (raise_if c e >> k) ≡ err x
    → (AmountError true e → AmountError true x) ⊎ (k ≡ err x)
raise_if-err true e k x h = inl (subst (AmountError true) (err-injective e x h))
raise_if-err false e k x h = inr h

micros_of-error :
    (b : Builtins) (m : Mandate) (sign : Bool) (ds : List ℕ) (e : ℤ) (x : Raised)
    → micros_of b m sign ds e ≡ err x
    → AmountError true x
unfolding micros_of
micros_of-error b m sign ds e x h = elim (raise_if-err (sign && not (is_zero ds)) _ _ x h) [
  | inl done ↦ done tt
  | inr h1 ↦ elim (raise_if-err (ltb_ℤ e (negsuc 7)) _ _ x h1) [
    | inl done ↦ done tt
    | inr h2 ↦ elim (raise_if-err (ltb 19 (length ds + pos_part e)) _ _ x h2) [
      | inl done ↦ done tt
      | inr h3 ↦ elim (raise_if-err sign _ _ x h3) [
        | inl done ↦ done tt
        | inr h4 ↦
            elim (raise_if-err (ltb max_usd_micros (from_digits 0 ds * 10 ^ pos_part (e +ℤ pos 8)))
              _ _ x h4) [ inl done ↦ done tt | inr h5 ↦ absurd (ok_ne_err _ x h5) ]
      ]
    ]
  ]
]

micros_of_decimal-error :
    (b : Builtins) (m : Mandate) (o : Option Decimal) (x : Raised)
    → micros_of_decimal b m o ≡ err x
    → AmountError true x
unfolding micros_of_decimal
micros_of_decimal-error b m none x h = subst (AmountError true) (err-injective _ x h) tt
micros_of_decimal-error b m (some infinite) x h = subst (AmountError true) (err-injective _ x h) tt
micros_of_decimal-error b m (some nan) x h = subst (AmountError true) (err-injective _ x h) tt
micros_of_decimal-error b m (some (finite sign ds e)) x h = micros_of-error b m sign ds e x h

-- What `amount_micros` raises is an `AP2CurrencyError` for a mandate that is not in dollars, and an
-- `AP2MandateError` for every other amount that it refuses: nothing else escapes.
pub amount_micros-AmountError :
    (b : Builtins) (m : Mandate) (x : Raised)
    → amount_micros b m ≡ err x
    → AmountError (upper b m.currency === "USD") x
unfolding amount_micros
amount_micros-AmountError b m x h = elim (Bool-cases (upper b m.currency === "USD")) [
  | inl dollars ↦
      rw dollars (micros_of_decimal-error b m (parse b m.amount_value) x (rw dollars at h))
  | inr other ↦ rw other (subst (AmountError false) (err-injective _ x (rw other at h)) tt)
]

-- A decimal with a minus, of at most eight places and 19 digits, is refused as negative, the zero
-- "-0" included: that one passes the comparison with zero and is stopped by the later test of the
-- sign.
pub minus-refused :
    (b : Builtins) (m : Mandate) (ds : List ℕ) (e : ℤ)
    → upper b m.currency ≡ "USD"
    → parse b m.amount_value ≡ some (finite true ds e)
    → leb_ℤ (negsuc 7) e ≡ true
    → length ds + pos_part e ≤ 19
    → amount_micros b m ≡ err (mandate_error "amount_value must be non-negative")
unfolding amount_micros micros_of
minus-refused b m ds e u p places few =
    rw ((eq_iff (upper b m.currency) "USD").1 u, p, micros_of_decimal, micros_of)
      (elim (Bool-cases (is_zero ds)) [
        | inl z ↦ rw (z, not_ltb_of_leb e places, le→not_ltb _ _ few)
        | inr z ↦ rw z
      ])
