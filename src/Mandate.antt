-- ===== src/Mandate.antt =====
-- runcycles_ap2/models.py: `AP2Mandate`, its amount in micro-cents, and `from_ap2`.
pub mod Source
pub mod Amount
pub mod Exact
pub mod Upstream
pub mod Valid
pub mod Always
use cycles_ap2_python.Base.{
  ℕ, ◌+◌, ◌*◌, ◌^◌, zero, suc, String, ◌<>◌, ◌===◌, Bool, true, false, not, ◌&&◌, Option, none,
  some, List, [], ◌∷◌, ltb, if◌then◌else◌,
}
use cycles_ap2_python.Base.Int.{ℤ, pos, negsuc, ◌+ℤ◌, ltb_ℤ, pos_part, show_int}
use cycles_ap2_python.Constants.{max_usd_micros}
use cycles_ap2_python.Value.{Value, null, str}
use cycles_ap2_python.Builtins.{Builtins, upper, text_of}
use cycles_ap2_python.Errors.{
  Result, ok, err, currency_error, mandate_error, validation_error, raise_if, ◌>>=◌, ◌>>◌,
}
use cycles_ap2_python.Decimal.{Decimal, finite, infinite, nan, parse, length, from_digits, is_zero}

pub record Mandate : Type 0 where
  pub transaction_id : String
  pub amount_value : String
  pub currency : String
  pub payee_website : String
  pub checkout_hash : Option String
  pub open_mandate_hash : Option String

abbrev pub max_decimal_places : ℕ
max_decimal_places = 8

abbrev pub max_integer_digits : ℕ
max_integer_digits = 19

-- The checks from `value < 0` on, of a finite decimal.
unfoldable pub micros_of : Builtins → Mandate → Bool → List ℕ → ℤ → Result ℕ
unfolding is_zero length from_digits ◌+ℤ◌
micros_of b m sign digits exponent =
    let quoted = b.repr m.amount_value in
    let total_integer_digits = length digits + pos_part exponent in
    let int_value = from_digits 0 digits in
    let shift = exponent +ℤ pos max_decimal_places in
    let scale = 10 ^ pos_part shift in
    let micros = int_value * scale in
    do
      raise_if (sign && not (is_zero digits)) (mandate_error "amount_value must be non-negative")
      raise_if (ltb_ℤ exponent (negsuc 7)) (
          mandate_error (
            "amount_value " <> quoted
            <> " has more than 8 decimal places; sub-micro precision would be lost"))
      raise_if (ltb max_integer_digits total_integer_digits) (
          mandate_error (
            "amount_value "
            <> quoted
            <> " exceeds int64 USD micro-cent range ("
            <> show_int (pos total_integer_digits)
            <> " integer digits > 19 max)"))
      raise_if sign (mandate_error "amount_value must be non-negative")
      raise_if (ltb max_usd_micros micros) (
          mandate_error (
            "amount_value "
            <> quoted
            <> " exceeds int64 USD micro-cent max ("
            <> show_int (pos micros)
            <> " > "
            <> show_int (pos max_usd_micros)
            <> ")"))
      ok micros

-- `Decimal(self.amount_value)` and `is_finite()`.
unfoldable pub micros_of_decimal : Builtins → Mandate → Option Decimal → Result ℕ
unfolding micros_of
micros_of_decimal b m none =
    err (mandate_error ("amount_value " <> b.repr m.amount_value <> " is not a valid decimal"))
micros_of_decimal b m (some (finite sign digits exponent)) = micros_of b m sign digits exponent
micros_of_decimal b m (some _) =
    err (mandate_error ("amount_value must be finite; got " <> b.repr m.amount_value))

-- `AP2Mandate.amount_micros`
unfoldable pub amount_micros : Builtins → Mandate → Result ℕ
unfolding micros_of_decimal
amount_micros b m =
    if upper b m.currency === "USD"
    then micros_of_decimal b m (parse b m.amount_value)
    else err (
        currency_error (
          "v0.1 supports USD only; got " <> b.repr m.currency <> ". Multi-currency lands in v0.2."))

-- A field that pydantic refuses raises a `ValidationError` for the whole model.
required : Builtins → ℕ → ℕ → Value → Result String
required b lo hi v = elim (b.str_field lo hi v) [
  | some s ↦ ok s
  | none ↦ err (validation_error "AP2Mandate")
]

optional : Builtins → ℕ → ℕ → Value → Result (Option String)
unfolding required
optional b lo hi null = ok none
optional b lo hi v = do s ← required b lo hi v; ok (some s)

-- `AP2Mandate(…)`: the constraints of the fields.
unfoldable pub new_mandate :
    Builtins → Value → Value → Value → Value → Value → Value → Result Mandate
unfolding required optional
new_mandate b transaction_id amount_value currency payee_website checkout_hash open_mandate_hash =
    do
      t ← required b 1 256 transaction_id
      a ← required b 1 64 amount_value
      c ← required b 3 3 currency
      p ← required b 1 253 payee_website
      h ← optional b 1 256 checkout_hash
      o ← optional b 1 256 open_mandate_hash
      ok (record {
        transaction_id = t;
        amount_value = a;
        currency = c;
        payee_website = p;
        checkout_hash = h;
        open_mandate_hash = o;
      })
