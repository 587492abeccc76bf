-- ===== src/Tests/Amounts.antt =====
-- Amounts and idempotency keys, at the mandate of the tests.
use cycles_ap2_python.Base.{
  ◌≤◌, count, all_chars, true, none, some, [], ◌∷◌, ◌≡◌, ◌↔◌, refl, arith, ◌===◌,
}
use cycles_ap2_python.Base.Int.{pos}
use cycles_ap2_python.Base.Dict
use cycles_ap2_python.Constants.{
  max_usd_micros, dim_payee_website, dim_payment_protocol, dim_payment_currency,
}
use cycles_ap2_python.Value.{int}
use cycles_ap2_python.Builtins.{upper}
use cycles_ap2_python.Errors.{ok, err, currency_error, mandate_error}
use cycles_ap2_python.Decimal.{parse, length}
use cycles_ap2_python.Validation.{validate_micros}
use cycles_ap2_python.Validation.Bounds.{validate_micros_iff}
use cycles_ap2_python.Mandate.{Mandate, amount_micros}
use cycles_ap2_python.Mandate.Exact.{
  Accepted, amount_micros_iff, AmountError, amount_micros-AmountError, minus-refused,
}
use cycles_ap2_python.Mapping.{
  hash_input, idempotency_key, key_base, fixed_dimensions, add_hash, consume_once_input,
  is_header_safe, safe_suffix, build_subject, canonical_dimensions, build_receipt_policy_keys,
}
use cycles_ap2_python.Mapping.Keys.{is_key_char, safe_suffix_lem, idempotency_key_bounds}
use cycles_ap2_python.Mapping.Separation.{
  reserve, commit, release, SameKey, idempotency_key-SameKey, consume_once_iff,
}
use cycles_ap2_python.Mapping.Reading.{read_key, kept_suffix, read_key-idempotency_key}
use cycles_ap2_python.Mapping.Dimensions.{
  HasRouting, build_subject-HasRouting, build_subject-extra, policy_keys-dimensions,
}
use cycles_ap2_python.Tests.Fixtures.{builtins}
use cycles_ap2_python.Tests.Payment.{mandate, retried, context}

validate_micros_iff_example :
    (validate_micros builtins (int (pos 250)) "actual amount" ≡ ok 250)
    ↔ ((int (pos 250) ≡ int (pos 250)) × (250 ≤ max_usd_micros))
validate_micros_iff_example = validate_micros_iff builtins (int (pos 250)) 250 "actual amount"

amount_micros_iff_example :
    (amount_micros builtins mandate ≡ ok 19900000000) ↔ Accepted builtins mandate 19900000000
amount_micros_iff_example = amount_micros_iff builtins mandate 19900000000

-- 199.00 dollars are 19,900,000,000 micro-cents.
dollars_199 : amount_micros builtins mandate ≡ ok 19900000000
unfolding amount_micros upper parse
dollars_199 = refl

abbrev euros : Mandate
euros = record mandate { currency = "eur" }

-- The text that the fixture's `repr` gives is a question mark.
euros_refused :
    amount_micros builtins euros
    ≡ err (currency_error "v0.1 supports USD only; got ?. Multi-currency lands in v0.2.")
unfolding amount_micros upper
euros_refused = refl

amount_micros-AmountError_example :
    AmountError
      (upper builtins euros.currency === "USD")
      (currency_error "v0.1 supports USD only; got ?. Multi-currency lands in v0.2.")
unfolding amount_micros upper
amount_micros-AmountError_example =
    amount_micros-AmountError builtins euros
      (currency_error "v0.1 supports USD only; got ?. Multi-currency lands in v0.2.") refl

abbrev minus_zero_mandate : Mandate
minus_zero_mandate = record mandate { amount_value = "-0" }

minus-refused_example :
    amount_micros builtins minus_zero_mandate
    ≡ err (mandate_error "amount_value must be non-negative")
unfolding upper parse length
minus-refused_example =
    minus-refused builtins minus_zero_mandate (0 ∷ []) (pos 0) refl refl refl (omega arith)

safe_suffix_lem_example :
    (all_chars is_header_safe (safe_suffix "Payment Failed") ≡ true)
    × (count (safe_suffix "Payment Failed") ≡ count "Payment Failed")
    × (all_chars is_header_safe "Payment Failed" ≡ true
        → safe_suffix "Payment Failed" ≡ "Payment Failed")
safe_suffix_lem_example = safe_suffix_lem "Payment Failed"

idempotency_key_bounds_example :
    (count (idempotency_key mandate "release" (some "ConnectionError")) ≤ 122)
    × (all_chars is_key_char (idempotency_key mandate "release" (some "ConnectionError")) ≡ true)
unfolding all_chars is_header_safe
idempotency_key_bounds_example =
    idempotency_key_bounds mandate "release" (some "ConnectionError") (omega arith) refl

-- Another checkout of one transaction has the same key.
retry_key : idempotency_key mandate "reserve" none ≡ idempotency_key retried "reserve" none
unfolding idempotency_key key_base consume_once_input
retry_key = refl

idempotency_key-SameKey_example : SameKey mandate retried reserve reserve
idempotency_key-SameKey_example =
    idempotency_key-SameKey mandate retried reserve reserve none none retry_key

consume_once_iff_example :
    (idempotency_key mandate "commit" none ≡ idempotency_key retried "commit" none)
    ↔ (consume_once_input mandate ≡ consume_once_input retried)
unfolding consume_once_input
consume_once_iff_example = consume_once_iff mandate retried commit none (λ same. refl)

read_key-idempotency_key_example :
    read_key (idempotency_key mandate "release" (some "ConnectionError"))
    ≡ some (record {
      scope = (consume_once_input mandate).0;
      hash = hash_input (consume_once_input mandate).1;
      phase = "release";
      suffix = kept_suffix (some "ConnectionError");
    })
read_key-idempotency_key_example = read_key-idempotency_key mandate release (some "ConnectionError")

build_subject-HasRouting_example :
    HasRouting builtins mandate "run-1" (build_subject builtins mandate context).dimensions
build_subject-HasRouting_example = build_subject-HasRouting builtins mandate context

build_subject-extra_example :
    Dict.lookup "team" (build_subject builtins mandate context).dimensions
    ≡ Dict.lookup "team" (("run_id", "mine") ∷ ("team", "growth") ∷ [])
unfolding canonical_dimensions fixed_dimensions add_hash Dict.lookup Dict.insert
build_subject-extra_example =
    build_subject-extra builtins mandate context (("run_id", "mine") ∷ ("team", "growth") ∷ [])
      "team" refl refl

policy_keys-dimensions_example :
    (Dict.lookup dim_payee_website (build_subject builtins mandate context).dimensions
      ≡ some (build_receipt_policy_keys builtins mandate).host)
    × (Dict.lookup dim_payment_protocol (build_subject builtins mandate context).dimensions
        ≡ Dict.lookup dim_payment_protocol (build_receipt_policy_keys builtins mandate).custom)
    × (Dict.lookup dim_payment_currency (build_subject builtins mandate context).dimensions
        ≡ Dict.lookup dim_payment_currency (build_receipt_policy_keys builtins mandate).custom)
policy_keys-dimensions_example = policy_keys-dimensions builtins mandate context
