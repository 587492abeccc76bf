-- ===== src/Tests/Mandates.antt =====
-- Mandates from upstream objects.
use cycles_ap2_python.Base.{none, some, ◌≡◌, refl}
use cycles_ap2_python.Base.Int.{pos}
use cycles_ap2_python.Value.{null, int, str}
use cycles_ap2_python.Builtins.{Builtins, text_of}
use cycles_ap2_python.Errors.{
  ordinary, Exc, Access, value, attribute_error, other_error, ok, err, mandate_error, foreign,
}
use cycles_ap2_python.Mandate.{Mandate, new_mandate}
use cycles_ap2_python.Mandate.Source.{SourcePayment, SourceCheckout}
use cycles_ap2_python.Mandate.Upstream.{
  from_ap2, truth, or_null, caught, uncaught, text_at, or_identifier, payee_website_of, hash_or,
  checkout_hash_of,
}
use cycles_ap2_python.Mandate.Valid.{IsValid, Always, new_mandate-IsValid}
use cycles_ap2_python.Mapping.{consume_once_input}
use cycles_ap2_python.Mapping.Lock.{lock_of, consume_once_input-IsValid}
use cycles_ap2_python.Tests.Fixtures.{builtins}

abbrev missing : {A : Type 0} → Access A
missing = attribute_error "no such attribute"

abbrev payment : SourcePayment
payment = record {
  transaction_id = value (str "ap2-tx-001");
  payment_amount = value (record { value = value (str "199.00"); currency = value (str "USD") });
  payee = value (record { website = missing; identifier = value (str "merchant.example") });
}

-- The checkout's hash under its second name.
abbrev checkout : SourceCheckout
checkout = record { hash = missing; checkout_hash = value (str "ch_demo") }

-- A text of too many digits: `str` of it raises.
abbrev too_big : Exc
too_big = record {
  kind = ordinary;
  class_name = "ValueError";
  text = "Exceeds the limit (4300 digits) for integer string conversion";
}

abbrev strict : Builtins
strict = record builtins { show = λ v. other_error too_big }

abbrev open_mandate : Mandate
open_mandate = record {
  transaction_id = "ap2-tx-001";
  amount_value = "199.00";
  currency = "USD";
  payee_website = "merchant.example";
  checkout_hash = some "ch_demo";
  open_mandate_hash = some "om_1";
}

upstream : from_ap2 builtins payment (some checkout) (str "om_1") ≡ ok open_mandate
unfolding from_ap2 new_mandate text_at caught uncaught or_null truth or_identifier payee_website_of
    hash_or checkout_hash_of text_of
upstream = refl

-- Neither name of the payee.
no_payee :
    from_ap2 builtins
      (record payment { payee = value (record { website = value (str ""); identifier = missing }) })
      none
      null
    ≡ err (mandate_error "AP2 payee must expose `website` or `identifier`")
unfolding from_ap2 text_at caught or_null truth or_identifier payee_website_of text_of
no_payee = refl

-- No amount.
no_amount :
    from_ap2 builtins (record payment { payment_amount = missing }) none null
    ≡ err (mandate_error "upstream PaymentMandate is missing a required field: no such attribute")
unfolding from_ap2 text_at caught text_of
no_amount = refl

-- `str` of the transaction's id raises, and not an `AttributeError`.
no_text :
    from_ap2 strict (record payment { transaction_id = value (int (pos 7)) }) none null
    ≡ err (foreign too_big)
unfolding from_ap2 text_at caught text_of
no_text = refl

constructed :
    new_mandate builtins
      (str "ap2-tx-001")
      (str "199.00")
      (str "USD")
      (str "merchant.example")
      (str "ch_demo")
      (str "om_1")
    ≡ ok open_mandate
unfolding new_mandate
constructed = refl

open_mandate-IsValid : IsValid open_mandate
open_mandate-IsValid =
    new_mandate-IsValid builtins (str "ap2-tx-001") (str "199.00") (str "USD")
      (str "merchant.example") (str "ch_demo") (str "om_1") open_mandate constructed

new_mandate-IsValid_example : IsValid open_mandate
new_mandate-IsValid_example =
    new_mandate-IsValid builtins (str "ap2-tx-001") (str "199.00") (str "USD")
      (str "merchant.example") (str "ch_demo") (str "om_1") open_mandate constructed

consume_once_input-IsValid_example :
    consume_once_input open_mandate ≡ lock_of (some "om_1") "ap2-tx-001"
consume_once_input-IsValid_example = consume_once_input-IsValid open_mandate open_mandate-IsValid
