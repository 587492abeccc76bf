-- ===== src/Mandate/Upstream.antt =====
-- `AP2Mandate.from_ap2` of runcycles_ap2/models.py, over the attributes that it reads.
use cycles_ap2_python.Base.{
  ℕ, String, ◌<>◌, Bool, true, false, Option, none, some, not, if◌then◌else◌, ◌===◌,
}
use cycles_ap2_python.Base.Int.{pos}
use cycles_ap2_python.Value.{Value, null, bool, int, str, array, dict, nil, cons, end, field}
use cycles_ap2_python.Builtins.{Builtins, text_of}
use cycles_ap2_python.Errors.{
  ordinary, Exc, Access, value, attribute_error, other_error, Result, ok, err, mandate_error,
  foreign, ◌>>=◌,
}
use cycles_ap2_python.Mandate.{Mandate, new_mandate}
use cycles_ap2_python.Mandate.Source.{SourcePayee, SourcePayment, SourceCheckout}

-- `bool(v)`
unfoldable pub truth : Builtins → Value → Access Bool
truth b null = value Bool.false
truth b (bool x) = value x
truth b (int (pos ℕ.zero)) = value Bool.false
truth b (int _) = value Bool.true
truth b (str s) = value (not (s === ""))
truth b (array nil) = value Bool.false
truth b (array (cons x xs)) = value Bool.true
truth b (dict end) = value Bool.false
truth b (dict (field k v rest)) = value Bool.true
truth b v = b.truth_other v

-- `getattr(o, name, None)`, of the attribute: its `AttributeError` is a None.
unfoldable pub or_null : Access Value → Access Value
or_null (attribute_error text) = value null
or_null a = a

-- Under `except AttributeError`, which catches no other exception.
unfoldable pub caught : {A : Type 0} → Access A → Result A
caught (value a) = ok a
caught (attribute_error text) =
    err (mandate_error ("upstream PaymentMandate is missing a required field: " <> text))
caught (other_error e) = err (foreign e)

abbrev pub attribute_error_of : String → Exc
attribute_error_of text = record { kind = ordinary; class_name = "AttributeError"; text = text }

-- Behind the `try`.
unfoldable pub uncaught : {A : Type 0} → Access A → Result A
uncaught (value a) = ok a
uncaught (attribute_error text) = err (foreign (attribute_error_of text))
uncaught (other_error e) = err (foreign e)

-- `str(o.name)` in the `try`.
unfoldable pub text_at : Builtins → Access Value → Result String
unfolding caught text_of
text_at b a = do v ← caught a; caught (text_of b v)

-- What goes on from the test of the first name: the second is read only where the first is false.
unfoldable pub or_identifier : Builtins → SourcePayee → Value → Bool → Result Value
unfolding truth or_null caught
or_identifier b payee website true = ok website
or_identifier b payee website false = do
  identifier ← caught (or_null payee.identifier)
  there ← caught (truth b identifier)
  if there
      then ok identifier
      else err (mandate_error "AP2 payee must expose `website` or `identifier`")

unfoldable pub payee_website_of : Builtins → SourcePayee → Result Value
unfolding truth or_null caught or_identifier
payee_website_of b payee = do
  website ← caught (or_null payee.website)
  there ← caught (truth b website)
  or_identifier b payee website there

-- The second name is read only where the first is None.
unfoldable pub hash_or : Value → Access Value → Result Value
unfolding or_null uncaught
hash_or null other = uncaught (or_null other)
hash_or v other = ok v

unfoldable pub checkout_hash_of : Option SourceCheckout → Result Value
unfolding or_null hash_or uncaught
checkout_hash_of none = ok null
checkout_hash_of (some checkout) = do
  hash ← uncaught (or_null checkout.hash)
  hash_or hash checkout.checkout_hash

unfoldable pub from_ap2 : Builtins → SourcePayment → Option SourceCheckout → Value → Result Mandate
unfolding text_at caught uncaught payee_website_of checkout_hash_of text_of new_mandate
from_ap2 b payment checkout open_mandate_hash = do
  transaction_id ← text_at b payment.transaction_id
  amount ← caught payment.payment_amount
  amount_value ← text_at b amount.value
  currency ← text_at b amount.currency
  payee ← caught payment.payee
  payee_website ← payee_website_of b payee
  checkout_hash ← checkout_hash_of checkout
  website ← uncaught (text_of b payee_website)
  new_mandate b (str transaction_id) (str amount_value) (str currency) (str website) checkout_hash
      open_mandate_hash
