-- ===== src/Mandate/Always.antt =====
-- What `AP2Mandate.from_ap2` of runcycles_ap2/models.py makes of upstream objects, or raises.
use cycles_ap2_python.Base.{String, Option, some, ◌≡◌}
use cycles_ap2_python.Value.{Value}
use cycles_ap2_python.Builtins.{Builtins, text_of}
use cycles_ap2_python.Errors.{Exc, value, attribute_error, other_error}
use cycles_ap2_python.Mandate.Source.{SourceAmount, SourcePayee, SourcePayment, SourceCheckout}
use cycles_ap2_python.Mandate.Upstream.{attribute_error_of, truth}

-- Some value, whichever it is.
abbrev Any : {A : Type 0} → A → Type 0
Any a = Unit

-- The exceptions of other code that `from_ap2` may let through: what an attribute of the upstream
-- objects raises that is no `AttributeError`, what `str` or `bool` of a value raises that is none, and
-- an `AttributeError` of `str` of the payee's website, which is taken behind the `try`.
pub data Comes (b : Builtins) (payment : SourcePayment) (checkout : Option SourceCheckout) (e : Exc)
    : Type 0 where
  of_transaction_id : payment.transaction_id ≡ other_error e → Comes b payment checkout e
  of_payment_amount : payment.payment_amount ≡ other_error e → Comes b payment checkout e
  of_value :
      (a : SourceAmount)
      → payment.payment_amount ≡ value a
      → a.value ≡ other_error e
      → Comes b payment checkout e
  of_currency :
      (a : SourceAmount)
      → payment.payment_amount ≡ value a
      → a.currency ≡ other_error e
      → Comes b payment checkout e
  of_payee : payment.payee ≡ other_error e → Comes b payment checkout e
  of_website :
      (p : SourcePayee)
      → payment.payee ≡ value p
      → p.website ≡ other_error e
      → Comes b payment checkout e
  of_identifier :
      (p : SourcePayee)
      → payment.payee ≡ value p
      → p.identifier ≡ other_error e
      → Comes b payment checkout e
  of_hash :
      (c : SourceCheckout) → checkout ≡ some c → c.hash ≡ other_error e → Comes b payment checkout e
  of_checkout_hash :
      (c : SourceCheckout)
      → checkout ≡ some c
      → c.checkout_hash ≡ other_error e
      → Comes b payment checkout e
  of_text : (v : Value) → text_of b v ≡ other_error e → Comes b payment checkout e
  of_late_text :
      (v : Value) (text : String)
      → text_of b v ≡ attribute_error text
      → e ≡ attribute_error_of text
      → Comes b payment checkout e
  of_truth : (v : Value) → truth b v ≡ other_error e → Comes b payment checkout e

module _ (b : Builtins) (payment : SourcePayment) (checkout : Option SourceCheckout) where
  abbrev From : Exc → Type 0
  From = Comes b payment checkout
