-- ===== src/Mandate/Source.antt =====
-- The upstream AP2 objects that `AP2Mandate.from_ap2` reads. Where an attribute is
-- absent, its `Access` is an `AttributeError`.
use cycles_ap2_python.Value.{Value}
use cycles_ap2_python.Errors.{Access}

pub record SourceAmount : Type 0 where
  pub value : Access Value
  pub currency : Access Value

pub record SourcePayee : Type 0 where
  pub website : Access Value
  pub identifier : Access Value

pub record SourcePayment : Type 0 where
  pub transaction_id : Access Value
  pub payment_amount : Access SourceAmount
  pub payee : Access SourcePayee

pub record SourceCheckout : Type 0 where
  pub hash : Access Value
  pub checkout_hash : Access Value
