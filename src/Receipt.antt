-- ===== src/Receipt.antt =====
-- runcycles_ap2/receipt.py, and `RuntimeAuthorityReceipt` of runcycles_ap2/models.py.
use cycles_ap2_python.Base.{ℕ, String, Bool, Option}
use cycles_ap2_python.Base.Dict.{Dict}
use cycles_ap2_python.Constants.{receipt_schema}
use cycles_ap2_python.Value.{Value}
use cycles_ap2_python.Mandate.{Mandate}
use cycles_ap2_python.Mapping.Bodies.{PolicyKeys}

pub record Receipt : Type 0 where
  pub schema_name : String
  pub decision : String
  pub reservation_id : String
  pub tenant : Option String
  pub agent : Option String
  pub ap2_transaction_id : String
  pub checkout_hash : Option String
  pub action_kind : String
  pub amount_unit : String
  pub amount_micros : ℕ
  pub policy_keys : PolicyKeys
  pub issued_at_ms : ℕ
  pub committed : Bool
  pub psp_ref : Option String
  pub extra : Option (Dict Value)

-- The arguments of the builder behind the mandate.
pub record Settlement : Type 0 where
  pub decision : String
  pub reservation_id : String
  pub tenant : Option String
  pub agent : Option String
  pub action_kind : String
  pub policy_keys : PolicyKeys
  pub amount_micros : ℕ
  pub committed : Bool
  pub psp_ref : Option String
  pub extra : Option (Dict Value)
  pub issued_at_ms : Option ℕ

-- The clock's time is taken where the caller gives none.
unfoldable pub build_runtime_authority_receipt : Mandate → Settlement → ℕ → Receipt
build_runtime_authority_receipt m s now = record {
  schema_name = receipt_schema;
  decision = s.decision;
  reservation_id = s.reservation_id;
  tenant = s.tenant;
  agent = s.agent;
  ap2_transaction_id = m.transaction_id;
  checkout_hash = m.checkout_hash;
  action_kind = s.action_kind;
  amount_unit = "USD_MICROCENTS";
  amount_micros = s.amount_micros;
  policy_keys = s.policy_keys;
  issued_at_ms = elim s.issued_at_ms [ Option.some t ↦ t | Option.none ↦ now ];
  committed = s.committed;
  psp_ref = s.psp_ref;
  extra = s.extra;
}
