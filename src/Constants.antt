-- ===== src/Constants.antt =====
-- runcycles_ap2/_constants.py
use cycles_ap2_python.Base.{ℕ, ◌-◌, ◌^◌, String}

abbrev pub default_action_kind : String
default_action_kind = "payment.charge"

abbrev pub default_action_name : String
default_action_name = "ap2.payment_mandate.present"

abbrev pub dim_run_id : String
dim_run_id = "run_id"

abbrev pub dim_ap2_transaction_id : String
dim_ap2_transaction_id = "ap2_transaction_id"

abbrev pub dim_checkout_hash : String
dim_checkout_hash = "checkout_hash"

abbrev pub dim_open_mandate_hash : String
dim_open_mandate_hash = "open_mandate_hash"

abbrev pub dim_payee_website : String
dim_payee_website = "payee_website"

abbrev pub dim_payment_currency : String
dim_payment_currency = "payment_currency"

abbrev pub dim_payment_protocol : String
dim_payment_protocol = "payment_protocol"

abbrev pub payment_protocol_value : String
payment_protocol_value = "ap2"

abbrev pub default_ttl_ms : ℕ
default_ttl_ms = 60_000

abbrev pub default_overage_policy : String
default_overage_policy = "REJECT"

abbrev pub receipt_schema : String
receipt_schema = "runtime_authority.ap2.payment.charge.v1"

abbrev pub idempotency_prefix : String
idempotency_prefix = "ap2"

abbrev pub idempotency_scope_open_mandate : String
idempotency_scope_open_mandate = "open_mandate"

abbrev pub idempotency_scope_transaction : String
idempotency_scope_transaction = "tx"

abbrev pub transaction_id_hash_len : ℕ
transaction_id_hash_len = 32

abbrev pub max_usd_micros : ℕ
max_usd_micros = 2 ^ 63 - 1
