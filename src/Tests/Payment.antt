-- ===== src/Tests/Payment.antt =====
-- A payment as in tests/conftest.py: its mandate, and a client that gives scripted replies.
use cycles_ap2_python.Base.{ℕ, String, true, false, none, some, List, [], ◌∷◌}
use cycles_ap2_python.Base.Int.{pos}
use cycles_ap2_python.Value.{null}
use cycles_ap2_python.Errors.{ordinary, Exc, ok}
use cycles_ap2_python.Mandate.{Mandate}
use cycles_ap2_python.Mapping.Bodies.{Context}
use cycles_ap2_python.Client.{Client, World, Reply, raised, returned}
use cycles_ap2_python.Guard.State.{Guard, St}

abbrev pub mandate : Mandate
mandate = record {
  transaction_id = "ap2-tx-001";
  amount_value = "199.00";
  currency = "USD";
  payee_website = "merchant.example";
  checkout_hash = some "ch_demo";
  open_mandate_hash = none;
}

-- A retry with another checkout.
abbrev pub retried : Mandate
retried = record mandate { checkout_hash = some "ch_other" }

abbrev pub context : Context
context = record {
  run_id = "run-1";
  tenant = some "acme";
  workspace = none;
  app = none;
  workflow = none;
  agent = none;
  toolset = none;
  action_kind = "payment.charge";
  ttl_ms = pos 60000;
  overage_policy = "REJECT";
  dry_run = false;
  metadata = none;
  extra_dimensions = some (("run_id", "mine") ∷ ("team", "growth") ∷ []);
}

abbrev pub connection_reset : Exc
connection_reset = record { kind = ordinary; class_name = "ConnectionError"; text = "reset" }

abbrev pub success : Reply
success = returned (record {
  is_success = true;
  is_transport_error = false;
  is_server_error = false;
  status = pos 200;
  error = none;
  body = null;
})

-- An HTTP error with a code.
abbrev pub http_error : ℕ → String → Reply
http_error status c = returned (record {
  is_success = false;
  is_transport_error = false;
  is_server_error = false;
  status = pos status;
  error = some (record { error = some c; error_code = some c; request_id = some "req_test" });
  body = null;
})

-- The next reply of a script; after its end, the connection is lost.
abbrev pub next : List Reply → Reply × List Reply
next [] = (raised connection_reset, [])
next (r ∷ rest) = (r, rest)

abbrev pub client : Client (List Reply)
client = record {
  send = λ script c. next script;
  model_validate = λ body. ok (record {
    decision = "ALLOW";
    denied = false;
    reservation_id = some "rsv_ap2_001";
    reason_code = none;
    caps = null;
    balances = null;
    affected_scopes = null;
  });
  now_ms = λ script. 1700000000000;
}

abbrev pub world : List Reply → World (List Reply)
world script = record { server = script; log = [] }

-- A guard after `__enter__`.
abbrev pub open_guard : Guard
open_guard = record {
  mandate = mandate;
  context = context;
  emit_receipt = true;
  reservation_id = some "rsv_ap2_001";
  decision = some "ALLOW";
  actual_micros = none;
  commit_metadata = [];
  receipt = none;
  committed = false;
  aborted_reason = none;
}

abbrev pub open_state : List Reply → St (List Reply)
open_state script = record { guard = open_guard; world = world script }
