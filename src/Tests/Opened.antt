-- ===== src/Tests/Opened.antt =====
-- A guard after `__enter__` is open, and its commit can be built.
use cycles_ap2_python.Base.{List, none, ◌≡◌, refl}
use cycles_ap2_python.Builtins.{upper}
use cycles_ap2_python.Errors.{ok}
use cycles_ap2_python.Decimal.{parse}
use cycles_ap2_python.Mandate.{amount_micros}
use cycles_ap2_python.Mapping.{build_commit_body, commit_amount, nonempty, idempotency_key}
use cycles_ap2_python.Mapping.Bodies.{CommitBody}
use cycles_ap2_python.Client.{Reply}
use cycles_ap2_python.Guard.Exit.{commit_body_of}
use cycles_ap2_python.Guard.Exit.Settle.{IsOpen}
use cycles_ap2_python.Tests.Fixtures.{builtins}
use cycles_ap2_python.Tests.Payment.{mandate, open_guard, open_state}

pub price : amount_micros builtins mandate ≡ ok 19900000000
unfolding amount_micros upper parse
price = refl

pub open_state-IsOpen : (replies : List Reply) → IsOpen builtins (open_state replies)
open_state-IsOpen replies = record {
  id = "rsv_ap2_001";
  reserved = refl;
  decision = "ALLOW";
  decided = refl;
  amount = 19900000000;
  priced = price;
}

abbrev pub commit_body : CommitBody
commit_body = record {
  idempotency_key = idempotency_key mandate "commit" none;
  actual = record { unit = "USD_MICROCENTS"; amount = 19900000000 };
  metadata = none;
}

pub body_of_commit : commit_body_of builtins open_guard ≡ ok commit_body
unfolding commit_body_of build_commit_body commit_amount nonempty amount_micros upper parse
body_of_commit = refl
