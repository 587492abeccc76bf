-- ===== src/Tests/Wire.antt =====
-- The dicts of the three bodies, at the mandate of the tests.
use cycles_ap2_python.Base.{true, none, some, ◌≡◌}
use cycles_ap2_python.Base.Int.{pos}
use cycles_ap2_python.Mapping.{idempotency_key, build_subject, build_action, build_release_body}
use cycles_ap2_python.Mapping.Bodies.{ReservationBody}
use cycles_ap2_python.Mapping.Wire.{reservation_payload, commit_payload, release_payload}
use cycles_ap2_python.Mapping.Wire.Reader.{read_reservation, read_commit, read_release}
use cycles_ap2_python.Mapping.Wire.RoundTrip.{Optional, read-payloads}
use cycles_ap2_python.Tests.Fixtures.{builtins}
use cycles_ap2_python.Tests.Opened.{commit_body}
use cycles_ap2_python.Tests.Payment.{mandate, context}

abbrev probe_body : ReservationBody
probe_body = record {
  idempotency_key = idempotency_key mandate "reserve" none;
  subject = build_subject builtins mandate context;
  action = build_action "payment.charge";
  estimate = record { unit = "USD_MICROCENTS"; amount = 19900000000 };
  ttl_ms = pos 60000;
  overage_policy = "REJECT";
  dry_run = true;
  metadata = none;
}

read-payloads_example :
    (read_reservation (reservation_payload probe_body) ≡ probe_body)
    × (read_commit (commit_payload commit_body) ≡ commit_body)
    × (read_release (release_payload (build_release_body mandate "late" (some "Timeout")))
        ≡ build_release_body mandate "late" (some "Timeout"))
    × Optional probe_body
read-payloads_example =
    read-payloads probe_body commit_body (build_release_body mandate "late" (some "Timeout"))
