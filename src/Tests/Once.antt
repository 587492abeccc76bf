-- ===== src/Tests/Once.antt =====
-- Two attempts of one transaction at a server that keeps its promise.
use cycles_ap2_python.Base.{String, true, Option, some, List, [], ◌∷◌, ◌≡◌, refl}
use cycles_ap2_python.Base.Dict
use cycles_ap2_python.Base.Dict.{Dict}
use cycles_ap2_python.Builtins.{upper}
use cycles_ap2_python.Errors.{ok}
use cycles_ap2_python.Decimal.{parse}
use cycles_ap2_python.Mandate.{amount_micros}
use cycles_ap2_python.Mapping.{
  idempotency_key, key_base, consume_once_input, hash_input, build_reservation_body, build_estimate,
}
use cycles_ap2_python.Sha256.{sha256_hex}
use cycles_ap2_python.Client.{World, call}
use cycles_ap2_python.Guard.State.{St, new_guard}
use cycles_ap2_python.Guard.{enter, reserve, opened, responded, parsed, conclude}
use cycles_ap2_python.Guard.With.{pay, give_up}
use cycles_ap2_python.ConsumeOnce.{now}
use cycles_ap2_python.ConsumeOnce.Entries.{enter_twice}
use cycles_ap2_python.ConsumeOnce.Attempts.{Spends}
use cycles_ap2_python.ConsumeOnce.Attempts.Retries.{Attempt, attempt_all, attempt_all-one}
use cycles_ap2_python.Tests.Fixtures.{builtins}
use cycles_ap2_python.Tests.Payment.{mandate, retried, context}
use cycles_ap2_python.Tests.Ledger.{ledger, ledger-Honours}

abbrev pub empty : World (Dict String)
empty = record { server = []; log = [] }

abbrev pub first : St (Dict String)
first = record { guard = new_guard mandate context true; world = empty }

-- After the first entry, a guard for the retry.
abbrev pub second : St (Dict String)
second = record {
  guard = new_guard retried context true;
  world = (enter ledger builtins first).1.world;
}

pub first_enters : enter ledger builtins first ≡ (ok tt, (enter ledger builtins first).1)
unfolding enter reserve opened responded parsed conclude call build_reservation_body build_estimate
    amount_micros upper parse Dict.lookup new_guard
first_enters = refl

pub second_enters : enter ledger builtins second ≡ (ok tt, (enter ledger builtins second).1)
unfolding enter reserve opened responded parsed conclude call build_reservation_body build_estimate
    amount_micros upper parse Dict.lookup Dict.insert new_guard idempotency_key key_base
    consume_once_input hash_input sha256_hex
second_enters = refl

enter_twice_example :
    (id : String) × ((enter ledger builtins first).1.guard.reservation_id ≡ some id)
    × ((enter ledger builtins second).1.guard.reservation_id ≡ some id)
    × ((phase : String) (suffix : Option String)
        → idempotency_key mandate phase suffix ≡ idempotency_key retried phase suffix)
unfolding consume_once_input new_guard
enter_twice_example =
    enter_twice ledger ledger-Honours builtins first second (enter ledger builtins first).1
      (enter ledger builtins second).1 refl refl first_enters now second_enters

abbrev attempts : List Attempt
attempts =
    record { mandate = mandate; context = context; emit_receipt = true; body = give_up "late" ∷ [] }
    ∷ record { mandate = retried; context = context; emit_receipt = true; body = pay ∷ [] }
    ∷ []

attempt_all-one_example :
    (one : Option String) × Spends
      (λ id. one ≡ some id)
      []
      (attempt_all ledger builtins attempts empty).log
unfolding consume_once_input
attempt_all-one_example =
    attempt_all-one ledger builtins ledger-Honours mandate (some "acme") attempts empty
      (refl, refl, (refl, refl, tt))
