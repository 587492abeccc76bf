-- ===== src/Tests/Async.antt =====
-- The asynchronous guard and the receipt at concrete replies.
use cycles_ap2_python.Base.{String, true, some, List, [], ◌∷◌, ◌≡◌, refl}
use cycles_ap2_python.Base.Int.{pos}
use cycles_ap2_python.Base.Dict
use cycles_ap2_python.Value.{int, str}
use cycles_ap2_python.Builtins.{upper}
use cycles_ap2_python.Errors.{Exc, cancelled, ok}
use cycles_ap2_python.Decimal.{parse}
use cycles_ap2_python.Mandate.{amount_micros}
use cycles_ap2_python.Mapping.{build_commit_body, commit_amount, nonempty}
use cycles_ap2_python.Mapping.Bodies.{CommitBody}
use cycles_ap2_python.Client.{World, Reply, raised, call}
use cycles_ap2_python.Guard.State.{St}
use cycles_ap2_python.Guard.Exit.{commit_body_of, handle_commit, accept}
use cycles_ap2_python.Guard.Exit.Outcomes.{Follows, after_commit}
use cycles_ap2_python.Guard.Exit.Receipts.{Shown, accept-receipt}
use cycles_ap2_python.Guard.With.{pay, run_with}
use cycles_ap2_python.Guard.With.Lifecycle.{Lifecycle}
use cycles_ap2_python.AsyncGuard.{handle_commit_async, run_async_with}
use cycles_ap2_python.AsyncGuard.Commit.{
  async_verdict, handle_commit_async-Follows, handle_commit_async-handle_commit,
}
use cycles_ap2_python.AsyncGuard.Lifecycle.{run_async_with-Lifecycle}
use cycles_ap2_python.AsyncGuard.Same.{run_async_with-run_with}
use cycles_ap2_python.Tests.Ledger.{ledger, ledger-Calm}
use cycles_ap2_python.Tests.Fixtures.{builtins}
use cycles_ap2_python.Tests.Opened.{price, open_state-IsOpen, commit_body, body_of_commit}
use cycles_ap2_python.Tests.Payment.{
  mandate, context, success, client, world, open_guard, open_state,
}

abbrev cancellation : Exc
cancellation = record { kind = cancelled; class_name = "CancelledError"; text = "" }

-- The payment is reserved, and its commit is cancelled.
abbrev script : List Reply
script = success ∷ raised cancellation ∷ []

abbrev cancelling : List Reply
cancelling = raised cancellation ∷ []

run_async_with-Lifecycle_example :
    Lifecycle client builtins mandate context true
      (pay ∷ [])
      (world script)
      async_verdict
      (run_async_with client builtins mandate context true (pay ∷ []) (world script))
run_async_with-Lifecycle_example =
    run_async_with-Lifecycle client builtins mandate context true (pay ∷ []) (world script)

handle_commit_async-Follows_example :
    Follows client "rsv_ap2_001"
      (after_commit client builtins "rsv_ap2_001" commit_body (open_state cancelling)).1
      (handle_commit_async client builtins (open_state cancelling))
      (async_verdict (raised cancellation))
unfolding call
handle_commit_async-Follows_example =
    handle_commit_async-Follows client builtins "rsv_ap2_001" commit_body (open_state cancelling)
      refl body_of_commit (open_state-IsOpen cancelling)

handle_commit_async-handle_commit_example :
    handle_commit_async client builtins (open_state (success ∷ []))
    ≡ handle_commit client builtins (open_state (success ∷ []))
unfolding call
handle_commit_async-handle_commit_example =
    handle_commit_async-handle_commit client builtins (open_state (success ∷ [])) (λ c e h. cc h)

-- The caller has attached the reference of the payment and a note.
abbrev attached : St (List Reply)
attached = record {
  guard = record open_guard {
    commit_metadata = ("psp_ref", str "ch_1") ∷ ("note", int (pos 7)) ∷ [];
  };
  world = world [];
}

abbrev attached_body : CommitBody
attached_body = record commit_body {
  metadata = some (("psp_ref", str "ch_1") ∷ ("note", int (pos 7)) ∷ []);
}

body_of_attached : commit_body_of builtins attached.guard ≡ ok attached_body
unfolding commit_body_of build_commit_body commit_amount nonempty amount_micros upper parse
    Dict.or_none
body_of_attached = refl

accept-receipt_example : Shown attached 19900000000 "rsv_ap2_001" (accept client builtins attached)
accept-receipt_example =
    accept-receipt client builtins "rsv_ap2_001" attached_body attached refl body_of_attached tt
      (record {
        id = "rsv_ap2_001";
        reserved = refl;
        decision = "ALLOW";
        decided = refl;
        amount = 19900000000;
        priced = price;
      })
      refl

-- The server of the ledger never cancels a call.
abbrev empty : World (Dict.Dict String)
empty = record { server = []; log = [] }

run_async_with-run_with_example :
    run_async_with ledger builtins mandate context true (pay ∷ []) empty
    ≡ run_with ledger builtins mandate context true (pay ∷ []) empty
run_async_with-run_with_example =
    run_async_with-run_with ledger builtins ledger-Calm mandate context true (pay ∷ []) empty
