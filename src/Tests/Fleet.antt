-- ===== src/Tests/Fleet.antt =====
-- Two guards of one transaction side by side, at a server that keeps its promise.
use mathlib.Core.List.{Memᴰ}
use cycles_ap2_python.Base.{String, true, [], ◌∷◌, ◌≡◌, refl, ap, sym, ◌∙◌}
use cycles_ap2_python.Base.Dict.{Dict}
use cycles_ap2_python.Guard.State.{St, new_guard}
use cycles_ap2_python.Guard.{enter}
use cycles_ap2_python.Mapping.{consume_once_input}
use cycles_ap2_python.Errors.{ok}
use cycles_ap2_python.Client.{call}
use cycles_ap2_python.Guard.Admits.{Admits, enter_iff}
use cycles_ap2_python.ConsumeOnce.Fleet.{
  Fleet, enters, joins, moves, Reached, start, next, fleet_one,
}
use cycles_ap2_python.Tests.Fixtures.{builtins}
use cycles_ap2_python.Tests.Payment.{mandate, retried, context}
use cycles_ap2_python.Tests.Ledger.{ledger, ledger-Honours}
use cycles_ap2_python.Tests.Once.{empty, first, second, first_enters, second_enters}

abbrev one : St (Dict String)
one = (enter ledger builtins first).1

abbrev other : St (Dict String)
other = (enter ledger builtins second).1

-- Both guards are made before either is entered.
abbrev both : Fleet (Dict String)
both = record { guards = other.guard ∷ one.guard ∷ []; world = other.world }

both-Reached : Reached ledger builtins empty both
both-Reached =
    next
      (next (next (next start (joins mandate context true)) (joins retried context true)) (
        moves (new_guard retried context true ∷ []) [] (new_guard mandate context true) one refl
          enters))
      (moves [] (one.guard ∷ []) (new_guard retried context true) other refl enters)

-- What `__enter__` keeps.
kept :
    (s t : St (Dict String))
    → enter ledger builtins s ≡ (ok tt, t)
    → (t.guard.mandate ≡ s.guard.mandate) × (t.guard.context ≡ s.guard.context)
unfolding call
kept s t h =
    let a = (enter_iff ledger builtins s t).0 h in
    (ap (λ x. x.guard.mandate) a.state, ap (λ x. x.guard.context) a.state)

one_lock : consume_once_input one.guard.mandate ≡ consume_once_input other.guard.mandate
unfolding consume_once_input new_guard
one_lock =
    ap consume_once_input (kept first one first_enters).0
    ∙ sym (ap consume_once_input (kept second other second_enters).0)

one_tenant : one.guard.context.tenant ≡ other.guard.context.tenant
unfolding new_guard
one_tenant =
    ap (λ c. c.tenant) (kept first one first_enters).1
    ∙ sym (ap (λ c. c.tenant) (kept second other second_enters).1)

one-Admits : Admits ledger builtins first one
one-Admits = (enter_iff ledger builtins first one).0 first_enters

other-Admits : Admits ledger builtins second other
other-Admits = (enter_iff ledger builtins second other).0 second_enters

fleet_one_example : one-Admits.id ≡ other-Admits.id
unfolding call
fleet_one_example =
    fleet_one ledger builtins ledger-Honours empty both one.guard other.guard both-Reached
      (Memᴰ.tail (Memᴰ.head refl)) (Memᴰ.head refl) one_lock one_tenant one-Admits.id
      other-Admits.id (ap (λ x. x.guard.reservation_id) one-Admits.state)
      (ap (λ x. x.guard.reservation_id) other-Admits.state)
