-- ===== src/ConsumeOnce/Entries.antt =====
-- Two guards with one lock, whatever happens between them: tests/test_double_spend_same_transaction.py.
use cycles_ap2_python.Base.{String, Option, none, some, truthy, ◌≡◌, ◌∙◌, sym, subst}
use mathlib.Core.Option.{some-injective}
use cycles_ap2_python.Builtins.{Builtins}
use cycles_ap2_python.Errors.{ok}
use cycles_ap2_python.Mapping.{consume_once_input, idempotency_key}
use cycles_ap2_python.Mapping.Separation.{key_of_input}
use cycles_ap2_python.Client.{Client}
use cycles_ap2_python.Guard.State.{St}
use cycles_ap2_python.Guard.{enter}
use cycles_ap2_python.Guard.Evolves.Runs.{enter-Later}
use cycles_ap2_python.ConsumeOnce.{Honours, Later, Later-granted}
use cycles_ap2_python.ConsumeOnce.Grants.{Grants, enter-Grants}

module _ {W : Type 0} (client : Client W) (h : Honours client) (b : Builtins) where
  -- At a server that keeps its promise, two guards of one tenant whose mandates have one lock, both
  -- entered, have the same reservation, and the same key for each phase and suffix: whatever else the
  -- mandates and the contexts say, and whatever calls and payments, of any guard, come between the
  -- two entries. So a second attempt never holds a second reservation.
  pub enter_twice :
      (s s' t t' : St W)
      → consume_once_input s.guard.mandate ≡ consume_once_input s'.guard.mandate
      → s.guard.context.tenant ≡ s'.guard.context.tenant
      → enter client b s ≡ (ok tt, t)
      → Later client t.world s'.world
      → enter client b s' ≡ (ok tt, t')
      → (id : String) × (t.guard.reservation_id ≡ some id)
        × (t'.guard.reservation_id ≡ some id)
        × ((phase : String) (suffix : Option String)
            → idempotency_key s.guard.mandate phase suffix
              ≡ idempotency_key s'.guard.mandate phase suffix)
  enter_twice s s' t t' lock tenant first between entered =
      let key = idempotency_key s.guard.mandate "reserve" none in
      let keys = λ (phase : String) (suffix : Option String).
        key_of_input s.guard.mandate s'.guard.mandate phase suffix lock in
      let g =
        subst (Grants client h (truthy s.guard.context.tenant) key) first
          (enter-Grants client h b s) in
      let g' =
        subst
          (Grants client h (truthy s'.guard.context.tenant)
            (idempotency_key s'.guard.mandate "reserve" none))
          entered (enter-Grants client h b s') in
      let second = subst (λ o. Later client s'.world o.1.world) entered (enter-Later client b s') in
      let still = Later-granted h (truthy s.guard.context.tenant) key g.0 between g.2 in
      let after = Later-granted h (truthy s.guard.context.tenant) key g.0 second still in
      let one = some-injective g'.0 g.0 (sym (rw (tenant, keys "reserve" none) g'.2) ∙ after) in
      (g.0, g.1, rw (← one) g'.1, keys)
