-- ===== src/ConsumeOnce/Attempts/Retries.antt =====
-- Attempts at one payment, one after another: retries of runcycles_ap2/guard.py with one lock.
use mathlib.Core.List.{append-nil, append_assoc}
use cycles_ap2_python.Base.{String, Bool, Option, none, some, List, [], ◌∷◌, ◌++◌, truthy, ◌≡◌, ◌∙◌}
use cycles_ap2_python.Builtins.{Builtins}
use cycles_ap2_python.Mandate.{Mandate}
use cycles_ap2_python.Mapping.{consume_once_input, idempotency_key}
use cycles_ap2_python.Mapping.Bodies.{Context}
use cycles_ap2_python.Mapping.Separation.{key_of_input}
use cycles_ap2_python.Client.{Client, World, Event}
use cycles_ap2_python.Guard.With.{Action, run_with}
use cycles_ap2_python.ConsumeOnce.{Honours, Later, now, Later-trans, Later-granted}
use cycles_ap2_python.ConsumeOnce.Attempts.{
  AllOf-append, AllOf-imp, Spends, run_with-Later, run_with-Spends,
}

-- The arguments of a `with`, and what its body does.
pub record Attempt : Type 0 where
  pub mandate : Mandate
  pub context : Context
  pub emit_receipt : Bool
  pub body : List Action

-- The attempts share a lock and a tenant.
abbrev pub Share : String × String → Option String → List Attempt → Type 0
Share lock tenant [] = Unit
Share lock tenant (a ∷ rest) =
    (consume_once_input a.mandate ≡ lock) × (a.context.tenant ≡ tenant) × Share lock tenant rest

Spends-append :
    (P : String → Type 0) (u v w : List Event) → Spends P u v → Spends P v w → Spends P u w
Spends-append P u v w f g = record {
  events = f.events ++ g.events;
  log = g.log ∙ rw (f.log, append_assoc);
  all = AllOf-append P f.events g.events f.all g.all;
}

module _ {W : Type 0} (client : Client W) (b : Builtins) where
  -- The world after the attempts, whatever each has raised.
  unfoldable pub attempt_all : List Attempt → World W → World W
  unfolding run_with
  attempt_all [] w = w
  attempt_all (a ∷ rest) w =
      attempt_all rest (run_with client b a.mandate a.context a.emit_receipt a.body w).1.world

  attempt_all-Later :
      (h : Honours client) (l : List Attempt) (w : World W) → Later client w (attempt_all l w)
  unfolding attempt_all
  attempt_all-Later h [] w = now
  attempt_all-Later h (a ∷ rest) w =
      Later-trans (run_with-Later client h b a.mandate a.context a.emit_receipt a.body w)
        (attempt_all-Later h rest _)

  module _ (h : Honours client) (m : Mandate) (tenant : Option String) where
    -- An id is of the reservation that is granted in the end.
    abbrev Final : World W → String → Type 0
    Final w id = h.granted w.server (truthy tenant) (idempotency_key m "reserve" none) ≡ some id

    attempt_all-Spends :
        (l : List Attempt) (w : World W)
        → Share (consume_once_input m) tenant l
        → Spends (Final (attempt_all l w)) w.log (attempt_all l w).log
    unfolding attempt_all
    attempt_all-Spends [] w s = record { events = []; log = rw append-nil; all = tt }
    attempt_all-Spends (a ∷ rest) w s =
        let w' = (run_with client b a.mandate a.context a.emit_receipt a.body w).1.world in
        let one = run_with-Spends client h b a.mandate a.context a.emit_receipt a.body w in
        let key = key_of_input a.mandate m "reserve" none s.0 in
        let first : Spends (Final (attempt_all rest w')) w.log w'.log = record {
          events = one.events;
          log = one.log;
          all =
              AllOf-imp _ (Final (attempt_all rest w')) one.events
                (λ id g.
                  Later-granted h (truthy tenant) (idempotency_key m "reserve" none) id
                    (attempt_all-Later h rest w') (rw (← key, ← s.1) g))
                one.all;
        } in
        Spends-append _ _ _ _ first (attempt_all-Spends rest w' s.2)

    -- At a server that keeps its promise, attempts of one tenant with one lock, one after another,
    -- whatever their mandates, contexts and bodies are otherwise and whatever each has raised, have
    -- at most one reservation among them: every commit and every release that they add to the log is
    -- for one and the same reservation.
    pub attempt_all-one :
        (l : List Attempt) (w : World W)
        → Share (consume_once_input m) tenant l
        → (one : Option String) × Spends (λ id. one ≡ some id) w.log (attempt_all l w).log
    attempt_all-one l w s = (
      h.granted (attempt_all l w).server (truthy tenant) (idempotency_key m "reserve" none),
      attempt_all-Spends l w s,
    )
