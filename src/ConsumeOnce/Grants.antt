-- ===== src/ConsumeOnce/Grants.antt =====
-- `__enter__` of runcycles_ap2/guard.py at a server that keeps its promise on keys.
use cycles_ap2_python.Base.{String, Option, none, some, ◌≡◌, refl, ◌∙◌, subst, truthy}
use cycles_ap2_python.Mandate.{Mandate}
use cycles_ap2_python.Builtins.{Builtins}
use cycles_ap2_python.Errors.{Result, ok, err}
use cycles_ap2_python.Mapping.{
  build_reservation_body, idempotency_key, build_estimate, build_subject,
}
use cycles_ap2_python.Mapping.Bodies.{Amount, Context, ReservationBody}
use cycles_ap2_python.Client.{Client, call}
use cycles_ap2_python.Guard.State.{St}
use cycles_ap2_python.Guard.{enter}
use cycles_ap2_python.Guard.Admits.{Admits, Returns, enter-Returns}
use cycles_ap2_python.ConsumeOnce.{Honours}

ok-injective : {A : Type 0} (x y : A) → ok x ≡ ok y → x ≡ y
ok-injective x y h = cc

-- The body is in the tenant's bucket of the mandate's key, and is a dry run where the context is.
record InBucket (b : Builtins) (m : Mandate) (c : Context) (body : ReservationBody) : Type 0 where
  key : body.idempotency_key ≡ idempotency_key m "reserve" none
  tenant : body.subject.tenant ≡ truthy c.tenant
  dry_run : body.dry_run ≡ c.dry_run

InBucket-of :
    (b : Builtins) (m : Mandate) (c : Context) (r : Result Amount) (body : ReservationBody)
    → build_estimate b m ≡ r
    → build_reservation_body b m c ≡ ok body
    → InBucket b m c body
unfolding build_reservation_body build_subject idempotency_key
InBucket-of b m c (err e) body h built = cc (rw h at built)
InBucket-of b m c (ok amount) body h built =
    subst (InBucket b m c) (ok-injective _ body (rw h at built))
      (record { key = refl; tenant = refl; dry_run = refl })

module _ {W : Type 0} (client : Client W) (h : Honours client) where
  -- A guard that was entered has the reservation that the server has granted for the key.
  abbrev pub Grants : Option String → String → Result (Unit {0}) × St W → Type 0
  Grants tenant key (ok _, t) =
      (id : String) × (t.guard.reservation_id ≡ some id)
      × (h.granted t.world.server tenant key ≡ some id)
  Grants tenant key (err e, t) = Unit

  module _ (b : Builtins) where
    Admits-Grants :
        (s : St W) (o : Result (Unit {0}) × St W)
        → Returns (Admits client b s) o
        → Grants (truthy s.guard.context.tenant) (idempotency_key s.guard.mandate "reserve" none) o
    unfolding call
    Admits-Grants s (err e, t) a = tt
    Admits-Grants s (ok _, t) a =
        let i = InBucket-of b s.guard.mandate s.guard.context _ a.body refl a.built in
        (
          a.id,
          rw a.state refl,
          rw (a.state, ← i.key, ← i.tenant)
              (h.answered s.world.server a.body a.response a.result a.id a.replied a.success a.valid
                a.allowed (i.dry_run ∙ a.real) a.named),
        )

    -- At a server that keeps its promise, a guard that was entered has the reservation that is granted
    -- for the key of its mandate, in the bucket of its tenant.
    pub enter-Grants :
        (s : St W)
        → Grants
            (truthy s.guard.context.tenant)
            (idempotency_key s.guard.mandate "reserve" none)
            (enter client b s)
    enter-Grants s = Admits-Grants s (enter client b s) (enter-Returns client b s)
