-- ===== src/Mapping/Lock.antt =====
-- `consume_once_input` of runcycles_ap2/mapping.py, for a valid mandate.
use cycles_ap2_python.Base.{String, truthy, Option, none, some, ◌≡◌, refl, arith}
use cycles_ap2_python.Mandate.{Mandate}
use cycles_ap2_python.Mandate.Valid.{IsValid, WithinIfAny}
use cycles_ap2_python.Mapping.{consume_once_input}

-- The lock by whether the mandate has an open mandate's hash at all.
abbrev pub lock_of : Option String → String → String × String
lock_of none transaction_id = ("tx", transaction_id)
lock_of (some hash) transaction_id = ("open_mandate", hash)

truthy-Within : (o : Option String) → WithinIfAny 1 256 o → truthy o ≡ o
unfolding truthy
truthy-Within none h = refl
truthy-Within (some String.[]) h = absurd (omega (arith, h.0))
truthy-Within (some (String.◌∷◌ c s)) h = refl

truthy-lock :
    (o : Option String) (t : String)
    → (elim o as (λ x. String × String) [ none ↦ ("tx", t) | some hash ↦ ("open_mandate", hash) ])
      ≡ lock_of o t
truthy-lock none t = refl
truthy-lock (some hash) t = refl

-- A valid mandate is locked by its open mandate's hash if it has one, and by its transaction's id
-- only if it has none: the lock never falls back from a hash that is there.
pub consume_once_input-IsValid :
    (m : Mandate) → IsValid m → consume_once_input m ≡ lock_of m.open_mandate_hash m.transaction_id
unfolding consume_once_input
consume_once_input-IsValid m v =
    rw (truthy-Within m.open_mandate_hash v.open_mandate_hash, consume_once_input)
      (truthy-lock m.open_mandate_hash m.transaction_id)
