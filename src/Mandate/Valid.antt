-- ===== src/Mandate/Valid.antt =====
-- The limits of a mandate's fields (`AP2Mandate` of runcycles_ap2/models.py).
use cycles_ap2_python.Base.{
  ℕ, ◌≤◌, String, count, Option, none, some, ◌≡◌, refl, subst, Option-cases, inl, inr,
}
use cycles_ap2_python.Value.{Value, null}
use cycles_ap2_python.Builtins.{Builtins}
use cycles_ap2_python.Errors.{
  Exc, Raised, mandate_error, validation_error, foreign, Result, ok, err, ◌>>=◌,
}
use cycles_ap2_python.Mandate.{Mandate, required, optional, new_mandate}

abbrev pub Within : ℕ → ℕ → String → Type 0
Within lo hi s = (lo ≤ count s) × (count s ≤ hi)

abbrev pub WithinIfAny : ℕ → ℕ → Option String → Type 0
WithinIfAny lo hi none = Unit
WithinIfAny lo hi (some s) = Within lo hi s

-- The limits of the fields. A hash that is there is not empty.
pub record IsValid (m : Mandate) : Type 0 where
  pub transaction_id : Within 1 256 m.transaction_id
  pub amount_value : Within 1 64 m.amount_value
  pub currency : Within 3 3 m.currency
  pub payee_website : Within 1 253 m.payee_website
  pub checkout_hash : WithinIfAny 1 256 m.checkout_hash
  pub open_mandate_hash : WithinIfAny 1 256 m.open_mandate_hash

-- What making a mandate may raise: an `AP2MandateError`, pydantic's `ValidationError`, or an
-- exception of other code that satisfies the predicate.
abbrev pub UpstreamError : (Exc → Type 0) → Raised → Type 0
UpstreamError F (mandate_error message) = Unit
UpstreamError F (validation_error model) = model ≡ "AP2Mandate"
UpstreamError F (foreign e) = F e
UpstreamError F _ = ⊥

-- Every value satisfies a predicate, and every exception is one of those.
abbrev pub Always : {A : Type 0} → (Exc → Type 0) → (A → Type 0) → Result A → Type 0
Always F P (ok a) = P a
Always F P (err e) = UpstreamError F e

module _ (F : Exc → Type 0) where
  pub Always-bind :
      {A B : Type 0} (P : A → Type 0) (Q : B → Type 0) (r : Result A) (f : A → Result B)
      → Always F P r
      → ((a : A) → P a → Always F Q (f a))
      → Always F Q (r >>= f)
  Always-bind P Q (ok a) f h k = k a h
  Always-bind P Q (err e) f h k = h

  kept-Within :
      (b : Builtins) (lo hi : ℕ) (v : Value) → Always F (Within lo hi) (required b lo hi v)
  unfolding required
  kept-Within b lo hi v = elim (Option-cases (b.str_field lo hi v)) [
    | inl refused ↦ rw (refused, Always) refl
    | inr (s, kept) ↦ rw (kept, Always) (b.str_field-bounds lo hi v s kept)
  ]

  optional-WithinIfAny :
      (b : Builtins) (lo hi : ℕ) (v : Value) → Always F (WithinIfAny lo hi) (optional b lo hi v)
  unfolding optional
  optional-WithinIfAny b lo hi null = tt
  optional-WithinIfAny b lo hi v =
      Always-bind (Within lo hi) (WithinIfAny lo hi) (required b lo hi v) (λ s. ok (some s))
        (kept-Within b lo hi v) (λ s h. h)

  result_ok : {A : Type 0} (x y : A) → ok x ≡ ok y → x ≡ y
  result_ok x y h = cc

  always_ok : {A : Type 0} (P : A → Type 0) (r : Result A) (a : A) → Always F P r → r ≡ ok a → P a
  always_ok P (ok x) a h e = subst P (result_ok x a e) h
  always_ok P (err x) a h e = cc

  pub new_mandate-Always :
      (b : Builtins) (t a c p h o : Value) → Always F IsValid (new_mandate b t a c p h o)
  unfolding new_mandate
  new_mandate-Always b t a c p h o =
      Always-bind (Within 1 256) IsValid _ _ (kept-Within b 1 256 t) (λ t' ht.
        Always-bind (Within 1 64) IsValid _ _ (kept-Within b 1 64 a) (λ a' ha.
          Always-bind (Within 3 3) IsValid _ _ (kept-Within b 3 3 c) (λ c' hc.
            Always-bind (Within 1 253) IsValid _ _ (kept-Within b 1 253 p) (λ p' hp.
              Always-bind (WithinIfAny 1 256) IsValid _ _ (optional-WithinIfAny b 1 256 h) (λ h' hh.
                Always-bind (WithinIfAny 1 256) IsValid _ _ (optional-WithinIfAny b 1 256 o)
                  (λ o' ho. record {
                    transaction_id = ht;
                    amount_value = ha;
                    currency = hc;
                    payee_website = hp;
                    checkout_hash = hh;
                    open_mandate_hash = ho;
                  }))))))

abbrev Never : Exc → Type 0
Never e = ⊥

-- A mandate that the constructor makes is within the limits of its fields: so no hash of a mandate
-- is the empty text, which would be taken for a missing one.
pub new_mandate-IsValid :
    (b : Builtins) (t a c p h o : Value) (m : Mandate)
    → new_mandate b t a c p h o ≡ ok m
    → IsValid m
new_mandate-IsValid b t a c p h o m made =
    always_ok Never IsValid (new_mandate b t a c p h o) m (new_mandate-Always Never b t a c p h o)
      made
