-- ===== src/Mandate/Amount.antt =====
-- The checks of `amount_micros` (runcycles_ap2/models.py) against the value of the decimal.
use native.Mathlib.Nat.{
  pow-le-pow_right, mul-le-mul, le_trans, le-mul_of_pos_right, mul_assoc, le_of_mul-le-mul_right,
  le_refl,
}
use cycles_ap2_python.Base.{
  ℕ, suc, ◌+◌, ◌-◌, ◌*◌, ◌^◌, ◌≤◌, ◌<◌, Bool, true, false, List, ◌≡◌, inl, inr, refl, arith, leb,
  leb→le, ltb, lt→ltb, ap, subst, ◌∙◌, sym, Bool-cases,
}
use cycles_ap2_python.Base.Int.{ℤ, pos, negsuc, ltb_ℤ, leb_ℤ, pos_part, ◌+ℤ◌}
use cycles_ap2_python.Constants.{max_usd_micros}
use cycles_ap2_python.Builtins.{Builtins}
use cycles_ap2_python.Errors.{Result, ok, raise_if, Raised, ◌>>◌}
use cycles_ap2_python.Decimal.{length, from_digits, is_zero}
use cycles_ap2_python.Decimal.Canonical.{IsCanonical}
use cycles_ap2_python.Decimal.Positional.{
  value, pow-add, pow-pos, from_digits-eq-value, pow-le-value,
}
use cycles_ap2_python.Mandate.{Mandate, micros_of}

-- `n` micro-cents are the decimal `ds * 10 ^ e` of dollars: no division, so nothing is rounded.
abbrev pub Denotes : List ℕ → ℤ → ℕ → Type 0
Denotes ds (pos k) n = n ≡ value ds * 10 ^ k * 10 ^ 8
Denotes ds (negsuc k) n = n * 10 ^ suc k ≡ value ds * 10 ^ 8

-- The decimals that are accepted for `n` micro-cents.
pub record Fits (sign : Bool) (ds : List ℕ) (e : ℤ) (n : ℕ) : Type 0 where
  pub plus : sign ≡ false
  pub exact : Denotes ds e n
  pub in_range : n ≤ max_usd_micros
  pub places : leb_ℤ (negsuc 7) e ≡ true

from_zero : (ds : List ℕ) → from_digits 0 ds ≡ value ds
from_zero ds = omega (arith, from_digits-eq-value 0 ds)

leb_of_not_ltb : (e : ℤ) → ltb_ℤ e (negsuc 7) ≡ false → leb_ℤ (negsuc 7) e ≡ true
leb_of_not_ltb (pos k) h = ground arith
leb_of_not_ltb (negsuc k) h = ground arith

not_ltb-le : (a b : ℕ) → ltb a b ≡ false → b ≤ a
not_ltb-le a b h = ground arith

pub le→not_ltb : (a b : ℕ) → a ≤ b → ltb b a ≡ false
le→not_ltb a b h = ground arith

pub not_ltb_of_leb : (e : ℤ) → leb_ℤ (negsuc 7) e ≡ true → ltb_ℤ e (negsuc 7) ≡ false
not_ltb_of_leb (pos k) h = ground arith
not_ltb_of_leb (negsuc k) h = ground arith

mul-cancel_right : (n p k : ℕ) → 0 < k → n * k ≡ p * k → n ≡ p
mul-cancel_right n p k pk h = omega (
  arith,
  le_of_mul-le-mul_right {m = n} {n = p} {k = k} (omega arith) pk,
  le_of_mul-le-mul_right {m = p} {n = n} {k = k} (omega arith) pk,
)

-- The factor that the code scales by, for both signs of the exponent.
scale_pos : (k : ℕ) → 10 ^ pos_part (pos k +ℤ pos 8) ≡ 10 ^ k * 10 ^ 8
unfolding ◌+ℤ◌
scale_pos k = pow-add 10 k 8

scale_neg : (k : ℕ) → k ≤ 7 → 10 ^ pos_part (negsuc k +ℤ pos 8) * 10 ^ suc k ≡ 10 ^ 8
unfolding ◌+ℤ◌
scale_neg k h =
    let room : ltb k 8 ≡ true = lt→ltb k 8 (omega arith) in
    let whole : 8 - suc k + suc k ≡ 8 = omega arith in rw (room, ← pow-add, whole)

exponent_room : (k : ℕ) → leb_ℤ (negsuc 7) (negsuc k) ≡ true → k ≤ 7
exponent_room k h = ground arith

scaled-Denotes :
    (ds : List ℕ) (e : ℤ)
    → leb_ℤ (negsuc 7) e ≡ true
    → Denotes ds e (value ds * 10 ^ pos_part (e +ℤ pos 8))
scaled-Denotes ds (pos k) h = rw scale_pos (omega arith)
scaled-Denotes ds (negsuc k) h = omega (
  arith,
  ap (λ (t : ℕ). value ds * t) (scale_neg k (exponent_room k h)),
  mul_assoc (value ds) (10 ^ pos_part (negsuc k +ℤ pos 8)) (10 ^ suc k),
)

Denotes-unique : (ds : List ℕ) (e : ℤ) (n p : ℕ) → Denotes ds e n → Denotes ds e p → n ≡ p
Denotes-unique ds (pos k) n p h q = omega arith
Denotes-unique ds (negsuc k) n p h q =
    mul-cancel_right n p (10 ^ suc k) (pow-pos (suc k)) (h ∙ sym q)

raise_if-ok :
    {A : Type 0} (c : Bool) (e : Raised) (k : Result A) (a : A)
    → (raise_if c e >> k) ≡ ok a
    → (c ≡ false) × (k ≡ ok a)
raise_if-ok true e k a h = cc
raise_if-ok false e k a h = (refl, h)

ok-injective : {A : Type 0} (a b : A) → ok a ≡ ok b → a ≡ b
ok-injective a b h = cc

-- What an accepted decimal is, and that its digits are few.
pub micros_of-Fits :
    (b : Builtins) (m : Mandate) (sign : Bool) (ds : List ℕ) (e : ℤ) (n : ℕ)
    → micros_of b m sign ds e ≡ ok n
    → Fits sign ds e n × (length ds + pos_part e ≤ 19)
unfolding micros_of
micros_of-Fits b m sign ds e n h =
    let (_, h1) = raise_if-ok _ _ _ n h in
    let (c2, h2) = raise_if-ok _ _ _ n h1 in
    let (c3, h3) = raise_if-ok _ _ _ n h2 in
    let (c4, h4) = raise_if-ok _ _ _ n h3 in
    let (c5, h5) = raise_if-ok _ _ _ n h4 in
    let places : leb_ℤ (negsuc 7) e ≡ true = leb_of_not_ltb e c2 in
    let same : value ds * 10 ^ pos_part (e +ℤ pos 8) ≡ n = rw (← from_zero) (ok-injective _ _ h5) in
    let small : n ≤ max_usd_micros = rw (← ok-injective _ _ h5) (not_ltb-le _ _ c5) in
    (
      record {
        plus = c4;
        exact = subst (Denotes ds e) same (scaled-Denotes ds e places);
        in_range = small;
        places = places;
      },
      not_ltb-le _ _ c3,
    )

Fits-scaled :
    {sign : Bool} {n : ℕ} (ds : List ℕ) (e : ℤ)
    → Fits sign ds e n
    → n ≡ value ds * 10 ^ pos_part (e +ℤ pos 8)
Fits-scaled ds e f = Denotes-unique ds e _ _ f.exact (scaled-Denotes ds e f.places)

whole_part-le :
    {sign : Bool} {n : ℕ} (ds : List ℕ) (e : ℤ) → Fits sign ds e n → value ds * 10 ^ pos_part e ≤ n
whole_part-le ds (pos k) f = omega (arith, f.exact)
whole_part-le ds (negsuc k) f = omega (
  arith,
  Fits-scaled ds (negsuc k) f,
  le-mul_of_pos_right {m = 10 ^ pos_part (negsuc k +ℤ pos 8)} (value ds) (pow-pos _),
)

exponent-le : (a n : ℕ) → 10 ^ a ≤ n → n ≤ max_usd_micros → a ≤ 18
exponent-le a n h small = elim (Bool-cases (leb a 18)) [
  | inl few ↦ leb→le a 18 few
  | inr many ↦
      absurd
        (omega (arith, pow-le-pow_right {n = 10} (omega arith) {i = 19} {j = a} (ground arith)))
]

-- The cap on the digits refuses no amount that fits, other than a zero.
pub digits-le :
    {sign : Bool} {n : ℕ} (ds : List ℕ) (e : ℤ)
    → Fits sign ds e n
    → IsCanonical ds
    → is_zero ds ≡ false
    → length ds + pos_part e ≤ 19
digits-le {n = n} ds e f c z =
    let large : 10 ^ (length ds - 1 + pos_part e) ≤ n =
      rw pow-add
        (le_trans (mul-le-mul (pow-le-value ds c.lead z) (le_refl _)) (whole_part-le ds e f)) in
    omega (arith, exponent-le _ n large f.in_range)

pub Fits-micros_of :
    (b : Builtins) (m : Mandate) (ds : List ℕ) (e : ℤ) (n : ℕ)
    → Fits false ds e n
    → length ds + pos_part e ≤ 19
    → micros_of b m false ds e ≡ ok n
unfolding micros_of
Fits-micros_of b m ds e n f few = rw (
  not_ltb_of_leb e f.places,
  le→not_ltb _ _ few,
  from_zero,
  ← Fits-scaled ds e f,
  le→not_ltb _ _ f.in_range,
)
