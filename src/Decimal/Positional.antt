-- ===== src/Decimal/Positional.antt =====
-- What digits are worth by their places, and how large that is.
use native.Mathlib.Nat.{pow-zero, pow-suc, add-zero, add-suc}
use native.Mathlib.Numerals.{sub-one}
use cycles_ap2_python.Base.{
  ℕ, zero, suc, ◌+◌, ◌-◌, ◌*◌, ◌^◌, ◌≤◌, ◌<◌, true, false, List, [], ◌∷◌, ◌≡◌, refl, arith, ap,
}
use cycles_ap2_python.Decimal.{length, from_digits, is_zero}
use cycles_ap2_python.Decimal.Canonical.{HasLead}

-- Each digit times the power of ten of its place.
unfoldable pub value : List ℕ → ℕ
unfolding length
value [] = 0
value (d ∷ ds) = d * 10 ^ length ds + value ds

pub pow-add : (a m n : ℕ) → a ^ (m + n) ≡ a ^ m * a ^ n
pow-add a m zero = rw (add-zero, pow-zero) (omega arith)
pow-add a m (suc n) = rw (add-suc, pow-suc a (m + n), pow-suc a n, pow-add a m n) (omega arith)

pub pow-pos : (n : ℕ) → 0 < 10 ^ n
pow-pos zero = rw pow-zero (omega arith)
pow-pos (suc n) = rw pow-suc (omega (arith, pow-pos n))

-- The loop over the digits computes their value.
pub from_digits-eq-value :
    (acc : ℕ) (ds : List ℕ) → from_digits acc ds ≡ acc * 10 ^ length ds + value ds
unfolding from_digits value
from_digits-eq-value acc [] = omega arith
from_digits-eq-value acc (d ∷ ds) =
    rw (from_digits-eq-value (acc * 10 + d) ds, pow-suc) (omega arith)

pub value-zero : (ds : List ℕ) → is_zero ds ≡ true → value ds ≡ 0
unfolding is_zero value
value-zero [] h = refl
value-zero (zero ∷ ds) h = omega (arith, value-zero ds h)
value-zero (suc d ∷ ds) h = cc

-- A number with a leading digit that is not zero is as large as its length says.
pub pow-le-value : (ds : List ℕ) → HasLead ds → is_zero ds ≡ false → 10 ^ (length ds - 1) ≤ value ds
unfolding is_zero value
pow-le-value [] h z = elim h [ ]
pow-le-value (zero ∷ ds) h z = cc (ap is_zero h)
pow-le-value (suc d ∷ ds) h z = rw sub-one (omega arith)

pub value-pos : (ds : List ℕ) → HasLead ds → is_zero ds ≡ false → 0 < value ds
value-pos ds h z = omega (arith, pow-le-value ds h z, pow-pos (length ds - 1))
