-- ===== src/Validation/Bounds.antt =====
-- What `validate_micros` lets through.
use cycles_ap2_python.Base.{
  ℕ, ◌≤◌, String, Bool, true, false, if◌then◌else◌, ltb, refl, ◌≡◌, ◌↔◌, arith, ap,
}
use cycles_ap2_python.Base.Int.{pos, negsuc}
use cycles_ap2_python.Constants.{max_usd_micros}
use cycles_ap2_python.Value.{Value, null, int, str}
use cycles_ap2_python.Builtins.{Builtins}
use cycles_ap2_python.Errors.{Raised, Result, ok, err}
use cycles_ap2_python.Validation.{raise_with, validate_micros}

raise_with-err :
    {n : ℕ} (r : Result String) (raise : String → Raised) → raise_with r raise ≡ ok n → ⊥
unfolding raise_with
raise_with-err (ok text) raise h = cc
raise_with-err (err e) raise h = cc

-- A number within the range.
fitting :
    (c : Bool) (k n : ℕ) (r : Result String) (raise : String → Raised)
    → ltb max_usd_micros k ≡ c
    → (if c then raise_with r raise else ok k) ≡ ok n
    → (k ≡ n) × (k ≤ max_usd_micros)
fitting true k n r raise e h = absurd (raise_with-err r raise h)
fitting false k n r raise e h = ground arith

within :
    (b : Builtins) (k n : ℕ) (name : String)
    → validate_micros b (int (pos k)) name ≡ ok n
    → (k ≡ n) × (k ≤ max_usd_micros)
unfolding validate_micros
within b k n name h = fitting _ k n _ _ refl h

accepted-of :
    (b : Builtins) (v : Value) (n : ℕ) (name : String)
    → validate_micros b v name ≡ ok n
    → (v ≡ int (pos n)) × (n ≤ max_usd_micros)
unfolding validate_micros
accepted-of b (int (pos k)) n name h =
    let (same, fits) = within b k n name h in (ap (λ x. int (pos x)) same, rw (← same) fits)
accepted-of b (int (negsuc k)) n name h = absurd (raise_with-err _ _ h)
accepted-of b (str s) n name h = cc
accepted-of b null n name h = absurd (raise_with-err _ _ h)
accepted-of b _ n name h = absurd (raise_with-err _ _ h)

pub allowed :
    (b : Builtins) (v : Value) (n : ℕ) (name : String)
    → v ≡ int (pos n)
    → n ≤ max_usd_micros
    → validate_micros b v name ≡ ok n
unfolding validate_micros
allowed b v n name e h = rw (e, validate_micros) (ground arith)

-- `validate_micros` returns `n` exactly for the plain `int` `n` that is not negative and at most
-- 2 ^ 63 - 1: every value of another type, `bool` and `float` included, and every other `int` raises.
pub validate_micros_iff :
    (b : Builtins) (v : Value) (n : ℕ) (name : String)
    → (validate_micros b v name ≡ ok n) ↔ ((v ≡ int (pos n)) × (n ≤ max_usd_micros))
unfolding validate_micros
validate_micros_iff b v n name = (accepted-of b v n name, λ h. allowed b v n name h.0 h.1)
