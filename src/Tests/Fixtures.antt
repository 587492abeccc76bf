-- ===== src/Tests/Fixtures.antt =====
-- An interpreter whose tables say nothing beyond ASCII, but for one Devanagari digit.
use cycles_ap2_python.Base.{
  ℕ, ◌≤◌, String, count, true, false, Option, none, some, ◌≡◌, arith, leb, ◌&&◌, code, ◌==◌,
  if◌then◌else◌,
}
use cycles_ap2_python.Value.{Value, str}
use cycles_ap2_python.Builtins.{Builtins}
use cycles_ap2_python.Errors.{ok, value}

-- No blanks are stripped, and only texts are taken.
abbrev pub keep : ℕ → ℕ → Value → Option String
keep lo hi (str s) = if leb lo (count s) && leb (count s) hi then some s else none
keep lo hi _ = none

pub keep-bounds :
    (lo hi : ℕ) (v : Value) (t : String) → keep lo hi v ≡ some t → (lo ≤ count t) × (count t ≤ hi)
keep-bounds lo hi (str s) t h = ground arith
keep-bounds lo hi _ t h = cc

abbrev pub builtins : Builtins
builtins = record {
  repr = λ s. "?";
  repr_other = λ v. ok "?";
  too_long = λ n. none;
  show = λ v. value "?";
  truth_other = λ v. value true;
  upper_other = λ c. String.◌∷◌ c "";
  space_other = λ c. false;
  digit_other = λ c. if code c == 2409 then some 3 else none;
  str_field = keep;
  str_field-bounds = keep-bounds;
}
