-- ===== src/Validation.antt =====
-- runcycles_ap2/_validation.py
pub mod Bounds
use cycles_ap2_python.Base.{ℕ, String, ◌<>◌, ltb, if◌then◌else◌}
use cycles_ap2_python.Base.Int.{pos, negsuc, show_int}
use cycles_ap2_python.Constants.{max_usd_micros}
use cycles_ap2_python.Value.{Value, int, type_name}
use cycles_ap2_python.Builtins.{Builtins, formatted, repr_of}
use cycles_ap2_python.Errors.{Raised, Result, ok, err, mandate_error}

-- `raise` with a message, where its parts can be formatted.
unfoldable pub raise_with : Result String → (String → Raised) → Result ℕ
raise_with (err e) raise = err e
raise_with (ok text) raise = err (raise text)

-- A value that is accepted is a number of micro-cents, never negative.
unfoldable pub validate_micros : Builtins → Value → String → Result ℕ
unfolding raise_with formatted repr_of
validate_micros b (int (pos n)) name =
    if ltb max_usd_micros n
    then raise_with (formatted b (pos n)) (λ text. mandate_error (
        name
        <> " "
        <> text
        <> " exceeds int64 USD micro-cent max ("
        <> show_int (pos max_usd_micros)
        <> ")"))
    else ok n
validate_micros b (int (negsuc n)) name =
    raise_with (formatted b (negsuc n))
      (λ text. mandate_error (name <> " must be non-negative, got " <> text))
validate_micros b v name =
    raise_with (repr_of b v)
      (λ text. mandate_error (name <> " must be an int, got " <> type_name v <> ": " <> text))
