-- ===== src/Sha256/Hex.antt =====
-- Hexadecimal digits, lower case.
use text.Mathlib.TextLemmas.{length-cons, length-nil}
use cycles_ap2_python.Base.{
  ℕ, zero, suc, ◌/◌, ◌%◌, ◌^◌, String, Char, code, count, Bool, true, ◌&&◌, ◌||◌, ◌≡◌, refl, arith,
  leb, get_or, all_chars, get_or-all_chars,
}

hex_digit : ℕ → Char
unfolding get_or
hex_digit n = get_or "0123456789abcdef" n "0"

-- The `k` lowest digits of a number, the highest first.
unfoldable pub hex_digits : ℕ → ℕ → String
unfolding hex_digit
hex_digits zero n = ""
hex_digits (suc k) n = String.◌∷◌ (hex_digit (n / 16 ^ k % 16)) (hex_digits k n)

-- A character of `[0-9a-f]`.
abbrev pub is_hex : Char → Bool
is_hex c = (leb b'0' (code c) && leb (code c) b'9') || (leb b'a' (code c) && leb (code c) b'f')

pub count-hex_digits : (k n : ℕ) → count (hex_digits k n) ≡ k
unfolding hex_digits
count-hex_digits zero n = length-nil
count-hex_digits (suc k) n =
    omega (arith, length-cons (hex_digit (n / 16 ^ k % 16)) (hex_digits k n), count-hex_digits k n)

hex_digit-is_hex : (n : ℕ) → is_hex (hex_digit n) ≡ true
hex_digit-is_hex n =
    unfold hex_digit in
    get_or-all_chars is_hex "0123456789abcdef" n "0" (unfold all_chars in refl) refl

pub hex_digits-is_hex : (k n : ℕ) → all_chars is_hex (hex_digits k n) ≡ true
unfolding hex_digits all_chars
hex_digits-is_hex zero n = refl
hex_digits-is_hex (suc k) n =
    ground (arith, hex_digit-is_hex (n / 16 ^ k % 16), hex_digits-is_hex k n)
