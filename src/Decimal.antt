-- ===== src/Decimal.antt =====
-- `decimal.Decimal(s)` of the standard library, as far as `AP2Mandate.amount_micros` reads it:
-- the syntax, and `as_tuple()` of the exact result.
pub mod Canonical
pub mod Positional
use mathlib.Core.List.{reverse, map}
use cycles_ap2_python.Base.{
  ℕ, zero, suc, ◌+◌, ◌-◌, ◌*◌, ◌^◌, String, Char, code, Bool, true, false, ◌&&◌, ◌||◌, Option, none,
  some, List, [], ◌∷◌, ◌++◌, ◌==◌, ltb, leb, if◌then◌else◌,
}
use cycles_ap2_python.Base.Int.{ℤ, pos, negsuc, ◌+ℤ◌, leb_ℤ}
use cycles_ap2_python.Builtins.{Builtins, is_space, digit}

-- A finite decimal has its sign (true for a minus), its digits and its exponent.
pub data Decimal : Type 0 where
  finite : Bool → List ℕ → ℤ → Decimal
  infinite nan : Decimal

chars : String → List Char
chars String.[] = []
chars (String.◌∷◌ c s) = c ∷ chars s

module _ (b : Builtins) where
  lstrip : List Char → List Char
  unfolding is_space
  lstrip [] = []
  lstrip (c ∷ cs) = let rest = lstrip cs in if is_space b c then rest else c ∷ cs

  -- One character, as an ASCII code: underscores go, spaces become blanks, decimal digits of any
  -- script become ASCII ones. None if there is no such code.
  ascii_char : Char → Option (List ℕ)
  unfolding is_space digit
  ascii_char c =
      let n = code c in
      if n == b'_'
      then some []
      else if ltb 0 n && ltb n 128
      then some (n ∷ [])
      else if is_space b c
      then some (32 ∷ [])
      else elim (digit b c) [ none ↦ none | some d ↦ some ((b'0' + d) ∷ []) ]

  to_ascii : List Char → Option (List ℕ)
  unfolding ascii_char
  to_ascii [] = some []
  to_ascii (c ∷ cs) = elim (ascii_char c) [
    | none ↦ none
    | some here ↦ elim (to_ascii cs) [ none ↦ none | some rest ↦ some (here ++ rest) ]
  ]

  -- The text without blanks at its ends, in ASCII.
  normalise : String → Option (List ℕ)
  unfolding chars lstrip to_ascii
  normalise s = to_ascii (reverse (lstrip (reverse (lstrip (chars s)))))

is_digit : ℕ → Bool
is_digit c = leb b'0' c && leb c b'9'

lower : ℕ → ℕ
lower c = if leb b'A' c && leb c b'Z' then c + 32 else c

-- The digits in front, as numbers, and what follows them.
span_digits : List ℕ → List ℕ × List ℕ
unfolding is_digit
span_digits [] = ([], [])
span_digits (c ∷ cs) =
    let (ds, rest) = span_digits cs in if is_digit c then ((c - b'0') ∷ ds, rest) else ([], c ∷ cs)

eq_codes : List ℕ → List ℕ → Bool
eq_codes [] [] = true
eq_codes (c ∷ cs) (d ∷ ds) = c == d && eq_codes cs ds
eq_codes _ _ = false

unfoldable pub length : List ℕ → ℕ
length [] = 0
length (d ∷ ds) = suc (length ds)

-- The number that digits write, from the left.
unfoldable pub from_digits : ℕ → List ℕ → ℕ
from_digits acc [] = acc
from_digits acc (d ∷ ds) = from_digits (acc * 10 + d) ds

-- The sign in front: true for a minus.
sign : List ℕ → Bool × List ℕ
sign [] = (false, [])
sign (c ∷ cs) = if c == b'-' then (true, cs) else if c == b'+' then (false, cs) else (false, c ∷ cs)

negate : Bool → ℕ → ℤ
negate true zero = pos 0
negate true (suc n) = negsuc n
negate false n = pos n

-- What may follow the digits: nothing, or an `e` and an integer.
exponent : List ℕ → Option ℤ
unfolding sign span_digits from_digits negate lower
exponent [] = some (pos 0)
exponent (c ∷ cs) =
    let (minus, after) = sign cs in
    let (ds, rest) = span_digits after in
    elim rest [
      | [] ↦ elim ds [
        | [] ↦ none
        | d ∷ more ↦
            if lower c == b'e' then some (negate minus (from_digits 0 (d ∷ more))) else none
      ]
      | _ ∷ _ ↦ none
    ]

-- No leading zeros, but one zero for the number zero.
coefficient : List ℕ → List ℕ
coefficient [] = 0 ∷ []
coefficient (zero ∷ ds) = coefficient ds
coefficient (suc d ∷ ds) = suc d ∷ ds

-- The limits of the exponent on a 64-bit machine: beyond them the conversion is not exact, and
-- raises `InvalidOperation`.
abbrev max_exponent : ℕ
max_exponent = 10 ^ 18 - 1

abbrev tiny_exponent : ℕ
tiny_exponent = 2 * max_exponent - 1

unfoldable pub is_zero : List ℕ → Bool
is_zero [] = true
is_zero (zero ∷ ds) = is_zero ds
is_zero (suc d ∷ ds) = false

in_limits : List ℕ → ℤ → Bool
unfolding is_zero length ◌+ℤ◌
in_limits ds e =
    let adjusted = if is_zero ds then e else e +ℤ pos (length ds - 1) in
    leb_ℤ (negsuc (tiny_exponent - 1)) e && leb_ℤ adjusted (pos max_exponent)

-- The digits behind a point, if one is there.
fraction_of : List ℕ → List ℕ × List ℕ
unfolding span_digits
fraction_of [] = ([], [])
fraction_of (c ∷ cs) = if c == b'.' then span_digits cs else ([], c ∷ cs)

-- All digits, how many of them stand behind the point, and the exponent.
assemble : Bool → List ℕ → ℕ → Option ℤ → Option Decimal
unfolding coefficient in_limits negate ◌+ℤ◌
assemble minus [] places e = none
assemble minus (d ∷ ds) places none = none
assemble minus (d ∷ ds) places (some e) =
    let digits = coefficient (d ∷ ds) in
    let scaled = e +ℤ negate true places in
    if in_limits digits scaled then some (finite minus digits scaled) else none

-- Digits with at most one point, and an exponent.
number : Bool → List ℕ → Option Decimal
unfolding span_digits fraction_of exponent assemble length
number minus cs =
    let (whole, rest) = span_digits cs in
    let (fraction, after) = fraction_of rest in
    assemble minus (whole ++ fraction) (length fraction) (exponent after)

-- What follows `nan`: digits only.
after_nan : List ℕ → Option Decimal
unfolding span_digits
after_nan payload =
    let (ds, rest) = span_digits payload in elim rest [ [] ↦ some nan | _ ∷ _ ↦ none ]

nan_word : List ℕ → Option Decimal
unfolding after_nan eq_codes
nan_word (x ∷ y ∷ z ∷ payload) =
    if eq_codes (x ∷ y ∷ z ∷ []) (b'n' ∷ b'a' ∷ b'n' ∷ []) then after_nan payload else none
nan_word _ = none

-- `nan`, or the signaling `snan`.
not_a_number : List ℕ → Option Decimal
unfolding nan_word
not_a_number [] = none
not_a_number (c ∷ more) = if c == b's' then nan_word more else nan_word (c ∷ more)

-- The words for infinity and for what is no number, in any case.
special : List ℕ → Option Decimal
unfolding eq_codes lower not_a_number
special cs =
    let word = map lower cs in
    if eq_codes word (b'i' ∷ b'n' ∷ b'f' ∷ [])
      || eq_codes word (b'i' ∷ b'n' ∷ b'f' ∷ b'i' ∷ b'n' ∷ b'i' ∷ b't' ∷ b'y' ∷ [])
    then some infinite
    else not_a_number word

-- The conversion of a text in ASCII: a word, or else a number.
or_number : Option Decimal → Bool → List ℕ → Option Decimal
unfolding number
or_number (some d) minus cs = some d
or_number none minus cs = number minus cs

convert : List ℕ → Option Decimal
unfolding sign special or_number
convert cs = let (minus, rest) = sign cs in or_number (special rest) minus rest

-- `Decimal(s)`; none where it raises `InvalidOperation`.
unfoldable pub parse : Builtins → String → Option Decimal
unfolding normalise convert
parse b s = elim (normalise b s) [ none ↦ none | some cs ↦ convert cs ]
