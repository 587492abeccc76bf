-- ===== src/Builtins.antt =====
-- What the interpreter and pydantic bring: the Unicode tables beyond ASCII, `repr`, `str` and `bool` of what is no text, and the
-- validation of a constrained text field. They are parameters of the model.
use cycles_ap2_python.Base.{
  ℕ, ◌-◌, ◌≤◌, String, Char, code, count, Bool, ◌&&◌, ◌||◌, Option, none, some, ◌≡◌, ◌<>◌, leb, ltb,
  ◌==◌, if◌then◌else◌,
}
use cycles_ap2_python.Base.Int.{ℤ, show_int}
use cycles_ap2_python.Value.{Value, str}
use cycles_ap2_python.Errors.{Exc, Access, value, foreign, Result, ok, err}

pub record Builtins : Type 0 where
  -- `repr(s)` of a text
  pub repr : String → String
  -- `repr(v)` of a value that is no text, which may raise
  pub repr_other : Value → Result String
  -- the `ValueError` for an `int` of too many digits, where it is formatted
  pub too_long : ℤ → Option Exc
  -- `str(v)` of a value that is no text, which may raise
  pub show : Value → Access String
  -- `bool(v)` of a float or of an object of another class, which may raise
  pub truth_other : Value → Access Bool
  -- the entries of the Unicode tables at code points from 128 on
  pub upper_other : Char → String
  pub space_other : Char → Bool
  pub digit_other : Char → Option ℕ
  -- a field `Annotated[str, Field(min_length=…, max_length=…)]` under `str_strip_whitespace`:
  -- the text that is kept, or none where the field is refused
  pub str_field : ℕ → ℕ → Value → Option String
  -- a text that is kept is within its limits
  pub str_field-bounds :
      (lo hi : ℕ) (v : Value) (t : String)
      → str_field lo hi v ≡ some t
      → (lo ≤ count t) × (count t ≤ hi)

-- The ASCII letters of the other case, by code: there is one text of one character for each.
capital : ℕ → String → String
capital c s =
    if c == b'a'
    then "A"
    else if c == b'b'
    then "B"
    else if c == b'c'
    then "C"
    else if c == b'd'
    then "D"
    else if c == b'e'
    then "E"
    else if c == b'f'
    then "F"
    else if c == b'g'
    then "G"
    else if c == b'h'
    then "H"
    else if c == b'i'
    then "I"
    else if c == b'j'
    then "J"
    else if c == b'k'
    then "K"
    else if c == b'l'
    then "L"
    else if c == b'm'
    then "M"
    else if c == b'n'
    then "N"
    else if c == b'o'
    then "O"
    else if c == b'p'
    then "P"
    else if c == b'q'
    then "Q"
    else if c == b'r'
    then "R"
    else if c == b's'
    then "S"
    else if c == b't'
    then "T"
    else if c == b'u'
    then "U"
    else if c == b'v'
    then "V"
    else if c == b'w'
    then "W"
    else if c == b'x'
    then "X"
    else if c == b'y'
    then "Y"
    else if c == b'z'
    then "Z"
    else s

module _ (b : Builtins) where
  upper_char : Char → String
  unfolding capital
  upper_char c = if ltb (code c) 128 then capital (code c) (String.◌∷◌ c "") else b.upper_other c

  -- `s.upper()`
  unfoldable pub upper : String → String
  unfolding upper_char
  upper String.[] = ""
  upper (String.◌∷◌ c s) = upper_char c <> upper s

  -- `c.isspace()`
  unfoldable pub is_space : Char → Bool
  is_space c =
      let n = code c in
      if ltb n 128 then (leb 9 n && leb n 13) || (leb 28 n && leb n 32) else b.space_other c

  -- the value of a decimal digit
  unfoldable pub digit : Char → Option ℕ
  digit c =
      let n = code c in
      if ltb n 128
      then (if leb b'0' n && leb n b'9' then some (n - b'0') else none)
      else b.digit_other c

  -- `str(v)`
  unfoldable pub text_of : Value → Access String
  text_of (str s) = value s
  text_of v = b.show v

  -- `repr(v)`
  unfoldable pub repr_of : Value → Result String
  repr_of (str s) = ok (b.repr s)
  repr_of v = b.repr_other v

  -- An `int` in an f-string.
  unfoldable pub formatted : ℤ → Result String
  formatted n = elim (b.too_long n) [ some e ↦ err (foreign e) | none ↦ ok (show_int n) ]
