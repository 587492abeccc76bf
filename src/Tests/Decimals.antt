-- ===== src/Tests/Decimals.antt =====
-- `Decimal(s)` on the forms that the grammar allows.
use cycles_ap2_python.Base.{◌≡◌, refl, true, false, none, some, [], ◌∷◌}
use cycles_ap2_python.Base.Int.{pos, negsuc}
use cycles_ap2_python.Decimal.{parse, finite, infinite, nan}
use cycles_ap2_python.Tests.Fixtures.{builtins}

million_million :
    parse builtins "1E+1000000000000" ≡ some (finite false (1 ∷ []) (pos 1000000000000))
unfolding parse
million_million = refl

zero_scaled : parse builtins "0E+19" ≡ some (finite false (0 ∷ []) (pos 19))
unfolding parse
zero_scaled = refl

minus_zero : parse builtins "-0" ≡ some (finite true (0 ∷ []) (pos 0))
unfolding parse
minus_zero = refl

leading_zeros : parse builtins "00123" ≡ some (finite false (1 ∷ 2 ∷ 3 ∷ []) (pos 0))
unfolding parse
leading_zeros = refl

underscores : parse builtins "1_0.5_" ≡ some (finite false (1 ∷ 0 ∷ 5 ∷ []) (negsuc 0))
unfolding parse
underscores = refl

devanagari : parse builtins "३" ≡ some (finite false (3 ∷ []) (pos 0))
unfolding parse
devanagari = refl

no_exponent : parse builtins "1e" ≡ none
unfolding parse
no_exponent = refl

point_only : parse builtins "." ≡ none
unfolding parse
point_only = refl

point_last : parse builtins "5." ≡ some (finite false (5 ∷ []) (pos 0))
unfolding parse
point_last = refl

point_first : parse builtins ".5" ≡ some (finite false (5 ∷ []) (negsuc 0))
unfolding parse
point_first = refl

blanks : parse builtins " 1 " ≡ some (finite false (1 ∷ []) (pos 0))
unfolding parse
blanks = refl

largest :
    parse builtins "1E+999999999999999999" ≡ some (finite false (1 ∷ []) (pos 999999999999999999))
unfolding parse
largest = refl

too_large : parse builtins "1E+1000000000000000000" ≡ none
unfolding parse
too_large = refl

zero_small :
    parse builtins "0E-1999999999999999997"
    ≡ some (finite false (0 ∷ []) (negsuc 1999999999999999996))
unfolding parse
zero_small = refl

zero_too_small : parse builtins "0E-1999999999999999998" ≡ none
unfolding parse
zero_too_small = refl

ten_large :
    parse builtins "10E+999999999999999998"
    ≡ some (finite false (1 ∷ 0 ∷ []) (pos 999999999999999998))
unfolding parse
ten_large = refl

ten_too_large : parse builtins "10E+999999999999999999" ≡ none
unfolding parse
ten_too_large = refl

payload : parse builtins "nan12" ≡ some nan
unfolding parse
payload = refl

inner_blank : parse builtins "1 2" ≡ none
unfolding parse
inner_blank = refl

plus : parse builtins "+1" ≡ some (finite false (1 ∷ []) (pos 0))
unfolding parse
plus = refl

e_first : parse builtins "e5" ≡ none
unfolding parse
e_first = refl

exponent_underscore : parse builtins "1E_5" ≡ some (finite false (1 ∷ []) (pos 5))
unfolding parse
exponent_underscore = refl

infinity : parse builtins "-Infinity" ≡ some infinite
unfolding parse
infinity = refl

infinit : parse builtins "infinit" ≡ none
unfolding parse
infinit = refl

signaling : parse builtins "sNaN" ≡ some nan
unfolding parse
signaling = refl

price : parse builtins "199.00" ≡ some (finite false (1 ∷ 9 ∷ 9 ∷ 0 ∷ 0 ∷ []) (negsuc 1))
unfolding parse
price = refl

two_points : parse builtins "1.2.3" ≡ none
unfolding parse
two_points = refl

empty : parse builtins "" ≡ none
unfolding parse
empty = refl
