-- ===== src/Decimal/Canonical.antt =====
-- The digits of a finite decimal, as `as_tuple()` gives them to `amount_micros`.
use mathlib.Core.List.{map}
use cycles_ap2_python.Base.{
  ℕ, zero, suc, ◌<◌, String, Bool, Option, none, some, List, [], ◌∷◌, ◌++◌, ◌≡◌, refl, arith,
  Option-cases, inl, inr,
}
use cycles_ap2_python.Base.Int.{ℤ}
use cycles_ap2_python.Builtins.{Builtins}
use cycles_ap2_python.Decimal.{
  Decimal, finite, span_digits, is_digit, fraction_of, coefficient, assemble, number, special,
  not_a_number, nan_word, after_nan, parse, or_number, convert, normalise, lower, sign,
}

abbrev pub Digits : List ℕ → Type 0
Digits [] = Unit
Digits (d ∷ ds) = (d < 10) × Digits ds

abbrev pub HasLead : List ℕ → Type 0
HasLead [] = ⊥
HasLead (zero ∷ ds) = ds ≡ []
HasLead (suc d ∷ ds) = Unit

pub record IsCanonical (ds : List ℕ) : Type 0 where
  pub digits : Digits ds
  pub lead : HasLead ds

span_digits-Digits : (cs : List ℕ) → Digits (span_digits cs).0
unfolding span_digits is_digit
span_digits-Digits [] = tt
span_digits-Digits (c ∷ cs) = ground (arith, span_digits-Digits cs)

fraction_of-Digits : (cs : List ℕ) → Digits (fraction_of cs).0
unfolding fraction_of
fraction_of-Digits [] = tt
fraction_of-Digits (c ∷ cs) = ground (arith, span_digits-Digits cs)

Digits-append : (ds es : List ℕ) → Digits ds → Digits es → Digits (ds ++ es)
Digits-append [] es h k = k
Digits-append (d ∷ ds) es h k = (h.0, Digits-append ds es h.1 k)

coefficient-IsCanonical : (ds : List ℕ) → Digits ds → IsCanonical (coefficient ds)
unfolding coefficient
coefficient-IsCanonical [] h = record { digits = omega arith; lead = refl }
coefficient-IsCanonical (zero ∷ ds) h = coefficient-IsCanonical ds h.1
coefficient-IsCanonical (suc d ∷ ds) h = record { digits = h; lead = tt }

-- What a conversion may give: any digits of a finite result are canonical.
abbrev pub IsGood : Option Decimal → Type 0
IsGood o = (minus : Bool) (ds : List ℕ) (e : ℤ) → o ≡ some (finite minus ds e) → IsCanonical ds

assemble-IsGood :
    (minus : Bool) (ds : List ℕ) (places : ℕ) (e : Option ℤ)
    → Digits ds
    → IsGood (assemble minus ds places e)
unfolding assemble
assemble-IsGood minus [] places e h m r x q = cc
assemble-IsGood minus (d ∷ ds) places none h m r x q = cc
assemble-IsGood minus (d ∷ ds) places (some e) h m r x q =
    ground (arith, coefficient-IsCanonical (d ∷ ds) h)

number-IsGood : (minus : Bool) (cs : List ℕ) → IsGood (number minus cs)
unfolding number
number-IsGood minus cs =
    assemble-IsGood minus _ _ _
      (Digits-append _ _ (span_digits-Digits cs) (fraction_of-Digits (span_digits cs).1))

nan_word-IsGood : (cs : List ℕ) → IsGood (nan_word cs)
unfolding nan_word after_nan
nan_word-IsGood [] m ds e h = cc
nan_word-IsGood (x ∷ []) m ds e h = cc
nan_word-IsGood (x ∷ y ∷ []) m ds e h = cc
nan_word-IsGood (x ∷ y ∷ z ∷ payload) m ds e h = ground arith

not_a_number-IsGood : (cs : List ℕ) → IsGood (not_a_number cs)
unfolding not_a_number
not_a_number-IsGood [] m ds e h = cc
not_a_number-IsGood (c ∷ cs) m ds e h =
    ground (arith, nan_word-IsGood cs m ds e, nan_word-IsGood (c ∷ cs) m ds e)

special-IsGood : (cs : List ℕ) → IsGood (special cs)
unfolding special
special-IsGood cs m ds e h = ground (arith, not_a_number-IsGood (map lower cs) m ds e)

or_number-IsGood :
    (o : Option Decimal) (minus : Bool) (cs : List ℕ) → IsGood o → IsGood (or_number o minus cs)
unfolding or_number
or_number-IsGood (some d) minus cs good = good
or_number-IsGood none minus cs good = number-IsGood minus cs

convert-IsGood : (cs : List ℕ) → IsGood (convert cs)
unfolding convert
convert-IsGood cs = or_number-IsGood _ _ _ (special-IsGood (sign cs).1)

pub parse-IsCanonical : (b : Builtins) (s : String) → IsGood (parse b s)
unfolding parse
parse-IsCanonical b s m ds e h = elim (Option-cases (normalise b s)) [
  | inl bad ↦ ground arith
  | inr (cs, fine) ↦ ground (arith, convert-IsGood cs m ds e)
]
