-- ===== src/Base/Text.antt =====
-- Python's `str` as the native text: slices from the front, tests on every character, and the
-- decimal digits of a number. `count` is Python's `len`.
use Prim.Native.Nat.{ℕ, zero, suc, ◌/◌, ◌%◌, ◌≤◌, ◌<◌}
use Prim.Native.Char.{Char}
use Prim.Native.String.{String, ◌++◌, count}
use mathlib.Core.Path.{◌≡◌, refl}
use mathlib.Core.Bool.{Bool, true, ◌&&◌}
use mathlib.Core.Option.{Option, none, some}
use native.Mathlib.Omega.{arith}
use text.Mathlib.TextLemmas.{nil-append, cons-append, length-cons, length-nil}
use cycles_ap2_python.Base.Bools.{ltb, if◌then◌else◌}

-- `s[:n]`
unfoldable pub take : ℕ → String → String
take zero s = ""
take (suc n) String.[] = ""
take (suc n) (String.◌∷◌ c s) = String.◌∷◌ c (take n s)

-- The character at a place, or `d` past the end.
unfoldable pub get_or : String → ℕ → Char → Char
get_or String.[] i d = d
get_or (String.◌∷◌ c s) zero d = c
get_or (String.◌∷◌ c s) (suc i) d = get_or s i d

-- `"".join(f(c) for c in s)`
unfoldable pub map_chars : (Char → Char) → String → String
map_chars f String.[] = ""
map_chars f (String.◌∷◌ c s) = String.◌∷◌ (f c) (map_chars f s)

-- `all(p(c) for c in s)`
unfoldable pub all_chars : (Char → Bool) → String → Bool
all_chars p String.[] = true
all_chars p (String.◌∷◌ c s) = p c && all_chars p s

-- A text that Python takes for true.
unfoldable pub truthy : Option String → Option String
truthy none = none
truthy (some String.[]) = none
truthy (some (String.◌∷◌ c s)) = some (String.◌∷◌ c s)

pub count-take : (n : ℕ) (s : String) → count (take n s) ≤ n
unfolding take
count-take zero s = omega (arith, length-nil)
count-take (suc n) String.[] = omega (arith, length-nil)
count-take (suc n) (String.◌∷◌ c s) = omega (arith, length-cons c (take n s), count-take n s)

pub count-take_le : (n : ℕ) (s : String) → count (take n s) ≤ count s
unfolding take
count-take_le zero s = omega (arith, length-nil)
count-take_le (suc n) String.[] = omega arith
count-take_le (suc n) (String.◌∷◌ c s) =
    omega (arith, length-cons c (take n s), length-cons c s, count-take_le n s)

-- A text that is not longer than `n` is its own slice.
pub take_all : (n : ℕ) (s : String) → count s ≤ n → take n s ≡ s
unfolding take
take_all zero String.[] h = refl
take_all zero (String.◌∷◌ c s) h = absurd (omega (arith, length-cons c s))
take_all (suc n) String.[] h = refl
take_all (suc n) (String.◌∷◌ c s) h =
    let shorter : count s ≤ n = omega (arith, length-cons c s) in
    λ i. String.◌∷◌ c (take_all n s shorter i)

-- The slice of a text that is at least as long as `n` has `n` characters.
pub count-take_eq : (n : ℕ) (s : String) → n ≤ count s → count (take n s) ≡ n
unfolding take
count-take_eq zero s h = length-nil
count-take_eq (suc n) String.[] h = absurd (omega (arith, length-nil))
count-take_eq (suc n) (String.◌∷◌ c s) h =
    let longer : n ≤ count s = omega (arith, length-cons c s) in
    omega (arith, length-cons c (take n s), count-take_eq n s longer)

pub count-map_chars : (f : Char → Char) (s : String) → count (map_chars f s) ≡ count s
unfolding map_chars
count-map_chars f String.[] = refl
count-map_chars f (String.◌∷◌ c s) =
    omega (arith, length-cons (f c) (map_chars f s), length-cons c s, count-map_chars f s)

module _ (p : Char → Bool) where
  pub all_chars-append : (s t : String) → all_chars p (s ++ t) ≡ (all_chars p s && all_chars p t)
  unfolding all_chars
  all_chars-append String.[] t = rw nil-append
  all_chars-append (String.◌∷◌ c s) t = rw cons-append (ground (arith, all_chars-append s t))

  pub all_chars-take : (n : ℕ) (s : String) → all_chars p s ≡ true → all_chars p (take n s) ≡ true
  unfolding all_chars take
  all_chars-take zero s h = refl
  all_chars-take (suc n) String.[] h = refl
  all_chars-take (suc n) (String.◌∷◌ c s) h = ground (arith, all_chars-take n s)

  pub all_chars-map_chars :
      (f : Char → Char) (s : String)
      → ((c : Char) → p (f c) ≡ true)
      → all_chars p (map_chars f s) ≡ true
  unfolding all_chars map_chars
  all_chars-map_chars f String.[] h = refl
  all_chars-map_chars f (String.◌∷◌ c s) h = ground (arith, h c, all_chars-map_chars f s h)

  pub get_or-all_chars :
      (s : String) (i : ℕ) (d : Char) → all_chars p s ≡ true → p d ≡ true → p (get_or s i d) ≡ true
  unfolding all_chars get_or
  get_or-all_chars String.[] i d h hd = hd
  get_or-all_chars (String.◌∷◌ c s) zero d h hd = ground arith
  get_or-all_chars (String.◌∷◌ c s) (suc i) d h hd = get_or-all_chars s i d (ground arith) hd

-- `str(n)`: the fuel is the number itself plus one, since each round divides it by ten.
show_from : ℕ → ℕ → String → String
show_from zero n rest = rest
show_from (suc fuel) n rest =
    let longer = String.◌∷◌ (get_or "0123456789" (n % 10) "0") rest in
    let shown = show_from fuel (n / 10) longer in if ltb n 10 then longer else shown

unfoldable pub show_nat : ℕ → String
unfolding show_from get_or
show_nat n = show_from (suc n) n ""

-- A place inside the first of two texts.
pub get_or-append :
    (s t : String) (i : ℕ) (d : Char) → i < count s → get_or (s ++ t) i d ≡ get_or s i d
unfolding get_or
get_or-append String.[] t i d h = absurd (omega (arith, length-nil))
get_or-append (String.◌∷◌ c s) t zero d h = rw cons-append
get_or-append (String.◌∷◌ c s) t (suc i) d h =
    let inside : i < count s = omega (arith, length-cons c s) in
    rw cons-append (get_or-append s t i d inside)
