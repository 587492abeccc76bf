-- ===== src/Sha256.antt =====
-- `hashlib.sha256(value.encode("utf-8")).hexdigest()` of the standard library, by FIPS 180-4:
-- words are numbers below 2 ^ 32, and sums are taken modulo 2 ^ 32.
pub mod Hex
pub mod Digest
use Prim.Native.Nat.{bit_and, bit_xor}
use cycles_ap2_python.Base.{
  ℕ, zero, suc, ◌+◌, ◌-◌, ◌*◌, ◌/◌, ◌%◌, ◌^◌, String, Char, code, List, [], ◌∷◌, ◌++◌, ltb, ◌<>◌,
  if◌then◌else◌,
}
use Hex.{hex_digits}

abbrev word : ℕ
word = 2 ^ 32

-- The bytes of a character in UTF-8.
utf8 : ℕ → List ℕ
utf8 n =
    if ltb n 128
    then n ∷ []
    else if ltb n 2048
    then (192 + n / 64) ∷ (128 + n % 64) ∷ []
    else if ltb n 65536
    then (224 + n / 4096) ∷ (128 + n / 64 % 64) ∷ (128 + n % 64) ∷ []
    else (240 + n / 262144) ∷ (128 + n / 4096 % 64) ∷ (128 + n / 64 % 64) ∷ (128 + n % 64) ∷ []

-- `s.encode("utf-8")`
encode : String → List ℕ
unfolding utf8
encode String.[] = []
encode (String.◌∷◌ c s) = utf8 (code c) ++ encode s

length : List ℕ → ℕ
length [] = 0
length (x ∷ xs) = suc (length xs)

zeros : ℕ → List ℕ
zeros zero = []
zeros (suc n) = 0 ∷ zeros n

-- The `k` lowest bytes of a number, the highest first.
big_endian : ℕ → ℕ → List ℕ
big_endian zero n = []
big_endian (suc k) n = (n / 256 ^ k % 256) ∷ big_endian k n

-- A one bit, zeros up to 56 bytes modulo 64, and the number of bits in eight bytes.
pad : List ℕ → List ℕ
unfolding length zeros big_endian
pad bytes =
    let n = length bytes in bytes ++ (128 ∷ (zeros ((119 - n % 64) % 64) ++ big_endian 8 (n * 8)))

words : List ℕ → List ℕ
words (a ∷ b ∷ c ∷ d ∷ rest) = (a * 256 ^ 3 + b * 256 ^ 2 + c * 256 + d) ∷ words rest
words _ = []

nth : ℕ → List ℕ → ℕ
nth i [] = 0
nth zero (x ∷ xs) = x
nth (suc i) (x ∷ xs) = nth i xs

tail : List ℕ → List ℕ
tail [] = []
tail (x ∷ xs) = xs

-- Rotation and shift to the right.
rotr : ℕ → ℕ → ℕ
rotr k x = x / 2 ^ k + x % 2 ^ k * 2 ^ (32 - k)

xor3 : ℕ → ℕ → ℕ → ℕ
xor3 a b c = bit_xor a (bit_xor b c)

big_sigma0 : ℕ → ℕ
unfolding rotr xor3
big_sigma0 x = xor3 (rotr 2 x) (rotr 13 x) (rotr 22 x)

big_sigma1 : ℕ → ℕ
unfolding rotr xor3
big_sigma1 x = xor3 (rotr 6 x) (rotr 11 x) (rotr 25 x)

small_sigma0 : ℕ → ℕ
unfolding rotr xor3
small_sigma0 x = xor3 (rotr 7 x) (rotr 18 x) (x / 2 ^ 3)

small_sigma1 : ℕ → ℕ
unfolding rotr xor3
small_sigma1 x = xor3 (rotr 17 x) (rotr 19 x) (x / 2 ^ 10)

choose : ℕ → ℕ → ℕ → ℕ
choose e f g = bit_xor (bit_and e f) (bit_and (word - 1 - e) g)

majority : ℕ → ℕ → ℕ → ℕ
unfolding xor3
majority a b c = xor3 (bit_and a b) (bit_and a c) (bit_and b c)

record Registers : Type 0 where
  a : ℕ
  b : ℕ
  c : ℕ
  d : ℕ
  e : ℕ
  f : ℕ
  g : ℕ
  h : ℕ

-- One round on the registers, with the constant `k` and the schedule's word `w`.
round : ℕ → ℕ → Registers → Registers
unfolding big_sigma0 big_sigma1 choose majority
round k w r =
    let t1 = r.h + big_sigma1 r.e + choose r.e r.f r.g + k + w in
    let t2 = big_sigma0 r.a + majority r.a r.b r.c in
    record {
      a = (t1 + t2) % word;
      b = r.a;
      c = r.b;
      d = r.c;
      e = (r.d + t1) % word;
      f = r.e;
      g = r.f;
      h = r.g;
    }

-- The rounds over the constants. The list holds the next sixteen words of the schedule.
rounds : List ℕ → List ℕ → Registers → Registers
unfolding round nth tail small_sigma0 small_sigma1
rounds [] ws r = r
rounds (k ∷ ks) ws r =
    let next = (small_sigma1 (nth 14 ws) + nth 9 ws + small_sigma0 (nth 1 ws) + nth 0 ws) % word in
    rounds ks (tail ws ++ (next ∷ [])) (round k (nth 0 ws) r)

abbrev constants : List ℕ
constants =
    0x428a2f98 ∷ 0x71374491 ∷ 0xb5c0fbcf ∷ 0xe9b5dba5 ∷ 0x3956c25b ∷ 0x59f111f1 ∷ 0x923f82a4
    ∷ 0xab1c5ed5 ∷ 0xd807aa98 ∷ 0x12835b01 ∷ 0x243185be ∷ 0x550c7dc3 ∷ 0x72be5d74 ∷ 0x80deb1fe
    ∷ 0x9bdc06a7 ∷ 0xc19bf174 ∷ 0xe49b69c1 ∷ 0xefbe4786 ∷ 0x0fc19dc6 ∷ 0x240ca1cc ∷ 0x2de92c6f
    ∷ 0x4a7484aa ∷ 0x5cb0a9dc ∷ 0x76f988da ∷ 0x983e5152 ∷ 0xa831c66d ∷ 0xb00327c8 ∷ 0xbf597fc7
    ∷ 0xc6e00bf3 ∷ 0xd5a79147 ∷ 0x06ca6351 ∷ 0x14292967 ∷ 0x27b70a85 ∷ 0x2e1b2138 ∷ 0x4d2c6dfc
    ∷ 0x53380d13 ∷ 0x650a7354 ∷ 0x766a0abb ∷ 0x81c2c92e ∷ 0x92722c85 ∷ 0xa2bfe8a1 ∷ 0xa81a664b
    ∷ 0xc24b8b70 ∷ 0xc76c51a3 ∷ 0xd192e819 ∷ 0xd6990624 ∷ 0xf40e3585 ∷ 0x106aa070 ∷ 0x19a4c116
    ∷ 0x1e376c08 ∷ 0x2748774c ∷ 0x34b0bcb5 ∷ 0x391c0cb3 ∷ 0x4ed8aa4a ∷ 0x5b9cca4f ∷ 0x682e6ff3
    ∷ 0x748f82ee ∷ 0x78a5636f ∷ 0x84c87814 ∷ 0x8cc70208 ∷ 0x90befffa ∷ 0xa4506ceb ∷ 0xbef9a3f7
    ∷ 0xc67178f2 ∷ []

take : ℕ → List ℕ → List ℕ
take zero xs = []
take (suc n) [] = []
take (suc n) (x ∷ xs) = x ∷ take n xs

drop : ℕ → List ℕ → List ℕ
drop zero xs = xs
drop (suc n) [] = []
drop (suc n) (x ∷ xs) = drop n xs

compress : List ℕ → Registers → Registers
unfolding rounds
compress block r =
    let s = rounds constants block r in
    record {
      a = (r.a + s.a) % word;
      b = (r.b + s.b) % word;
      c = (r.c + s.c) % word;
      d = (r.d + s.d) % word;
      e = (r.e + s.e) % word;
      f = (r.f + s.f) % word;
      g = (r.g + s.g) % word;
      h = (r.h + s.h) % word;
    }

-- The blocks of sixteen words, `n` of them.
blocks : ℕ → List ℕ → Registers → Registers
unfolding compress take drop
blocks zero ws r = r
blocks (suc n) ws r = blocks n (drop 16 ws) (compress (take 16 ws) r)

abbrev initial : Registers
initial = record {
  a = 0x6a09e667;
  b = 0xbb67ae85;
  c = 0x3c6ef372;
  d = 0xa54ff53a;
  e = 0x510e527f;
  f = 0x9b05688c;
  g = 0x1f83d9ab;
  h = 0x5be0cd19;
}

digest : String → Registers
unfolding blocks pad words encode length
digest s = let ws = words (pad (encode s)) in blocks (length ws / 16) ws initial

-- The eight registers in hexadecimal.
unfoldable pub sha256_hex : String → String
unfolding digest hex_digits
sha256_hex s =
    let r = digest s in
    hex_digits 8 r.a
    <> hex_digits 8 r.b
    <> hex_digits 8 r.c
    <> hex_digits 8 r.d
    <> hex_digits 8 r.e
    <> hex_digits 8 r.f
    <> hex_digits 8 r.g
    <> hex_digits 8 r.h
