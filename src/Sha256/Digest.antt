-- ===== src/Sha256/Digest.antt =====
-- The shape of a digest of `_hash_input` (runcycles_ap2/mapping.py), and test vectors.
use text.Mathlib.TextLemmas.{length-append}
use cycles_ap2_python.Base.{
  String, count, all_chars, all_chars-append, ◌≡◌, refl, true, arith, ◌<>◌,
}
use cycles_ap2_python.Sha256.{sha256_hex}
use cycles_ap2_python.Sha256.Hex.{count-hex_digits, hex_digits-is_hex, is_hex}

count_of_eight :
    (a b c d e f g h : String)
    → count a ≡ 8
    → count b ≡ 8
    → count c ≡ 8
    → count d ≡ 8
    → count e ≡ 8
    → count f ≡ 8
    → count g ≡ 8
    → count h ≡ 8
    → count (a <> b <> c <> d <> e <> f <> g <> h) ≡ 64
count_of_eight a b c d e f g h ha hb hc hd he hf hg hh = omega (
  arith,
  length-append a (b <> c <> d <> e <> f <> g <> h),
  length-append b (c <> d <> e <> f <> g <> h),
  length-append c (d <> e <> f <> g <> h),
  length-append d (e <> f <> g <> h),
  length-append e (f <> g <> h),
  length-append f (g <> h),
  length-append g h,
)

pub count-sha256_hex : (s : String) → count (sha256_hex s) ≡ 64
unfolding sha256_hex
count-sha256_hex s =
    count_of_eight _ _ _ _ _ _ _ _ (count-hex_digits 8 _) (count-hex_digits 8 _)
      (count-hex_digits 8 _) (count-hex_digits 8 _) (count-hex_digits 8 _) (count-hex_digits 8 _)
      (count-hex_digits 8 _) (count-hex_digits 8 _)

append-is_hex :
    (s t : String)
    → all_chars is_hex s ≡ true
    → all_chars is_hex t ≡ true
    → all_chars is_hex (s <> t) ≡ true
append-is_hex s t hs ht = rw (all_chars-append is_hex s t, hs, ht)

pub sha256_hex-is_hex : (s : String) → all_chars is_hex (sha256_hex s) ≡ true
unfolding sha256_hex
sha256_hex-is_hex s = append-is_hex _ _ (hex_digits-is_hex 8 _) (
    append-is_hex _ _ (hex_digits-is_hex 8 _) (
      append-is_hex _ _ (hex_digits-is_hex 8 _) (
        append-is_hex _ _ (hex_digits-is_hex 8 _) (
          append-is_hex _ _ (hex_digits-is_hex 8 _) (
            append-is_hex _ _ (hex_digits-is_hex 8 _)
              (append-is_hex _ _ (hex_digits-is_hex 8 _) (hex_digits-is_hex 8 _)))))))

-- The test vectors of the standard, and a text of two bytes a character.
digest_abc : sha256_hex "abc" ≡ "ba7816bf8f01cfea414140de5dae2223b00361a396177a9cb410ff61f20015ad"
unfolding sha256_hex
digest_abc = refl

digest_empty : sha256_hex "" ≡ "e3b0c44298fc1c149afbf4c8996fb92427ae41e4649b934ca495991b7852b855"
unfolding sha256_hex
digest_empty = refl

digest_two_blocks :
    sha256_hex "abcdbcdecdefdefgefghfghighijhijkijkljklmklmnlmnomnopnopq"
    ≡ "248d6a61d20638b8e5c026930c3e6039a33ce45964ff2167f6ecedd419db06c1"
unfolding sha256_hex
digest_two_blocks = refl

digest_accents :
    sha256_hex "éλ€😀" ≡ "077ebb7e33d553a6a4e1108cd00f144a2efe1e61e424d97fe889afac00999bcd"
unfolding sha256_hex
digest_accents = refl
