-- ===== src/Mapping/Keys.antt =====
-- The length and the characters of the idempotency keys of runcycles_ap2/mapping.py.
use text.Mathlib.TextLemmas.{length-append}
use cycles_ap2_python.Base.{
  ◌+◌, ◌≤◌, String, Char, code, ◌<>◌, count, Bool, true, false, ◌&&◌, ◌||◌, Option, ◌≡◌, ◌⊎◌, inl,
  inr, refl, arith, ◌==◌, take, map_chars, truthy, all_chars, all_chars-append, all_chars-take,
  all_chars-map_chars, count-take, count-take_eq, count-map_chars, Bool-cases, Option-cases,
}
use cycles_ap2_python.Sha256.{sha256_hex}
use cycles_ap2_python.Sha256.Hex.{is_hex}
use cycles_ap2_python.Sha256.Digest.{count-sha256_hex, sha256_hex-is_hex}
use cycles_ap2_python.Mandate.{Mandate}
use cycles_ap2_python.Mapping.{
  hash_input, consume_once_input, is_header_safe, safe_char, safe_suffix, key_base, idempotency_key,
}

pub count-hash_input : (s : String) → count (hash_input s) ≡ 32
unfolding hash_input
count-hash_input s = count-take_eq 32 (sha256_hex s) (omega (arith, count-sha256_hex s))

-- The characters of a key: those of a header token, or a colon.
abbrev pub is_key_char : Char → Bool
is_key_char c = is_header_safe c || code c == b':'

hex-is_key_char : (c : Char) → is_hex c ≡ true → is_key_char c ≡ true
unfolding is_header_safe
hex-is_key_char c h = ground arith

and-parts : (a b : Bool) → (a && b) ≡ true → (a ≡ true) × (b ≡ true)
and-parts true b h = (refl, h)
and-parts false b h = cc

pub all_chars_mono :
    (p q : Char → Bool) (s : String)
    → ((c : Char) → p c ≡ true → q c ≡ true)
    → all_chars p s ≡ true
    → all_chars q s ≡ true
unfolding all_chars
all_chars_mono p q String.[] h a = refl
all_chars_mono p q (String.◌∷◌ c s) h a = ground (arith, h c, all_chars_mono p q s h)

safe_char-is_header_safe : (c : Char) → is_header_safe (safe_char c) ≡ true
unfolding safe_char
safe_char-is_header_safe c = elim (Bool-cases (is_header_safe c)) [
  | inl safe ↦ rw safe safe
  | inr other ↦ rw other (unfold is_header_safe in refl)
]

map-safe_char : (s : String) → all_chars is_header_safe s ≡ true → map_chars safe_char s ≡ s
unfolding all_chars map_chars safe_char
map-safe_char String.[] h = refl
map-safe_char (String.◌∷◌ c s) h =
    let (first, rest) = and-parts (is_header_safe c) _ h in rw (first, map-safe_char s rest)

-- The sanitised suffix has only header-safe characters, as many as the text had, and a text that
-- is safe already is not changed.
pub safe_suffix_lem :
    (s : String)
    → (all_chars is_header_safe (safe_suffix s) ≡ true)
      × (count (safe_suffix s) ≡ count s)
      × (all_chars is_header_safe s ≡ true → safe_suffix s ≡ s)
unfolding safe_suffix
safe_suffix_lem s = (
  all_chars-map_chars is_header_safe safe_char s safe_char-is_header_safe,
  count-map_chars safe_char s,
  map-safe_char s,
)

pub hash-is_key_char : (s : String) → all_chars is_key_char (hash_input s) ≡ true
unfolding hash_input
hash-is_key_char s =
    all_chars_mono is_hex is_key_char _ hex-is_key_char
      (all_chars-take is_hex 32 (sha256_hex s) (sha256_hex-is_hex s))

append-all :
    (p : Char → Bool) (s t : String)
    → all_chars p s ≡ true
    → all_chars p t ≡ true
    → all_chars p (s <> t) ≡ true
append-all p s t hs ht = rw (all_chars-append p s t, hs, ht)

-- A scope of `consume_once_input`.
abbrev pub IsScope : String → Type 0
IsScope s = (s ≡ "open_mandate") ⊎ (s ≡ "tx")

pub consume_once_input-IsScope : (m : Mandate) → IsScope (consume_once_input m).0
unfolding consume_once_input
consume_once_input-IsScope m = elim (Option-cases (truthy m.open_mandate_hash)) [
  | inl missing ↦ rw (missing, consume_once_input) (inr refl)
  | inr (hash, there) ↦ rw (there, consume_once_input) (inl refl)
]

count-scope : (s : String) → IsScope s → count s ≤ 12
count-scope s (inl e) = rw e (omega arith)
count-scope s (inr e) = rw e (omega arith)

count-key_base : (m : Mandate) (phase : String) → count (key_base m phase) ≤ 50 + count phase
unfolding key_base
count-key_base m phase =
    let (scope, raw) = consume_once_input m in
    omega (
      arith,
      count-scope scope (consume_once_input-IsScope m),
      count-hash_input raw,
      length-append "ap2" (":" <> scope <> ":" <> hash_input raw <> ":" <> phase),
      length-append ":" (scope <> ":" <> hash_input raw <> ":" <> phase),
      length-append scope (":" <> hash_input raw <> ":" <> phase),
      length-append ":" (hash_input raw <> ":" <> phase),
      length-append (hash_input raw) (":" <> phase),
      length-append ":" phase,
    )

scope-is_key_char : (s : String) → IsScope s → all_chars is_key_char s ≡ true
unfolding all_chars is_header_safe
scope-is_key_char s (inl e) = rw e
scope-is_key_char s (inr e) = rw e

key_base-is_key_char :
    (m : Mandate) (phase : String)
    → all_chars is_key_char phase ≡ true
    → all_chars is_key_char (key_base m phase) ≡ true
unfolding key_base
key_base-is_key_char m phase h =
    let (scope, raw) = consume_once_input m in
    let all = append-all is_key_char in
    let colon : all_chars is_key_char ":" ≡ true = unfold all_chars is_header_safe in refl in
    all "ap2" _ (unfold all_chars is_header_safe in refl) (
      all ":" _ colon (
        all scope _ (scope-is_key_char scope (consume_once_input-IsScope m))
          (all ":" _ colon (all (hash_input raw) _ (hash-is_key_char raw) (all ":" _ colon h)))))

suffix-is_key_char : (s : String) → all_chars is_key_char (take 64 (safe_suffix s)) ≡ true
suffix-is_key_char s =
    all_chars_mono is_header_safe is_key_char _ (λ c h. rw h refl)
      (all_chars-take is_header_safe 64 _ (safe_suffix_lem s).0)

-- Every key of a phase with at most 7 header-safe characters (the code's are "reserve", "commit"
-- and "release"), whatever the mandate and the suffix, has at most 122 characters, which is under
-- the protocol's 256, and they all are ASCII letters, digits, "_", "-", "." or the colon.
pub idempotency_key_bounds :
    (m : Mandate) (phase : String) (suffix : Option String)
    → count phase ≤ 7
    → all_chars is_key_char phase ≡ true
    → (count (idempotency_key m phase suffix) ≤ 122)
      × (all_chars is_key_char (idempotency_key m phase suffix) ≡ true)
unfolding idempotency_key
idempotency_key_bounds m phase suffix short safe = elim (Option-cases (truthy suffix)) [
  | inl missing ↦
      rw (missing, idempotency_key)
        (omega (arith, count-key_base m phase), key_base-is_key_char m phase safe)
  | inr (s, there) ↦
      let tail = take 64 (safe_suffix s) in
      rw (there, idempotency_key)
        (
          omega (
            arith,
            count-key_base m phase,
            count-take 64 (safe_suffix s),
            length-append (key_base m phase) (":" <> tail),
            length-append ":" tail,
          ),
          append-all is_key_char _ _ (key_base-is_key_char m phase safe) (
              append-all is_key_char ":" _ (unfold all_chars is_header_safe in refl)
                (suffix-is_key_char s)),
        )
]
