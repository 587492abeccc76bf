-- ===== src/Mapping/Reading.antt =====
-- A reader of the idempotency keys of runcycles_ap2/mapping.py, as the server's logs show them.
use text.Mathlib.TextLemmas.{append-nil, cons-append, nil-append}
use mathlib.Core.Option
use cycles_ap2_python.Base.{
  String, Char, code, ◌<>◌, ◌==◌, not, take, truthy, all_chars, all_chars-take, Bool, true, Option,
  none, some, List, [], ◌∷◌, ◌≡◌, refl, ◌∙◌, sym, arith, ap, if◌then◌else◌, Option-cases, inl, inr,
}
use cycles_ap2_python.Mandate.{Mandate}
use cycles_ap2_python.Mapping.{
  hash_input, consume_once_input, is_header_safe, safe_suffix, key_base, idempotency_key,
}
use cycles_ap2_python.Sha256.{sha256_hex}
use cycles_ap2_python.Sha256.Hex.{is_hex}
use cycles_ap2_python.Sha256.Digest.{sha256_hex-is_hex}
use cycles_ap2_python.Mapping.Keys.{
  all_chars_mono, IsScope, consume_once_input-IsScope, safe_suffix_lem,
}
use cycles_ap2_python.Mapping.Separation.{Phase, reserve, commit, release, phase_name, key_parts}

-- `s.split(":")`
push : Char → List String → List String
push c [] = String.◌∷◌ c "" ∷ []
push c (part ∷ parts) = String.◌∷◌ c part ∷ parts

unfoldable pub split : String → List String
unfolding push
split String.[] = "" ∷ []
split (String.◌∷◌ c s) = let rest = split s in if code c == b':' then "" ∷ rest else push c rest

-- No colon.
abbrev is_plain : Char → Bool
is_plain c = not (code c == b':')

split-plain : (s : String) → all_chars is_plain s ≡ true → split s ≡ s ∷ []
unfolding split all_chars push
split-plain String.[] h = refl
split-plain (String.◌∷◌ c s) h = ground (arith, split-plain s)

split-colon : (t : String) → split (":" <> t) ≡ "" ∷ split t
split-colon t = rw (cons-append, nil-append) (unfold split in refl)

split-append : (s t : String) → all_chars is_plain s ≡ true → split (s <> ":" <> t) ≡ s ∷ split t
unfolding split all_chars push
split-append String.[] t h = rw nil-append (split-colon t)
split-append (String.◌∷◌ c s) t h = rw cons-append (ground (arith, split-append s t))

-- The parts of a key are plain.
plain_of :
    (p : Char → Bool) (s : String)
    → ((c : Char) → p c ≡ true → is_plain c ≡ true)
    → all_chars p s ≡ true
    → all_chars is_plain s ≡ true
plain_of p s h a = all_chars_mono p is_plain s h a

header_safe_plain : (c : Char) → is_header_safe c ≡ true → is_plain c ≡ true
unfolding is_header_safe
header_safe_plain c h = ground arith

hex_plain : (c : Char) → is_hex c ≡ true → is_plain c ≡ true
hex_plain c h = ground arith

scope_plain : (s : String) → IsScope s → all_chars is_plain s ≡ true
unfolding all_chars
scope_plain s (inl e) = rw e refl
scope_plain s (inr e) = rw e refl

phase_plain : (p : Phase) → all_chars is_plain (phase_name p) ≡ true
unfolding all_chars
phase_plain reserve = refl
phase_plain commit = refl
phase_plain release = refl

hash_plain : (s : String) → all_chars is_plain (hash_input s) ≡ true
unfolding hash_input
hash_plain s =
    plain_of is_hex _ hex_plain (all_chars-take is_hex 32 (sha256_hex s) (sha256_hex-is_hex s))

suffix_plain : (s : String) → all_chars is_plain (take 64 (safe_suffix s)) ≡ true
suffix_plain s =
    plain_of is_header_safe _ header_safe_plain
      (all_chars-take is_header_safe 64 (safe_suffix s) (safe_suffix_lem s).0)

-- What a key says: the lock's scope, its truncated hash, the phase, and the suffix if there is one.
pub record Parts : Type 0 where
  pub scope : String
  pub hash : String
  pub phase : String
  pub suffix : Option String

abbrev pub of_parts : List String → Option Parts
of_parts (prefix ∷ scope ∷ hash ∷ phase ∷ []) =
    some (record { scope = scope; hash = hash; phase = phase; suffix = none })
of_parts (prefix ∷ scope ∷ hash ∷ phase ∷ suffix ∷ []) =
    some (record { scope = scope; hash = hash; phase = phase; suffix = some suffix })
of_parts _ = none

-- A key, read back.
unfoldable pub read_key : String → Option Parts
unfolding split
read_key key = of_parts (split key)

-- The parts up to the phase, with what follows the phase.
split-key_base :
    (m : Mandate) (p : Phase) (rest : String) (parts : List String)
    → split (phase_name p <> rest) ≡ phase_name p ∷ parts
    → split (key_base m (phase_name p) <> rest)
      ≡ "ap2"
        ∷ (consume_once_input m).0
        ∷ hash_input (consume_once_input m).1
        ∷ phase_name p
        ∷ parts
split-key_base m p rest parts h =
    let (scope, raw) = consume_once_input m in
    ap split (key_parts m (phase_name p) rest)
    ∙ split-append "ap2" _ (unfold all_chars in refl)
    ∙ ap (λ x. "ap2" ∷ x)
        (split-append scope _ (scope_plain scope (consume_once_input-IsScope m))
          ∙ ap (λ x. scope ∷ x)
              (split-append (hash_input raw) _ (hash_plain raw) ∙ ap (λ x. hash_input raw ∷ x) h))

-- The suffix as it stands in a key.
abbrev pub kept_suffix : Option String → Option String
kept_suffix suffix = Option.map (λ s. take 64 (safe_suffix s)) (truthy suffix)

-- A key of a phase reads back as the scope of the mandate's lock, the truncated hash of the locked
-- text, the phase, and the sanitised and cut suffix: none of the parts is lost or runs into another.
pub read_key-idempotency_key :
    (m : Mandate) (p : Phase) (suffix : Option String)
    → read_key (idempotency_key m (phase_name p) suffix)
      ≡ some (record {
        scope = (consume_once_input m).0;
        hash = hash_input (consume_once_input m).1;
        phase = phase_name p;
        suffix = kept_suffix suffix;
      })
unfolding read_key idempotency_key key_base
read_key-idempotency_key m p suffix = elim (Option-cases (truthy suffix)) [
  | inl missing ↦
      rw (missing, idempotency_key)
        (ap of_parts (
          ap split (sym (append-nil (key_base m (phase_name p))))
          ∙ split-key_base m p "" []
              (ap split (append-nil (phase_name p)) ∙ split-plain (phase_name p) (phase_plain p))))
  | inr (s, there) ↦
      rw (there, idempotency_key)
        (ap of_parts (
          split-key_base m p (":" <> take 64 (safe_suffix s)) (take 64 (safe_suffix s) ∷ []) (
            split-append (phase_name p) (take 64 (safe_suffix s)) (phase_plain p)
            ∙ ap (λ x. phase_name p ∷ x) (split-plain _ (suffix_plain s)))))
]
