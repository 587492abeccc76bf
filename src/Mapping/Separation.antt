-- ===== src/Mapping/Separation.antt =====
-- When two idempotency keys of runcycles_ap2/mapping.py are equal.
use text.Mathlib.TextLemmas.{append_cancel_left, append_inj, append-nil, append_assoc}
use cycles_ap2_python.Base.{
  ℕ, ◌<◌, String, code, ◌<>◌, count, Option, ◌≡◌, ◌↔◌, inl, inr, refl, arith, take, truthy, get_or,
  get_or-append, Option-cases, ◌∙◌, sym, ap,
}
use cycles_ap2_python.Mandate.{Mandate}
use cycles_ap2_python.Mapping.{
  hash_input, consume_once_input, safe_suffix, key_base, idempotency_key,
}
use cycles_ap2_python.Mapping.Keys.{count-hash_input, IsScope, consume_once_input-IsScope}

-- The three phases that the guards use.
pub data Phase : Type 0 where
  reserve commit release : Phase

abbrev pub phase_name : Phase → String
phase_name reserve = "reserve"
phase_name commit = "commit"
phase_name release = "release"

-- Texts that differ at a place inside the first parts are different.
differ_at :
    (i : ℕ) (s t u v : String)
    → i < count s
    → i < count t
    → s <> u ≡ t <> v
    → get_or s i "?" ≡ get_or t i "?"
differ_at i s t u v hs ht h =
    sym (get_or-append s u i "?" hs) ∙ ap (λ x. get_or x i "?") h ∙ get_or-append t v i "?" ht

code_at :
    (i : ℕ) (s t u v : String)
    → i < count s
    → i < count t
    → s <> u ≡ t <> v
    → code (get_or s i "?") ≡ code (get_or t i "?")
code_at i s t u v hs ht h = ap code (differ_at i s t u v hs ht h)

scope_inj : (s t u v : String) → IsScope s → IsScope t → s <> u ≡ t <> v → (s ≡ t) × (u ≡ v)
unfolding get_or
scope_inj s t u v (inl a) (inl b) h =
    (a ∙ sym b, append_cancel_left "open_mandate" u v (rw (a, b) at h))
scope_inj s t u v (inr a) (inr b) h = (a ∙ sym b, append_cancel_left "tx" u v (rw (a, b) at h))
scope_inj s t u v (inl a) (inr b) h =
    absurd (
      omega (arith, code_at 0 "open_mandate" "tx" u v (omega arith) (omega arith) (rw (a, b) at h)))
scope_inj s t u v (inr a) (inl b) h =
    absurd (
      omega (arith, code_at 0 "tx" "open_mandate" u v (omega arith) (omega arith) (rw (a, b) at h)))

phase_inj : (p q : Phase) (u v : String) → phase_name p <> u ≡ phase_name q <> v → p ≡ q
unfolding get_or
phase_inj reserve reserve u v h = refl
phase_inj commit commit u v h = refl
phase_inj release release u v h = refl
phase_inj p q u v h =
    absurd
      (omega (arith, code_at 2 (phase_name p) (phase_name q) u v (omega arith) (omega arith) h))

-- What two keys have in common, other than what may follow the phase.
pub record SameKey (m n : Mandate) (p q : Phase) : Type 0 where
  pub phases : p ≡ q
  pub scopes : (consume_once_input m).0 ≡ (consume_once_input n).0
  pub hashes : hash_input (consume_once_input m).1 ≡ hash_input (consume_once_input n).1

-- A key as its parts, with the rest behind the phase.
pub key_parts :
    (m : Mandate) (p rest : String)
    → key_base m p <> rest
      ≡ "ap2"
        <> ":"
        <> (consume_once_input m).0
        <> ":"
        <> hash_input (consume_once_input m).1
        <> ":"
        <> p
        <> rest
unfolding key_base
key_parts m p rest = simp append_assoc

key_base_inj :
    (m n : Mandate) (p q : Phase) (u v : String)
    → key_base m (phase_name p) <> u ≡ key_base n (phase_name q) <> v
    → SameKey m n p q
key_base_inj m n p q u v h =
    let (s, a) = consume_once_input m in
    let (t, b) = consume_once_input n in
    let whole = sym (key_parts m (phase_name p) u) ∙ h ∙ key_parts n (phase_name q) v in
    let tail = append_cancel_left ":" _ _ (append_cancel_left "ap2" _ _ whole) in
    let (scopes, after) =
      scope_inj s t _ _ (consume_once_input-IsScope m) (consume_once_input-IsScope n) tail in
    let (hashes, last) =
      append_inj (append_cancel_left ":" _ _ after)
        (count-hash_input a ∙ sym (count-hash_input b)) in
    record {
      phases = phase_inj p q u v (append_cancel_left ":" _ _ last);
      scopes = scopes;
      hashes = hashes;
    }

-- A key is its base and what the suffix adds.
key_rest :
    (m : Mandate) (p : String) (suffix : Option String)
    → (rest : String) × (idempotency_key m p suffix ≡ key_base m p <> rest)
unfolding idempotency_key
key_rest m p suffix = elim (Option-cases (truthy suffix)) [
  | inl missing ↦ ("", rw (missing, idempotency_key, append-nil))
  | inr (s, there) ↦ (":" <> take 64 (safe_suffix s), rw (there, idempotency_key))
]

-- Two keys that the guards send are equal only if they are of one phase, and the two mandates are
-- locked in the same scope by texts with the same truncated hash. So no key of a reservation is one
-- of a commit or a release, and a key of an open mandate is never that of a transaction.
pub idempotency_key-SameKey :
    (m n : Mandate) (p q : Phase) (s t : Option String)
    → idempotency_key m (phase_name p) s ≡ idempotency_key n (phase_name q) t
    → SameKey m n p q
idempotency_key-SameKey m n p q s t h =
    let (u, hu) = key_rest m (phase_name p) s in
    let (v, hv) = key_rest n (phase_name q) t in key_base_inj m n p q u v (sym hu ∙ h ∙ hv)

pub key_of_input :
    (m n : Mandate) (p : String) (suffix : Option String)
    → consume_once_input m ≡ consume_once_input n
    → idempotency_key m p suffix ≡ idempotency_key n p suffix
unfolding idempotency_key
key_of_input m n p suffix h =
    let bases : key_base m p ≡ key_base n p = unfold key_base in rw (h, key_base) in
    elim (Option-cases (truthy suffix)) [
      | inl missing ↦ rw (missing, idempotency_key) bases
      | inr (s, there) ↦ rw (there, idempotency_key, bases)
    ]

-- If the truncated hash tells the two locked texts apart, the keys of one phase and one suffix are
-- equal exactly when the mandates have the same scope and the same locked text: the open mandate's
-- hash where there is one, and the transaction's id otherwise.
pub consume_once_iff :
    (m n : Mandate) (p : Phase) (suffix : Option String)
    → (hash_input (consume_once_input m).1 ≡ hash_input (consume_once_input n).1
        → (consume_once_input m).1 ≡ (consume_once_input n).1)
    → (idempotency_key m (phase_name p) suffix ≡ idempotency_key n (phase_name p) suffix)
      ↔ (consume_once_input m ≡ consume_once_input n)
unfolding idempotency_key
consume_once_iff m n p suffix apart = (
  λ h.
      let same = idempotency_key-SameKey m n p p suffix suffix h in
      λ i. (same.scopes i, apart same.hashes i),
  key_of_input m n (phase_name p) suffix,
)
