-- ===== src/Mapping.antt =====
-- runcycles_ap2/mapping.py: the bodies of the requests, and their idempotency keys.
pub mod Bodies
pub mod Keys
pub mod Lock
pub mod Separation
pub mod Reading
pub mod Wire
pub mod Dimensions
use cycles_ap2_python.Base.{
  ℕ, String, Char, code, ◌<>◌, Bool, true, false, ◌&&◌, ◌||◌, Option, none, some, List, [], ◌∷◌,
  ltb, leb, ◌==◌, take, map_chars, truthy, if◌then◌else◌,
}
use cycles_ap2_python.Base.Int.{ℤ}
use cycles_ap2_python.Base.Dict
use cycles_ap2_python.Base.Dict.{Dict}
use cycles_ap2_python.Constants.{
  default_action_name, dim_run_id, dim_ap2_transaction_id, dim_checkout_hash, dim_open_mandate_hash,
  dim_payee_website, dim_payment_currency, dim_payment_protocol, payment_protocol_value,
  idempotency_prefix, idempotency_scope_open_mandate, idempotency_scope_transaction,
  transaction_id_hash_len,
}
use cycles_ap2_python.Value.{Value}
use cycles_ap2_python.Builtins.{Builtins, upper}
use cycles_ap2_python.Errors.{Result, ok, err, ◌>>=◌}
use cycles_ap2_python.Sha256.{sha256_hex}
use cycles_ap2_python.Validation.{validate_micros}
use cycles_ap2_python.Mandate.{Mandate, amount_micros}
use Bodies.{Context, Subject, Action, PolicyKeys, Amount, ReservationBody, CommitBody, ReleaseBody}

-- `_hash_input`
unfoldable pub hash_input : String → String
hash_input value = take transaction_id_hash_len (sha256_hex value)

-- The scope and the text that a mandate is locked by.
unfoldable pub consume_once_input : Mandate → String × String
unfolding truthy
consume_once_input m = elim (truthy m.open_mandate_hash) [
  | some hash ↦ (idempotency_scope_open_mandate, hash)
  | none ↦ (idempotency_scope_transaction, m.transaction_id)
]

-- `(c.isascii() and c.isalnum()) or c in ("_", "-", ".")`
unfoldable pub is_header_safe : Char → Bool
is_header_safe c =
    let n = code c in
    (leb b'0' n && leb n b'9')
    || (leb b'A' n && leb n b'Z')
    || (leb b'a' n && leb n b'z')
    || n == b'_'
    || n == b'-'
    || n == b'.'

safe_char : Char → Char
unfolding is_header_safe
safe_char c = if is_header_safe c then c else "_"

-- `safe_suffix`, before it is cut.
unfoldable pub safe_suffix : String → String
unfolding safe_char map_chars
safe_suffix = map_chars safe_char

-- The key without a suffix.
unfoldable pub key_base : Mandate → String → String
unfolding consume_once_input hash_input
key_base m phase =
    let (scope, raw) = consume_once_input m in
    idempotency_prefix <> ":" <> scope <> ":" <> hash_input raw <> ":" <> phase

unfoldable pub idempotency_key : Mandate → String → Option String → String
unfolding key_base safe_suffix truthy take
idempotency_key m phase suffix = elim (truthy suffix) [
  | none ↦ key_base m phase
  | some s ↦ key_base m phase <> ":" <> take 64 (safe_suffix s)
]

-- `if value: dimensions[key] = value`
unfoldable pub add_hash : String → Option String → Dict String → Dict String
unfolding Dict.insert
add_hash key none dims = dims
add_hash key (some hash) dims = Dict.insert key hash dims

-- The dict that the dimensions begin as.
unfoldable pub fixed_dimensions : Builtins → Mandate → String → Dict String
fixed_dimensions b m run_id =
    (dim_run_id, run_id)
    ∷ (dim_ap2_transaction_id, m.transaction_id)
    ∷ (dim_payee_website, m.payee_website)
    ∷ (dim_payment_currency, upper b m.currency)
    ∷ (dim_payment_protocol, payment_protocol_value)
    ∷ []

-- The dimensions that every reservation has.
unfoldable pub canonical_dimensions : Builtins → Mandate → String → Dict String
unfolding fixed_dimensions add_hash truthy
canonical_dimensions b m run_id =
    add_hash dim_open_mandate_hash (truthy m.open_mandate_hash)
      (add_hash dim_checkout_hash (truthy m.checkout_hash) (fixed_dimensions b m run_id))

-- The loop over the caller's dimensions: a key that is there already is skipped.
unfoldable pub add_dimensions : Dict String → Dict String → Dict String
unfolding Dict.contains Dict.insert
add_dimensions dims [] = dims
add_dimensions dims ((key, value) ∷ rest) =
    add_dimensions (if Dict.contains key dims then dims else Dict.insert key value dims) rest

-- `if extra_dimensions:`
unfoldable pub with_extra : Dict String → Option (Dict String) → Dict String
unfolding add_dimensions
with_extra dims none = dims
with_extra dims (some extra) = add_dimensions dims extra

unfoldable pub build_subject : Builtins → Mandate → Context → Subject
unfolding canonical_dimensions with_extra truthy
build_subject b m c = record {
  tenant = truthy c.tenant;
  workspace = truthy c.workspace;
  app = truthy c.app;
  workflow = truthy c.workflow;
  agent = truthy c.agent;
  toolset = truthy c.toolset;
  dimensions = with_extra (canonical_dimensions b m c.run_id) c.extra_dimensions;
}

unfoldable pub build_action : String → Action
build_action action_kind = record { kind = action_kind; name = default_action_name }

unfoldable pub build_receipt_policy_keys : Builtins → Mandate → PolicyKeys
build_receipt_policy_keys b m = record {
  host = m.payee_website;
  custom =
      (dim_payment_protocol, payment_protocol_value)
      ∷ (dim_payment_currency, upper b m.currency)
      ∷ [];
}

unfoldable pub build_estimate : Builtins → Mandate → Result Amount
build_estimate b m = do
  amount ← amount_micros b m
  ok (record { unit = "USD_MICROCENTS"; amount = amount })

-- `if metadata: body["metadata"] = metadata`
unfoldable pub nonempty : Option (Dict Value) → Option (Dict Value)
unfolding Dict.or_none
nonempty none = none
nonempty (some d) = Dict.or_none d

unfoldable pub build_reservation_body : Builtins → Mandate → Context → Result ReservationBody
unfolding idempotency_key build_subject build_action build_estimate nonempty
build_reservation_body b m c = do
  estimate ← build_estimate b m
  ok (record {
    idempotency_key = idempotency_key m "reserve" none;
    subject = build_subject b m c;
    action = build_action c.action_kind;
    estimate = estimate;
    ttl_ms = c.ttl_ms;
    overage_policy = c.overage_policy;
    dry_run = c.dry_run;
    metadata = nonempty c.metadata;
  })

-- The amount of a commit: the caller's, once it is validated, or that of the mandate.
unfoldable pub commit_amount : Builtins → Mandate → Option Value → Result ℕ
commit_amount b m none = amount_micros b m
commit_amount b m (some actual) = validate_micros b actual "actual_micros"

unfoldable pub build_commit_body :
    Builtins → Mandate → Option Value → Option (Dict Value) → Result CommitBody
unfolding commit_amount idempotency_key nonempty
build_commit_body b m actual_micros metadata = do
  amount ← commit_amount b m actual_micros
  ok (record {
    idempotency_key = idempotency_key m "commit" none;
    actual = record { unit = "USD_MICROCENTS"; amount = amount };
    metadata = nonempty metadata;
  })

unfoldable pub build_release_body : Mandate → String → Option String → ReleaseBody
unfolding idempotency_key take
build_release_body m reason exception_type = record {
  idempotency_key = idempotency_key m "release" exception_type;
  reason = take 256 reason;
}
