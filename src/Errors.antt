-- ===== src/Errors.antt =====
-- runcycles_ap2/exceptions.py: the exceptions as data, and calls that may raise.
use cycles_ap2_python.Base.{String, Bool, Option}
use cycles_ap2_python.Value.{Value}

-- How Python's `except` clauses see an exception that the package does not define:
-- `asyncio.CancelledError`, another subclass of `Exception`, or another `BaseException`.
pub data Kind : Type 0 where
  cancelled ordinary other_base : Kind

-- An exception of other code: its kind, the name of its class and its text.
pub record Exc : Type 0 where
  pub kind : Kind
  pub class_name : String
  pub text : String

pub record GuardDenied : Type 0 where
  pub message : String
  pub reason_code : Option String
  pub request_id : Option String

pub record DryRunResult : Type 0 where
  pub message : String
  pub decision : String
  pub reason_code : Option String
  pub caps : Value
  pub balances : Value
  pub affected_scopes : Value

-- `cause` is what `raise … from exc` chains.
pub record CommitUncertain : Type 0 where
  pub message : String
  pub error_code : Option String
  pub request_id : Option String
  pub reservation_id : Option String
  pub cause : Option Exc

pub record CommitFailed : Type 0 where
  pub message : String
  pub error_code : Option String
  pub request_id : Option String
  pub reservation_id : Option String
  pub released : Bool
  pub release_error : Option String

-- What a call may raise. A `ValidationError` of pydantic is kept by the model that it is about.
pub data Raised : Type 0 where
  guard_denied : GuardDenied → Raised
  dry_run_result : DryRunResult → Raised
  commit_uncertain : CommitUncertain → Raised
  commit_failed : CommitFailed → Raised
  currency_error : String → Raised
  mandate_error : String → Raised
  validation_error : String → Raised
  foreign : Exc → Raised

-- `type(exc).__name__`
unfoldable pub exception_name : Raised → String
exception_name (guard_denied e) = "AP2GuardDenied"
exception_name (dry_run_result e) = "AP2DryRunResult"
exception_name (commit_uncertain e) = "AP2GuardCommitUncertain"
exception_name (commit_failed e) = "AP2GuardCommitFailed"
exception_name (currency_error m) = "AP2CurrencyError"
exception_name (mandate_error m) = "AP2MandateError"
exception_name (validation_error m) = "ValidationError"
exception_name (foreign e) = e.class_name

pub data Result {ℓ} (A : Type ℓ) : Type ℓ where
  ok : A → Result A
  err : Raised → Result A

-- What an attribute, or a method of an object of other code, comes to: a value, an
-- `AttributeError` with its text, or another exception.
pub data Access {ℓ} (A : Type ℓ) : Type ℓ where
  value : A → Access A
  attribute_error : String → Access A
  other_error : Exc → Access A

-- A call, and what goes on from its value: nothing, if it has raised.
infixl 5 ◌>>=◌ ◌>>◌
abbrev pub ◌>>=◌ {ℓ κ} : {A : Type ℓ} {B : Type κ} → Result A → (A → Result B) → Result B
err raised >>= rest = err raised
ok a >>= rest = rest a

-- A check, and what goes on if it has not raised.
abbrev pub ◌>>◌ {ℓ} : {A : Type ℓ} → Result (Unit {0}) → Result A → Result A
check >> rest = check >>= λ _. rest

-- `if b: raise e`
abbrev pub raise_if : Bool → Raised → Result (Unit {0})
raise_if Bool.true e = err e
raise_if Bool.false e = ok tt
