-- ===== src/Mapping/Bodies.antt =====
-- What the builders of runcycles_ap2/mapping.py compute, as records: a member of a dict that may be
-- left out is an `Option`, and `dry_run` is left out unless it is true (Mapping.Wire).
use cycles_ap2_python.Base.{ℕ, String, Bool, Option}
use cycles_ap2_python.Base.Int.{ℤ}
use cycles_ap2_python.Base.Dict.{Dict}
use cycles_ap2_python.Value.{Value}

-- The keyword arguments of `build_reservation_body`.
pub record Context : Type 0 where
  pub run_id : String
  pub tenant : Option String
  pub workspace : Option String
  pub app : Option String
  pub workflow : Option String
  pub agent : Option String
  pub toolset : Option String
  pub action_kind : String
  pub ttl_ms : ℤ
  pub overage_policy : String
  pub dry_run : Bool
  pub metadata : Option (Dict Value)
  pub extra_dimensions : Option (Dict String)

pub record Subject : Type 0 where
  pub tenant : Option String
  pub workspace : Option String
  pub app : Option String
  pub workflow : Option String
  pub agent : Option String
  pub toolset : Option String
  pub dimensions : Dict String

pub record Action : Type 0 where
  pub kind : String
  pub name : String

pub record PolicyKeys : Type 0 where
  pub host : String
  pub custom : Dict String

pub record Amount : Type 0 where
  pub unit : String
  pub amount : ℕ

pub record ReservationBody : Type 0 where
  pub idempotency_key : String
  pub subject : Subject
  pub action : Action
  pub estimate : Amount
  pub ttl_ms : ℤ
  pub overage_policy : String
  pub dry_run : Bool
  pub metadata : Option (Dict Value)

pub record CommitBody : Type 0 where
  pub idempotency_key : String
  pub actual : Amount
  pub metadata : Option (Dict Value)

pub record ReleaseBody : Type 0 where
  pub idempotency_key : String
  pub reason : String
