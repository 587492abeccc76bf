-- ===== src/Guard/State.antt =====
-- The attributes of a guard, and the state that its methods act on.
use cycles_ap2_python.Base.{ℕ, String, Bool, false, Option, none, []}
use cycles_ap2_python.Base.Dict.{Dict}
use cycles_ap2_python.Value.{Value}
use cycles_ap2_python.Mandate.{Mandate}
use cycles_ap2_python.Mapping.Bodies.{Context}
use cycles_ap2_python.Receipt.{Receipt}
use cycles_ap2_python.Client.{World}

-- The arguments of the constructor are in `mandate`, `context` and `emit_receipt`.
pub record Guard : Type 0 where
  pub mandate : Mandate
  pub context : Context
  pub emit_receipt : Bool
  pub reservation_id : Option String
  pub decision : Option String
  pub actual_micros : Option ℕ
  pub commit_metadata : Dict Value
  pub receipt : Option Receipt
  pub committed : Bool
  pub aborted_reason : Option String

-- `GuardedPayment.__init__`, which `cycles_guard_payment` calls with the same arguments
unfoldable pub new_guard : Mandate → Context → Bool → Guard
new_guard mandate context emit_receipt = record {
  mandate = mandate;
  context = context;
  emit_receipt = emit_receipt;
  reservation_id = none;
  decision = none;
  actual_micros = none;
  commit_metadata = [];
  receipt = none;
  committed = false;
  aborted_reason = none;
}

pub record St (W : Type 0) : Type 0 where
  pub guard : Guard
  pub world : World W

module _ {W : Type 0} where
  abbrev pub with_guard : St W → Guard → St W
  with_guard s g = record { guard = g; world = s.world }

  abbrev pub with_world : St W → World W → St W
  with_world s w = record { guard = s.guard; world = w }

  -- A guard before it is entered.
  abbrev pub start : Mandate → Context → Bool → World W → St W
  start mandate context emit_receipt w = record {
    guard = new_guard mandate context emit_receipt;
    world = w;
  }
