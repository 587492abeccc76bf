-- ===== src/Mapping/Wire/Reader.antt =====
-- A reader of the dicts of runcycles_ap2/mapping.py, as a server would have one.
use mathlib.Core.Option
use cycles_ap2_python.Base.{String, Bool, false, Option, none, some, [], ◌∷◌}
use cycles_ap2_python.Base.Int.{ℤ, pos, pos_part}
use cycles_ap2_python.Base.Dict
use cycles_ap2_python.Base.Dict.{Dict, lookup-insert}
use cycles_ap2_python.Value.{Value, bool, int, str, dict, Fields, end, field}
use cycles_ap2_python.Mapping.Bodies.{
  Subject, Action, Amount, ReservationBody, CommitBody, ReleaseBody,
}

-- A dict of a value.
unfoldable pub entries : Fields → Dict Value
entries end = []
entries (field k v fs) = (k, v) ∷ entries fs

unfoldable pub text_of : Value → String
text_of (str s) = s
text_of v = ""

unfoldable pub of_texts : Dict Value → Dict String
unfolding text_of
of_texts [] = []
of_texts ((k, v) ∷ d) = (k, text_of v) ∷ of_texts d

-- What is read of a member that may be missing.
unfoldable pub as_text : Option Value → Option String
as_text (some (str s)) = some s
as_text _ = none

unfoldable pub as_flag : Option Value → Bool
as_flag (some (bool b)) = b
as_flag _ = false

unfoldable pub as_int : Option Value → ℤ
as_int (some (int n)) = n
as_int _ = pos 0

unfoldable pub as_dict : Option Value → Option (Dict Value)
unfolding entries
as_dict (some (dict fs)) = some (entries fs)
as_dict _ = none

-- The readers. A required member that is missing reads as an empty one.
abbrev pub text_at : String → Dict Value → String
text_at k d = Option.get_or (as_text (Dict.lookup k d)) ""

abbrev pub dict_at : String → Dict Value → Dict Value
dict_at k d = Option.get_or (as_dict (Dict.lookup k d)) []

unfoldable pub read_subject : Dict Value → Subject
unfolding as_text as_dict of_texts Dict.lookup
read_subject d = record {
  tenant = as_text (Dict.lookup "tenant" d);
  workspace = as_text (Dict.lookup "workspace" d);
  app = as_text (Dict.lookup "app" d);
  workflow = as_text (Dict.lookup "workflow" d);
  agent = as_text (Dict.lookup "agent" d);
  toolset = as_text (Dict.lookup "toolset" d);
  dimensions = of_texts (dict_at "dimensions" d);
}

unfoldable pub read_action : Dict Value → Action
unfolding as_text Dict.lookup
read_action d = record { kind = text_at "kind" d; name = text_at "name" d }

unfoldable pub read_amount : Dict Value → Amount
unfolding as_text as_int Dict.lookup
read_amount d = record {
  unit = text_at "unit" d;
  amount = pos_part (as_int (Dict.lookup "amount" d));
}

unfoldable pub read_reservation : Dict Value → ReservationBody
unfolding read_subject read_action read_amount as_text as_dict as_flag as_int Dict.lookup
read_reservation d = record {
  idempotency_key = text_at "idempotency_key" d;
  subject = read_subject (dict_at "subject" d);
  action = read_action (dict_at "action" d);
  estimate = read_amount (dict_at "estimate" d);
  ttl_ms = as_int (Dict.lookup "ttl_ms" d);
  overage_policy = text_at "overage_policy" d;
  dry_run = as_flag (Dict.lookup "dry_run" d);
  metadata = as_dict (Dict.lookup "metadata" d);
}

unfoldable pub read_commit : Dict Value → CommitBody
unfolding read_amount as_text as_dict Dict.lookup
read_commit d = record {
  idempotency_key = text_at "idempotency_key" d;
  actual = read_amount (dict_at "actual" d);
  metadata = as_dict (Dict.lookup "metadata" d);
}

unfoldable pub read_release : Dict Value → ReleaseBody
unfolding as_text Dict.lookup
read_release d = record {
  idempotency_key = text_at "idempotency_key" d;
  reason = text_at "reason" d;
}
