-- ===== src/Mapping/Wire.antt =====
-- The dicts that the builders of runcycles_ap2/mapping.py return, in the order of their insertions.
pub mod Reader
pub mod RoundTrip
use mathlib.Core.Option
use cycles_ap2_python.Base.{ℕ, String, Bool, true, false, Option, none, some, List, [], ◌∷◌}
use cycles_ap2_python.Base.Int.{ℤ, pos}
use cycles_ap2_python.Base.Dict
use cycles_ap2_python.Base.Dict.{Dict}
use cycles_ap2_python.Value.{Value, bool, int, str, dict, Fields, end, field}
use cycles_ap2_python.Mapping.Bodies.{
  Subject, Action, Amount, ReservationBody, CommitBody, ReleaseBody,
}

-- A dict as a value.
unfoldable pub fields : Dict Value → Fields
fields [] = end
fields ((k, v) ∷ d) = field k v (fields d)

unfoldable pub texts : Dict String → Dict Value
texts [] = []
texts ((k, s) ∷ d) = (k, str s) ∷ texts d

-- `if x: d[k] = x`, where the test has been made.
unfoldable pub put : String → Option Value → Dict Value → Dict Value
unfolding Dict.insert
put k none d = d
put k (some v) d = Dict.insert k v d

-- `True`, where the test holds.
unfoldable pub flag : Bool → Option Value
flag false = none
flag true = some (bool true)

unfoldable pub object_of : Option (Dict Value) → Option Value
unfolding fields
object_of = Option.map (λ d. dict (fields d))

unfoldable pub subject_payload : Subject → Dict Value
unfolding put texts fields
subject_payload s = put "dimensions" (some (dict (fields (texts s.dimensions)))) (
    put "toolset" (Option.map str s.toolset) (
      put "agent" (Option.map str s.agent) (
        put "workflow" (Option.map str s.workflow) (
          put "app" (Option.map str s.app) (
            put "workspace" (Option.map str s.workspace)
              (put "tenant" (Option.map str s.tenant) []))))))

unfoldable pub action_payload : Action → Dict Value
action_payload a = ("kind", str a.kind) ∷ ("name", str a.name) ∷ []

unfoldable pub amount_payload : Amount → Dict Value
amount_payload a = ("unit", str a.unit) ∷ ("amount", int (pos a.amount)) ∷ []

unfoldable pub reservation_payload : ReservationBody → Dict Value
unfolding put flag object_of subject_payload action_payload amount_payload fields
reservation_payload r = put "metadata" (object_of r.metadata) (
    put "dry_run" (flag r.dry_run) (
      ("idempotency_key", str r.idempotency_key)
      ∷ ("subject", dict (fields (subject_payload r.subject)))
      ∷ ("action", dict (fields (action_payload r.action)))
      ∷ ("estimate", dict (fields (amount_payload r.estimate)))
      ∷ ("ttl_ms", int r.ttl_ms)
      ∷ ("overage_policy", str r.overage_policy)
      ∷ []))

unfoldable pub commit_payload : CommitBody → Dict Value
unfolding put object_of amount_payload fields
commit_payload c = put "metadata" (object_of c.metadata) (
    ("idempotency_key", str c.idempotency_key)
    ∷ ("actual", dict (fields (amount_payload c.actual)))
    ∷ [])

unfoldable pub release_payload : ReleaseBody → Dict Value
release_payload r = ("idempotency_key", str r.idempotency_key) ∷ ("reason", str r.reason) ∷ []
