-- ===== src/Mapping/Wire/RoundTrip.antt =====
-- The dicts of runcycles_ap2/mapping.py, read back.
use mathlib.Core.Option
use cycles_ap2_python.Base.{
  String, ◌===◌, Bool, true, false, Option, none, some, [], ◌∷◌, ◌≡◌, refl, ap, arith,
  if◌then◌else◌,
}
use cycles_ap2_python.Base.Dict
use cycles_ap2_python.Base.Dict.{Dict, lookup-insert}
use cycles_ap2_python.Value.{Value, bool, str}
use cycles_ap2_python.Mapping.Bodies.{
  Subject, Action, Amount, ReservationBody, CommitBody, ReleaseBody,
}
use cycles_ap2_python.Mapping.Wire.{
  fields, texts, put, flag, object_of, subject_payload, action_payload, amount_payload,
  reservation_payload, commit_payload, release_payload,
}
use cycles_ap2_python.Mapping.Wire.Reader.{
  entries, text_of, of_texts, as_text, as_flag, as_int, as_dict, text_at, dict_at, read_subject,
  read_amount, read_action, read_reservation, read_commit, read_release,
}

entries-fields : (d : Dict Value) → entries (fields d) ≡ d
unfolding entries fields
entries-fields [] = refl
entries-fields ((k, v) ∷ d) = ap (λ x. (k, v) ∷ x) (entries-fields d)

of_texts-texts : (d : Dict String) → of_texts (texts d) ≡ d
unfolding of_texts texts text_of
of_texts-texts [] = refl
of_texts-texts ((k, s) ∷ d) = ap (λ x. (k, s) ∷ x) (of_texts-texts d)

lookup-put :
    (j k : String) (o : Option Value) (d : Dict Value)
    → Dict.lookup j (put k o d)
      ≡ (if k === j then Option.or_else o (Dict.lookup j d) else Dict.lookup j d)
unfolding put Option.or_else
lookup-put j k none d = ground arith
lookup-put j k (some v) d = lookup-insert k j v d

as_text-map : (o : Option String) → as_text (Option.or_else (Option.map str o) none) ≡ o
unfolding as_text Option.or_else
as_text-map none = refl
as_text-map (some s) = refl

as_flag-flag : (b : Bool) → as_flag (Option.or_else (flag b) none) ≡ b
unfolding as_flag flag Option.or_else
as_flag-flag false = refl
as_flag-flag true = refl

as_dict-object_of : (o : Option (Dict Value)) → as_dict (Option.or_else (object_of o) none) ≡ o
unfolding as_dict object_of Option.or_else
as_dict-object_of none = refl
as_dict-object_of (some d) = ap some (entries-fields d)

read-action_payload : (a : Action) → read_action (action_payload a) ≡ a
unfolding read_action action_payload as_text Dict.lookup
read-action_payload a = refl

read-amount_payload : (a : Amount) → read_amount (amount_payload a) ≡ a
unfolding read_amount amount_payload as_text as_int Dict.lookup
read-amount_payload a = refl

module _ (s : Subject) where
  -- A level of the subject, read from its dict.
  tenant_read : as_text (Dict.lookup "tenant" (subject_payload s)) ≡ s.tenant
  unfolding subject_payload Dict.lookup
  tenant_read = simp (lookup-put, as_text-map)

  workspace_read : as_text (Dict.lookup "workspace" (subject_payload s)) ≡ s.workspace
  unfolding subject_payload Dict.lookup
  workspace_read = simp (lookup-put, as_text-map)

  app_read : as_text (Dict.lookup "app" (subject_payload s)) ≡ s.app
  unfolding subject_payload Dict.lookup
  app_read = simp (lookup-put, as_text-map)

  workflow_read : as_text (Dict.lookup "workflow" (subject_payload s)) ≡ s.workflow
  unfolding subject_payload Dict.lookup
  workflow_read = simp (lookup-put, as_text-map)

  agent_read : as_text (Dict.lookup "agent" (subject_payload s)) ≡ s.agent
  unfolding subject_payload Dict.lookup
  agent_read = simp (lookup-put, as_text-map)

  toolset_read : as_text (Dict.lookup "toolset" (subject_payload s)) ≡ s.toolset
  unfolding subject_payload Dict.lookup
  toolset_read = simp (lookup-put, as_text-map)

  dimensions_read : of_texts (dict_at "dimensions" (subject_payload s)) ≡ s.dimensions
  unfolding subject_payload as_dict Option.or_else
  dimensions_read = rw (lookup-put, entries-fields, of_texts-texts) refl

  read-subject_payload : read_subject (subject_payload s) ≡ s
  unfolding read_subject
  read-subject_payload = λ i. record {
    tenant = tenant_read i;
    workspace = workspace_read i;
    app = app_read i;
    workflow = workflow_read i;
    agent = agent_read i;
    toolset = toolset_read i;
    dimensions = dimensions_read i;
  }

module _ (r : ReservationBody) where
  subject_read : read_subject (dict_at "subject" (reservation_payload r)) ≡ r.subject
  unfolding reservation_payload as_dict Dict.lookup
  subject_read = rw (lookup-put, lookup-put, entries-fields) (read-subject_payload r.subject)

  dry_run_read : as_flag (Dict.lookup "dry_run" (reservation_payload r)) ≡ r.dry_run
  unfolding reservation_payload Dict.lookup
  dry_run_read = simp (lookup-put, as_flag-flag)

  metadata_read : as_dict (Dict.lookup "metadata" (reservation_payload r)) ≡ r.metadata
  unfolding reservation_payload Dict.lookup flag put
  metadata_read = simp (lookup-put, as_dict-object_of)

  action_read : read_action (dict_at "action" (reservation_payload r)) ≡ r.action
  unfolding reservation_payload as_dict Dict.lookup
  action_read = rw (lookup-put, lookup-put, entries-fields) (read-action_payload r.action)

  estimate_read : read_amount (dict_at "estimate" (reservation_payload r)) ≡ r.estimate
  unfolding reservation_payload as_dict Dict.lookup
  estimate_read = rw (lookup-put, lookup-put, entries-fields) (read-amount_payload r.estimate)

  key_read : text_at "idempotency_key" (reservation_payload r) ≡ r.idempotency_key
  unfolding reservation_payload as_text Dict.lookup
  key_read = rw (lookup-put, lookup-put) refl

  policy_read : text_at "overage_policy" (reservation_payload r) ≡ r.overage_policy
  unfolding reservation_payload as_text Dict.lookup
  policy_read = rw (lookup-put, lookup-put) refl

  ttl_read : as_int (Dict.lookup "ttl_ms" (reservation_payload r)) ≡ r.ttl_ms
  unfolding reservation_payload as_int Dict.lookup
  ttl_read = rw (lookup-put, lookup-put) refl

  read-reservation_payload : read_reservation (reservation_payload r) ≡ r
  unfolding read_reservation
  read-reservation_payload = λ i. record {
    idempotency_key = key_read i;
    subject = subject_read i;
    action = action_read i;
    estimate = estimate_read i;
    ttl_ms = ttl_read i;
    overage_policy = policy_read i;
    dry_run = dry_run_read i;
    metadata = metadata_read i;
  }

module _ (c : CommitBody) where
  commit_key_read : text_at "idempotency_key" (commit_payload c) ≡ c.idempotency_key
  unfolding commit_payload as_text Dict.lookup
  commit_key_read = rw lookup-put refl

  actual_read : read_amount (dict_at "actual" (commit_payload c)) ≡ c.actual
  unfolding commit_payload as_dict Dict.lookup
  actual_read = rw (lookup-put, entries-fields) (read-amount_payload c.actual)

  commit_metadata_read : as_dict (Dict.lookup "metadata" (commit_payload c)) ≡ c.metadata
  unfolding commit_payload Dict.lookup
  commit_metadata_read = simp (lookup-put, as_dict-object_of)

  read-commit_payload : read_commit (commit_payload c) ≡ c
  unfolding read_commit
  read-commit_payload = λ i. record {
    idempotency_key = commit_key_read i;
    actual = actual_read i;
    metadata = commit_metadata_read i;
  }

read-release_payload : (x : ReleaseBody) → read_release (release_payload x) ≡ x
unfolding read_release release_payload as_text Dict.lookup
read-release_payload x = refl

-- The members of the reservation that are there only where their field has a value.
pub record Optional (r : ReservationBody) : Type 0 where
  pub dry_run :
      Dict.lookup "dry_run" (reservation_payload r) ≡ (if r.dry_run then some (bool true) else none)
  pub metadata : r.metadata ≡ none → Dict.lookup "metadata" (reservation_payload r) ≡ none
  pub tenant : Dict.lookup "tenant" (subject_payload r.subject) ≡ Option.map str r.subject.tenant
  pub workspace :
      Dict.lookup "workspace" (subject_payload r.subject) ≡ Option.map str r.subject.workspace
  pub app : Dict.lookup "app" (subject_payload r.subject) ≡ Option.map str r.subject.app
  pub workflow :
      Dict.lookup "workflow" (subject_payload r.subject) ≡ Option.map str r.subject.workflow
  pub agent : Dict.lookup "agent" (subject_payload r.subject) ≡ Option.map str r.subject.agent
  pub toolset : Dict.lookup "toolset" (subject_payload r.subject) ≡ Option.map str r.subject.toolset

or_else-none : (o : Option Value) → Option.or_else o none ≡ o
unfolding Option.or_else
or_else-none none = refl
or_else-none (some v) = refl

flag_there : (b : Bool) → flag b ≡ (if b then some (bool true) else none)
unfolding flag
flag_there true = refl
flag_there false = refl

module _ (r : ReservationBody) where
  dry_run_there :
      Dict.lookup "dry_run" (reservation_payload r) ≡ (if r.dry_run then some (bool true) else none)
  unfolding reservation_payload Dict.lookup
  dry_run_there = simp (lookup-put, or_else-none, flag_there)

  metadata_absent : r.metadata ≡ none → Dict.lookup "metadata" (reservation_payload r) ≡ none
  unfolding reservation_payload Dict.lookup object_of flag put
  metadata_absent h = simp (lookup-put, or_else-none, h)

  reservation_payload-Optional : Optional r
  unfolding subject_payload Dict.lookup
  reservation_payload-Optional = record {
    dry_run = dry_run_there;
    metadata = metadata_absent;
    tenant = simp (lookup-put, or_else-none);
    workspace = simp (lookup-put, or_else-none);
    app = simp (lookup-put, or_else-none);
    workflow = simp (lookup-put, or_else-none);
    agent = simp (lookup-put, or_else-none);
    toolset = simp (lookup-put, or_else-none);
  }

-- The dicts of the three bodies, read back, are the bodies: each member that is in a dict says what
-- its field says. A reservation has the member `dry_run`, then true, for a dry run only, no member
-- `metadata` where there is no metadata, and a level of the subject only where it has a value.
pub read-payloads :
    (r : ReservationBody) (c : CommitBody) (x : ReleaseBody)
    → (read_reservation (reservation_payload r) ≡ r)
      × (read_commit (commit_payload c) ≡ c)
      × (read_release (release_payload x) ≡ x)
      × Optional r
read-payloads r c x = (
  read-reservation_payload r,
  read-commit_payload c,
  read-release_payload x,
  reservation_payload-Optional r,
)
