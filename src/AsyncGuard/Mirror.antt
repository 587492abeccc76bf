-- ===== src/AsyncGuard/Mirror.antt =====
-- The methods of the two classes of runcycles_ap2/guard.py that are one code, but for `await`.
use cycles_ap2_python.Base.{
  ℕ, String, Bool, true, false, Option, none, some, List, [], ◌∷◌, ◌≡◌, refl, ◌∙◌, ap,
}
use cycles_ap2_python.Builtins.{Builtins}
use cycles_ap2_python.Errors.{Raised, Result, ok, err}
use cycles_ap2_python.Mandate.{Mandate}
use cycles_ap2_python.Mapping.Bodies.{Context, ReservationBody}
use cycles_ap2_python.Client.{
  Client, call, create_reservation, Reply, raised, returned, Response, CreateResult,
}
use cycles_ap2_python.Guard.State.{St, new_guard, with_world}
use cycles_ap2_python.Guard.{
  set_amount, set_actual_micros, attach_receipt_fields, abort, conclude, parsed, responded, opened,
  reserve, enter, released, release, release_of, handle_release, settle, committed_amount,
  receipt_for, build_receipt,
}
use cycles_ap2_python.Guard.Exit.{refusal_reason, after_release, refuse, emit, accept, answered}
use cycles_ap2_python.Guard.With.{Action, set_actual, attach, give_up, pay, throw, act, run_body}
use cycles_ap2_python.AsyncGuard.Settings.{
  new_async_guard, aset_amount, aset_actual_micros, aattach_receipt_fields, aabort, aact, arun_body,
}
use cycles_ap2_python.AsyncGuard.Entry.{aconclude, aparsed, aresponded, aopened, areserve, aenter}
use cycles_ap2_python.AsyncGuard.Release.{
  areleased, arelease, arelease_of, ahandle_release, asettle, acommitted_amount, areceipt_for,
  abuild_receipt,
}
use cycles_ap2_python.AsyncGuard.{aafter_release, arefuse, aemit, aaccept, aanswered}

pub new_async_guard-new_guard :
    (m : Mandate) (c : Context) (emit_receipt : Bool)
    → new_async_guard m c emit_receipt ≡ new_guard m c emit_receipt
unfolding new_async_guard new_guard
new_async_guard-new_guard m c emit_receipt = refl

module _ {W : Type 0} where
  aset_amount-set_amount : (r : Result ℕ) (s : St W) → aset_amount r s ≡ set_amount r s
  unfolding aset_amount set_amount
  aset_amount-set_amount (err e) s = refl
  aset_amount-set_amount (ok n) s = refl

  pub aact-act : (b : Builtins) (a : Action) (s : St W) → aact b a s ≡ act b a s
  unfolding aact act aset_actual_micros set_actual_micros aattach_receipt_fields
      attach_receipt_fields aabort abort
  aact-act b (set_actual v) s = rw aset_amount-set_amount refl
  aact-act b (attach fields) s = refl
  aact-act b (give_up reason) s = refl
  aact-act b pay s = refl
  aact-act b (throw e) s = refl

  -- The rest of a body, unless an action has raised.
  abbrev goes_on : (St W → Option Raised × St W) → Option Raised × St W → Option Raised × St W
  goes_on f x = elim x.0 [ some e ↦ (some e, x.1) | none ↦ f x.1 ]

  goes_on_alike :
      (x : Option Raised × St W) (f g : St W → Option Raised × St W)
      → ((t : St W) → f t ≡ g t)
      → goes_on f x ≡ goes_on g x
  goes_on_alike (none, t) f g h = h t
  goes_on_alike (some e, t) f g h = refl

  pub arun_body-run_body :
      (b : Builtins) (body : List Action) (s : St W) → arun_body b body s ≡ run_body b body s
  unfolding arun_body run_body
  arun_body-run_body b [] s = refl
  arun_body-run_body b (a ∷ rest) s =
      goes_on_alike (aact b a s) (arun_body b rest) (run_body b rest) (arun_body-run_body b rest)
      ∙ ap (goes_on (run_body b rest)) (aact-act b a s)

module _ {W : Type 0} (client : Client W) (b : Builtins) where
  aconclude-conclude :
      (r : CreateResult) (denied dry : Bool) (o : Option String) (s : St W)
      → aconclude r denied dry o s ≡ conclude r denied dry o s
  unfolding aconclude conclude
  aconclude-conclude r true dry o s = refl
  aconclude-conclude r false true o s = refl
  aconclude-conclude r false false none s = refl
  aconclude-conclude r false false (some id) s = refl

  aparsed-parsed : (p : Result CreateResult) (s : St W) → aparsed client b p s ≡ parsed client b p s
  unfolding aparsed parsed
  aparsed-parsed (err e) s = refl
  aparsed-parsed (ok r) s = aconclude-conclude r _ _ _ _

  aresponded-responded :
      (success : Bool) (r : Response) (s : St W)
      → aresponded client b success r s ≡ responded client b success r s
  unfolding aresponded responded
  aresponded-responded true r s = aparsed-parsed (client.model_validate r.body) s
  aresponded-responded false r s = refl

  aopened-opened : (reply : Reply) (s : St W) → aopened client b reply s ≡ opened client b reply s
  unfolding aopened opened
  aopened-opened (raised e) s = refl
  aopened-opened (returned r) s = aresponded-responded r.is_success r s

  areserve-reserve :
      (r : Result ReservationBody) (s : St W) → areserve client b r s ≡ reserve client b r s
  unfolding areserve reserve
  areserve-reserve (err e) s = refl
  areserve-reserve (ok body) s =
      let (reply, w) = call client (create_reservation body) s.world in
      aopened-opened reply (with_world s w)

  pub aenter-enter : (s : St W) → aenter client b s ≡ enter client b s
  unfolding aenter enter
  aenter-enter s = areserve-reserve _ s

  areleased-released : (reply : Reply) → areleased reply ≡ released reply
  unfolding areleased released
  areleased-released (raised e) = refl
  areleased-released (returned r) = refl

  arelease-release :
      (id reason name : String) (s : St W)
      → arelease client b id reason name s ≡ release client b id reason name s
  unfolding arelease release
  arelease-release id reason name s = rw areleased-released refl

  arelease_of-release_of :
      (o : Option String) (reason name : String) (s : St W)
      → arelease_of client b o reason name s ≡ release_of client b o reason name s
  unfolding arelease_of release_of
  arelease_of-release_of none reason name s = refl
  arelease_of-release_of (some id) reason name s = arelease-release id reason name s

  pub ahandle_release-handle_release :
      (reason name : String) (s : St W)
      → ahandle_release client b reason name s ≡ handle_release client b reason name s
  unfolding ahandle_release handle_release
  ahandle_release-handle_release reason name s =
      arelease_of-release_of s.guard.reservation_id reason name s

  asettle-settle :
      (r : Result ℕ) (id decision : String) (s : St W)
      → asettle client b r id decision s ≡ settle client b r id decision s
  unfolding asettle settle
  asettle-settle (err e) id decision s = refl
  asettle-settle (ok n) id decision s = refl

  amount-amount :
      (o : Option ℕ) (m : Mandate) → acommitted_amount client b o m ≡ committed_amount client b o m
  unfolding acommitted_amount committed_amount
  amount-amount none m = refl
  amount-amount (some n) m = refl

  areceipt_for-receipt_for :
      (o d : Option String) (s : St W) → areceipt_for client b o d s ≡ receipt_for client b o d s
  unfolding areceipt_for receipt_for
  areceipt_for-receipt_for none d s = refl
  areceipt_for-receipt_for (some id) none s = refl
  areceipt_for-receipt_for (some id) (some d) s = rw (amount-amount, asettle-settle) refl

  aemit-emit : (e : Bool) (s : St W) → aemit client b e s ≡ emit client b e s
  unfolding aemit emit abuild_receipt build_receipt
  aemit-emit true s = areceipt_for-receipt_for s.guard.reservation_id s.guard.decision s
  aemit-emit false s = refl

  after-after :
      (id : String) (r : Response) (o : Result (Bool × Option String) × St W)
      → aafter_release client b id r o ≡ after_release client b id r o
  unfolding aafter_release after_release
  after-after id r (err e, s) = refl
  after-after id r (ok outcome, s) = refl

  -- A reply to a commit is handled alike.
  pub aanswered-answered :
      (success lost terminal : Bool) (id : String) (r : Response) (s : St W)
      → aanswered client b success lost terminal id r s
        ≡ answered client b success lost terminal id r s
  unfolding aanswered answered aaccept accept arefuse refuse
  aanswered-answered true lost terminal id r s = aemit-emit s.guard.emit_receipt _
  aanswered-answered false true terminal id r s = refl
  aanswered-answered false false true id r s = refl
  aanswered-answered false false false id r s =
      rw (arelease-release id (refusal_reason r) "CommitRejected" s) (after-after id r _)
