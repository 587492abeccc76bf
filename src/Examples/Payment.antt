-- ===== src/Examples/Payment.antt =====
-- The payment of examples/ap2_human_not_present.py, where the server goes along.
use mathlib.Core.List.{append_assoc}
use mathlib.Core.Option
use cycles_ap2_python.Base.{
  ℕ, ◌<>◌, String, true, false, Option, none, some, [], ◌∷◌, ◌++◌, ◌≡◌, refl, ◌∙◌, sym, ap, subst,
}
use cycles_ap2_python.Base.Dict
use cycles_ap2_python.Builtins.{Builtins}
use cycles_ap2_python.Errors.{Result, ok, err}
use cycles_ap2_python.Mandate.{Mandate, amount_micros}
use cycles_ap2_python.Mapping.{build_estimate, build_reservation_body}
use cycles_ap2_python.Mapping.Bodies.{Context, ReservationBody, CommitBody}
use cycles_ap2_python.Receipt.{Receipt}
use cycles_ap2_python.Client.{
  Client, World, sent, charge, call, create_reservation, commit_reservation,
}
use cycles_ap2_python.Guard.State.{St, start, new_guard}
use cycles_ap2_python.Guard.{enter, attach_receipt_fields}
use cycles_ap2_python.Guard.Admits.{Admits, enter_iff}
use cycles_ap2_python.Guard.Exit.Receipts.{Shown}
use cycles_ap2_python.Guard.With.{run_body, act, entered, run_with}
use cycles_ap2_python.Guard.With.Progress.{Settles, Finishes, run_with-Finishes}
use cycles_ap2_python.AsyncGuard.{aentered}
use cycles_ap2_python.AsyncGuard.Mirror.{new_async_guard-new_guard, aenter-enter}
use cycles_ap2_python.AsyncGuard.Same.{Calm, aentered-entered}
use cycles_ap2_python.Examples.{
  fake_psp_charge, entry, receipt, Outcome, demo_context, charging, receipts, left, inside,
  run_real, fake_psp_charge_async, acharging, ainside, arun_real,
}

-- The reservation, the charge and the commit, in this order, and what is printed of them.
pub record Pays {W : Type 0} (b : Builtins) (m : Mandate) (c : Context) (n : ℕ) (w : World W)
    (decision : Option String) (o : Outcome W) : Type 0 where
  pub id : String
  pub body : ReservationBody
  pub spent : CommitBody
  pub shown : Receipt
  pub built : build_reservation_body b m c ≡ ok body
  pub reserved : body.estimate.amount ≡ n
  pub result : o.result ≡ ok tt
  pub printed : o.printed ≡ entry decision (some id) ∷ receipt shown ∷ []
  pub log :
      o.world.log
      ≡ w.log ++ (sent (create_reservation body) ∷ charge ∷ sent (commit_reservation id spent) ∷ [])
  pub amount : spent.actual.amount ≡ n
  pub same_amount : shown.amount_micros ≡ n
  pub reservation : shown.reservation_id ≡ id
  pub transaction : shown.ap2_transaction_id ≡ m.transaction_id
  pub reference : shown.psp_ref ≡ some ("psp_" <> m.transaction_id)

-- The amount of the reservation is the mandate's.
estimated :
    (b : Builtins) (m : Mandate) (c : Context) (n : ℕ) (body : ReservationBody)
    → build_reservation_body b m c ≡ ok body
    → amount_micros b m ≡ ok n
    → body.estimate.amount ≡ n
unfolding build_reservation_body build_estimate
estimated b m c n body built price = cc (rw price at built)

module _ {W : Type 0} (client : Client W) (b : Builtins) (m : Mandate) (w : World W) where
  -- After the body.
  abbrev pub charged : St W → St W
  charged t = (run_body b (charging m (fake_psp_charge m)) t).1

  inside-left :
      (t : St W) (o : Result (Unit {0}) × St W)
      → o ≡ (ok tt, t)
      → inside client b m o ≡ left t (entered client b (charging m (fake_psp_charge m)) o)
  unfolding inside entered
  inside-left t o h = rw h refl

  receipts_of :
      (o : Result (Unit {0}) × St W) (r : Receipt)
      → o.0 ≡ ok tt
      → o.1.guard.receipt ≡ some r
      → receipts o ≡ receipt r ∷ []
  unfolding receipts
  receipts_of (ok _, s) r h k = rw k refl
  receipts_of (err e, s) r h k = cc

  ainside-left :
      (t : St W) (o : Result (Unit {0}) × St W)
      → o ≡ (ok tt, t)
      → ainside client b none m o ≡ left t (aentered client b (charging m (fake_psp_charge m)) o)
  unfolding ainside aentered acharging fake_psp_charge fake_psp_charge_async
  ainside-left t o h = rw h refl

  left-Pays :
      (c : Context) (t : St W) (n : ℕ) (o : Result (Unit {0}) × St W)
      → Admits client b (start m c true w) t
      → (f : Finishes n (charged t) o) → Shown (charged t) f.body.actual.amount f.id o
      → amount_micros b m ≡ ok n
      → Pays b m c n w t.guard.decision (left t o)
  unfolding left new_guard run_body act attach_receipt_fields fake_psp_charge call Dict.update
      Dict.insert Dict.lookup
  left-Pays c t n o a f s price =
      let unset = ap (λ x. x.guard.actual_micros) a.state in
      let fields = ap (λ x. x.guard.commit_metadata) a.state in
      let amount = f.amount ∙ ap (λ x. Option.get_or x n) unset in
      record {
        id = f.id;
        body = a.body;
        spent = f.body;
        built = a.built;
        reserved = estimated b m c n a.body a.built price;
        shown = s.receipt;
        result = f.result;
        printed = rw (f.reserved, receipts_of o s.receipt f.result s.kept) refl;
        log = f.log ∙ rw (ap (λ x. x.world.log) a.state, append_assoc, append_assoc) refl;
        amount = amount;
        same_amount = s.tells.amount ∙ amount;
        reservation = s.tells.reservation;
        transaction = s.tells.transaction ∙ ap (λ x. x.guard.mandate.transaction_id) a.state;
        reference = s.tells.reference _ (rw fields refl);
      }

  entered-Pays :
      (c : Context) (t : St W) (n : ℕ)
      → Admits client b (start m c true w) t
      → amount_micros b m ≡ ok n
      → Settles client (charged t)
      → Pays b m c n w t.guard.decision (
          left t
            (entered client b (charging m (fake_psp_charge m)) (enter client b (start m c true w))))
  unfolding new_guard run_body act attach_receipt_fields run_with call
  entered-Pays c t n a price agrees =
      let f =
        run_with-Finishes client b m c true (charging m (fake_psp_charge m)) w t (charged t) n a
          price refl (ap (λ s. s.guard.aborted_reason) a.state) agrees in
      left-Pays c t n _ a f (f.receipt (ap (λ s. s.guard.emit_receipt) a.state)) price

  -- If the server admits the guard of the example and settles its commit, the example returns: it has
  -- reserved the mandate's amount, made one charge, and committed that amount, in this order and
  -- nothing else, and has printed the decision with the reservation, and then a receipt of that
  -- amount, reservation and transaction, with the reference of the charge.
  pub run_real-Pays :
      (tenant : String) (t : St W) (n : ℕ)
      → Admits client b (start m (demo_context "run_demo_001" tenant false) true w) t
      → amount_micros b m ≡ ok n
      → Settles client (charged t)
      → Pays b m
          (demo_context "run_demo_001" tenant false)
          n
          w
          t.guard.decision
          (run_real client b m tenant w)
  unfolding run_real new_guard
  run_real-Pays tenant t n a price agrees =
      let context = demo_context "run_demo_001" tenant false in
      let came = (enter_iff client b (start m context true w) t).1 a in
      let mine = inside-left t (enter client b (start m context true w)) came in
      subst (Pays b m context n w t.guard.decision) (sym mine)
        (entered-Pays context t n a price agrees)

  -- At a client that cancels no call, where the task is not interrupted at the sleep of the charge, if
  -- the server admits the guard of the asynchronous example and settles its commit, that example
  -- returns: it has reserved the mandate's amount, made one charge, and committed that amount, in
  -- this order and nothing else, and has printed the decision with the reservation, and then a
  -- receipt of that amount, reservation and transaction, with the reference of the charge.
  pub arun_real-Pays :
      Calm client
      → (tenant : String) (t : St W) (n : ℕ)
      → Admits client b (start m (demo_context "run_demo_async_001" tenant false) true w) t
      → amount_micros b m ≡ ok n
      → Settles client (charged t)
      → Pays b m
          (demo_context "run_demo_async_001" tenant false)
          n
          w
          t.guard.decision
          (arun_real client b none m tenant w)
  unfolding arun_real new_guard fake_psp_charge fake_psp_charge_async
  arun_real-Pays calm tenant t n a price agrees =
      let context = demo_context "run_demo_async_001" tenant false in
      let s0 = start m context true w in
      let came = (enter_iff client b s0 t).1 a in
      let mine : arun_real client b none m tenant w
          ≡ left t (entered client b (charging m (fake_psp_charge m)) (enter client b s0)) =
        rw (new_async_guard-new_guard m context true, aenter-enter client b s0)
          (ainside-left t (enter client b s0) came
            ∙ ap (left t) (aentered-entered client b calm _ (enter client b s0))) in
      subst (Pays b m context n w t.guard.decision) (sym mine)
        (entered-Pays context t n a price agrees)
