-- ===== src/Guard/Exit/Receipts.antt =====
-- The receipt of a committed payment: what it says of the commit and of the caller's fields.
use mathlib.Core.Option
use mathlib.Core.Option.{some-injective}
use cycles_ap2_python.Base.{
  ℕ, String, eq_iff, Bool, true, false, Option, none, some, [], ◌∷◌, ◌≡◌, ◌≢◌, refl, ◌∙◌, sym, ap,
  arith,
}
use cycles_ap2_python.Base.Dict
use cycles_ap2_python.Base.Dict.{Dict, lookup-without}
use cycles_ap2_python.Value.{Value, str}
use cycles_ap2_python.Builtins.{Builtins}
use cycles_ap2_python.Errors.{Result, ok}
use cycles_ap2_python.Mandate.{amount_micros}
use cycles_ap2_python.Mapping.Bodies.{CommitBody}
use cycles_ap2_python.Receipt.{Receipt, build_runtime_authority_receipt}
use cycles_ap2_python.Client.{Client}
use cycles_ap2_python.Guard.State.{Guard, St, with_guard}
use cycles_ap2_python.Guard.{settle, committed_amount, receipt_for, build_receipt}
use cycles_ap2_python.Guard.Exit.Price.{commit_body_of-Priced}
use cycles_ap2_python.Guard.Exit.{emit, accept, commit_body_of}
use cycles_ap2_python.Guard.Exit.Settle.{IsOpen}
use cycles_ap2_python.Guard.With.Body.{Bounded}

-- The caller's fields that are in a receipt, but for the payment's reference.
abbrev pub extra_of : Receipt → Dict Value
extra_of r = Option.get_or r.extra []

-- A receipt for `n` micro-cents of the reservation `id`, with the caller's fields: the reference,
-- if it is a text, in its own field, and every other one in `extra`.
pub record Tells (g : Guard) (n : ℕ) (id : String) (r : Receipt) : Type 0 where
  pub amount : r.amount_micros ≡ n
  pub reservation : r.reservation_id ≡ id
  pub transaction : r.ap2_transaction_id ≡ g.mandate.transaction_id
  pub committed : r.committed ≡ true
  pub reference :
      (ref : String)
      → Dict.lookup "psp_ref" g.commit_metadata ≡ some (str ref)
      → r.psp_ref ≡ some ref
  pub no_reference : Dict.lookup "psp_ref" g.commit_metadata ≡ none → r.psp_ref ≡ none
  pub extra :
      (k : String) → k ≢ "psp_ref" → Dict.lookup k (extra_of r) ≡ Dict.lookup k g.commit_metadata
  pub taken_out : Dict.lookup "psp_ref" (extra_of r) ≡ none

entries : (d : Dict Value) → Option.get_or (Dict.or_none d) [] ≡ d
unfolding Dict.or_none
entries [] = refl
entries (e ∷ d) = refl

lookup-others :
    (k : String) (d : Dict Value)
    → k ≢ "psp_ref"
    → Dict.lookup k (Option.get_or (Dict.or_none (Dict.without "psp_ref" d)) []) ≡ Dict.lookup k d
lookup-others k d h =
    rw (entries (Dict.without "psp_ref" d), lookup-without) (ground (arith, eq_iff "psp_ref" k))

lookup-reference :
    (d : Dict Value)
    → Dict.lookup "psp_ref" (Option.get_or (Dict.or_none (Dict.without "psp_ref" d)) []) ≡ none
lookup-reference d = rw (entries (Dict.without "psp_ref" d), lookup-without) refl

module _ {W : Type 0} where
  pub record Shown (s : St W) (n : ℕ) (id : String) (o : Result (Unit {0}) × St W) : Type 0 where
    pub receipt : Receipt
    pub kept : o.1.guard.receipt ≡ some receipt
    pub tells : Tells s.guard n id receipt

module _ {W : Type 0} (client : Client W) (b : Builtins) where
  settle-Shown :
      (n : ℕ) (id decision : String) (s : St W)
      → Shown s n id (settle client b (ok n) id decision s)
  unfolding settle build_runtime_authority_receipt
  settle-Shown n id decision s = record {
    receipt = _;
    kept = refl;
    tells = record {
      amount = refl;
      reservation = refl;
      transaction = refl;
      committed = refl;
      reference = λ ref h. rw h refl;
      no_reference = λ h. rw h refl;
      extra = λ k h. lookup-others k s.guard.commit_metadata h;
      taken_out = lookup-reference s.guard.commit_metadata;
    };
  }

  -- The amount of the receipt is the one that was set, or else the mandate's.
  amount_of-Shown :
      (o : Option ℕ) (n : ℕ) (id decision : String) (s : St W)
      → amount_micros b s.guard.mandate ≡ ok n
      → Shown s
          (Option.get_or o n)
          id
          (settle client b (committed_amount client b o s.guard.mandate) id decision s)
  unfolding committed_amount
  amount_of-Shown none n id decision s h = rw h (settle-Shown n id decision s)
  amount_of-Shown (some a) n id decision s h = settle-Shown a id decision s

  receipt_for-Shown :
      (o d : Option String) (s : St W) (n : ℕ) (id decision : String)
      → o ≡ some id
      → d ≡ some decision
      → amount_micros b s.guard.mandate ≡ ok n
      → Shown s (Option.get_or s.guard.actual_micros n) id (receipt_for client b o d s)
  unfolding receipt_for
  receipt_for-Shown none d s n id decision h k p = cc
  receipt_for-Shown (some j) none s n id decision h k p = cc
  receipt_for-Shown (some j) (some c) s n id decision h k p =
      rw (← some-injective j id h) (amount_of-Shown s.guard.actual_micros n j c s p)

  build_receipt-Shown :
      (s : St W) (k : IsOpen b s)
      → Shown s (Option.get_or s.guard.actual_micros k.amount) k.id (build_receipt client b s)
  unfolding build_receipt
  build_receipt-Shown s k =
      receipt_for-Shown _ _ s k.amount k.id k.decision k.reserved k.decided k.priced

  emit-Shown :
      (e : Bool) (s : St W) (k : IsOpen b s)
      → e ≡ true
      → Shown s (Option.get_or s.guard.actual_micros k.amount) k.id (emit client b e s)
  unfolding emit
  emit-Shown true s k h = build_receipt-Shown s k
  emit-Shown false s k h = cc

  accept-Shown :
      (s : St W) (k : IsOpen b s)
      → s.guard.emit_receipt ≡ true
      → Shown s (Option.get_or s.guard.actual_micros k.amount) k.id (accept client b s)
  unfolding accept
  accept-Shown s k h =
      let t = with_guard s (record s.guard { committed = true }) in
      let opened : IsOpen b t = record {
        id = k.id;
        reserved = k.reserved;
        decision = k.decision;
        decided = k.decided;
        amount = k.amount;
        priced = k.priced;
      } in
      let r = emit-Shown s.guard.emit_receipt t opened h in
      record {
        receipt = r.receipt;
        kept = r.kept;
        tells = record {
          amount = r.tells.amount;
          reservation = r.tells.reservation;
          transaction = r.tells.transaction;
          committed = r.tells.committed;
          reference = r.tells.reference;
          no_reference = r.tells.no_reference;
          extra = r.tells.extra;
          taken_out = r.tells.taken_out;
        };
      }

  same_body : (x y : CommitBody) (r : Result CommitBody) → r ≡ ok x → r ≡ ok y → x ≡ y
  same_body x y r h k = cc

  -- For an open guard that emits receipts, a successful commit leaves a receipt for the very amount
  -- of the body that was committed, for the same reservation and transaction. The reference of the
  -- payment, where it is a text, has its own field there, and every other field that the caller has
  -- attached is in `extra`, where the reference is not.
  pub accept-receipt :
      (id : String) (body : CommitBody) (s : St W)
      → s.guard.reservation_id ≡ some id
      → commit_body_of b s.guard ≡ ok body
      → Bounded s.guard.actual_micros
      → IsOpen b s
      → s.guard.emit_receipt ≡ true
      → Shown s body.actual.amount id (accept client b s)
  accept-receipt id body s here built bounded k emits =
      let p = commit_body_of-Priced b s.guard k.amount k.priced bounded in
      let amounts = ap (λ x. x.actual.amount) (same_body p.body body _ p.built built) in
      rw (← amounts, p.amount, some-injective id k.id (sym here ∙ k.reserved))
        (accept-Shown s k emits)
