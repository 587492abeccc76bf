-- ===== src/Guard/Exit/Settle.antt =====
-- What `_handle_commit` does, by an independent reading of the reply: which calls are made, whether
-- the guard is committed, and which exception tells of it.
use cycles_ap2_python.Base.{
  ℕ, String, ◌===◌, Bool, true, false, Option, none, some, ◌≡◌, refl, arith, if◌then◌else◌,
}
use cycles_ap2_python.Builtins.{Builtins}
use cycles_ap2_python.Errors.{Kind, cancelled, ordinary, other_base, Result, ok}
use cycles_ap2_python.Mandate.{amount_micros}
use cycles_ap2_python.Client.{Client, Reply, raised, returned, Response}
use cycles_ap2_python.Guard.State.{St, with_guard}
use cycles_ap2_python.Guard.{
  code_of, is_terminal, build_receipt, settle, committed_amount, receipt_for,
}
use cycles_ap2_python.Guard.Exit.{emit, accept}

-- What is known of a commit from the reply to it.
pub data Verdict : Type 0 where
  settled unknown refused crashed : Verdict

-- A response that is no success, by its error code.
unfoldable pub by_code : Response → Verdict
by_code r = elim (code_of r) [
  | none ↦ refused
  | some c ↦
      if c === "RESERVATION_FINALIZED"
      then unknown
      else if c === "RESERVATION_EXPIRED"
      then unknown
      else if c === "IDEMPOTENCY_MISMATCH"
      then unknown
      else refused
]

unfoldable pub by_kind : Kind → Verdict
by_kind ordinary = unknown
by_kind cancelled = crashed
by_kind other_base = crashed

-- The commit is refused only where the server has answered, without an error of its own, with a
-- code that is no terminal state of the reservation; and it has crashed where the call was stopped
-- by what is no `Exception`.
unfoldable pub verdict : Reply → Verdict
unfolding by_code by_kind
verdict (raised e) = by_kind e.kind
verdict (returned r) =
    if r.is_success
    then settled
    else if r.is_transport_error
    then unknown
    else if r.is_server_error
    then unknown
    else by_code r

pub is_terminal-by_code :
    (r : Response) → by_code r ≡ (if is_terminal (code_of r) then unknown else refused)
unfolding by_code is_terminal
is_terminal-by_code r = ground arith

-- A guard that has come through `__enter__`: it has the reservation and its decision, and the
-- amount that it may have to commit is one.
pub record IsOpen {W : Type 0} (b : Builtins) (s : St W) : Type 0 where
  pub id : String
  pub reserved : s.guard.reservation_id ≡ some id
  pub decision : String
  pub decided : s.guard.decision ≡ some decision
  pub amount : ℕ
  pub priced : amount_micros b s.guard.mandate ≡ ok amount

module _ {W : Type 0} where
  -- The receipt is set, and nothing else of the guard or the world is changed.
  pub record Receipted (s : St W) (o : Result (Unit {0}) × St W) : Type 0 where
    pub result : o.0 ≡ ok tt
    pub world : o.1.world ≡ s.world
    pub guard : o.1.guard ≡ record s.guard { receipt = o.1.guard.receipt }

  -- A guard that is committed, and as it was but for that and the receipt.
  pub record Committed (s : St W) (o : Result (Unit {0}) × St W) : Type 0 where
    pub result : o.0 ≡ ok tt
    pub world : o.1.world ≡ s.world
    pub guard : o.1.guard ≡ record s.guard { committed = true; receipt = o.1.guard.receipt }

module _ {W : Type 0} (client : Client W) (b : Builtins) where
  settle-Receipted :
      (n : ℕ) (id decision : String) (s : St W) → Receipted s (settle client b (ok n) id decision s)
  unfolding settle
  settle-Receipted n id decision s = record { result = refl; world = refl; guard = refl }

  settle_amount :
      (o : Option ℕ) (n : ℕ) (id decision : String) (s : St W)
      → amount_micros b s.guard.mandate ≡ ok n
      → Receipted s (settle client b (committed_amount client b o s.guard.mandate) id decision s)
  unfolding committed_amount
  settle_amount none n id decision s h = rw h (settle-Receipted n id decision s)
  settle_amount (some a) n id decision s h = settle-Receipted a id decision s

  receipt_for-Receipted :
      (id decision : Option String) (s : St W) {x y : String} {n : ℕ}
      → id ≡ some x
      → decision ≡ some y
      → amount_micros b s.guard.mandate ≡ ok n
      → Receipted s (receipt_for client b id decision s)
  unfolding receipt_for
  receipt_for-Receipted none decision s h k p = cc
  receipt_for-Receipted (some id) none s h k p = cc
  receipt_for-Receipted (some id) (some d) s h k p = settle_amount s.guard.actual_micros _ id d s p

  build_receipt-Receipted : (s : St W) → IsOpen b s → Receipted s (build_receipt client b s)
  unfolding build_receipt
  build_receipt-Receipted s h = receipt_for-Receipted _ _ s h.reserved h.decided h.priced

  emit-Receipted : (e : Bool) (s : St W) → IsOpen b s → Receipted s (emit client b e s)
  unfolding emit
  emit-Receipted true s h = build_receipt-Receipted s h
  emit-Receipted false s h = record { result = refl; world = refl; guard = refl }

  pub accept-Committed : (s : St W) → IsOpen b s → Committed s (accept client b s)
  unfolding accept
  accept-Committed s h =
      let t = with_guard s (record s.guard { committed = true }) in
      let opened : IsOpen b t = record {
        id = h.id;
        reserved = h.reserved;
        decision = h.decision;
        decided = h.decided;
        amount = h.amount;
        priced = h.priced;
      } in
      let r = emit-Receipted s.guard.emit_receipt t opened in
      record { result = r.result; world = r.world; guard = r.guard }
