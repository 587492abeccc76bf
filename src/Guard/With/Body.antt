-- ===== src/Guard/With/Body.antt =====
-- What the body of a `with` leaves alone, and what it may add to the events.
use mathlib.Core.List.{append-nil, append_assoc}
use cycles_ap2_python.Base.{ℕ, ◌≤◌, Option, none, some, List, [], ◌∷◌, ◌++◌, ◌≡◌, refl, ◌∙◌}
use cycles_ap2_python.Constants.{max_usd_micros}
use cycles_ap2_python.Value.{Value}
use cycles_ap2_python.Builtins.{Builtins}
use cycles_ap2_python.Errors.{Raised, Result, ok, err}
use cycles_ap2_python.Validation.{validate_micros}
use cycles_ap2_python.Validation.Bounds.{validate_micros_iff}
use cycles_ap2_python.Client.{Event, sent, charge}
use cycles_ap2_python.Guard.State.{St}
use cycles_ap2_python.Guard.{set_amount, set_actual_micros, attach_receipt_fields, abort}
use cycles_ap2_python.Guard.With.{Action, set_actual, pay, act, run_body}

-- Payments only.
abbrev pub Charges : List Event → Type 0
Charges [] = Unit
Charges (charge ∷ rest) = Charges rest
Charges (sent c ∷ rest) = ⊥

-- An amount that the caller has set is one that the protocol allows.
abbrev pub Bounded : Option ℕ → Type 0
Bounded none = Unit
Bounded (some n) = n ≤ max_usd_micros

Charges-append : (xs ys : List Event) → Charges xs → Charges ys → Charges (xs ++ ys)
Charges-append [] ys h k = k
Charges-append (charge ∷ xs) ys h k = Charges-append xs ys h k
Charges-append (sent c ∷ xs) ys h k = absurd h

module _ {W : Type 0} where
  -- From `s` a body has come to `t`: it has paid, and changed no more than the amount, the metadata
  -- and the reason of an abort.
  pub record Works (s t : St W) : Type 0 where
    pub mandate : t.guard.mandate ≡ s.guard.mandate
    pub context : t.guard.context ≡ s.guard.context
    pub reservation_id : t.guard.reservation_id ≡ s.guard.reservation_id
    pub decision : t.guard.decision ≡ s.guard.decision
    pub committed : t.guard.committed ≡ s.guard.committed
    pub bounded : Bounded s.guard.actual_micros → Bounded t.guard.actual_micros
    pub charges : List Event
    pub paid : Charges charges
    pub log : t.world.log ≡ s.world.log ++ charges

  Works-refl : (s : St W) → Works s s
  Works-refl s = record {
    mandate = refl;
    context = refl;
    reservation_id = refl;
    decision = refl;
    committed = refl;
    bounded = λ h. h;
    charges = [];
    paid = tt;
    log = rw append-nil;
  }

  Works-trans : (s t u : St W) → Works s t → Works t u → Works s u
  Works-trans s t u f g = record {
    mandate = g.mandate ∙ f.mandate;
    context = g.context ∙ f.context;
    reservation_id = g.reservation_id ∙ f.reservation_id;
    decision = g.decision ∙ f.decision;
    committed = g.committed ∙ f.committed;
    bounded = λ h. g.bounded (f.bounded h);
    charges = f.charges ++ g.charges;
    paid = Charges-append f.charges g.charges f.paid g.paid;
    log = g.log ∙ rw (f.log, append_assoc);
  }

  set_amount-Works :
      (b : Builtins) (v : Value) (r : Result ℕ) (s : St W)
      → validate_micros b v "actual amount" ≡ r
      → Works s (set_amount r s).1
  unfolding set_amount
  set_amount-Works b v (err e) s h = Works-refl s
  set_amount-Works b v (ok n) s h = record {
    mandate = refl;
    context = refl;
    reservation_id = refl;
    decision = refl;
    committed = refl;
    bounded = λ _. ((validate_micros_iff b v n "actual amount").0 h).1;
    charges = [];
    paid = tt;
    log = rw append-nil;
  }

  act-Works : (b : Builtins) (a : Action) (s : St W) → Works s (act b a s).1
  unfolding act set_actual_micros attach_receipt_fields abort
  act-Works b (set_actual v) s = set_amount-Works b v _ s refl
  act-Works b pay s = record {
    mandate = refl;
    context = refl;
    reservation_id = refl;
    decision = refl;
    committed = refl;
    bounded = λ h. h;
    charges = charge ∷ [];
    paid = tt;
    log = refl;
  }
  act-Works b _ s = record {
    mandate = refl;
    context = refl;
    reservation_id = refl;
    decision = refl;
    committed = refl;
    bounded = λ h. h;
    charges = [];
    paid = tt;
    log = rw append-nil;
  }

  pub run_body-Works :
      (b : Builtins) (body : List Action) (s : St W) → Works s (run_body b body s).1
  unfolding run_body
  run_body-Works b [] s = Works-refl s
  run_body-Works b (a ∷ rest) s =
      let t = (act b a s).1 in
      elim (act b a s).0
        as (λ o.
          Works s
            (elim o as (λ x. Option Raised × St W) [
              | none ↦ run_body b rest t
              | some x ↦ (some x, t)
            ]).1) [
              | none ↦ Works-trans s t _ (act-Works b a s) (run_body-Works b rest t)
              | some x ↦ act-Works b a s
            ]
