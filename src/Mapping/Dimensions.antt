-- ===== src/Mapping/Dimensions.antt =====
-- The dimensions of a reservation: `build_subject` of runcycles_ap2/mapping.py.
use text.Mathlib.TextPositions.{eq_refl}
use cycles_ap2_python.Base.{
  String, Bool, true, false, ◌≢◌, Option, none, some, [], ◌∷◌, ◌≡◌, refl, ◌===◌, eq_iff, truthy,
  if◌then◌else◌, Option-cases, inl, inr, ◌∙◌,
}
use cycles_ap2_python.Base.Dict
use cycles_ap2_python.Base.Dict.{Dict, lookup-insert, lookup-nil, lookup-cons}
use cycles_ap2_python.Constants.{
  dim_run_id, dim_ap2_transaction_id, dim_checkout_hash, dim_open_mandate_hash, dim_payee_website,
  dim_payment_currency, dim_payment_protocol,
}
use cycles_ap2_python.Builtins.{Builtins, upper}
use cycles_ap2_python.Mandate.{Mandate}
use cycles_ap2_python.Mapping.{
  fixed_dimensions, canonical_dimensions, add_hash, add_dimensions, with_extra, build_subject,
  build_receipt_policy_keys,
}
use cycles_ap2_python.Mapping.Bodies.{Context}

-- The value of a key in one dict, or else in another.
abbrev pub or_else : Option String → Option String → Option String
or_else none o = o
or_else (some v) o = some v

or_else-none : (o : Option String) → o ≡ or_else o none
or_else-none none = refl
or_else-none (some v) = refl

-- A key that is given once more changes nothing where it is looked up already.
or_else-given :
    (o : Option String) (same : Bool) (v : String) (rest : Option String)
    → (same ≡ true → o ≢ none)
    → or_else o rest ≡ or_else o (if same then some v else rest)
or_else-given none true v rest h = absurd (h refl refl)
or_else-given none false v rest h = refl
or_else-given (some w) same v rest h = refl

or_else-new :
    (o : Option String) (same : Bool) (v : String) (rest : Option String)
    → (same ≡ true → o ≡ none)
    → or_else (if same then some v else o) rest ≡ or_else o (if same then some v else rest)
or_else-new none true v rest h = refl
or_else-new none false v rest h = refl
or_else-new (some w) true v rest h = cc (h refl)
or_else-new (some w) false v rest h = refl

contains-none : (k : String) (d : Dict String) → Dict.lookup k d ≡ none → Dict.contains k d ≡ false
unfolding Dict.contains
contains-none k d h = rw (h, Dict.contains)

contains-some :
    (k : String) (d : Dict String) {v : String}
    → Dict.lookup k d ≡ some v
    → Dict.contains k d ≡ true
unfolding Dict.contains
contains-some k d h = rw (h, Dict.contains)

-- The lookup after the loop: in the dict before it, or else among the caller's entries.
pub lookup-add_dimensions :
    (k : String) (extra dims : Dict String)
    → Dict.lookup k (add_dimensions dims extra) ≡ or_else (Dict.lookup k dims) (Dict.lookup k extra)
unfolding add_dimensions
lookup-add_dimensions k [] dims = rw lookup-nil (or_else-none (Dict.lookup k dims))
lookup-add_dimensions k ((j, v) ∷ extra) dims = elim (Option-cases (Dict.lookup j dims)) [
  | inl missing ↦
      rw
        (
          contains-none j dims missing,
          lookup-add_dimensions k extra (Dict.insert j v dims),
          lookup-insert,
          lookup-cons,
        )
        (or_else-new (Dict.lookup k dims) (j === k) v (Dict.lookup k extra)
          (λ same. rw ((eq_iff j k).0 same) at missing))
  | inr (w, there) ↦
      rw (contains-some j dims there, lookup-add_dimensions k extra dims, lookup-cons)
        (or_else-given (Dict.lookup k dims) (j === k) v (Dict.lookup k extra)
          (λ same absent. cc (there, absent, (eq_iff j k).0 same)))
]

lookup-with_extra :
    (k : String) (dims : Dict String) (extra : Option (Dict String)) {v : String}
    → Dict.lookup k dims ≡ some v
    → Dict.lookup k (with_extra dims extra) ≡ some v
unfolding with_extra
lookup-with_extra k dims none h = h
lookup-with_extra k dims (some extra) h = rw (lookup-add_dimensions, h)

-- What the canonical dimensions hold.
pub record HasRouting (b : Builtins) (m : Mandate) (run_id : String) (dims : Dict String)
    : Type 0 where
  pub run : Dict.lookup dim_run_id dims ≡ some run_id
  pub transaction : Dict.lookup dim_ap2_transaction_id dims ≡ some m.transaction_id
  pub payee : Dict.lookup dim_payee_website dims ≡ some m.payee_website
  pub currency : Dict.lookup dim_payment_currency dims ≡ some (upper b m.currency)
  pub protocol : Dict.lookup dim_payment_protocol dims ≡ some "ap2"
  pub checkout :
      (h : String) → truthy m.checkout_hash ≡ some h → Dict.lookup dim_checkout_hash dims ≡ some h
  pub open_mandate :
      (h : String)
      → truthy m.open_mandate_hash ≡ some h
      → Dict.lookup dim_open_mandate_hash dims ≡ some h

lookup-add_hash_ne :
    (j k : String) (o : Option String) (d : Dict String)
    → (k === j) ≡ false
    → Dict.lookup j (add_hash k o d) ≡ Dict.lookup j d
unfolding add_hash
lookup-add_hash_ne j k none d h = refl
lookup-add_hash_ne j k (some v) d h = rw (lookup-insert, h)

lookup-add_hash_self :
    (k v : String) (o : Option String) (d : Dict String)
    → o ≡ some v
    → Dict.lookup k (add_hash k o d) ≡ some v
unfolding add_hash
lookup-add_hash_self k v none d h = cc
lookup-add_hash_self k v (some w) d h = rw (lookup-insert, eq_refl) h

-- A key that is neither of the two hashes' is looked up among the fixed ones.
lookup-fixed :
    (k : String) (checkout open_mandate : Option String) (d : Dict String)
    → (dim_open_mandate_hash === k) ≡ false
    → (dim_checkout_hash === k) ≡ false
    → Dict.lookup k
        (add_hash dim_open_mandate_hash open_mandate (add_hash dim_checkout_hash checkout d))
      ≡ Dict.lookup k d
lookup-fixed k checkout open_mandate d ho hc =
    lookup-add_hash_ne k _ open_mandate _ ho ∙ lookup-add_hash_ne k _ checkout d hc

canonical-HasRouting :
    (b : Builtins) (m : Mandate) (run_id : String)
    → HasRouting b m run_id (canonical_dimensions b m run_id)
unfolding canonical_dimensions Dict.lookup
canonical-HasRouting b m run_id =
    let at = λ (k : String).
      lookup-fixed k (truthy m.checkout_hash) (truthy m.open_mandate_hash)
        (fixed_dimensions b m run_id) in
    record {
      run = at dim_run_id refl refl;
      transaction = at dim_ap2_transaction_id refl refl;
      payee = at dim_payee_website refl refl;
      currency = at dim_payment_currency refl refl;
      protocol = at dim_payment_protocol refl refl;
      checkout = λ h e.
          lookup-add_hash_ne dim_checkout_hash dim_open_mandate_hash (truthy m.open_mandate_hash)
            (add_hash dim_checkout_hash (truthy m.checkout_hash) (fixed_dimensions b m run_id)) refl
          ∙ lookup-add_hash_self dim_checkout_hash h (truthy m.checkout_hash)
              (fixed_dimensions b m run_id) e;
      open_mandate = λ h e.
          lookup-add_hash_self dim_open_mandate_hash h (truthy m.open_mandate_hash)
            (add_hash dim_checkout_hash (truthy m.checkout_hash) (fixed_dimensions b m run_id)) e;
    }

-- Whatever the caller adds, the dimensions of a reservation hold the run, the transaction, the
-- payee, the upper-case currency and the protocol of the mandate, and its two hashes where they are
-- there and not empty.
pub build_subject-HasRouting :
    (b : Builtins) (m : Mandate) (c : Context)
    → HasRouting b m c.run_id (build_subject b m c).dimensions
unfolding build_subject
build_subject-HasRouting b m c =
    let h = canonical-HasRouting b m c.run_id in
    let kept = λ (k v : String) (e : Dict.lookup k (canonical_dimensions b m c.run_id) ≡ some v).
      lookup-with_extra k (canonical_dimensions b m c.run_id) c.extra_dimensions e in
    record {
      run = kept dim_run_id c.run_id h.run;
      transaction = kept dim_ap2_transaction_id m.transaction_id h.transaction;
      payee = kept dim_payee_website m.payee_website h.payee;
      currency = kept dim_payment_currency (upper b m.currency) h.currency;
      protocol = kept dim_payment_protocol "ap2" h.protocol;
      checkout = λ x e. kept dim_checkout_hash x (h.checkout x e);
      open_mandate = λ x e. kept dim_open_mandate_hash x (h.open_mandate x e);
    }

-- A dimension that is none of the canonical ones is the caller's.
pub build_subject-extra :
    (b : Builtins) (m : Mandate) (c : Context) (extra : Dict String) (k : String)
    → c.extra_dimensions ≡ some extra
    → Dict.lookup k (canonical_dimensions b m c.run_id) ≡ none
    → Dict.lookup k (build_subject b m c).dimensions ≡ Dict.lookup k extra
unfolding build_subject with_extra
build_subject-extra b m c extra k given free = rw (given, with_extra, lookup-add_dimensions, free)

-- The receipt's policy keys are the dimensions that the reservation was made with: the host is the
-- payee, and the protocol and the currency are the same texts.
pub policy_keys-dimensions :
    (b : Builtins) (m : Mandate) (c : Context)
    → (Dict.lookup dim_payee_website (build_subject b m c).dimensions
        ≡ some (build_receipt_policy_keys b m).host)
      × (Dict.lookup dim_payment_protocol (build_subject b m c).dimensions
          ≡ Dict.lookup dim_payment_protocol (build_receipt_policy_keys b m).custom)
      × (Dict.lookup dim_payment_currency (build_subject b m c).dimensions
          ≡ Dict.lookup dim_payment_currency (build_receipt_policy_keys b m).custom)
unfolding build_receipt_policy_keys Dict.lookup
policy_keys-dimensions b m c =
    let h = build_subject-HasRouting b m c in (h.payee, h.protocol, h.currency)
