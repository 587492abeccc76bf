-- ===== src/Tests/Ledger.antt =====
-- A server of one tenant that keeps its promise on keys, as a dict from keys to reservations.
use mathlib.Core.Option.{some-injective}
use cycles_ap2_python.Base.{
  String, ◌<>◌, eq_iff, true, false, Option, none, some, ◌≡◌, ◌≢◌, refl, arith, ◌∙◌, ap,
}
use cycles_ap2_python.Base.Int.{pos}
use cycles_ap2_python.Base.Dict
use cycles_ap2_python.Base.Dict.{Dict, lookup-insert}
use cycles_ap2_python.Value.{Value, str, null}
use cycles_ap2_python.Errors.{cancelled, Exc, Result, ok, err, validation_error}
use cycles_ap2_python.Client.{
  Client, Call, create_reservation, commit_reservation, release_reservation, Reply, raised,
  returned, Response, CreateResult,
}
use cycles_ap2_python.AsyncGuard.Same.{Calm}
use cycles_ap2_python.ConsumeOnce.{Honours}

abbrev pub allowing : String → CreateResult
allowing id = record {
  decision = "ALLOW";
  denied = false;
  reservation_id = some id;
  reason_code = none;
  caps = null;
  balances = null;
  affected_scopes = null;
}

abbrev pub success_with : Value → Response
success_with v = record {
  is_success = true;
  is_transport_error = false;
  is_server_error = false;
  status = pos 200;
  error = none;
  body = v;
}

-- By the reservation that the key has already: it is given again, or there is a new one.
abbrev pub grant : Option String → String → Dict String → Reply × Dict String
grant (some id) key w = (returned (success_with (str id)), w)
grant none key w =
    (returned (success_with (str ("rsv_" <> key))), Dict.insert key ("rsv_" <> key) w)

abbrev pub serve : Dict String → Call → Reply × Dict String
serve w (create_reservation body) =
    grant (Dict.lookup body.idempotency_key w) body.idempotency_key w
serve w (commit_reservation id body) = (returned (success_with null), w)
serve w (release_reservation id body) = (returned (success_with null), w)

abbrev pub read : Value → Result CreateResult
read (str id) = ok (allowing id)
read v = err (validation_error "ReservationCreateResponse")

abbrev pub ledger : Client (Dict String)
ledger = record { send = serve; model_validate = read; now_ms = λ w. 1700000000000 }

grant-kept :
    (o : Option String) (k : String) (w : Dict String) (key id : String)
    → Dict.lookup k w ≡ o
    → Dict.lookup key w ≡ some id
    → Dict.lookup key (grant o k w).1 ≡ some id
grant-kept (some j) k w key id h g = g
grant-kept none k w key id h g = rw lookup-insert (ground (arith, eq_iff k key))

serve-kept :
    (w : Dict String) (c : Call) (key id : String)
    → Dict.lookup key w ≡ some id
    → Dict.lookup key (serve w c).1 ≡ some id
serve-kept w (create_reservation body) key id g = grant-kept _ body.idempotency_key w key id refl g
serve-kept w (commit_reservation j body) key id g = g
serve-kept w (release_reservation j body) key id g = g

ok-injective : (x y : CreateResult) → ok x ≡ ok y → x ≡ y
ok-injective x y h = cc

returned-injective : (x y : Response) → returned x ≡ returned y → x.body ≡ y.body
returned-injective x y h = cc

allowing-id :
    (v : Value) (j id : String) (r : CreateResult)
    → str j ≡ v
    → read v ≡ ok r
    → r.reservation_id ≡ some id
    → j ≡ id
allowing-id v j id r h p q =
    some-injective j id (ap (λ x. x.reservation_id) (ok-injective _ r (rw (← h) at p)) ∙ q)

grant-answered :
    (o : Option String) (k : String) (w : Dict String) (r : Response) (x : CreateResult)
    (id : String)
    → Dict.lookup k w ≡ o
    → (grant o k w).0 ≡ returned r
    → read r.body ≡ ok x
    → x.reservation_id ≡ some id
    → Dict.lookup k (grant o k w).1 ≡ some id
grant-answered (some j) k w r x id h same valid here =
    h ∙ ap some (allowing-id r.body j id x (returned-injective _ r same) valid here)
grant-answered none k w r x id h same valid here =
    rw (lookup-insert, (eq_iff k k).1 refl)
      (ap some (allowing-id r.body ("rsv_" <> k) id x (returned-injective _ r same) valid here))

pub ledger-Honours : Honours ledger
ledger-Honours = record {
  granted = λ w tenant key. Dict.lookup key w;
  kept = λ w c tenant key id g. serve-kept w c key id g;
  answered = λ w body r x id same success valid allowed real here.
      grant-answered _ body.idempotency_key w r x id refl same valid here;
}

grant-Calm :
    (o : Option String) (k : String) (w : Dict String) (e : Exc)
    → (grant o k w).0 ≡ raised e
    → e.kind ≢ cancelled
grant-Calm (some j) k w e h = cc
grant-Calm none k w e h = cc

serve-Calm : (w : Dict String) (c : Call) (e : Exc) → (serve w c).0 ≡ raised e → e.kind ≢ cancelled
serve-Calm w (create_reservation body) e h = grant-Calm _ body.idempotency_key w e h
serve-Calm w (commit_reservation j body) e h = cc
serve-Calm w (release_reservation j body) e h = cc

pub ledger-Calm : Calm ledger
ledger-Calm = serve-Calm
