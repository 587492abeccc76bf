-- ===== src/ConsumeOnce/Fleet.antt =====
-- Guards that run at one time against one server, their methods interleaved (runcycles_ap2/guard.py).
use mathlib.Core.List.{Memᴰ}
use mathlib.Core.Option.{some-injective}
use cycles_ap2_python.Base.All.{All, All-imp, All-middle, All-replace, All-mem}
use cycles_ap2_python.Base.{
  String, Bool, Option, none, some, List, [], ◌∷◌, ◌++◌, truthy, ◌≡◌, ◌∙◌, sym, ap,
}
use cycles_ap2_python.Builtins.{Builtins}
use cycles_ap2_python.Errors.{Raised, Result, ok, err}
use cycles_ap2_python.Mandate.{Mandate}
use cycles_ap2_python.Mapping.{consume_once_input, idempotency_key}
use cycles_ap2_python.Mapping.Bodies.{Context}
use cycles_ap2_python.Mapping.Separation.{key_of_input}
use cycles_ap2_python.Client.{Client, World, Call, call}
use cycles_ap2_python.Guard.State.{Guard, St, new_guard}
use cycles_ap2_python.Guard.{enter}
use cycles_ap2_python.Guard.Reserve.{Enters, enter-Enters}
use cycles_ap2_python.Guard.Exit.{exit}
use cycles_ap2_python.Guard.With.{Action, act}
use cycles_ap2_python.Guard.Evolves.{Evolves, exit-Evolves}
use cycles_ap2_python.Guard.Evolves.Runs.{act-Evolves, enter-Later}
use cycles_ap2_python.AsyncGuard.{aexit}
use cycles_ap2_python.AsyncGuard.Settings.{aact}
use cycles_ap2_python.AsyncGuard.Entry.{aenter}
use cycles_ap2_python.AsyncGuard.Mirror.{aenter-enter, aact-act}
use cycles_ap2_python.AsyncGuard.Moves.{aexit-Evolves}
use cycles_ap2_python.ConsumeOnce.{Honours, Later, now, called, Later-granted}
use cycles_ap2_python.ConsumeOnce.Grants.{Grants, enter-Grants}

-- The guards that there are, each in its own state, and the world that they share.
pub record Fleet (W : Type 0) : Type 0 where
  pub guards : List Guard
  pub world : World W

module _ {W : Type 0} (client : Client W) (b : Builtins) where
  -- One method of one guard or of one asynchronous guard, or one action of its body, as one step,
  -- whether it returns or raises.
  pub data Moves (s : St W) : St W → Type 0 where
    enters : Moves s (enter client b s).1
    acts : (a : Action) → Moves s (act b a s).1
    exits : (e : Option Raised) → Moves s (exit client b e s).1
    aenters : Moves s (aenter client b s).1
    aacts : (a : Action) → Moves s (aact b a s).1
    aexits : (e : Option Raised) → Moves s (aexit client b e s).1

  -- A guard is made, a guard of the list moves, or a caller of another program calls the server.
  pub data Step (f : Fleet W) : Fleet W → Type 0 where
    joins :
        (m : Mandate) (c : Context) (emit_receipt : Bool)
        → Step f (record { guards = new_guard m c emit_receipt ∷ f.guards; world = f.world })
    moves :
        (before after : List Guard) (g : Guard) (t : St W)
        → f.guards ≡ before ++ (g ∷ after)
        → Moves (record { guard = g; world = f.world }) t
        → Step f (record { guards = before ++ (t.guard ∷ after); world = t.world })
    other : (c : Call) → Step f (record { guards = f.guards; world = (call client c f.world).1 })

  -- From a world without guards, by any steps in any order.
  pub data Reached (w : World W) : Fleet W → Type 0 where
    start : Reached w (record { guards = []; world = w })
    next : {f g : Fleet W} → Reached w f → Step f g → Reached w g

  module _ (h : Honours client) where
    -- A reservation that the guard has is the one that is granted for its key.
    Owns : World W → Guard → Type 0
    Owns w g =
        (id : String)
        → g.reservation_id ≡ some id
        → h.granted w.server (truthy g.context.tenant) (idempotency_key g.mandate "reserve" none)
          ≡ some id

    Owns-Later : (v w : World W) (g : Guard) → Later client v w → Owns v g → Owns w g
    unfolding Owns
    Owns-Later v w g l own = λ id here. Later-granted h _ _ id l (own id here)

    Evolves-Owns : (s t : St W) → Evolves client s t → Owns s.world s.guard → Owns t.world t.guard
    unfolding Owns
    Evolves-Owns s t v own = λ id here.
        rw (v.mandate, v.context)
          (Later-granted h _ _ id v.later (own id (sym v.reservation_id ∙ here)))

    entered-Owns :
        (s : St W) (o : Result (Unit {0}) × St W)
        → Enters client b s o
        → Grants client h
            (truthy s.guard.context.tenant)
            (idempotency_key s.guard.mandate "reserve" none)
            o
        → Later client s.world o.1.world
        → Owns s.world s.guard
        → Owns o.1.world o.1.guard
    unfolding Owns
    entered-Owns s (ok _, t) x g l own = λ id here.
        let one = some-injective g.0 id (sym g.1 ∙ here) in
        rw (ap (λ y. y.mandate) x.0.guard, ap (λ y. y.context) x.0.guard, ← one) g.2
    entered-Owns s (err e, t) x g l own = λ id here.
        rw (ap (λ y. y.mandate) x.0.guard, ap (λ y. y.context) x.0.guard)
          (Later-granted h _ _ id l (own id (sym (ap (λ y. y.reservation_id) x.0.guard) ∙ here)))

    Moves-Later : {s t : St W} → Moves s t → Later client s.world t.world
    Moves-Later {s} enters = enter-Later client b s
    Moves-Later {s} (acts a) = (act-Evolves client b a s).later
    Moves-Later {s} (exits e) = (exit-Evolves client b e s).later
    Moves-Later {s} aenters = rw (aenter-enter client b s) (enter-Later client b s)
    Moves-Later {s} (aacts a) = rw (aact-act b a s) (act-Evolves client b a s).later
    Moves-Later {s} (aexits e) = (aexit-Evolves client b e s).later

    enter-Owns :
        (s : St W)
        → Owns s.world s.guard
        → Owns (enter client b s).1.world (enter client b s).1.guard
    enter-Owns s own =
        entered-Owns s (enter client b s) (enter-Enters client b s) (enter-Grants client h b s)
          (enter-Later client b s) own

    Moves-Owns : {s t : St W} → Moves s t → Owns s.world s.guard → Owns t.world t.guard
    Moves-Owns {s} enters own = enter-Owns s own
    Moves-Owns {s} (acts a) own = Evolves-Owns s _ (act-Evolves client b a s) own
    Moves-Owns {s} (exits e) own = Evolves-Owns s _ (exit-Evolves client b e s) own
    Moves-Owns {s} aenters own = rw (aenter-enter client b s) (enter-Owns s own)
    Moves-Owns {s} (aacts a) own =
        rw (aact-act b a s) (Evolves-Owns s _ (act-Evolves client b a s) own)
    Moves-Owns {s} (aexits e) own = Evolves-Owns s _ (aexit-Evolves client b e s) own

    -- Every guard's reservation is the one that is granted.
    abbrev AllOwn : Fleet W → Type 0
    AllOwn f = All (Owns f.world) f.guards

    Step-AllOwn : {f g : Fleet W} → Step f g → AllOwn f → AllOwn g
    unfolding Owns new_guard
    Step-AllOwn (joins m c emit_receipt) own = ((λ id here. cc), own)
    Step-AllOwn {f} (moves before after g t at m) own =
        let later =
          All-imp (Owns f.world) (Owns t.world) f.guards
            (λ x. Owns-Later f.world t.world x (Moves-Later m)) own in
        All-replace (Owns t.world) before g t.guard after
          (Moves-Owns m (All-middle (Owns f.world) before g after (rw (← at) own)))
          (rw (← at) later)
    Step-AllOwn {f} (other c) own =
        All-imp (Owns f.world) _ f.guards (λ x. Owns-Later f.world _ x (called c now)) own

    Reached-AllOwn : {w : World W} {f : Fleet W} → Reached w f → AllOwn f
    Reached-AllOwn start = tt
    Reached-AllOwn (next r s) = Step-AllOwn s (Reached-AllOwn r)

    -- At a server that keeps its promise, however the methods of any number of guards, the payments
    -- of their bodies and the calls of other programs are interleaved: two guards of one tenant whose
    -- mandates have one lock never have two different reservations. Each method is one step here.
    pub fleet_one :
        (w : World W) (f : Fleet W) (g g' : Guard)
        → Reached w f
        → Memᴰ g f.guards
        → Memᴰ g' f.guards
        → consume_once_input g.mandate ≡ consume_once_input g'.mandate
        → g.context.tenant ≡ g'.context.tenant
        → (id id' : String) → g.reservation_id ≡ some id
        → g'.reservation_id ≡ some id'
        → id ≡ id'
    unfolding Owns
    fleet_one w f g g' r i j lock tenant id id' here here' =
        let all = Reached-AllOwn r in
        let own = All-mem (Owns f.world) f.guards all i id here in
        let own' = All-mem (Owns f.world) f.guards all j id' here' in
        let key = key_of_input g.mandate g'.mandate "reserve" none lock in
        some-injective id id' (sym own ∙ rw (tenant, key) own')
