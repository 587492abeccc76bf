-- ===== src/Client.antt =====
-- The `runcycles` client, which is a parameter of the model, and the world that a guard acts on.
use cycles_ap2_python.Base.{ℕ, String, Bool, Option, List, [], ◌∷◌, ◌++◌}
use cycles_ap2_python.Base.Int.{ℤ}
use cycles_ap2_python.Value.{Value}
use cycles_ap2_python.Errors.{Exc, Result}
use cycles_ap2_python.Mapping.Bodies.{ReservationBody, CommitBody, ReleaseBody}

-- The three calls of the client that the guards make.
pub data Call : Type 0 where
  create_reservation : ReservationBody → Call
  commit_reservation : String → CommitBody → Call
  release_reservation : String → ReleaseBody → Call

-- What `get_error_response()` gives: the fields that the guards read.
pub record ErrorResponse : Type 0 where
  pub error : Option String
  pub error_code : Option String
  pub request_id : Option String

pub record Response : Type 0 where
  pub is_success : Bool
  pub is_transport_error : Bool
  pub is_server_error : Bool
  pub status : ℤ
  pub error : Option ErrorResponse
  pub body : Value

-- A call returns a response or raises.
pub data Reply : Type 0 where
  raised : Exc → Reply
  returned : Response → Reply

-- A `ReservationCreateResponse`, with the answer of its `is_denied()`.
pub record CreateResult : Type 0 where
  pub decision : String
  pub denied : Bool
  pub reservation_id : Option String
  pub reason_code : Option String
  pub caps : Value
  pub balances : Value
  pub affected_scopes : Value

-- The client over a state of the server and the network, `model_validate`, and the clock.
pub record Client (W : Type 0) : Type 0 where
  pub send : W → Call → Reply × W
  pub model_validate : Value → Result CreateResult
  pub now_ms : W → ℕ

-- What is seen from outside: a call of the client, or a payment made by the body of a `with`.
pub data Event : Type 0 where
  sent : Call → Event
  charge : Event

-- The server's state, and the events so far in order.
pub record World (W : Type 0) : Type 0 where
  pub server : W
  pub log : List Event

unfoldable pub call : {W : Type 0} → Client W → Call → World W → Reply × World W
call client c w =
    let (reply, server) = client.send w.server c in
    (reply, record { server = server; log = w.log ++ (sent c ∷ []) })
