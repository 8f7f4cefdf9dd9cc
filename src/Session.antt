-- ===== src/Session.antt =====
-- The state of one connection: `Tx`, `connState` and the variables of `handleConn` in smtp.go, with
-- what lies outside the program as `Env`. The children translate the handlers and the loop.
pub mod Calls
pub mod Greeting
pub mod Envelope
pub mod Content
pub mod Loop
pub mod Invariant
pub mod Safety
pub mod Chunks
pub mod Effects
pub mod Ending
pub mod Transaction
use smtp_gateway.Base.{ℕ, Bool, Option, none, List, [], ◌∷◌, if◌then◌else◌, Bytes, length}
use smtp_gateway.Wire.{Stream}
use smtp_gateway.Command.{Params}
use smtp_gateway.Response.{Response}
use smtp_gateway.Server.{Server}

pub record Rejection : Type 0 where
  pub recipient : Bytes
  pub response : Response

-- `TLS` is the negotiated state, of which the program asks only whether it is there: a number
-- stands for it.
pub record Tx : Type 0 where
  pub remote_addr : Bytes
  pub tls : Option ℕ
  pub hostname : Bytes
  pub helo : Bytes
  pub mail_from : Bytes
  pub params : Params
  pub rcpts : List Bytes
  pub accepted : List Bytes
  pub rejected : List Rejection

-- `input` and `buffer` are the reader `r`: what the client will send, and the buffer's size.
pub record Conn : Type 0 where
  pub remote_addr : Bytes
  pub input : Stream
  pub buffer : ℕ
  pub body_buf : Bytes
  pub tls : Option ℕ

-- What a callback does: it returns a response, possibly nil, or it panics.
pub data Callback : Type 0 where
  panicked : Callback
  returned : Option Response → Callback

-- What a client, a handler or the disk can see of a session.
pub data Effect : Type 0 where
  sent : Bytes → Effect
  write_failed : Bytes → Effect
  hello_called : Tx → Callback → Effect
  mail_called : Tx → Callback → Effect
  rcpt_called : Tx → Callback → Effect
  data_called : Tx → Bytes → Callback → Effect
  -- a call of `postcat.Write`
  stored : Bytes → Bytes → List Bytes → Bytes → Effect

-- How a TLS handshake ends: it fails, and the reader has the bytes that it had buffered before its
-- reads fail on the closed connection; or it makes the TLS state, and the reader has what the client
-- sends under TLS.
pub data Handshake : Type 0 where
  refused : Stream → Handshake
  secured : ℕ → Stream → Handshake

-- What lies outside the program: the handler, the network, the TLS library, the disk and the
-- server's context, over a state `W` of their own. They may answer in any way.
pub record Env (W : Type 0) : Type 0 where
  pub hello : W → Tx → Callback × W
  pub mail_from : W → Tx → Callback × W
  pub rcpt_to : W → Tx → Callback × W
  pub receive : W → Tx → Bytes → Callback × W
  -- whether a write reaches the client
  pub write : W → Bytes → Bool × W
  pub handshake : W → Handshake × W
  -- the clock, the random numbers and the disk behind `postcat.Write`, whose error is only logged
  pub store : W → Bytes → Bytes → List Bytes → Bytes → W
  -- whether the worker's `select` takes the branch of the cancelled context
  pub cancelled : W → Bool × W
  -- the Unicode case tables
  pub unicode_upper : Bytes → Bytes

-- The variables of `handleConn`. `closed` says that it has returned; `trace` holds the effects, the
-- newest first.
pub record Session (W : Type 0) : Type 0 where
  pub world : W
  pub conn : Conn
  pub tx : Tx
  pub phase : ℕ
  pub in_bdat : Bool
  pub closed : Bool
  pub trace : List Effect

abbrev pub phase_init : ℕ
phase_init = 0

abbrev pub phase_helo : ℕ
phase_helo = 1

abbrev pub phase_mail : ℕ
phase_mail = 2

abbrev pub phase_rcpt : ℕ
phase_rcpt = 3

-- `newTx`
unfoldable pub new_tx : Server → Conn → Tx
new_tx srv conn = record {
  remote_addr = conn.remote_addr;
  tls = conn.tls;
  hostname = srv.hostname;
  helo = [];
  mail_from = [];
  params = [];
  rcpts = [];
  accepted = [];
  rejected = [];
}

-- `resetTx`
unfoldable pub reset_tx : Server → Conn → Tx → Tx
unfolding new_tx
reset_tx srv conn old = record (new_tx srv conn) { helo = old.helo }

-- `resetBodyBuf`
unfoldable pub reset_body_buf : Conn → Conn
reset_body_buf conn = record conn { body_buf = [] }
