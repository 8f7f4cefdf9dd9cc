-- ===== src/Examples.antt =====
-- The example gateways under examples/: `S3` is s3/main.go, `PostcatOnly` is postcat-only/main.go.
-- What they share is here: the environment, and callbacks that accept everything.
pub mod S3
pub mod PostcatOnly
use smtp_gateway.Base.{ℕ, ◌*◌, Bool, true, false, Option, none, some, is_nil, if◌then◌else◌, Bytes}
use smtp_gateway.Base.Int.{ℤ, pos}
use smtp_gateway.Response.{Response, rcpt_ok}
use smtp_gateway.Session.{Callback, panicked, returned, Tx, Env}

-- `os.Getenv`, which gives an empty text for a variable that is not set.
abbrev pub Environment : Type 0
Environment = Bytes → Bytes

-- `envDefault`, and the defaults of postcat-only.
unfoldable pub env_default : Environment → Bytes → Bytes → Bytes
env_default getenv key def = let v = getenv key in if is_nil v then def else v

-- `Handler` of gateway.go: the callbacks, over a state of their own.
pub record Handler (W : Type 0) : Type 0 where
  pub hello : W → Tx → Callback × W
  pub mail_from : W → Tx → Callback × W
  pub rcpt_to : W → Tx → Callback × W
  pub receive : W → Tx → Bytes → Callback × W

abbrev pub accept : {W : Type 0} → Response → W → Callback × W
accept r w = (returned (some r), w)

-- `RcptTo` of the examples logs the last recipient, which panics without one.
abbrev pub rcpt_to : {W : Type 0} → W → Tx → Callback × W
rcpt_to w tx = ((if is_nil tx.rcpts then panicked else returned (some rcpt_ok)), w)

-- Durations in nanoseconds.
abbrev pub seconds : ℕ → ℤ
seconds n = pos (n * 1000000000)

-- A server with this handler, and the rest of the world of `net`.
unfoldable pub with_handler : {W : Type 0} → Handler W → Env W → Env W
with_handler h net = record net {
  hello = h.hello;
  mail_from = h.mail_from;
  rcpt_to = h.rcpt_to;
  receive = h.receive;
}
