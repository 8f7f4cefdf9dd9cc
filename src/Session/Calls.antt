-- ===== src/Session/Calls.antt =====
-- The calls out of a session: `conn.write`, the four callbacks, and `writePostcat`.
use smtp_gateway.Base.{Bool, true, Option, none, some, ◌∷◌, is_nil, if◌then◌else◌, Bytes}
use smtp_gateway.Response.{Response, bad_seq}
use smtp_gateway.Server.{Server}
use smtp_gateway.Session.{
  Tx, Callback, panicked, returned, sent, write_failed, hello_called, mail_called, rcpt_called,
  data_called, stored, Env, Session,
}

module _ {W : Type 0} (env : Env W) where
  -- `conn.write`: whether it succeeded.
  unfoldable pub write : Bytes → Session W → Bool × Session W
  write text st =
      let (ok, w) = env.write st.world text in
      (
        ok,
        record st { world = w; trace = (if ok then sent text else write_failed text) ∷ st.trace },
      )

  -- A panic ends `handleConn`.
  abbrev pub after_call : Callback → Bool → Bool
  after_call panicked closed = true
  after_call (returned r) closed = closed

  unfoldable pub call_hello : Tx → Session W → Callback × Session W
  call_hello tx st =
      let (r, w) = env.hello st.world tx in
      (
        r,
        record st {
          world = w;
          closed = after_call r st.closed;
          trace = hello_called tx r ∷ st.trace;
        },
      )

  unfoldable pub call_mail_from : Session W → Callback × Session W
  call_mail_from st =
      let (r, w) = env.mail_from st.world st.tx in
      (
        r,
        record st {
          world = w;
          closed = after_call r st.closed;
          trace = mail_called st.tx r ∷ st.trace;
        },
      )

  unfoldable pub call_rcpt_to : Session W → Callback × Session W
  call_rcpt_to st =
      let (r, w) = env.rcpt_to st.world st.tx in
      (
        r,
        record st {
          world = w;
          closed = after_call r st.closed;
          trace = rcpt_called st.tx r ∷ st.trace;
        },
      )

  unfoldable pub call_data : Bytes → Session W → Callback × Session W
  call_data body st =
      let (r, w) = env.receive st.world st.tx body in
      (
        r,
        record st {
          world = w;
          closed = after_call r st.closed;
          trace = data_called st.tx body r ∷ st.trace;
        },
      )

  -- `writePostcat`
  unfoldable pub write_postcat : Server → Bytes → Session W → Session W
  write_postcat srv body st = if is_nil srv.postcat_dir then st else record st {
    world = env.store st.world srv.postcat_dir st.tx.mail_from st.tx.accepted body;
    trace = stored srv.postcat_dir st.tx.mail_from st.tx.accepted body ∷ st.trace;
  }

-- A nil response is `RespBadSeq`; after a panic there is none.
abbrev pub or_bad_seq : Callback → Option Response
or_bad_seq panicked = none
or_bad_seq (returned none) = some bad_seq
or_bad_seq (returned (some r)) = some r
