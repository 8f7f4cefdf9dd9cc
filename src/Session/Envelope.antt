-- ===== src/Session/Envelope.antt =====
-- `handleMail` and `handleRcpt` of smtp.go. They change the transaction that `tx` points to.
use smtp_gateway.Base.{
  ◌&&◌, ◌||◌, not, Option, none, some, [], ◌∷◌, ◌++◌, is_nil, length, ltb, leb, if◌then◌else◌,
  Bytes, codes,
}
use smtp_gateway.Base.Int.{ℤ, pos, negsuc, is_positive, ltb_ℤ, over_limit}
use smtp_gateway.Text.Number.{parse_int}
use smtp_gateway.Command.{Params, get_param, contains_control, parse_mail_from, parse_rcpt_to}
use smtp_gateway.Response.{Response, is_ok, bad_seq, message_size}
use smtp_gateway.Server.{Server}
use smtp_gateway.Session.{
  Callback, panicked, returned, Env, Session, phase_mail, phase_rcpt, reset_body_buf,
}
use smtp_gateway.Session.Calls.{call_mail_from, call_rcpt_to, or_bad_seq}
use smtp_gateway.Session.Greeting.{is_some, reply}

-- The `SIZE` parameter against the limit: the response that refuses it, if any.
unfoldable pub size_number : ℤ → Option ℤ → Option Response
size_number max none = reply 501 (codes "5.5.4 Bad SIZE parameter")
size_number max (some (negsuc n)) = reply 501 (codes "5.5.4 Bad SIZE parameter")
size_number max (some (pos n)) = if ltb_ℤ max (pos n) then some message_size else none

unfoldable pub size_check : ℤ → Params → Option Response
size_check max ps =
    if is_positive max
    then (elim (get_param (codes "SIZE") ps) [
      | none ↦ none
      | some text ↦ size_number max (parse_int text)
    ])
    else none

module _ {W : Type 0} (env : Env W) (srv : Server) where
  -- `handleMail` behind its parser.
  unfoldable pub set_sender : Bytes → Params → Session W → Session W
  unfolding reset_body_buf
  set_sender from ps st = record st {
    tx = record st.tx { mail_from = from; params = ps; rcpts = []; accepted = []; rejected = [] };
    conn = reset_body_buf st.conn;
  }

  abbrev pub answer : Callback × Session W → Option Response × Session W
  answer (r, st) = (or_bad_seq r, st)

  unfoldable pub mail_parsed : Option (Bytes × Params) → Session W → Option Response × Session W
  mail_parsed none st = (reply 501 (codes "5.5.4 Bad MAIL FROM syntax"), st)
  mail_parsed (some (from, ps)) st =
      let st' = set_sender from ps st in
      elim (size_check srv.max_message_size ps) [
        | some refusal ↦ (some refusal, st')
        | none ↦ answer (call_mail_from env st')
      ]

  unfoldable pub handle_mail : Bytes → Session W → Option Response × Session W
  handle_mail args st =
      if srv.require_tls && not (is_some st.conn.tls)
      then (reply 530 (codes "5.7.0 STARTTLS required first"), st)
      else if is_nil st.tx.helo
      then (reply 503 (codes "5.5.1 EHLO required first"), st)
      else if leb phase_mail st.phase
      then (reply 503 (codes "5.5.1 MAIL already sent"), st)
      else mail_parsed (parse_mail_from env.unicode_upper args) st

  -- `handleRcpt` behind its callback: the recipient is accepted or rejected.
  unfoldable pub accept : Bytes → Session W → Session W
  accept rcpt st = record st { tx = record st.tx { accepted = st.tx.accepted ++ rcpt ∷ [] } }

  unfoldable pub reject : Bytes → Response → Session W → Session W
  reject rcpt r st = record st {
    tx = record st.tx {
      rejected = st.tx.rejected ++ (record { recipient = rcpt; response = r }) ∷ [];
    };
  }

  unfoldable pub rcpt_answer : Bytes → Callback × Session W → Option Response × Session W
  unfolding accept reject
  rcpt_answer rcpt (panicked, st) = (none, st)
  rcpt_answer rcpt (returned none, st) = (some bad_seq, reject rcpt bad_seq st)
  rcpt_answer rcpt (returned (some r), st) =
      (some r, if is_ok r then accept rcpt st else reject rcpt r st)

  unfoldable pub present : Bytes → Session W → Session W
  present rcpt st = record st { tx = record st.tx { rcpts = st.tx.rcpts ++ rcpt ∷ [] } }

  unfoldable pub handle_rcpt : Bytes → Session W → Option Response × Session W
  handle_rcpt args st =
      if is_nil st.tx.helo
      then (reply 503 (codes "5.5.1 EHLO required first"), st)
      else if ltb st.phase phase_mail
      then (reply 503 (codes "5.5.1 MAIL required first"), st)
      else (let rcpt = parse_rcpt_to args in
          if ltb 320 (length rcpt) || contains_control rcpt
          then (reply 501 (codes "5.5.2 Invalid recipient address"), st)
          else (let st' = present rcpt st in
              if over_limit srv.max_recipients (pos (length st'.tx.rcpts))
              then (reply 452 (codes "4.5.3 Too many recipients"), st')
              else rcpt_answer rcpt (call_rcpt_to env (record st' { phase = phase_rcpt }))))
