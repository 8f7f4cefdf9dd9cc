-- ===== src/Session/Ending/Envelopes.antt =====
-- The input behind MAIL and RCPT.
use smtp_gateway.Base.{refl, Option, none, some, Bytes, arith}
use smtp_gateway.Server.{Server}
use smtp_gateway.Command.{Params, parse_mail_from, parse_rcpt_to}
use smtp_gateway.Response.{Response}
use smtp_gateway.Session.{Env, Session, Callback, panicked, returned, reset_body_buf}
use smtp_gateway.Session.Calls.{call_mail_from, call_rcpt_to}
use smtp_gateway.Session.Envelope.{
  set_sender, mail_parsed, handle_mail, rcpt_answer, present, handle_rcpt, accept, reject,
}
use smtp_gateway.Session.Ending.{Shrinks, Shrinks-refl}

module _ {W : Type 0} (env : Env W) (srv : Server) where
  abbrev Reads : Session W → Option Response × Session W → Type 0
  Reads st c = Shrinks st c.1

  mail_parsed-Shrinks :
      (o : Option (Bytes × Params)) (st : Session W) → Reads st (mail_parsed env srv o st)
  unfolding mail_parsed call_mail_from set_sender reset_body_buf
  mail_parsed-Shrinks none st = Shrinks-refl env srv st
  mail_parsed-Shrinks (some (from, ps)) st = ground arith

  pub mail-Shrinks : (args : Bytes) (st : Session W) → Reads st (handle_mail env srv args st)
  unfolding handle_mail
  mail-Shrinks args st =
      ground (arith, mail_parsed-Shrinks (parse_mail_from env.unicode_upper args) st)

  rcpt_answer-Shrinks :
      (rcpt : Bytes) (c : Callback) (st : Session W) → Reads st (rcpt_answer env srv rcpt (c, st))
  unfolding rcpt_answer accept reject
  rcpt_answer-Shrinks rcpt panicked st = Shrinks-refl env srv st
  rcpt_answer-Shrinks rcpt (returned none) st = record {
    input = omega arith;
    tls = refl;
    buffer = refl;
  }
  rcpt_answer-Shrinks rcpt (returned (some r)) st = ground arith

  offered-Shrinks :
      (rcpt : Bytes) (st : Session W)
      → Reads st (
          rcpt_answer env srv rcpt
            (call_rcpt_to env (record (present env srv rcpt st) { phase = 3 })))
  unfolding call_rcpt_to present
  offered-Shrinks rcpt st =
      let c : Callback × Session W =
        call_rcpt_to env (record (present env srv rcpt st) { phase = 3 }) in
      let h = rcpt_answer-Shrinks rcpt c.0 c.1 in
      record { input = h.input; tls = h.tls; buffer = h.buffer }

  present-Shrinks : (rcpt : Bytes) (st : Session W) → Shrinks st (present env srv rcpt st)
  unfolding present
  present-Shrinks rcpt st = record { input = omega arith; tls = refl; buffer = refl }

  pub rcpt-Shrinks : (args : Bytes) (st : Session W) → Reads st (handle_rcpt env srv args st)
  unfolding handle_rcpt
  rcpt-Shrinks args st =
      let rcpt = parse_rcpt_to args in
      ground (arith, present-Shrinks rcpt st, offered-Shrinks rcpt st)
