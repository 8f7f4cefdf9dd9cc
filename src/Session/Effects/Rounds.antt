-- ===== src/Session/Effects/Rounds.antt =====
-- The same for the worker loop: `handleConn` of smtp.go.
use smtp_gateway.Base.{
  ℕ, Bool, true, false, Option, none, some, List, [], ◌∷◌, ◌++◌, Bytes, codes, arith,
}
use smtp_gateway.Response.{Response, string, goodbye}
use smtp_gateway.Server.{Server}
use smtp_gateway.Session.{Effect, Env, Session, Conn, Tx, phase_helo, phase_init}
use smtp_gateway.Session.Calls.{write}
use smtp_gateway.Session.Greeting.{handle_greeting, handle_starttls}
use smtp_gateway.Session.Envelope.{handle_mail}
use smtp_gateway.Session.Content.{handle_data, handle_bdat}
use smtp_gateway.Session.Loop.{
  Verb, helo, ehlo, starttls, mail, rcpt, data_verb, bdat, rset, noop, help, vrfy, expn, quit,
  unknown, Command, command, too_long, end_transaction, abandon, adopt, greeted, advance_mail,
  ended_data, ended_bdat, dispatch, process, answer, shut_down, start,
}
use smtp_gateway.Session.Effects.{
  Closed, At, write-At, handle_greeting-At, handle_starttls-At, handle_mail-At, handle_rcpt-At,
  handle_data-At, handle_bdat-At,
}

module _ {W : Type 0} (env : Env W) (srv : Server) (D : W → List Effect → Type 0)
    (k : Closed env D) where
  abbrev Here : Session W → Type 0
  Here st = At env srv D k st

  end-Here : (phase : ℕ) (st : Session W) → Here st → Here (end_transaction env srv phase st)
  unfolding end_transaction
  end-Here phase st h = h

  abandon-Here : (st : Session W) → Here st → Here (abandon env srv st)
  unfolding abandon
  abandon-Here st h = end-Here phase_helo st h

  adopt-Here :
      (phase : ℕ) (o : Option Tx) (st : Session W) → Here st → Here (adopt env srv phase o st)
  unfolding adopt
  adopt-Here phase none st h = h
  adopt-Here phase (some next) st h = h

  greeted-Here :
      (phase : ℕ) (r : (Option Response × Option Tx) × Session W)
      → Here r.1
      → Here (greeted env srv phase r).1
  greeted-Here phase ((o, next), st) h = adopt-Here phase next st h

  advance-Here : (r : Option Response × Session W) → Here r.1 → Here (advance_mail env srv r).1
  advance-Here (none, st) h = h
  advance-Here (some r, st) h = ground arith

  ended_data-Here : (r : Option Response × Session W) → Here r.1 → Here (ended_data env srv r).1
  ended_data-Here (none, st) h = h
  ended_data-Here (some r, st) h = end-Here phase_helo st h

  ended_bdat-Here :
      (r : (Option Response × Bool) × Session W) → Here r.1 → Here (ended_bdat env srv r).1
  ended_bdat-Here ((none, ended), st) h = h
  ended_bdat-Here ((some r, ended), st) h = ground (arith, end-Here phase_helo st h)

  dispatch-Here :
      (v : Verb) (args : Bytes) (st : Session W) → Here st → Here (dispatch env srv v args st).1
  unfolding dispatch
  dispatch-Here helo args st h =
      greeted-Here phase_helo (handle_greeting env srv args false st)
        (handle_greeting-At env srv D k args false st h)
  dispatch-Here ehlo args st h =
      greeted-Here phase_helo (handle_greeting env srv args true st)
        (handle_greeting-At env srv D k args true st h)
  dispatch-Here starttls args st h =
      greeted-Here phase_init (handle_starttls env srv st) (handle_starttls-At env srv D k st h)
  dispatch-Here mail args st h =
      advance-Here (handle_mail env srv args st) (handle_mail-At env srv D k args st h)
  dispatch-Here rcpt args st h = handle_rcpt-At env srv D k args st h
  dispatch-Here data_verb args st h =
      ended_data-Here (handle_data env srv st) (handle_data-At env srv D k st h)
  dispatch-Here bdat args st h =
      ended_bdat-Here (handle_bdat env srv args st) (handle_bdat-At env srv D k args st h)
  dispatch-Here rset args st h = end-Here phase_init st h
  dispatch-Here noop args st h = h
  dispatch-Here help args st h = h
  dispatch-Here vrfy args st h = h
  dispatch-Here expn args st h = h
  dispatch-Here quit args st h = write-At env srv D k (string goodbye) st h
  dispatch-Here unknown args st h = h

  pub process-Here : (c : Command) (st : Session W) → Here st → Here (process env srv c st).1
  unfolding process
  process-Here too_long st h = ground (arith, abandon-Here st h)
  process-Here (command v args) st h = ground (arith, abandon-Here st h, dispatch-Here v args st h)

  pub answer-Here : (o : Option Response) (st : Session W) → Here st → Here (answer env srv (o, st))
  unfolding answer
  answer-Here none st h = h
  answer-Here (some r) st h = ground (arith, write-At env srv D k (string r) st h)

  pub shut_down-Here : (st : Session W) → Here st → Here (shut_down env srv st)
  unfolding shut_down
  shut_down-Here st h =
      write-At env srv D k (codes "421 4.3.0 Service shutting down" ++ b'\r' ∷ b'\n' ∷ []) st h

  pub start-Here : (w : W) (conn : Conn) → D w [] → Here (start env srv w conn)
  unfolding start write
  start-Here w conn h = ground (
    arith,
    k.write w [] (codes "220 " ++ (srv.hostname ++ (codes " ESMTP" ++ b'\r' ∷ b'\n' ∷ []))) h,
  )
