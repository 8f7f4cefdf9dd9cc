-- ===== src/Session/Loop.antt =====
-- The worker loop of `handleConn`, one command at a time. The reader goroutine stops at DATA, BDAT
-- and STARTTLS until the worker has taken what follows them off the connection, so the commands
-- that it reads ahead are those that are read here.
use smtp_gateway.Base.{
  ℕ, zero, suc, Bool, true, false, ◌&&◌, ◌||◌, not, Option, none, some, [], ◌∷◌, ◌++◌,
  if◌then◌else◌, Bytes, codes, equal,
}
use smtp_gateway.Wire.{LineResult, line, line_too_long, line_error, read_line}
use smtp_gateway.Command.{split_verb}
use smtp_gateway.Response.{Response, string, is_ok, data_ok, goodbye, vrfy_disabled, bad_seq}
use smtp_gateway.Server.{Server}
use smtp_gateway.Session.{
  Tx, Conn, Env, Session, phase_init, phase_helo, phase_mail, new_tx, reset_tx, reset_body_buf,
}
use smtp_gateway.Session.Calls.{write}
use smtp_gateway.Session.Greeting.{reply, handle_greeting, handle_starttls}
use smtp_gateway.Session.Envelope.{handle_mail, handle_rcpt}
use smtp_gateway.Session.Content.{with_input, handle_data, handle_bdat}

-- The verbs that `handleConn` tells apart.
pub data Verb : Type 0 where
  helo ehlo starttls mail rcpt data_verb bdat rset noop help vrfy expn quit unknown : Verb

unfoldable pub verb_of : Bytes → Verb
unfolding equal
verb_of v =
    if equal v (codes "HELO")
    then helo
    else if equal v (codes "EHLO")
    then ehlo
    else if equal v (codes "STARTTLS")
    then starttls
    else if equal v (codes "MAIL")
    then mail
    else if equal v (codes "RCPT")
    then rcpt
    else if equal v (codes "DATA")
    then data_verb
    else if equal v (codes "BDAT")
    then bdat
    else if equal v (codes "RSET")
    then rset
    else if equal v (codes "NOOP")
    then noop
    else if equal v (codes "HELP")
    then help
    else if equal v (codes "VRFY")
    then vrfy
    else if equal v (codes "EXPN")
    then expn
    else if equal v (codes "QUIT")
    then quit
    else unknown

-- `isAllowedDuringBdat`
unfoldable pub is_allowed_during_bdat : Verb → Bool
is_allowed_during_bdat bdat = true
is_allowed_during_bdat rset = true
is_allowed_during_bdat noop = true
is_allowed_during_bdat quit = true
is_allowed_during_bdat _ = false

-- `smtpCmd`
pub data Command : Type 0 where
  command : Verb → Bytes → Command
  too_long : Command

module _ {W : Type 0} (env : Env W) (srv : Server) where
  -- `tx = s.resetTx(conn, tx)` with `conn.resetBodyBuf()` and a new phase.
  unfoldable pub end_transaction : ℕ → Session W → Session W
  unfolding reset_tx reset_body_buf
  end_transaction phase st = record st {
    tx = reset_tx srv st.conn st.tx;
    conn = reset_body_buf st.conn;
    phase = phase;
  }

  -- The BDAT sequence and its transaction are abandoned.
  unfoldable pub abandon : Session W → Session W
  abandon st = record (end_transaction phase_helo st) { in_bdat = false }

  -- `if next != nil` behind a greeting or STARTTLS.
  unfoldable pub adopt : ℕ → Option Tx → Session W → Session W
  unfolding reset_body_buf
  adopt phase none st = st
  adopt phase (some next) st = record st {
    tx = next;
    phase = phase;
    in_bdat = false;
    conn = reset_body_buf st.conn;
  }

  abbrev pub greeted : ℕ → (Option Response × Option Tx) × Session W → Option Response × Session W
  greeted phase ((r, next), st) = (r, adopt phase next st)

  abbrev pub advance_mail : Option Response × Session W → Option Response × Session W
  advance_mail (none, st) = (none, st)
  advance_mail (some r, st) = (some r, if is_ok r then record st { phase = phase_mail } else st)

  abbrev pub ended_data : Option Response × Session W → Option Response × Session W
  ended_data (none, st) = (none, st)
  ended_data (some r, st) = (some r, end_transaction phase_helo st)

  abbrev pub ended_bdat : (Option Response × Bool) × Session W → Option Response × Session W
  ended_bdat ((none, ended), st) = (none, st)
  ended_bdat ((some r, ended), st) =
      (some r, if ended || not (is_ok r) then end_transaction phase_helo st else st)

  -- The inner `switch`.
  unfoldable pub dispatch : Verb → Bytes → Session W → Option Response × Session W
  dispatch helo args st = greeted phase_helo (handle_greeting env srv args false st)
  dispatch ehlo args st = greeted phase_helo (handle_greeting env srv args true st)
  dispatch starttls args st = greeted phase_init (handle_starttls env srv st)
  dispatch mail args st = advance_mail (handle_mail env srv args st)
  dispatch rcpt args st = handle_rcpt env srv args st
  dispatch data_verb args st = ended_data (handle_data env srv st)
  dispatch bdat args st = ended_bdat (handle_bdat env srv args st)
  dispatch rset args st = (some data_ok, record (end_transaction phase_init st) { in_bdat = false })
  dispatch noop args st = (some data_ok, st)
  dispatch help args st =
      (reply 214 (codes "2.0.0 HELO EHLO MAIL RCPT DATA BDAT RSET NOOP VRFY EXPN QUIT"), st)
  dispatch vrfy args st = (some vrfy_disabled, st)
  dispatch expn args st = (some vrfy_disabled, st)
  dispatch quit args st =
      let (ok, st') = write env (string goodbye) st in (none, record st' { closed = true })
  dispatch unknown args st = (reply 500 (codes "5.5.1 Command not recognised"), st)

  -- The outer `switch`.
  unfoldable pub process : Command → Session W → Option Response × Session W
  process too_long st =
      (reply 500 (codes "5.5.2 Line too long"), if st.in_bdat then abandon st else st)
  process (command v args) st =
      if st.in_bdat && not (is_allowed_during_bdat v)
      then (some bad_seq, abandon st)
      else dispatch v args st

  -- The reply to a command; the session ends if it cannot be written.
  unfoldable pub answer : Option Response × Session W → Session W
  answer (none, st) = st
  answer (some r, st) =
      let (ok, st') = write env (string r) st in if ok then st' else record st' { closed = true }

  -- `readCommands`: the next command, or `none` at the end of the connection.
  unfoldable pub command_of : LineResult → Option Command
  command_of (line_error e) = none
  command_of line_too_long = some too_long
  command_of (line l) =
      let (v, args) = split_verb env.unicode_upper l in some (command (verb_of v) args)

  -- The end of the events, or a command.
  unfoldable pub turn : Option Command → Session W → Session W
  turn none st = record st { closed = true }
  turn (some c) st = answer (process c st)

  -- The branch of the cancelled context.
  unfoldable pub shut_down : Session W → Session W
  shut_down st =
      let text = codes "421 4.3.0 Service shutting down" ++ b'\r' ∷ b'\n' ∷ [] in
      record (write env text st).1 { closed = true }

  -- The branch of the next command.
  unfoldable pub listen : Session W → Session W
  listen st =
      let (r, s) = read_line st.conn.buffer st.conn.input in
      turn (command_of r) (with_input env srv s st)

  unfoldable pub round : Session W → Session W
  round st =
      let (stop, w) = env.cancelled st.world in
      let st' = record st { world = w } in if stop then shut_down st' else listen st'

  -- So many rounds, unless `handleConn` returns before.
  unfoldable pub serve : ℕ → Session W → Session W
  serve zero st = st
  serve (suc n) st = let next = serve n (round st) in if st.closed then st else next

  -- `handleConn` up to the loop: the banner, and the first transaction.
  unfoldable pub start : W → Conn → Session W
  unfolding write new_tx
  start w conn =
      let st : Session W = record {
        world = w;
        conn = conn;
        tx = new_tx srv conn;
        phase = phase_init;
        in_bdat = false;
        closed = false;
        trace = [];
      } in
      let (ok, st') =
        write env (codes "220 " ++ (srv.hostname ++ (codes " ESMTP" ++ b'\r' ∷ b'\n' ∷ []))) st in
      if ok then st' else record st' { closed = true }
