-- ===== src/Session/Invariant/Rounds.antt =====
-- The invariant over a round of the worker loop.
use smtp_gateway.Base.{
  ℕ, zero, suc, ◌<◌, ◌≡◌, not, ◌&&◌, Bool, true, false, Bytes, Option, none, some, arith, [], ◌∷◌,
  ◌++◌, codes, if◌then◌else◌,
}
use smtp_gateway.Server.{Server}
use smtp_gateway.Command.Address.{empty-IsPath}
use smtp_gateway.Wire.{read_line}
use smtp_gateway.Response.{Response, string, goodbye}
use smtp_gateway.Session.{Env, Session, Conn}
use smtp_gateway.Session.Content.{with_input}
use smtp_gateway.Session.Loop.{
  Verb, helo, ehlo, starttls, mail, rcpt, data_verb, bdat, rset, noop, help, vrfy, expn, quit,
  unknown, Command, command, too_long, is_allowed_during_bdat, end_transaction, abandon, dispatch,
  process, answer, command_of, turn, shut_down, listen, round, serve, start,
}
use smtp_gateway.Session.Invariant.{Inv, empty-fits}
use smtp_gateway.Session.Invariant.Greetings.{
  write-Inv, adopt-Inv, handle_greeting-Greeted, starttls-Inv, mail-Inv,
}
use smtp_gateway.Session.Invariant.Recipients.{rcpt-Inv}
use smtp_gateway.Session.Invariant.Contents.{data-Inv}
use smtp_gateway.Session.Invariant.Contents.Chunks.{bdat-Inv}

module _ {W : Type 0} (env : Env W) (srv : Server) where
  greeted-Inv :
      (args : Bytes) (extended : Bool) (st : Session W)
      → Inv srv st
      → Inv srv (dispatch env srv (if extended then ehlo else helo) args st).1
  unfolding dispatch
  greeted-Inv args false st h =
      let (kept, fresh) = handle_greeting-Greeted env srv args false st h in
      adopt-Inv env srv 1 _ _ (omega arith) kept fresh
  greeted-Inv args true st h =
      let (kept, fresh) = handle_greeting-Greeted env srv args true st h in
      adopt-Inv env srv 1 _ _ (omega arith) kept fresh

  quit-Inv :
      (args : Bytes) (st : Session W) → Inv srv st → Inv srv (dispatch env srv quit args st).1
  unfolding dispatch
  quit-Inv args st h = ground (arith, write-Inv env srv (string goodbye) st h)

  dispatch-Inv :
      (v : Verb) (args : Bytes) (st : Session W)
      → (st.in_bdat && not (is_allowed_during_bdat v)) ≡ false
      → Inv srv st
      → Inv srv (dispatch env srv v args st).1
  unfolding dispatch
  dispatch-Inv helo args st q h = greeted-Inv args false st h
  dispatch-Inv ehlo args st q h = greeted-Inv args true st h
  dispatch-Inv starttls args st q h = starttls-Inv env srv st h
  dispatch-Inv mail args st q h = mail-Inv env srv args st h
  dispatch-Inv rcpt args st q h = rcpt-Inv env srv args st h
  dispatch-Inv data_verb args st q h =
      data-Inv env srv st (unfold is_allowed_during_bdat in ground arith) h
  dispatch-Inv bdat args st q h = bdat-Inv env srv args st h
  dispatch-Inv rset args st q h =
      unfold end_transaction in ground (arith, empty-IsPath, empty-fits srv.max_message_size)
  dispatch-Inv noop args st q h = h
  dispatch-Inv help args st q h = h
  dispatch-Inv vrfy args st q h = h
  dispatch-Inv expn args st q h = h
  dispatch-Inv quit args st q h = quit-Inv args st h
  dispatch-Inv unknown args st q h = h

  abandon-Inv : (st : Session W) → Inv srv st → Inv srv (abandon env srv st)
  unfolding abandon end_transaction
  abandon-Inv st h = ground (arith, empty-IsPath, empty-fits srv.max_message_size)

  pub process-Inv : (c : Command) (st : Session W) → Inv srv st → Inv srv (process env srv c st).1
  unfolding process
  process-Inv too_long st h = ground (arith, abandon-Inv st h)
  process-Inv (command v args) st h = ground (arith, abandon-Inv st h, dispatch-Inv v args st)

  pub answer-Inv :
      (r : Option Response) (st : Session W) → Inv srv st → Inv srv (answer env srv (r, st))
  unfolding answer
  answer-Inv none st h = h
  answer-Inv (some r) st h = ground (arith, write-Inv env srv (string r) st h)

  turn-Inv : (o : Option Command) (st : Session W) → Inv srv st → Inv srv (turn env srv o st)
  unfolding turn
  turn-Inv none st h = ground arith
  turn-Inv (some c) st h =
      answer-Inv (process env srv c st).0 (process env srv c st).1 (process-Inv c st h)

  pub shut_down-Inv : (st : Session W) → Inv srv st → Inv srv (shut_down env srv st)
  unfolding shut_down
  shut_down-Inv st h = ground (
    arith,
    write-Inv env srv (codes "421 4.3.0 Service shutting down" ++ b'\r' ∷ b'\n' ∷ []) st h,
  )

  listen-Inv : (st : Session W) → Inv srv st → Inv srv (listen env srv st)
  unfolding listen
  listen-Inv st h =
      let (r, s) = read_line st.conn.buffer st.conn.input in
      turn-Inv (command_of env srv r) (with_input env srv s st) (ground arith)

  -- One round, from any session that satisfies the invariant.
  pub round-Inv : (st : Session W) → Inv srv st → Inv srv (round env srv st)
  unfolding round
  round-Inv st h =
      let st' : Session W = record st { world = (env.cancelled st.world).1 } in
      let h' : Inv srv st' = ground arith in ground (arith, shut_down-Inv st' h', listen-Inv st' h')

  -- Any number of rounds.
  pub serve-Inv : (n : ℕ) (st : Session W) → Inv srv st → Inv srv (serve env srv n st)
  unfolding serve
  serve-Inv zero st h = h
  serve-Inv (suc n) st h = ground (arith, serve-Inv n (round env srv st) (round-Inv st h))

  pub start-Inv :
      (w : W) (conn : Conn) → 0 < conn.buffer → conn.body_buf ≡ [] → Inv srv (start env srv w conn)
  unfolding start
  start-Inv w conn p e = ground (arith, empty-IsPath, empty-fits srv.max_message_size)
