-- ===== src/Session/Effects.antt =====
-- A session changes the world outside, and adds to its effects, only by the calls of `Env`: what each
-- call keeps, every handler of smtp.go keeps.
pub mod Rounds
use smtp_gateway.Base.{
  ℕ, zero, suc, ◌≡◌, refl, Bool, true, false, Option, none, some, List, [], ◌∷◌, ◌++◌, is_nil,
  Bytes, codes, if◌then◌else◌, arith,
}
use smtp_gateway.Wire.{Stream, read_line}
use smtp_gateway.Wire.Body.{BodyResult, body, too_large, failed, read_dot_unstuffed}
use smtp_gateway.Wire.Body
use smtp_gateway.Wire.Chunk.{ChunkResult, chunk, chunk_too_big, chunk_error, read_n_bytes, discard}
use smtp_gateway.Command.{Params, parse_mail_from, parse_rcpt_to, parse_bdat_args}
use smtp_gateway.Response.{Response, string, start_mail, goodbye}
use smtp_gateway.Server.{Server}
use smtp_gateway.Session.{
  Callback, panicked, returned, Effect, sent, write_failed, hello_called, mail_called, rcpt_called,
  data_called, stored, Env, Session, Conn, Tx, Handshake, secured, refused, new_tx, reset_tx,
  reset_body_buf,
}
use smtp_gateway.Session.Calls.{
  write, call_hello, call_mail_from, call_rcpt_to, call_data, write_postcat,
}
use smtp_gateway.Session.Greeting.{
  write_lines, extensions, eol, greet, greeting_answer, handle_greeting, starttls_answer, begin_tls,
  ready_to_start, handle_starttls, upgrade_to_tls,
}
use smtp_gateway.Session.Envelope.{
  size_check, set_sender, mail_parsed, handle_mail, accept, reject, rcpt_answer, present,
  handle_rcpt,
}
use smtp_gateway.Session.Content.{
  data_answer, with_input, data_read, data_started, handle_data, leave_bdat, discard_chunk,
  bdat_last, bdat_read, bdat_parsed, handle_bdat,
}
use smtp_gateway.Session.Loop
use smtp_gateway.Session.Loop.{
  Verb, Command, command, end_transaction, abandon, adopt, greeted, advance_mail, ended_data,
  ended_bdat, dispatch, process, answer, shut_down, start,
}

-- What each call keeps, of the world and the effects so far.
pub record Closed {W : Type 0} (env : Env W) (D : W → List Effect → Type 0) : Type 0 where
  pub write :
      (w : W) (es : List Effect) (text : Bytes)
      → D w es
      → D
          (env.write w text).1
          ((if (env.write w text).0 then sent text else write_failed text) ∷ es)
  pub hello :
      (w : W) (es : List Effect) (tx : Tx)
      → D w es
      → D (env.hello w tx).1 (hello_called tx (env.hello w tx).0 ∷ es)
  pub mail_from :
      (w : W) (es : List Effect) (tx : Tx)
      → D w es
      → D (env.mail_from w tx).1 (mail_called tx (env.mail_from w tx).0 ∷ es)
  pub rcpt_to :
      (w : W) (es : List Effect) (tx : Tx)
      → D w es
      → D (env.rcpt_to w tx).1 (rcpt_called tx (env.rcpt_to w tx).0 ∷ es)
  pub receive :
      (w : W) (es : List Effect) (tx : Tx) (b : Bytes)
      → D w es
      → D (env.receive w tx b).1 (data_called tx b (env.receive w tx b).0 ∷ es)
  pub handshake : (w : W) (es : List Effect) → D w es → D (env.handshake w).1 es
  pub store :
      (w : W) (es : List Effect) (dir from : Bytes) (to : List Bytes) (b : Bytes)
      → D w es
      → D (env.store w dir from to b) (stored dir from to b ∷ es)
  pub cancelled : (w : W) (es : List Effect) → D w es → D (env.cancelled w).1 es

module _ {W : Type 0} (env : Env W) (srv : Server) (D : W → List Effect → Type 0)
    (k : Closed env D) where
  abbrev pub At : Session W → Type 0
  At st = D st.world st.trace

  pub write-At : (text : Bytes) (st : Session W) → At st → At (write env text st).1
  unfolding write
  write-At text st h = k.write st.world st.trace text h

  if-At :
      {A : Type 0} (c : Bool) (x y : A × Session W) → At x.1 → At y.1 → At (if c then x else y).1
  if-At true x y h g = h
  if-At false x y h g = g

  write_lines-At : (ls : List Bytes) (st : Session W) → At st → At (write_lines env srv ls st).1
  unfolding write_lines
  write_lines-At [] st h = h
  write_lines-At (l ∷ []) st h = write-At (codes "250 " ++ (l ++ eol)) st h
  write_lines-At (l ∷ m ∷ ls) st h =
      let w : Bool × Session W = write env (codes "250-" ++ (l ++ eol)) st in
      let h' : At w.1 = write-At (codes "250-" ++ (l ++ eol)) st h in
      if-At w.0 (write_lines env srv (m ∷ ls) w.1) (false, w.1) (write_lines-At (m ∷ ls) w.1 h') h'

  greeting_answer-At :
      (extended : Bool) (next : Tx) (r : Callback × Session W)
      → At r.1
      → At (greeting_answer env srv extended next r).1
  unfolding greeting_answer greet
  greeting_answer-At extended next (panicked, st) h = h
  greeting_answer-At extended next (returned none, st) h = h
  greeting_answer-At extended next (returned (some r), st) h =
      ground (arith, write_lines-At (extensions srv st.conn next) st)

  pub handle_greeting-At :
      (args : Bytes) (extended : Bool) (st : Session W)
      → At st
      → At (handle_greeting env srv args extended st).1
  unfolding handle_greeting call_hello
  handle_greeting-At args extended st h =
      let next : Tx = record (new_tx srv st.conn) { helo = args } in
      ground (
        arith,
        greeting_answer-At extended next (call_hello env next st)
            (k.hello st.world st.trace next h),
      )

  begin_tls-At : (r : Bool × Session W) → At r.1 → At (begin_tls env srv r).1
  unfolding begin_tls starttls_answer
  begin_tls-At (false, st) h = h
  begin_tls-At (true, st) h = ground (arith, k.handshake st.world st.trace h)

  pub handle_starttls-At : (st : Session W) → At st → At (handle_starttls env srv st).1
  unfolding handle_starttls
  handle_starttls-At st h =
      let text : Bytes = ready_to_start env srv in
      ground (arith, begin_tls-At (write env text st) (write-At text st h))

  mail_parsed-At :
      (o : Option (Bytes × Params)) (st : Session W) → At st → At (mail_parsed env srv o st).1
  unfolding mail_parsed set_sender call_mail_from
  mail_parsed-At none st h = h
  mail_parsed-At (some (from, ps)) st h =
      ground (arith, k.mail_from st.world st.trace (set_sender env srv from ps st).tx h)

  pub handle_mail-At : (args : Bytes) (st : Session W) → At st → At (handle_mail env srv args st).1
  unfolding handle_mail
  handle_mail-At args st h =
      ground (arith, mail_parsed-At (parse_mail_from env.unicode_upper args) st h)

  rcpt_answer-At :
      (to : Bytes) (r : Callback × Session W) → At r.1 → At (rcpt_answer env srv to r).1
  unfolding rcpt_answer accept reject
  rcpt_answer-At to (panicked, st) h = h
  rcpt_answer-At to (returned none, st) h = h
  rcpt_answer-At to (returned (some r), st) h = ground arith

  pub handle_rcpt-At : (args : Bytes) (st : Session W) → At st → At (handle_rcpt env srv args st).1
  unfolding handle_rcpt present call_rcpt_to
  handle_rcpt-At args st h =
      let to : Bytes = parse_rcpt_to args in
      let st' : Session W = record (present env srv to st) { phase = 3 } in
      ground
        (arith, rcpt_answer-At to (call_rcpt_to env st') (k.rcpt_to st.world st.trace st'.tx h))

  data_answer-At : (b : Bytes) (r : Callback × Session W) → At r.1 → At (data_answer env srv b r).1
  unfolding data_answer write_postcat
  data_answer-At b (panicked, st) h = h
  data_answer-At b (returned none, st) h = h
  data_answer-At b (returned (some r), st) h =
      ground (arith, k.store st.world st.trace srv.postcat_dir st.tx.mail_from st.tx.accepted b h)

  call_data-At : (b : Bytes) (st : Session W) → At st → At (call_data env b st).1
  unfolding call_data
  call_data-At b st h = k.receive st.world st.trace st.tx b h

  data_read-At : (r : BodyResult) (st : Session W) → At st → At (data_read env srv r st).1
  unfolding data_read
  data_read-At Body.too_long st h = h
  data_read-At too_large st h = h
  data_read-At (failed e) st h = h
  data_read-At (body b) st h =
      ground (arith, data_answer-At b (call_data env b st) (call_data-At b st h))

  data_started-At : (r : Bool × Session W) → At r.1 → At (data_started env srv r).1
  unfolding data_started
  data_started-At (false, st) h = h
  data_started-At (true, st) h =
      let (r, s) = read_dot_unstuffed st.conn.buffer srv.max_message_size st.conn.input in
      data_read-At r (with_input env srv s st) h

  pub handle_data-At : (st : Session W) → At st → At (handle_data env srv st).1
  unfolding handle_data
  handle_data-At st h =
      let text : Bytes = string start_mail in
      ground (arith, data_started-At (write env text st) (write-At text st h))

  bdat_last-At : (st : Session W) → At st → At (bdat_last env srv st).1
  unfolding bdat_last
  bdat_last-At st h =
      let st' : Session W = record st { in_bdat = false } in
      let b : Bytes = st.conn.body_buf in
      unfold reset_body_buf in data_answer-At b (call_data env b st') (call_data-At b st' h)

  bdat_read-At :
      (r : ChunkResult) (last : Bool) (st : Session W) → At st → At (bdat_read env srv r last st).1
  unfolding bdat_read leave_bdat
  bdat_read-At chunk_too_big last st h = h
  bdat_read-At (chunk_error e) last st h = h
  bdat_read-At (chunk b) last st h =
      let st' : Session W = record st {
        conn = record st.conn { body_buf = st.conn.body_buf ++ b };
      } in
      ground (arith, bdat_last-At st' h)

  bdat_parsed-At :
      (o : Option (ℕ × Bool)) (st : Session W) → At st → At (bdat_parsed env srv o st).1
  unfolding bdat_parsed discard_chunk leave_bdat
  bdat_parsed-At none st h = h
  bdat_parsed-At (some (size, last)) st h =
      let (r, s) = read_n_bytes size st.conn.input in
      ground (arith, bdat_read-At r last (with_input env srv s st) h)

  pub handle_bdat-At : (args : Bytes) (st : Session W) → At st → At (handle_bdat env srv args st).1
  unfolding handle_bdat
  handle_bdat-At args st h = bdat_parsed-At (parse_bdat_args env.unicode_upper args) st h
