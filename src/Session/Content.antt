-- ===== src/Session/Content.antt =====
-- `handleData` and `handleBdat` of smtp.go.
use smtp_gateway.Base.{
  ℕ, Bool, true, false, ◌&&◌, not, Option, none, some, ◌++◌, is_nil, length, ltb, if◌then◌else◌,
  Bytes, codes,
}
use smtp_gateway.Base.Int.{add_int, over_limit}
use smtp_gateway.Text.Case.{equal_fold}
use smtp_gateway.Wire.{Stream}
use smtp_gateway.Wire.Body.{BodyResult, body, too_long, too_large, failed, read_dot_unstuffed}
use smtp_gateway.Wire.Chunk.{ChunkResult, chunk, chunk_too_big, chunk_error, read_n_bytes, discard}
use smtp_gateway.Command.{Params, get_param, contains_8bit, parse_bdat_args}
use smtp_gateway.Response.{Response, string, is_ok, bad_seq, start_mail, message_size, eight_bit}
use smtp_gateway.Server.{Server}
use smtp_gateway.Session.{Callback, panicked, returned, Env, Session, phase_rcpt, reset_body_buf}
use smtp_gateway.Session.Calls.{write, call_data, write_postcat}
use smtp_gateway.Session.Greeting.{is_some, reply}

-- The `8BITMIME` check of `handleData`: whether the body is refused.
unfoldable pub refuses_8bit : Params → Bytes → Bool
unfolding get_param contains_8bit equal_fold
refuses_8bit ps b =
    not (elim (get_param (codes "BODY") ps) [
      | none ↦ false
      | some value ↦ equal_fold value (codes "8BITMIME")
    ])
    && not (is_some (get_param (codes "SMTPUTF8") ps))
    && contains_8bit b

module _ {W : Type 0} (env : Env W) (srv : Server) where
  -- What follows `Handler.Data`: the message is stored if the answer is 250.
  unfoldable pub data_answer : Bytes → Callback × Session W → Option Response × Session W
  data_answer b (panicked, st) = (none, st)
  data_answer b (returned none, st) = (some bad_seq, st)
  data_answer b (returned (some r), st) =
      (some r, if is_ok r then write_postcat env srv b st else st)

  abbrev pub with_input : Stream → Session W → Session W
  with_input s st = record st { conn = record st.conn { input = s } }

  -- `handleData` behind the read of the body.
  unfoldable pub data_read : BodyResult → Session W → Option Response × Session W
  data_read too_long st = (reply 500 (codes "5.5.2 Line too long"), st)
  data_read too_large st = (some message_size, st)
  data_read (failed e) st = (reply 451 (codes "4.3.0 Error reading message"), st)
  data_read (body b) st =
      if refuses_8bit st.tx.params b
      then (some eight_bit, st)
      else data_answer b (call_data env b st)

  unfoldable pub data_started : Bool × Session W → Option Response × Session W
  data_started (false, st) = (reply 451 (codes "4.3.0 System error"), st)
  data_started (true, st) =
      let (r, s') = read_dot_unstuffed st.conn.buffer srv.max_message_size st.conn.input in
      data_read r (with_input s' st)

  unfoldable pub handle_data : Session W → Option Response × Session W
  handle_data st =
      if ltb st.phase phase_rcpt
      then (reply 503 (codes "5.5.1 RCPT required first"), st)
      else if is_nil st.tx.accepted
      then (reply 554 (codes "5.5.1 No valid recipients"), st)
      else data_started (write env (string start_mail) st)

  -- `inBdat = false` and `resetBodyBuf`.
  unfoldable pub leave_bdat : Session W → Session W
  unfolding reset_body_buf
  leave_bdat st = record st { in_bdat = false; conn = reset_body_buf st.conn }

  -- `discardChunk`
  unfoldable pub discard_chunk : ℕ → Session W → Session W
  discard_chunk size st = with_input (discard size st.conn.input) (leave_bdat st)

  -- `handleBdat` behind the last chunk; `bodyBuf` is the whole message.
  unfoldable pub bdat_last : Session W → Option Response × Session W
  bdat_last st =
      let b = st.conn.body_buf in
      let (r, st') = data_answer b (call_data env b (record st { in_bdat = false })) in
      (r, record st' { conn = reset_body_buf st'.conn })

  -- `handleBdat` behind the read of a chunk. The flag of the result says that the chunk was LAST.
  unfoldable pub bdat_read : ChunkResult → Bool → Session W → (Option Response × Bool) × Session W
  bdat_read chunk_too_big last st =
      ((reply 451 (codes "4.3.0 Error reading chunk"), false), leave_bdat st)
  bdat_read (chunk_error e) last st =
      ((reply 451 (codes "4.3.0 Error reading chunk"), false), leave_bdat st)
  bdat_read (chunk b) last st =
      let st' = record st { conn = record st.conn { body_buf = st.conn.body_buf ++ b } } in
      if last
      then (let (r, st'') = bdat_last st' in ((r, true), st''))
      else ((reply 250 (codes "2.0.0 OK"), false), record st' { in_bdat = true })

  unfoldable pub bdat_parsed : Option (ℕ × Bool) → Session W → (Option Response × Bool) × Session W
  bdat_parsed none st = ((reply 501 (codes "5.5.4 Bad BDAT syntax"), false), discard_chunk 0 st)
  bdat_parsed (some (size, last)) st =
      if ltb st.phase phase_rcpt
      then ((reply 503 (codes "5.5.1 RCPT required first"), last), discard_chunk size st)
      else if is_nil st.tx.accepted
      then ((reply 554 (codes "5.5.1 No valid recipients"), last), discard_chunk size st)
      else if over_limit srv.max_message_size (add_int (length st.conn.body_buf) size)
      then ((some message_size, last), discard_chunk size st)
      else (let (r, s') = read_n_bytes size st.conn.input in bdat_read r last (with_input s' st))

  unfoldable pub handle_bdat : Bytes → Session W → (Option Response × Bool) × Session W
  handle_bdat args st = bdat_parsed (parse_bdat_args env.unicode_upper args) st
