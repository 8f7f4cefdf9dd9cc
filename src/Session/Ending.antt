-- ===== src/Session/Ending.antt =====
-- What is left of the client's input behind each command.
pub mod Contents
pub mod Envelopes
pub mod Rounds
use smtp_gateway.Base.{
  ℕ, zero, suc, ◌<◌, ◌≤◌, ◌≡◌, ◌⊎◌, inl, inr, refl, ap, sym, ◌∙◌, Bool, true, false, not, ◌&&◌,
  ◌||◌, Option, none, some, List, [], ◌∷◌, ◌++◌, length, is_nil, Bytes, codes, arith, if◌then◌else◌,
  ltb, leb,
}
use smtp_gateway.Server.{Server}
use smtp_gateway.Wire.{Stream, LineResult, line, line_too_long, line_error, read_line}
use smtp_gateway.Wire.Line.Shorter.{read_line-Shorter, Shorter}
use smtp_gateway.Wire.Body.{BodyResult, body, too_long, too_large, failed, read_dot_unstuffed}
use smtp_gateway.Wire.Chunk.{ChunkResult, chunk, chunk_too_big, chunk_error, read_n_bytes, discard}
use smtp_gateway.Wire.Rest.{discard-le, read_n_bytes-rest, read_line-rest, read_dot_unstuffed-rest}
use smtp_gateway.Command.{Params, parse_mail_from, parse_rcpt_to, parse_bdat_args}
use smtp_gateway.Response.{Response, string, start_mail, goodbye, is_ok}
use smtp_gateway.Session.{Env, Session, Conn, Tx, Callback, panicked, returned, reset_body_buf}
use smtp_gateway.Session.Calls.{write, call_mail_from, call_rcpt_to, call_data, write_postcat}
use smtp_gateway.Session.Greeting.{is_some, reply, handle_starttls, handle_greeting}
use smtp_gateway.Session.Envelope.{
  set_sender, mail_parsed, handle_mail, rcpt_answer, present, handle_rcpt, accept, reject,
}
use smtp_gateway.Session.Content.{
  with_input, data_answer, data_read, data_started, handle_data, leave_bdat, discard_chunk,
  bdat_last, bdat_read, bdat_parsed, handle_bdat,
}
use smtp_gateway.Session.Loop.{end_transaction}
use smtp_gateway.Session.Transaction.Beginnings.{IsSame, IsBegun, dispatch-Greets}

-- The input is no longer than before, and the reader and the TLS state are the same.
pub record Shrinks {W : Type 0} (st st' : Session W) : Type 0 where
  pub input : length st'.conn.input ≤ length st.conn.input
  pub tls : st'.conn.tls ≡ st.conn.tls
  pub buffer : st'.conn.buffer ≡ st.conn.buffer

module _ {W : Type 0} (env : Env W) (srv : Server) where
  pub Shrinks-trans :
      {st st' st'' : Session W} → Shrinks st st' → Shrinks st' st'' → Shrinks st st''
  Shrinks-trans a b = record {
    input = omega (arith, a.input, b.input);
    tls = b.tls ∙ a.tls;
    buffer = b.buffer ∙ a.buffer;
  }

  pub Shrinks-refl : (st : Session W) → Shrinks st st
  Shrinks-refl st = record { input = omega arith; tls = refl; buffer = refl }

  pub write-Shrinks : (text : Bytes) (st : Session W) → Shrinks st (write env text st).1
  unfolding write
  write-Shrinks text st = record { input = omega arith; tls = refl; buffer = refl }

  pub end_transaction-Shrinks :
      (phase : ℕ) (st : Session W) → Shrinks st (end_transaction env srv phase st)
  unfolding end_transaction reset_body_buf
  end_transaction-Shrinks phase st = record { input = omega arith; tls = refl; buffer = refl }
