-- ===== src/Session/Ending/Contents.antt =====
-- The input behind DATA and BDAT.
use smtp_gateway.Base.{ℕ, ◌<◌, refl, Bool, true, false, Option, none, some, ◌++◌, Bytes, arith}
use smtp_gateway.Server.{Server}
use smtp_gateway.Wire.{Stream}
use smtp_gateway.Wire.Body.{BodyResult, body, too_long, too_large, failed, read_dot_unstuffed}
use smtp_gateway.Wire.Chunk.{ChunkResult, chunk, chunk_too_big, chunk_error, read_n_bytes}
use smtp_gateway.Wire.Rest.{discard-le, read_n_bytes-rest, read_dot_unstuffed-rest}
use smtp_gateway.Response.{Response, string, start_mail}
use smtp_gateway.Session.{Env, Session, Callback, panicked, returned, reset_body_buf}
use smtp_gateway.Session.Calls.{write, call_data, write_postcat}
use smtp_gateway.Session.Content.{
  with_input, data_answer, data_read, data_started, handle_data, leave_bdat, discard_chunk,
  bdat_last, bdat_read, bdat_parsed,
}
use smtp_gateway.Session.Ending.{Shrinks, Shrinks-refl}

module _ {W : Type 0} (env : Env W) (srv : Server) where
  abbrev Reads : Session W → Option Response × Session W → Type 0
  Reads st c = Shrinks st c.1

  data_answer-Shrinks :
      (b : Bytes) (c : Callback) (st : Session W) → Reads st (data_answer env srv b (c, st))
  unfolding data_answer write_postcat
  data_answer-Shrinks b panicked st = Shrinks-refl env srv st
  data_answer-Shrinks b (returned none) st = Shrinks-refl env srv st
  data_answer-Shrinks b (returned (some r)) st = ground arith

  called-Shrinks :
      (b : Bytes) (st : Session W) → Reads st (data_answer env srv b (call_data env b st))
  unfolding call_data
  called-Shrinks b st =
      let c : Callback × Session W = call_data env b st in
      let h = data_answer-Shrinks b c.0 c.1 in
      record { input = h.input; tls = h.tls; buffer = h.buffer }

  data_read-Shrinks : (r : BodyResult) (st : Session W) → Reads st (data_read env srv r st)
  unfolding data_read
  data_read-Shrinks too_long st = Shrinks-refl env srv st
  data_read-Shrinks too_large st = Shrinks-refl env srv st
  data_read-Shrinks (failed e) st = Shrinks-refl env srv st
  data_read-Shrinks (body b) st = ground (arith, called-Shrinks b st)

  data_started-Shrinks :
      (ok : Bool) (st : Session W) → 0 < st.conn.buffer → Reads st (data_started env srv (ok, st))
  unfolding data_started
  data_started-Shrinks false st p = Shrinks-refl env srv st
  data_started-Shrinks true st p =
      let c : BodyResult × Stream =
        read_dot_unstuffed st.conn.buffer srv.max_message_size st.conn.input in
      let less = read_dot_unstuffed-rest st.conn.buffer p srv.max_message_size st.conn.input in
      let h = data_read-Shrinks c.0 (with_input env srv c.1 st) in
      record { input = omega (arith, less, h.input); tls = h.tls; buffer = h.buffer }

  prompted-Shrinks :
      (st : Session W)
      → 0 < st.conn.buffer
      → Reads st (data_started env srv (write env (string start_mail) st))
  unfolding write
  prompted-Shrinks st p =
      let c : Bool × Session W = write env (string start_mail) st in
      let h = data_started-Shrinks c.0 c.1 p in
      record { input = h.input; tls = h.tls; buffer = h.buffer }

  pub data-Shrinks : (st : Session W) → 0 < st.conn.buffer → Reads st (handle_data env srv st)
  unfolding handle_data
  data-Shrinks st p = ground (arith, prompted-Shrinks st p)

  abbrev Chunks : Session W → (Option Response × Bool) × Session W → Type 0
  Chunks st c = Shrinks st c.1

  bdat_last-Shrinks : (st : Session W) → Reads st (bdat_last env srv st)
  unfolding bdat_last call_data reset_body_buf
  bdat_last-Shrinks st =
      let st' : Session W = record st { in_bdat = false } in
      let c : Callback × Session W = call_data env st.conn.body_buf st' in
      let h = data_answer-Shrinks st.conn.body_buf c.0 c.1 in
      record { input = h.input; tls = h.tls; buffer = h.buffer }

  bdat_read-Shrinks :
      (r : ChunkResult) (last : Bool) (st : Session W) → Chunks st (bdat_read env srv r last st)
  unfolding bdat_read leave_bdat reset_body_buf
  bdat_read-Shrinks chunk_too_big last st = record {
    input = omega arith;
    tls = refl;
    buffer = refl;
  }
  bdat_read-Shrinks (chunk_error e) last st = record {
    input = omega arith;
    tls = refl;
    buffer = refl;
  }
  bdat_read-Shrinks (chunk b) false st = record { input = omega arith; tls = refl; buffer = refl }
  bdat_read-Shrinks (chunk b) true st =
      let st' : Session W = record st {
        conn = record st.conn { body_buf = st.conn.body_buf ++ b };
      } in
      let h = bdat_last-Shrinks st' in record { input = h.input; tls = h.tls; buffer = h.buffer }

  discard_chunk-Shrinks : (size : ℕ) (st : Session W) → Shrinks st (discard_chunk env srv size st)
  unfolding discard_chunk leave_bdat reset_body_buf
  discard_chunk-Shrinks size st = record {
    input = discard-le size st.conn.input;
    tls = refl;
    buffer = refl;
  }

  pub bdat_parsed-Shrinks :
      (o : Option (ℕ × Bool)) (st : Session W) → Chunks st (bdat_parsed env srv o st)
  unfolding bdat_parsed
  bdat_parsed-Shrinks none st = discard_chunk-Shrinks 0 st
  bdat_parsed-Shrinks (some (size, last)) st =
      let c : ChunkResult × Stream = read_n_bytes size st.conn.input in
      let less = read_n_bytes-rest size st.conn.input in
      let h = bdat_read-Shrinks c.0 last (with_input env srv c.1 st) in
      let read : Shrinks st (bdat_read env srv c.0 last (with_input env srv c.1 st)).1 = record {
        input = omega (arith, less, h.input);
        tls = h.tls;
        buffer = h.buffer;
      } in
      ground (arith, discard_chunk-Shrinks size st, read)
