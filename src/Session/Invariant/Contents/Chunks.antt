-- ===== src/Session/Invariant/Contents/Chunks.antt =====
-- The invariant over BDAT.
use smtp_gateway.Base.{
  ℕ, ◌≡◌, refl, not, ◌||◌, Bool, true, false, Bytes, Option, none, some, arith, sym, [], ◌++◌,
  length, ap, ◌∙◌, length-append, ◌+◌,
}
use mathlib.Core.Path.{subst}
use smtp_gateway.Base.Int.{add_int, over_limit}
use smtp_gateway.Server.{Server}
use smtp_gateway.Wire.{Stream}
use smtp_gateway.Wire.Chunk.{
  ChunkResult, chunk, chunk_too_big, chunk_error, read_n_bytes, length-read_n_bytes,
}
use smtp_gateway.Command.{parse_bdat_args}
use smtp_gateway.Response.{Response, is_ok}
use smtp_gateway.Session.{Env, Session, reset_body_buf}
use smtp_gateway.Session.Calls.{call_data, write_postcat}
use smtp_gateway.Session.Content.{
  data_answer, with_input, handle_bdat, bdat_parsed, bdat_read, bdat_last, leave_bdat,
  discard_chunk,
}
use smtp_gateway.Session.Loop.{ended_bdat}
use smtp_gateway.Session.Invariant.{Inv, fits, empty-fits, chunk-fits}
use smtp_gateway.Session.Invariant.Contents.{
  Kept, Open, called-Kept, with_input-Inv, end_transaction-Inv,
}

module _ {W : Type 0} (env : Env W) (srv : Server) where
  -- The invariant, and no open sequence where the transaction is to be closed.
  abbrev Closes : (Option Response × Bool) × Session W → Type 0
  Closes ((none, ended), st) = Inv srv st
  Closes ((some r, ended), st) =
      Inv srv st × ((not (ended || not (is_ok r)) || not st.in_bdat) ≡ true)

  discard_chunk-Closes :
      (size : ℕ) (st : Session W)
      → Inv srv st
      → Inv srv (discard_chunk env srv size st) × ((discard_chunk env srv size st).in_bdat ≡ false)
  unfolding discard_chunk leave_bdat
  discard_chunk-Closes size st h = ground (arith, empty-fits srv.max_message_size)

  -- The state in which the handler gets the message: the sequence is over and its buffer empty.
  abbrev pub finished : Session W → Session W
  finished st = record st { in_bdat = false; conn = record st.conn { body_buf = [] } }

  -- `handleBdat` clears the buffer after the call, and might as well do so before.
  pub bdat_last_lem :
      (st : Session W)
      → bdat_last env srv st
        ≡ data_answer env srv st.conn.body_buf (call_data env st.conn.body_buf (finished st))
  unfolding bdat_last reset_body_buf data_answer call_data write_postcat
  bdat_last_lem st = ground arith

  bdat_last-Kept :
      (st : Session W)
      → Inv srv (finished st)
      → Open env srv st
      → fits srv.max_message_size (length st.conn.body_buf) ≡ true
      → Kept env srv false (bdat_last env srv st)
  bdat_last-Kept st h o f =
      let o' : Open env srv (finished st) = record { addressed = o.addressed; filled = o.filled } in
      subst (Kept env srv false) (sym (bdat_last_lem st))
        (called-Kept env srv st.conn.body_buf (finished st) h o' f)

  bdat_read-Closes :
      (r : ChunkResult) (last : Bool) (st : Session W)
      → Inv srv st
      → Open env srv st
      → ((b : Bytes)
          → r ≡ chunk b
          → fits srv.max_message_size (length (st.conn.body_buf ++ b)) ≡ true)
      → Closes (bdat_read env srv r last st)
  unfolding bdat_read leave_bdat reset_body_buf
  bdat_read-Closes chunk_too_big last st h o f = ground (arith, empty-fits srv.max_message_size)
  bdat_read-Closes (chunk_error e) last st h o f = ground (arith, empty-fits srv.max_message_size)
  bdat_read-Closes (chunk b) false st h o f = ground (arith, f b refl)
  bdat_read-Closes (chunk b) true st h o f =
      let st' : Session W = record st {
        conn = record st.conn { body_buf = st.conn.body_buf ++ b };
      } in
      let h' : Inv srv (finished st') = ground (arith, empty-fits srv.max_message_size) in
      ground (
        arith,
        bdat_last-Kept st' h' (record { addressed = o.addressed; filled = o.filled }) (f b refl),
      )

  more-fits :
      (size : ℕ) (st : Session W)
      → Inv srv st
      → over_limit srv.max_message_size (add_int (length st.conn.body_buf) size) ≡ false
      → (b : Bytes) → (read_n_bytes size st.conn.input).0 ≡ chunk b
      → fits srv.max_message_size (length (st.conn.body_buf ++ b)) ≡ true
  more-fits size st h small b e =
      let (exact, most) = length-read_n_bytes size st.conn.input b e in
      chunk-fits srv.max_message_size (length st.conn.body_buf) size
        (length (st.conn.body_buf ++ b)) h.bounded small most
        (length-append st.conn.body_buf b ∙ ap (λ n. length st.conn.body_buf + n) exact)

  bdat_parsed-Closes :
      (o : Option (ℕ × Bool)) (st : Session W) → Inv srv st → Closes (bdat_parsed env srv o st)
  unfolding bdat_parsed
  bdat_parsed-Closes none st h = ground (arith, discard_chunk-Closes 0 st h)
  bdat_parsed-Closes (some (size, last)) st h =
      let r : ChunkResult × Stream = read_n_bytes size st.conn.input in
      ground (
        arith,
        discard_chunk-Closes size st h,
        λ (o : Open env srv st)
              (small : over_limit srv.max_message_size (add_int (length st.conn.body_buf) size)
                ≡ false).
            bdat_read-Closes r.0 last (with_input env srv r.1 st) (with_input-Inv env srv r.1 st h)
              (record { addressed = o.addressed; filled = o.filled }) (more-fits size st h small),
      )

  ended_bdat-Inv :
      (r : Option Response) (ended : Bool) (st : Session W)
      → Closes ((r, ended), st)
      → Inv srv (ended_bdat env srv ((r, ended), st)).1
  ended_bdat-Inv none ended st h = h
  ended_bdat-Inv (some r) ended st h = ground (arith, end_transaction-Inv env srv 1 st)

  pub bdat-Inv :
      (args : Bytes) (st : Session W)
      → Inv srv st
      → Inv srv (ended_bdat env srv (handle_bdat env srv args st)).1
  unfolding handle_bdat
  bdat-Inv args st h =
      let b : (Option Response × Bool) × Session W =
        bdat_parsed env srv (parse_bdat_args env.unicode_upper args) st in
      ended_bdat-Inv b.0.0 b.0.1 b.1
        (bdat_parsed-Closes (parse_bdat_args env.unicode_upper args) st h)
