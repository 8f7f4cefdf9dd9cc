-- ===== src/Session/Invariant/Contents.antt =====
-- The invariant over DATA; `Chunks` is about BDAT.
pub mod Chunks
use smtp_gateway.Base.{
  ℕ, ◌<◌, ◌≡◌, refl, not, ◌||◌, is_nil, leb, Bool, true, false, Bytes, Option, none, some, arith,
  sym, [], ◌++◌, length, ap, ◌∙◌, length-append, ◌+◌,
}
use mathlib.Core.Path.{subst}
use smtp_gateway.Base.Int.{add_int, over_limit}
use smtp_gateway.Server.{Server}
use smtp_gateway.Command.Address.{empty-IsPath}
use smtp_gateway.Wire.{Stream}
use smtp_gateway.Wire.Body.{BodyResult, body, too_long, too_large, failed, read_dot_unstuffed}
use smtp_gateway.Wire.Chunk.{
  ChunkResult, chunk, chunk_too_big, chunk_error, read_n_bytes, length-read_n_bytes,
}
use smtp_gateway.Command.{parse_bdat_args}
use smtp_gateway.Response.{Response, is_ok, string, start_mail}
use smtp_gateway.Session.{Env, Session, Callback, panicked, returned, reset_body_buf}
use smtp_gateway.Session.Calls.{write, call_data, write_postcat}
use smtp_gateway.Session.Content.{
  handle_data, data_started, data_read, data_answer, with_input, handle_bdat, bdat_parsed,
  bdat_read, bdat_last, leave_bdat, discard_chunk,
}
use smtp_gateway.Session.Loop.{end_transaction, ended_data, ended_bdat}
use smtp_gateway.Session.Invariant.{Inv, Caused, fits, empty-fits, body-fits, chunk-fits}

module _ {W : Type 0} (env : Env W) (srv : Server) where
  end_transaction-Inv :
      (phase : ℕ) (st : Session W)
      → phase < 2
      → st.in_bdat ≡ false
      → Inv srv st
      → Inv srv (end_transaction env srv phase st)
  unfolding end_transaction
  end_transaction-Inv phase st p q h = ground (arith, empty-IsPath, empty-fits srv.max_message_size)

  -- The invariant, and the flag of the BDAT sequence as it was.
  abbrev Kept : Bool → Option Response × Session W → Type 0
  Kept b (r, st) = Inv srv st × (st.in_bdat ≡ b)

  -- What `handleData` and `handleBdat` check before they call the handler.
  record Open (st : Session W) : Type 0 where
    addressed : leb 3 st.phase ≡ true
    filled : is_nil st.tx.accepted ≡ false

  write_postcat-Inv :
      (b : Bytes) (st : Session W)
      → Inv srv st
      → Open st
      → fits srv.max_message_size (length b) ≡ true
      → Caused st.tx.mail_from st.tx.accepted b st.trace
      → Inv srv (write_postcat env srv b st)
  unfolding write_postcat
  write_postcat-Inv b st h o f c = ground arith

  in_bdat-write_postcat :
      (b : Bytes) (st : Session W) → (write_postcat env srv b st).in_bdat ≡ st.in_bdat
  unfolding write_postcat
  in_bdat-write_postcat b st = ground arith

  data_answer-Kept :
      (b : Bytes) (r : Callback) (st : Session W)
      → Inv srv st
      → Open st
      → fits srv.max_message_size (length b) ≡ true
      → ((x : Response)
          → r ≡ returned (some x)
          → is_ok x ≡ true
          → Caused st.tx.mail_from st.tx.accepted b st.trace)
      → Kept st.in_bdat (data_answer env srv b (r, st))
  unfolding data_answer
  data_answer-Kept b panicked st h o f c = (h, refl)
  data_answer-Kept b (returned none) st h o f c = (h, refl)
  data_answer-Kept b (returned (some r)) st h o f c = ground (
    arith,
    (λ (k : is_ok r ≡ true). write_postcat-Inv b st h o f (c r refl k)),
    in_bdat-write_postcat b st,
  )

  call_data-Kept :
      (b : Bytes) (st : Session W)
      → Inv srv st
      → Open st
      → fits srv.max_message_size (length b) ≡ true
      → Inv srv (call_data env b st).1
        × Open (call_data env b st).1
        × ((call_data env b st).1.in_bdat ≡ st.in_bdat)
  unfolding call_data
  call_data-Kept b st h o f = ground arith

  call_data-Caused :
      (b : Bytes) (st : Session W) (x : Response)
      → (call_data env b st).0 ≡ returned (some x)
      → is_ok x ≡ true
      → (let st' = (call_data env b st).1 in Caused st'.tx.mail_from st'.tx.accepted b st'.trace)
  unfolding call_data
  call_data-Caused b st x e k = rw e (refl, refl, refl, k)

  called-Kept :
      (b : Bytes) (st : Session W)
      → Inv srv st
      → Open st
      → fits srv.max_message_size (length b) ≡ true
      → Kept st.in_bdat (data_answer env srv b (call_data env b st))
  called-Kept b st h o f =
      let c : Callback × Session W = call_data env b st in
      let (h', o', same) = call_data-Kept b st h o f in
      ground (arith, data_answer-Kept b c.0 c.1 h' o' f (call_data-Caused b st))

  data_read-Kept :
      (r : BodyResult) (st : Session W)
      → Inv srv st
      → Open st
      → ((b : Bytes) → r ≡ body b → fits srv.max_message_size (length b) ≡ true)
      → Kept st.in_bdat (data_read env srv r st)
  unfolding data_read
  data_read-Kept too_long st h o f = (h, refl)
  data_read-Kept too_large st h o f = (h, refl)
  data_read-Kept (failed e) st h o f = (h, refl)
  data_read-Kept (body b) st h o f = ground (arith, called-Kept b st h o (f b refl))

  with_input-Inv : (s : Stream) (st : Session W) → Inv srv st → Inv srv (with_input env srv s st)
  with_input-Inv s st h = ground arith

  data_started-Kept :
      (ok : Bool) (st : Session W)
      → Inv srv st
      → Open st
      → Kept st.in_bdat (data_started env srv (ok, st))
  unfolding data_started
  data_started-Kept false st h o = (h, refl)
  data_started-Kept true st h o =
      let (r, s) = read_dot_unstuffed st.conn.buffer srv.max_message_size st.conn.input in
      data_read-Kept r (with_input env srv s st) (with_input-Inv s st h)
        (record { addressed = o.addressed; filled = o.filled })
        (λ b e. body-fits st.conn.buffer srv.max_message_size st.conn.input b h.room e)

  write-Kept :
      (text : Bytes) (st : Session W)
      → Inv srv st
      → Open st
      → Inv srv (write env text st).1
        × Open (write env text st).1
        × ((write env text st).1.in_bdat ≡ st.in_bdat)
  unfolding write
  write-Kept text st h o = ground arith

  prompted-Kept :
      (st : Session W)
      → Inv srv st
      → Open st
      → Kept st.in_bdat (data_started env srv (write env (string start_mail) st))
  prompted-Kept st h o =
      let c : Bool × Session W = write env (string start_mail) st in
      let (h', o', same) = write-Kept (string start_mail) st h o in
      ground (arith, data_started-Kept c.0 c.1 h' o')

  data-Kept : (st : Session W) → Inv srv st → Kept st.in_bdat (handle_data env srv st)
  unfolding handle_data
  data-Kept st h = ground (arith, λ (o : Open st). prompted-Kept st h o)

  pub data-Inv :
      (st : Session W)
      → st.in_bdat ≡ false
      → Inv srv st
      → Inv srv (ended_data env srv (handle_data env srv st)).1
  data-Inv st q h = ground (arith, data-Kept st h, end_transaction-Inv 1 (handle_data env srv st).1)
