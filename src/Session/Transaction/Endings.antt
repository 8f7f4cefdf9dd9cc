-- ===== src/Session/Transaction/Endings.antt =====
-- DATA, BDAT and the end of the transaction.
use smtp_gateway.Base.{
  ℕ, ◌≡◌, refl, ap, true, false, not, ◌||◌, Bool, Option, none, some, [], Bytes, arith, ◌++◌,
}
use mathlib.Core.Path.{subst}
use smtp_gateway.Server.{Server}
use smtp_gateway.Wire.{Stream}
use smtp_gateway.Wire.Chunk.{ChunkResult, chunk, chunk_too_big, chunk_error, read_n_bytes}
use smtp_gateway.Command.{parse_bdat_args}
use smtp_gateway.Wire.Body.{BodyResult, body, too_long, too_large, failed, read_dot_unstuffed}
use smtp_gateway.Response.{Response, is_ok, string, start_mail}
use smtp_gateway.Session.{
  Env, Session, Tx, Callback, panicked, returned, reset_body_buf, reset_tx, new_tx,
}
use smtp_gateway.Session.Calls.{write, call_data, write_postcat}
use smtp_gateway.Session.Content.{
  handle_data, data_started, data_read, data_answer, with_input, handle_bdat, bdat_last, bdat_read,
  bdat_parsed, leave_bdat, discard_chunk,
}
use smtp_gateway.Session.Loop.{data_verb, bdat, dispatch, end_transaction, ended_data, ended_bdat}

-- The transaction is over: no envelope and no chunk is left, and the client need not greet again.
pub record IsEnded {W : Type 0} (helo : Bytes) (st : Session W) : Type 0 where
  pub no_sender : st.tx.mail_from ≡ []
  pub no_recipient : st.tx.accepted ≡ []
  pub no_attempt : st.tx.rcpts ≡ []
  pub no_chunk : st.conn.body_buf ≡ []
  pub phase_greeted : st.phase ≡ 1
  pub named : st.tx.helo ≡ helo

module _ {W : Type 0} (env : Env W) (srv : Server) where
  tx-data_answer :
      (b : Bytes) (r : Callback) (st : Session W) → (data_answer env srv b (r, st)).1.tx ≡ st.tx
  unfolding data_answer write_postcat
  tx-data_answer b panicked st = refl
  tx-data_answer b (returned none) st = refl
  tx-data_answer b (returned (some r)) st = ground arith

  tx-called :
      (b : Bytes) (st : Session W) → (data_answer env srv b (call_data env b st)).1.tx ≡ st.tx
  unfolding call_data
  tx-called b st = let c : Callback × Session W = call_data env b st in tx-data_answer b c.0 c.1

  tx-data_read : (r : BodyResult) (st : Session W) → (data_read env srv r st).1.tx ≡ st.tx
  unfolding data_read
  tx-data_read too_long st = refl
  tx-data_read too_large st = refl
  tx-data_read (failed e) st = refl
  tx-data_read (body b) st = ground (arith, tx-called b st)

  tx-data_started : (ok : Bool) (st : Session W) → (data_started env srv (ok, st)).1.tx ≡ st.tx
  unfolding data_started
  tx-data_started false st = refl
  tx-data_started true st =
      let (r, s) = read_dot_unstuffed st.conn.buffer srv.max_message_size st.conn.input in
      tx-data_read r (with_input env srv s st)

  tx-prompted :
      (st : Session W) → (data_started env srv (write env (string start_mail) st)).1.tx ≡ st.tx
  unfolding write
  tx-prompted st =
      let c : Bool × Session W = write env (string start_mail) st in tx-data_started c.0 c.1

  -- `handleData` reads the transaction and never changes it, on any of its branches.
  pub tx-handle_data : (st : Session W) → (handle_data env srv st).1.tx ≡ st.tx
  unfolding handle_data
  tx-handle_data st = ground (arith, tx-prompted st)

  end_transaction-IsEnded : (st : Session W) → IsEnded st.tx.helo (end_transaction env srv 1 st)
  unfolding end_transaction
  end_transaction-IsEnded st = ground arith

  ended_data-IsEnded :
      (o : Option Response) (st : Session W) (r : Response)
      → (ended_data env srv (o, st)).0 ≡ some r
      → IsEnded st.tx.helo (ended_data env srv (o, st)).1
  ended_data-IsEnded none st r e = absurd (ground arith)
  ended_data-IsEnded (some x) st r e = end_transaction-IsEnded st

  -- Whenever DATA is answered, with success or with any error, the transaction is over and the name
  -- of the greeting is kept.
  pub data-IsEnded :
      (args : Bytes) (st : Session W) (r : Response)
      → (dispatch env srv data_verb args st).0 ≡ some r
      → IsEnded st.tx.helo (dispatch env srv data_verb args st).1
  unfolding dispatch
  data-IsEnded args st r e =
      let c : Option Response × Session W = handle_data env srv st in
      subst (λ helo. IsEnded helo (dispatch env srv data_verb args st).1)
        (ap (λ (tx : Tx). tx.helo) (tx-handle_data st)) (ended_data-IsEnded c.0 c.1 r e)

  in_bdat-data_answer :
      (b : Bytes) (r : Callback) (st : Session W)
      → (data_answer env srv b (r, st)).1.in_bdat ≡ st.in_bdat
  unfolding data_answer write_postcat
  in_bdat-data_answer b panicked st = refl
  in_bdat-data_answer b (returned none) st = refl
  in_bdat-data_answer b (returned (some r)) st = ground arith

  -- The response to a chunk closes the sequence if the chunk is the last, or is refused.
  abbrev Closes : Bool → Tx → (Option Response × Bool) × Session W → Type 0
  Closes last tx ((none, ended), st) = Unit
  Closes last tx ((some r, ended), st) =
      (st.tx ≡ tx)
      × (((last || not (is_ok r)) ≡ true) → (ended || not (is_ok r)) ≡ true)
      × (((last || not (is_ok r)) ≡ true) → st.in_bdat ≡ false)

  bdat_last-frame :
      (st : Session W)
      → ((bdat_last env srv st).1.tx ≡ st.tx) × ((bdat_last env srv st).1.in_bdat ≡ false)
  unfolding bdat_last call_data reset_body_buf
  bdat_last-frame st =
      let st' : Session W = record st { in_bdat = false } in
      let c : Callback × Session W = call_data env st.conn.body_buf st' in
      (tx-data_answer st.conn.body_buf c.0 c.1, in_bdat-data_answer st.conn.body_buf c.0 c.1)

  last-Closes :
      (o : Option Response) (st : Session W) (tx : Tx)
      → st.tx ≡ tx
      → st.in_bdat ≡ false
      → Closes true tx ((o, true), st)
  last-Closes none st tx e b = tt
  last-Closes (some r) st tx e b = (e, λ l. refl, λ l. b)

  bdat_read-Closes :
      (r : ChunkResult) (last : Bool) (st : Session W)
      → Closes last st.tx (bdat_read env srv r last st)
  unfolding bdat_read leave_bdat reset_body_buf
  bdat_read-Closes chunk_too_big last st = (refl, λ l. refl, λ l. refl)
  bdat_read-Closes (chunk_error e) last st = (refl, λ l. refl, λ l. refl)
  bdat_read-Closes (chunk b) false st = (refl, λ l. l, λ l. absurd (ground arith))
  bdat_read-Closes (chunk b) true st =
      let st' : Session W = record st {
        conn = record st.conn { body_buf = st.conn.body_buf ++ b };
      } in
      let l : Option Response × Session W = bdat_last env srv st' in
      last-Closes l.0 l.1 st.tx (bdat_last-frame st').0 (bdat_last-frame st').1

  abbrev pub is_last : Option (ℕ × Bool) → Bool
  is_last none = false
  is_last (some (size, last)) = last

  bdat_parsed-Closes :
      (o : Option (ℕ × Bool)) (st : Session W) → Closes (is_last o) st.tx (bdat_parsed env srv o st)
  unfolding bdat_parsed discard_chunk leave_bdat reset_body_buf
  bdat_parsed-Closes none st = (refl, λ l. refl, λ l. refl)
  bdat_parsed-Closes (some (size, last)) st =
      let r : ChunkResult × Stream = read_n_bytes size st.conn.input in
      ground (arith, bdat_read-Closes r.0 last (with_input env srv r.1 st))

  ended_bdat-IsEnded :
      (last : Bool) (tx : Tx) (c : (Option Response × Bool) × Session W) (r : Response)
      → Closes last tx c
      → (ended_bdat env srv c).0 ≡ some r
      → (last || not (is_ok r)) ≡ true
      → IsEnded tx.helo (ended_bdat env srv c).1 × ((ended_bdat env srv c).1.in_bdat ≡ false)
  unfolding end_transaction reset_tx reset_body_buf new_tx
  ended_bdat-IsEnded last tx ((none, ended), st) r h e l = absurd (ground arith)
  ended_bdat-IsEnded last tx ((some x, ended), st) r h e l = ground arith

  -- When BDAT is answered and the chunk is marked LAST, or the answer is not 250, the transaction
  -- and the BDAT sequence are over, and the name of the greeting is kept.
  pub bdat-IsEnded :
      (args : Bytes) (st : Session W) (r : Response)
      → (dispatch env srv bdat args st).0 ≡ some r
      → (is_last (parse_bdat_args env.unicode_upper args) || not (is_ok r)) ≡ true
      → IsEnded st.tx.helo (dispatch env srv bdat args st).1
        × ((dispatch env srv bdat args st).1.in_bdat ≡ false)
  unfolding dispatch handle_bdat
  bdat-IsEnded args st r e l =
      let o = parse_bdat_args env.unicode_upper args in
      ended_bdat-IsEnded (is_last o) st.tx (handle_bdat env srv args st) r (bdat_parsed-Closes o st)
        e l
