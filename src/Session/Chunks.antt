-- ===== src/Session/Chunks.antt =====
-- A message that is sent in several BDAT chunks.
use smtp_gateway.Base.{
  joined, ℕ, ◌≡◌, ◌≤◌, ◌<◌, ◌+◌, ◌^◌, refl, ap, sym, ◌∙◌, true, false, Bool, Option, some, [], ◌∷◌,
  List, Bytes, is_nil, arith, codes, ◌++◌, length, ltb, All, length-append, append_assoc,
}
use smtp_gateway.Base.Int.{ℤ, pos, add_int, over_limit}
use smtp_gateway.Server.{Server}
use smtp_gateway.Wire.{Stream, bytes}
use smtp_gateway.Wire.Chunk.{chunk, max_bdat_chunk, read_n_bytes, read_n_bytes_lem}
use smtp_gateway.Response.{Response}
use smtp_gateway.Session.{Env, Session, phase_rcpt}
use smtp_gateway.Session.Calls.{call_data}
use smtp_gateway.Session.Greeting.{reply}
use smtp_gateway.Session.Content.{data_answer, bdat_read, bdat_parsed, with_input}
use smtp_gateway.Session.Invariant.Contents.Chunks.{bdat_last_lem, finished}

abbrev pub chunks : List Bytes → Stream → Stream
chunks [] s = s
chunks (c ∷ cs) s = bytes c (chunks cs s)

module _ {W : Type 0} (env : Env W) (srv : Server) where
  -- The preconditions of a chunk, and a size that does not exceed the limit.
  pub record Takes (st : Session W) (total : ℕ) : Type 0 where
    pub addressed : ltb st.phase phase_rcpt ≡ false
    pub filled : is_nil st.tx.accepted ≡ false
    pub room : over_limit srv.max_message_size (pos (length st.conn.body_buf + total)) ≡ false
    pub small : length st.conn.body_buf + total < 2 ^ 63

  -- The chunks before the last.
  abbrev pub transfer : List Bytes → Session W → Session W
  transfer [] st = st
  transfer (c ∷ cs) st = transfer cs (bdat_parsed env srv (some (length c, false)) st).1

  fits_part :
      (max : ℤ) (a b c : ℕ)
      → a + c < 2 ^ 63
      → b ≤ c
      → over_limit max (pos (a + c)) ≡ false
      → over_limit max (add_int a b) ≡ false
  fits_part max a b c s l h = ground arith

  -- A chunk is put behind those before, and the input is left behind it.
  abbrev grown : Bytes → Stream → Session W → Session W
  grown c s st = record st {
    in_bdat = true;
    conn = record st.conn { input = s; body_buf = st.conn.body_buf ++ c };
  }

  read_small :
      (c : Bytes) (s : Stream)
      → length c ≤ max_bdat_chunk
      → read_n_bytes (length c) (bytes c s) ≡ (chunk c, s)
  read_small c s l = ground (arith, read_n_bytes_lem c s)

  parsed_lem :
      (last : Bool) (c : Bytes) (s : Stream) (total : ℕ) (st : Session W)
      → st.conn.input ≡ bytes c s
      → length c ≤ max_bdat_chunk
      → length c ≤ total
      → Takes st total
      → bdat_parsed env srv (some (length c, last)) st
        ≡ bdat_read env srv (chunk c) last (with_input env srv s st)
  unfolding bdat_parsed
  parsed_lem last c s total st e l m t =
      let small =
        fits_part srv.max_message_size (length st.conn.body_buf) (length c) total t.small m
          t.room in
      let read : read_n_bytes (length c) st.conn.input ≡ (chunk c, s) =
        ap (read_n_bytes (length c)) e ∙ read_small c s l in
      rw t.addressed (rw t.filled (rw small (rw read)))

  more_lem :
      (c : Bytes) (s : Stream) (total : ℕ) (st : Session W)
      → st.conn.input ≡ bytes c s
      → length c ≤ max_bdat_chunk
      → length c ≤ total
      → Takes st total
      → bdat_parsed env srv (some (length c, false)) st
        ≡ ((reply 250 (codes "2.0.0 OK"), false), grown c s st)
  unfolding bdat_read
  more_lem c s total st e l m t = parsed_lem false c s total st e l m t

  -- The call of the handler with a whole message, in a session with an empty buffer of chunks.
  abbrev pub delivered : Bytes → Stream → Session W → (Option Response × Bool) × Session W
  delivered whole s st =
      let a : Option Response × Session W =
        data_answer env srv whole
          (call_data env whole (finished env srv (with_input env srv s st))) in
      ((a.0, true), a.1)

  last_lem :
      (c : Bytes) (s : Stream) (st : Session W)
      → st.conn.input ≡ bytes c s
      → length c ≤ max_bdat_chunk
      → Takes st (length c)
      → bdat_parsed env srv (some (length c, true)) st ≡ delivered (st.conn.body_buf ++ c) s st
  unfolding bdat_read
  last_lem c s st e l t =
      let whole : Session W = record (with_input env srv s st) {
        conn = record st.conn { input = s; body_buf = st.conn.body_buf ++ c };
      } in
      parsed_lem true c s (length c) st e l (omega arith) t
      ∙ ap (λ (a : Option Response × Session W). ((a.0, true), a.1)) (bdat_last_lem env srv whole)

  grown-Takes :
      (c : Bytes) (s : Stream) (a b : ℕ) (st : Session W)
      → b ≡ length c + a
      → Takes st b
      → Takes (grown c s st) a
  grown-Takes c s a b st e t =
      let n : length (st.conn.body_buf ++ c) + a ≡ length st.conn.body_buf + b =
        omega (arith, length-append st.conn.body_buf c) in
      record {
        addressed = t.addressed;
        filled = t.filled;
        room = ap (λ k. over_limit srv.max_message_size (pos k)) n ∙ t.room;
        small = omega (arith, t.small);
      }

  -- In a session with an accepted recipient, a message is split into BDAT chunks of at most 64
  -- MiB, of which the whole, with what the buffer held, is below 2^63 bytes and within the limit.
  -- However it is split, the handler is called once, with the chunks joined behind what the buffer
  -- held, the answer is the one to the whole message at once, and the input is left behind the
  -- last chunk.
  pub bdat_parsed-transfer :
      (cs : List Bytes) (d : Bytes) (s : Stream) (st : Session W)
      → st.conn.input ≡ chunks cs (bytes d s)
      → All (λ c. length c ≤ max_bdat_chunk) cs
      → length d ≤ max_bdat_chunk
      → Takes st (length (joined cs ++ d))
      → bdat_parsed env srv (some (length d, true)) (transfer cs st)
        ≡ delivered (st.conn.body_buf ++ (joined cs ++ d)) s st
  bdat_parsed-transfer [] d s st e l m t = last_lem d s st e m t
  bdat_parsed-transfer (c ∷ cs) d s st e l m t =
      let rest : Stream = chunks cs (bytes d s) in
      let all : length (joined (c ∷ cs) ++ d) ≡ length c + length (joined cs ++ d) =
        ap length (append_assoc c (joined cs) d) ∙ length-append c (joined cs ++ d) in
      let step = more_lem c rest (length (joined (c ∷ cs) ++ d)) st e l.0 (omega arith) t in
      ap
        (λ (a : (Option Response × Bool) × Session W).
          bdat_parsed env srv (some (length d, true)) (transfer cs a.1))
        step
      ∙ bdat_parsed-transfer cs d s (grown c rest st) refl l.1 m
          (grown-Takes c rest (length (joined cs ++ d)) (length (joined (c ∷ cs) ++ d)) st all t)
      ∙ ap (λ whole. delivered whole s st)
          (append_assoc st.conn.body_buf c (joined cs ++ d)
            ∙ ap (λ x. st.conn.body_buf ++ x) (sym (append_assoc c (joined cs) d)))
