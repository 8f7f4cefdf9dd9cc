-- ===== src/Session/Safety.antt =====
-- What holds of a connection from its banner to its end, whatever the client sends, and whatever
-- the handler, the network and the TLS library do.
use smtp_gateway.Base.{ℕ, ◌<◌, ◌≡◌, refl, true, false, [], ◌∷◌, All, Bytes, is_nil, arith}
use smtp_gateway.Server.{Server}
use smtp_gateway.Session.{Env, Session, Conn}
use smtp_gateway.Session.Loop.{serve, start}
use smtp_gateway.Session.Invariant.{Inv, IsSound, Backed, all_introduced}
use smtp_gateway.Session.Invariant.Rounds.{start-Inv, serve-Inv}

nil_of_test : (b : Bytes) → is_nil b ≡ true → b ≡ []
nil_of_test [] h = refl
nil_of_test (x ∷ b) h = absurd (ground arith)

module _ {W : Type 0} (env : Env W) (srv : Server) where
  abbrev pub session : ℕ → W → Conn → Session W
  session n w conn = serve env srv n (start env srv w conn)

  session-Inv :
      (n : ℕ) (w : W) (conn : Conn)
      → 0 < conn.buffer
      → conn.body_buf ≡ []
      → Inv srv (session n w conn)
  session-Inv n w conn p e =
      serve-Inv env srv n (start env srv w conn) (start-Inv env srv w conn p e)

  -- In a session of any number of rounds, on a new connection with a reader's buffer that is not
  -- empty, every call out of the program is sound. The handler's MailFrom, RcptTo and Data are
  -- called only with a name that an earlier call of Hello answered with 250, and under TLS where the
  -- server requires it. MailFrom sees a sender of at most 320 bytes, without control characters but
  -- tabs, and no accepted recipient; RcptTo sees such a sender. Data, and the store, get such a
  -- sender, at least one accepted recipient, only recipients of that form, and a body within
  -- MaxMessageSize, where that is positive and below 2^62; Data gets no more recipients than
  -- MaxRecipients, where that is positive. A message is stored only if a directory is set.
  pub serve-IsSound :
      (n : ℕ) (w : W) (conn : Conn)
      → 0 < conn.buffer
      → conn.body_buf ≡ []
      → All (IsSound srv) (session n w conn).trace
        × (all_introduced (session n w conn).trace ≡ true)
  serve-IsSound n w conn p e =
      let i : Inv srv (session n w conn) = session-Inv n w conn p e in (i.sound, i.known)

  -- In a session of any number of rounds, on a new connection with a reader's buffer that is not
  -- empty, every message that is stored is stored right after the handler's Data answered 250 to
  -- it, with the sender, the accepted recipients and the body of that call.
  pub serve-Backed :
      (n : ℕ) (w : W) (conn : Conn)
      → 0 < conn.buffer
      → conn.body_buf ≡ []
      → Backed (session n w conn).trace
  serve-Backed n w conn p e = (session-Inv n w conn p e).backed

  -- After any number of rounds on a new connection, with a reader's buffer that is not empty, the
  -- buffer of chunks is empty outside a BDAT sequence.
  pub serve-quiet :
      (n : ℕ) (w : W) (conn : Conn)
      → 0 < conn.buffer
      → conn.body_buf ≡ []
      → (session n w conn).in_bdat ≡ false
      → (session n w conn).conn.body_buf ≡ []
  serve-quiet n w conn p e b =
      let q = (session-Inv n w conn p e).quiet in
      nil_of_test (session n w conn).conn.body_buf (ground arith)
