-- ===== src/Session/Invariant.antt =====
-- What holds of a session between two commands.
pub mod Greetings
pub mod Recipients
pub mod Contents
pub mod Rounds
use smtp_gateway.Base.{
  List, ◌∷◌, Option, some, none, ℕ, ◌<◌, ◌≤◌, ◌+◌, ◌^◌, ◌≡◌, Bool, true, false, [], All, length,
  not, ◌&&◌, ◌||◌, is_nil, ltb, leb, arith, zero, suc, equal, refl, Bool-cases, ltb→lt, Bytes, inl,
  inr,
}
use smtp_gateway.Wire.{Stream}
use smtp_gateway.Wire.Body.{body, read_dot_unstuffed}
use smtp_gateway.Wire.Body.Limits.{read_dot_unstuffed-le}
use smtp_gateway.Wire.Chunk.{max_bdat_chunk}
use smtp_gateway.Base.Int.{ℤ, pos, negsuc, add_int, pos_part, is_positive, over_limit}
use smtp_gateway.Command.Address.{IsPath}
use smtp_gateway.Server.{Server}
use smtp_gateway.Response.{is_ok}
use smtp_gateway.Session.{
  Callback, panicked, returned, Tx, Effect, sent, write_failed, hello_called, mail_called,
  rcpt_called, data_called, stored, Session, phase_mail, phase_rcpt,
}
use smtp_gateway.Session.Greeting.{is_some}

-- What a callback may rely on: the client has greeted, under TLS where that is required.
abbrev pub Permitted : Server → Tx → Type 0
Permitted srv tx = (is_nil tx.helo ≡ false) × ((not srv.require_tls || is_some tx.tls) ≡ true)

-- A size within the limit, where there is one. Limits of 2 ^ 62 and more, near which the sum of two
-- sizes wraps, are left out.
unfoldable pub fits : ℤ → ℕ → Bool
fits max n = not (is_positive max) || leb (2 ^ 62) (pos_part max) || leb n (pos_part max)

-- What each call out of the session satisfies, at the moment that it is made.
abbrev pub IsSound : Server → Effect → Type 0
IsSound srv (mail_called tx r) = Permitted srv tx × IsPath tx.mail_from × (tx.accepted ≡ [])
IsSound srv (rcpt_called tx r) = Permitted srv tx × IsPath tx.mail_from
IsSound srv (data_called tx b r) =
    Permitted srv tx
    × IsPath tx.mail_from
    × (is_nil tx.accepted ≡ false)
    × All IsPath tx.accepted
    × (over_limit srv.max_recipients (pos (length tx.accepted)) ≡ false)
    × (fits srv.max_message_size (length b) ≡ true)
IsSound srv (stored dir from accepted b) =
    (is_nil dir ≡ false)
    × IsPath from
    × (is_nil accepted ≡ false)
    × All IsPath accepted
    × (fits srv.max_message_size (length b) ≡ true)
IsSound srv (sent text) = Unit
IsSound srv (write_failed text) = Unit
IsSound srv (hello_called tx r) = Unit

-- The call of the handler's Data, just before, that a stored message comes from.
abbrev pub Caused : Bytes → List Bytes → Bytes → List Effect → Type 0
Caused from accepted b (data_called tx b' (returned (some r)) ∷ es) =
    (tx.mail_from ≡ from) × (tx.accepted ≡ accepted) × (b' ≡ b) × (is_ok r ≡ true)
Caused from accepted b _ = ⊥

-- Every stored message has such a call.
abbrev pub Backed : List Effect → Type 0
Backed [] = Unit
Backed (stored dir from accepted b ∷ es) = Caused from accepted b es × Backed es
Backed (sent text ∷ es) = Backed es
Backed (write_failed text ∷ es) = Backed es
Backed (hello_called tx r ∷ es) = Backed es
Backed (mail_called tx r ∷ es) = Backed es
Backed (rcpt_called tx r ∷ es) = Backed es
Backed (data_called tx b r ∷ es) = Backed es

-- Whether a call of the handler's Hello with this name was answered with 250.
abbrev pub greets : Bytes → Effect → Bool
greets name (hello_called tx (returned (some r))) = is_ok r && equal tx.helo name
greets name _ = false

-- Whether one of the calls so far was.
abbrev pub welcomed : Bytes → List Effect → Bool
welcomed name [] = false
welcomed name (e ∷ es) = greets name e || welcomed name es

-- Whether the client was welcome with the name that a call hands over, by the calls before.
abbrev pub introduced : Effect → List Effect → Bool
introduced (mail_called tx r) es = welcomed tx.helo es
introduced (rcpt_called tx r) es = welcomed tx.helo es
introduced (data_called tx b r) es = welcomed tx.helo es
introduced _ es = true

abbrev pub all_introduced : List Effect → Bool
all_introduced [] = true
all_introduced (e ∷ es) = introduced e es && all_introduced es

-- Tests rather than propositions, so that a proof may split on them.
pub record Inv {W : Type 0} (srv : Server) (st : Session W) : Type 0 where
  pub room : 0 < st.conn.buffer
  -- The transaction has the TLS state of the connection.
  pub tls_kept : st.tx.tls ≡ st.conn.tls
  -- Outside a BDAT sequence no chunk is left in the buffer.
  pub quiet : (st.in_bdat || is_nil st.conn.body_buf) ≡ true
  -- Inside one the transaction has an accepted recipient.
  pub chunks : (not st.in_bdat || (leb phase_rcpt st.phase && not (is_nil st.tx.accepted))) ≡ true
  -- A sender is set only after a greeting,
  pub greeted : (ltb st.phase phase_mail || not (is_nil st.tx.helo)) ≡ true
  -- and under TLS, where that is required.
  pub secure : (not srv.require_tls || (ltb st.phase phase_mail || is_some st.conn.tls)) ≡ true
  -- The envelope holds short and clean paths, and no more recipients than are allowed.
  pub sender : IsPath st.tx.mail_from
  pub recipients : All IsPath st.tx.accepted
  pub capped : over_limit srv.max_recipients (pos (length st.tx.accepted)) ≡ false
  pub counted : length st.tx.accepted + length st.tx.rejected ≤ length st.tx.rcpts
  -- The chunks so far are within the limit.
  pub bounded : fits srv.max_message_size (length st.conn.body_buf) ≡ true
  -- All calls so far were sound.
  pub sound : All (IsSound srv) st.trace
  -- The name of the greeting was accepted by the handler, and so it was for each call.
  pub welcome : (is_nil st.tx.helo || welcomed st.tx.helo st.trace) ≡ true
  pub known : all_introduced st.trace ≡ true
  -- Every stored message comes from a call of Data that was answered with 250.
  pub backed : Backed st.trace

pub empty-fits : (max : ℤ) → fits max 0 ≡ true
unfolding fits
empty-fits max = ground arith

-- A body that `readDotUnstuffed` returns is within the limit.
pub body-fits :
    (size : ℕ) (max : ℤ) (s : Stream) (b : Bytes)
    → 0 < size
    → (read_dot_unstuffed size max s).0 ≡ body b
    → fits max (length b) ≡ true
unfolding fits
body-fits size (pos zero) s b p e = refl
body-fits size (negsuc n) s b p e = ground arith
body-fits size (pos (suc n)) s b p e = elim (Bool-cases (ltb (suc n) (2 ^ 62))) [
  | inl small ↦
      (let short =
          read_dot_unstuffed-le size (suc n) p
            (let l = ltb→lt (suc n) (2 ^ 62) small in omega arith) s b (omega arith) e in
        ground arith)
  | inr big ↦ ground arith
]

-- A chunk that `handleBdat` lets through leaves the chunks so far within the limit.
pub chunk-fits :
    (max : ℤ) (a size n : ℕ)
    → fits max a ≡ true
    → over_limit max (add_int a size) ≡ false
    → size ≤ max_bdat_chunk
    → n ≡ a + size
    → fits max n ≡ true
unfolding fits
chunk-fits (negsuc m) a size n f o p e = ground arith
chunk-fits (pos m) a size n f o p e = ground arith
