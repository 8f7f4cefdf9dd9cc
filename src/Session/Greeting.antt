-- ===== src/Session/Greeting.antt =====
-- `handleGreeting`, `handleHelo`, `handleEhlo` and `handleStartTLS` of smtp.go.
use smtp_gateway.Base.{
  ℕ, Bool, true, false, ◌&&◌, not, Option, none, some, List, [], ◌∷◌, ◌++◌, is_nil, if◌then◌else◌,
  Bytes, codes,
}
use smtp_gateway.Base.Int.{pos, is_positive}
use smtp_gateway.Wire.{Stream}
use smtp_gateway.Command.{validate_helo_domain}
use smtp_gateway.Response.{Response, format_int, is_ok, bad_seq}
use smtp_gateway.Server.{Server}
use smtp_gateway.Session.{
  Handshake, refused, secured, Tx, Conn, Callback, panicked, returned, Env, Session, new_tx,
}
use smtp_gateway.Session.Calls.{write, call_hello}

abbrev pub is_some {ℓ} : {A : Type ℓ} → Option A → Bool
is_some none = false
is_some (some a) = true

abbrev pub reply : ℕ → Bytes → Option Response
reply code message = some (record { code = pos code; message = message })

abbrev pub eol : Bytes
eol = b'\r' ∷ b'\n' ∷ []

-- The lines of the reply to EHLO.
unfoldable pub extensions : Server → Conn → Tx → List Bytes
unfolding format_int
extensions srv conn next =
    (srv.hostname ++ (codes " Hello " ++ next.helo))
    ∷ codes "PIPELINING"
    ∷ codes "8BITMIME"
    ∷ codes "ENHANCEDSTATUSCODES"
    ∷ codes "SMTPUTF8"
    ∷ codes "CHUNKING"
    ∷ ((if srv.tls_config && not (is_some conn.tls) then codes "STARTTLS" ∷ [] else [])
        ++ (if is_positive srv.max_message_size
            then (codes "SIZE " ++ format_int srv.max_message_size) ∷ []
            else []))

module _ {W : Type 0} (env : Env W) (srv : Server) where
  -- The loop that writes the lines: whether all were written.
  unfoldable pub write_lines : List Bytes → Session W → Bool × Session W
  write_lines [] st = (true, st)
  write_lines (l ∷ []) st = write env (codes "250 " ++ (l ++ eol)) st
  write_lines (l ∷ m ∷ ls) st =
      let (ok, st') = write env (codes "250-" ++ (l ++ eol)) st in
      let rest = write_lines (m ∷ ls) st' in if ok then rest else (false, st')

  abbrev pub label : Bool → Bytes
  label extended = if extended then codes "EHLO" else codes "HELO"

  -- The reply to an accepted greeting.
  unfoldable pub greet : Bool → Tx → Session W → (Option Response × Option Tx) × Session W
  greet false next st = ((reply 250 srv.hostname, some next), st)
  greet true next st =
      let (ok, st') = write_lines (extensions srv st.conn next) st in
      ((none, if ok then some next else none), st')

  -- What follows the callback.
  unfoldable pub greeting_answer :
      Bool → Tx → Callback × Session W → (Option Response × Option Tx) × Session W
  greeting_answer extended next (panicked, st) = ((none, none), st)
  greeting_answer extended next (returned none, st) = ((some bad_seq, none), st)
  greeting_answer extended next (returned (some r), st) =
      if is_ok r then greet extended next st else ((some r, none), st)

  unfoldable pub handle_greeting :
      Bytes → Bool → Session W → (Option Response × Option Tx) × Session W
  handle_greeting args extended st =
      if is_nil args
      then ((reply 501 (codes "5.5.2 " ++ (label extended ++ codes " requires domain")), none), st)
      else if not (validate_helo_domain args)
      then ((reply 501 (codes "5.5.2 Invalid " ++ (label extended ++ codes " domain")), none), st)
      else (let next = record (new_tx srv st.conn) { helo = args } in
          greeting_answer extended next (call_hello env next st))

  abbrev pub handle_helo : Bytes → Session W → (Option Response × Option Tx) × Session W
  handle_helo args = handle_greeting args false

  abbrev pub handle_ehlo : Bytes → Session W → (Option Response × Option Tx) × Session W
  handle_ehlo args = handle_greeting args true

  -- `upgradeToTLS`: new readers and writers, with the default buffer.
  unfoldable pub upgrade_to_tls : ℕ → Stream → Conn → Conn
  upgrade_to_tls state plain conn = record conn { tls = some state; input = plain; buffer = 4096 }

  -- What follows the handshake.
  unfoldable pub starttls_answer :
      Handshake × W → Session W → (Option Response × Option Tx) × Session W
  unfolding upgrade_to_tls new_tx
  starttls_answer (refused rest, w) st =
      ((none, none), record st { world = w; conn = record st.conn { input = rest } })
  starttls_answer (secured state plain, w) st =
      let conn' = upgrade_to_tls state plain st.conn in
      ((none, some (new_tx srv conn')), record st { world = w; conn = conn' })

  -- `handleStartTLS` behind its checks.
  unfoldable pub begin_tls : Bool × Session W → (Option Response × Option Tx) × Session W
  begin_tls (false, st) = ((reply 454 (codes "4.7.0 TLS handshake failed"), none), st)
  begin_tls (true, st) = starttls_answer (env.handshake st.world) st

  abbrev pub ready_to_start : Bytes
  ready_to_start = codes "220 2.0.0 Ready to start TLS" ++ eol

  unfoldable pub handle_starttls : Session W → (Option Response × Option Tx) × Session W
  handle_starttls st =
      if is_some st.conn.tls
      then ((reply 503 (codes "5.5.1 STARTTLS already done"), none), st)
      else if is_nil st.tx.helo
      then ((reply 503 (codes "5.5.1 EHLO required first"), none), st)
      else if not srv.tls_config
      then ((reply 502 (codes "5.5.1 STARTTLS not supported"), none), st)
      else begin_tls (write env ready_to_start st)
