-- ===== src/Session/Ending/Rounds.antt =====
-- The input behind a round of the worker loop, and the end of the connection.
use smtp_gateway.Base.{
  ℕ, zero, suc, ◌<◌, ◌≡◌, ◌⊎◌, inl, inr, refl, ap, ◌∙◌, Bool, true, false, not, ◌||◌, Option, none,
  some, length, Bytes, arith, if◌then◌else◌,
}
use smtp_gateway.Server.{Server}
use smtp_gateway.Wire.{Stream, LineResult, line, line_too_long, line_error, read_line}
use smtp_gateway.Wire.Line.Shorter.{read_line-Shorter, Shorter}
use smtp_gateway.Wire.Body.{too_long}
use smtp_gateway.Command.{parse_bdat_args, split_verb}
use smtp_gateway.Response.{Response, string, goodbye}
use smtp_gateway.Session.{Env, Session, reset_body_buf}
use smtp_gateway.Session.Greeting.{is_some, handle_starttls}
use smtp_gateway.Session.Envelope.{handle_mail}
use smtp_gateway.Session.Content.{with_input, handle_data, handle_bdat}
use smtp_gateway.Session.Loop.{
  verb_of, Verb, helo, ehlo, starttls, mail, rcpt, data_verb, bdat, rset, noop, help, vrfy, expn,
  quit, unknown, Command, command, too_long, abandon, adopt, advance_mail, ended_data, ended_bdat,
  dispatch, process, answer, command_of, turn, listen, round, serve, shut_down,
}
use smtp_gateway.Session.Transaction.Beginnings.{dispatch-Greets}
use smtp_gateway.Session.Ending.Contents.{data-Shrinks, bdat_parsed-Shrinks}
use smtp_gateway.Session.Ending.Envelopes.{mail-Shrinks, rcpt-Shrinks}
use smtp_gateway.Session.Ending.{
  Shrinks, Shrinks-refl, Shrinks-trans, write-Shrinks, end_transaction-Shrinks,
}

module _ {W : Type 0} (env : Env W) (srv : Server) where
  abbrev Reads : Session W → Option Response × Session W → Type 0
  Reads st c = Shrinks st c.1

  greeting-Shrinks :
      (args : Bytes) (extended : Bool) (st : Session W)
      → Reads st (dispatch env srv (if extended then ehlo else helo) args st)
  greeting-Shrinks args extended st = elim (dispatch-Greets env srv args extended st) [
    | inl same ↦ ground (arith, same.conn)
    | inr (begun, n, v, x) ↦ unfold reset_body_buf in ground (arith, begun.conn)
  ]

  -- STARTTLS is not possible.
  abbrev pub Fixed : Session W → Type 0
  Fixed st = (is_some st.conn.tls || not srv.tls_config) ≡ true

  starttls-Shrinks :
      (args : Bytes) (st : Session W) → Fixed st → Reads st (dispatch env srv starttls args st)
  unfolding dispatch handle_starttls adopt
  starttls-Shrinks args st h = ground arith

  advance-Shrinks :
      (st : Session W) (c : Option Response × Session W)
      → Reads st c
      → Reads st (advance_mail env srv c)
  advance-Shrinks st (none, st') h = h
  advance-Shrinks st (some r, st') h = ground arith

  data-ended-Shrinks :
      (st : Session W) (c : Option Response × Session W)
      → Reads st c
      → Reads st (ended_data env srv c)
  data-ended-Shrinks st (none, st') h = h
  data-ended-Shrinks st (some r, st') h =
      Shrinks-trans env srv h (end_transaction-Shrinks env srv 1 st')

  bdat-ended-Shrinks :
      (st : Session W) (c : (Option Response × Bool) × Session W)
      → Shrinks st c.1
      → Reads st (ended_bdat env srv c)
  bdat-ended-Shrinks st ((none, ended), st') h = h
  bdat-ended-Shrinks st ((some r, ended), st') h =
      let both = Shrinks-trans env srv h (end_transaction-Shrinks env srv 1 st') in
      ground (arith, both)

  dispatch-Shrinks :
      (v : Verb) (args : Bytes) (st : Session W)
      → 0 < st.conn.buffer
      → Fixed st
      → Reads st (dispatch env srv v args st)
  unfolding dispatch handle_bdat
  dispatch-Shrinks helo args st p h = greeting-Shrinks args false st
  dispatch-Shrinks ehlo args st p h = greeting-Shrinks args true st
  dispatch-Shrinks starttls args st p h = starttls-Shrinks args st h
  dispatch-Shrinks mail args st p h =
      advance-Shrinks st (handle_mail env srv args st) (mail-Shrinks env srv args st)
  dispatch-Shrinks rcpt args st p h = rcpt-Shrinks env srv args st
  dispatch-Shrinks data_verb args st p h =
      data-ended-Shrinks st (handle_data env srv st) (data-Shrinks env srv st p)
  dispatch-Shrinks bdat args st p h =
      bdat-ended-Shrinks st (handle_bdat env srv args st)
        (bdat_parsed-Shrinks env srv (parse_bdat_args env.unicode_upper args) st)
  dispatch-Shrinks rset args st p h =
      (let e = end_transaction-Shrinks env srv 0 st in
        record { input = e.input; tls = e.tls; buffer = e.buffer })
  dispatch-Shrinks noop args st p h = Shrinks-refl env srv st
  dispatch-Shrinks help args st p h = Shrinks-refl env srv st
  dispatch-Shrinks vrfy args st p h = Shrinks-refl env srv st
  dispatch-Shrinks expn args st p h = Shrinks-refl env srv st
  dispatch-Shrinks quit args st p h =
      (let e = write-Shrinks env srv (string goodbye) st in
        record { input = e.input; tls = e.tls; buffer = e.buffer })
  dispatch-Shrinks unknown args st p h = Shrinks-refl env srv st

  abandon-Shrinks : (st : Session W) → Shrinks st (abandon env srv st)
  unfolding abandon
  abandon-Shrinks st =
      let e = end_transaction-Shrinks env srv 1 st in
      record { input = e.input; tls = e.tls; buffer = e.buffer }

  process-Shrinks :
      (c : Command) (st : Session W)
      → 0 < st.conn.buffer
      → Fixed st
      → Reads st (process env srv c st)
  unfolding process
  process-Shrinks too_long st p h = ground (arith, abandon-Shrinks st)
  process-Shrinks (command v args) st p h =
      ground (arith, abandon-Shrinks st, dispatch-Shrinks v args st p h)

  answer-Shrinks :
      (st : Session W) (c : Option Response × Session W)
      → Reads st c
      → Shrinks st (answer env srv c)
  unfolding answer
  answer-Shrinks st (none, st') h = h
  answer-Shrinks st (some r, st') h =
      let both = Shrinks-trans env srv h (write-Shrinks env srv (string r) st') in
      ground (arith, both)

  -- A round ends the connection, or takes a line off the input.
  abbrev Goes : Session W → Session W → Type 0
  Goes st st' =
      (st'.closed ≡ true)
      ⊎ ((length st'.conn.input < length st.conn.input)
          × (st'.conn.tls ≡ st.conn.tls)
          × (st'.conn.buffer ≡ st.conn.buffer))

  turn-Goes :
      (r : LineResult) (s : Stream) (st : Session W)
      → 0 < st.conn.buffer
      → Fixed st
      → Shorter r s st.conn.input
      → Goes st (turn env srv (command_of env srv r) (with_input env srv s st))
  unfolding turn command_of
  turn-Goes (line_error e) s st p h k = inl refl
  turn-Goes line_too_long s st p h k =
      let st' : Session W = with_input env srv s st in
      let e =
        answer-Shrinks st' (process env srv too_long st') (process-Shrinks too_long st' p h) in
      inr (omega (arith, k, e.input), e.tls, e.buffer)
  turn-Goes (line l) s st p h k =
      let st' : Session W = with_input env srv s st in
      let v : Bytes × Bytes = split_verb env.unicode_upper l in
      let c : Command = command (verb_of v.0) v.1 in
      let e = answer-Shrinks st' (process env srv c st') (process-Shrinks c st' p h) in
      inr (omega (arith, k, e.input), e.tls, e.buffer)

  listen-Goes : (st : Session W) → 0 < st.conn.buffer → Fixed st → Goes st (listen env srv st)
  unfolding listen
  listen-Goes st p h =
      let c : LineResult × Stream = read_line st.conn.buffer st.conn.input in
      turn-Goes c.0 c.1 st p h (read_line-Shorter st.conn.buffer st.conn.input p)

  round-Goes : (st : Session W) → 0 < st.conn.buffer → Fixed st → Goes st (round env srv st)
  unfolding round shut_down
  round-Goes st p h = let c : Bool × W = env.cancelled st.world in either c.0 c.1
    where
      either :
          (stop : Bool) (w : W)
          → (let st' = record st { world = w } in
              Goes st (if stop then shut_down env srv st' else listen env srv st'))
      either true w = inl refl
      either false w = listen-Goes (record st { world = w }) p h

  serve-closed : (n : ℕ) (st : Session W) → st.closed ≡ true → (serve env srv n st).closed ≡ true
  unfolding serve
  serve-closed zero st e = e
  serve-closed (suc n) st e = ground arith

  serve_next :
      (n : ℕ) (st : Session W)
      → (serve env srv n (round env srv st)).closed ≡ true
      → (serve env srv (suc n) st).closed ≡ true
  unfolding serve
  serve_next n st e = ground arith

  -- A connection on which STARTTLS is not possible, since it has TLS already or the server has no
  -- TLS configuration, with a reader's buffer that is not empty, is closed after one round more
  -- than the client has sent items, whatever the handler and the network do.
  pub closed-serve :
      (n : ℕ) (st : Session W)
      → length st.conn.input < n
      → 0 < st.conn.buffer
      → Fixed st
      → (serve env srv n st).closed ≡ true
  closed-serve zero st l p h = absurd (omega arith)
  closed-serve (suc n) st l p h = serve_next n st (elim (round-Goes st p h) [
    | inl e ↦ serve-closed n (round env srv st) e
    | inr (less, tls, buffer) ↦
        closed-serve n (round env srv st) (omega (arith, less)) (omega (arith, buffer, p))
          (ap (λ t. is_some t || not srv.tls_config) tls ∙ h)
  ])
