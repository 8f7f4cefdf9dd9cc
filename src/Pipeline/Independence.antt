-- ===== src/Pipeline/Independence.antt =====
-- What the worker does for a command behind which the reader goes on leaves the reader `conn.r`
-- alone: handlers of smtp.go.
use smtp_gateway.Base.{
  ℕ, ◌≡◌, refl, Bool, true, false, Option, none, some, List, [], ◌∷◌, ◌++◌, Bytes, codes, arith, ap,
  if◌then◌else◌,
}
use smtp_gateway.Wire.{Stream}
use smtp_gateway.Command.{Params, parse_mail_from, parse_rcpt_to}
use smtp_gateway.Response.{Response, string}
use smtp_gateway.Server.{Server}
use smtp_gateway.Session.{
  Env, Session, Callback, panicked, returned, Tx, phase_helo, phase_init, new_tx, reset_tx,
  reset_body_buf,
}
use smtp_gateway.Session.Calls.{write, call_hello, call_mail_from, call_rcpt_to}
use smtp_gateway.Session.Greeting.{
  extensions, write_lines, greet, greeting_answer, handle_greeting, eol,
}
use smtp_gateway.Session.Envelope.{
  set_sender, mail_parsed, handle_mail, accept, reject, rcpt_answer, present, handle_rcpt,
}
use smtp_gateway.Session.Loop.{
  helo, ehlo, starttls, mail, rcpt, data_verb, bdat, rset, noop, help, vrfy, expn, quit, unknown,
  Command, command, too_long, end_transaction, abandon, adopt, greeted, advance_mail, dispatch,
  Verb, process, answer, shut_down,
}
use smtp_gateway.Pipeline.{pauses}

-- The session with another reader.
abbrev pub with_reader : {W : Type 0} → Stream → ℕ → Session W → Session W
with_reader s b st = record st { conn = record st.conn { input = s; buffer = b } }

abbrev pub carry : {W A : Type 0} → Stream → ℕ → A × Session W → A × Session W
carry s b (a, st) = (a, with_reader s b st)

module _ {W : Type 0} (env : Env W) (srv : Server) (s : Stream) (b : ℕ) where
  write-carry :
      (text : Bytes) (st : Session W)
      → write env text (with_reader s b st) ≡ carry s b (write env text st)
  unfolding write
  write-carry text st = refl

  if-carry :
      {A : Type 0} (c : Bool) (x y : A × Session W)
      → (if c then carry s b x else carry s b y) ≡ carry s b (if c then x else y)
  if-carry true x y = refl
  if-carry false x y = refl

  write_lines-carry :
      (ls : List Bytes) (st : Session W)
      → write_lines env srv ls (with_reader s b st) ≡ carry s b (write_lines env srv ls st)
  unfolding write_lines
  write_lines-carry [] st = refl
  write_lines-carry (l ∷ []) st = write-carry (codes "250 " ++ (l ++ eol)) st
  write_lines-carry (l ∷ m ∷ ls) st =
      let w : Bool × Session W = write env (codes "250-" ++ (l ++ eol)) st in
      rw (write-carry (codes "250-" ++ (l ++ eol)) st, write_lines-carry (m ∷ ls) w.1)
        (if-carry w.0 (write_lines env srv (m ∷ ls) w.1) (false, w.1))

  extensions-carry :
      (next : Tx) (st : Session W)
      → extensions srv (with_reader s b st).conn next ≡ extensions srv st.conn next
  unfolding extensions
  extensions-carry next st = refl

  greet-carry :
      (extended : Bool) (next : Tx) (st : Session W)
      → greet env srv extended next (with_reader s b st)
        ≡ carry s b (greet env srv extended next st)
  unfolding greet
  greet-carry false next st = refl
  greet-carry true next st =
      rw (extensions-carry next st, write_lines-carry (extensions srv st.conn next) st) refl

  greeting_answer-carry :
      (extended : Bool) (next : Tx) (r : Callback × Session W)
      → greeting_answer env srv extended next (carry s b r)
        ≡ carry s b (greeting_answer env srv extended next r)
  unfolding greeting_answer
  greeting_answer-carry extended next (panicked, st) = refl
  greeting_answer-carry extended next (returned none, st) = refl
  greeting_answer-carry extended next (returned (some r), st) =
      ground (arith, greet-carry extended next st)

  handle_greeting-carry :
      (args : Bytes) (extended : Bool) (st : Session W)
      → handle_greeting env srv args extended (with_reader s b st)
        ≡ carry s b (handle_greeting env srv args extended st)
  unfolding handle_greeting call_hello new_tx
  handle_greeting-carry args extended st =
      let next : Tx = record (new_tx srv st.conn) { helo = args } in
      ground (arith, greeting_answer-carry extended next (call_hello env next st))

  mail_parsed-carry :
      (o : Option (Bytes × Params)) (st : Session W)
      → mail_parsed env srv o (with_reader s b st) ≡ carry s b (mail_parsed env srv o st)
  unfolding mail_parsed set_sender call_mail_from
  mail_parsed-carry none st = refl
  mail_parsed-carry (some (from, ps)) st = ground arith

  handle_mail-carry :
      (args : Bytes) (st : Session W)
      → handle_mail env srv args (with_reader s b st) ≡ carry s b (handle_mail env srv args st)
  unfolding handle_mail
  handle_mail-carry args st =
      ground (arith, mail_parsed-carry (parse_mail_from env.unicode_upper args) st)

  rcpt_answer-carry :
      (to : Bytes) (r : Callback × Session W)
      → rcpt_answer env srv to (carry s b r) ≡ carry s b (rcpt_answer env srv to r)
  unfolding rcpt_answer accept reject
  rcpt_answer-carry to (panicked, st) = refl
  rcpt_answer-carry to (returned none, st) = refl
  rcpt_answer-carry to (returned (some r), st) = ground arith

  handle_rcpt-carry :
      (args : Bytes) (st : Session W)
      → handle_rcpt env srv args (with_reader s b st) ≡ carry s b (handle_rcpt env srv args st)
  unfolding handle_rcpt present call_rcpt_to
  handle_rcpt-carry args st =
      let to : Bytes = parse_rcpt_to args in
      let st' : Session W = record (present env srv to st) { phase = 3 } in
      ground (arith, rcpt_answer-carry to (call_rcpt_to env st'))

  adopt-carry :
      (phase : ℕ) (o : Option Tx) (st : Session W)
      → adopt env srv phase o (with_reader s b st) ≡ with_reader s b (adopt env srv phase o st)
  unfolding adopt
  adopt-carry phase none st = refl
  adopt-carry phase (some next) st = refl

  greeted-carry :
      (phase : ℕ) (r : (Option Response × Option Tx) × Session W)
      → greeted env srv phase (carry s b r) ≡ carry s b (greeted env srv phase r)
  greeted-carry phase ((o, next), st) = ap (λ t. (o, t)) (adopt-carry phase next st)

  advance-carry :
      (r : Option Response × Session W)
      → advance_mail env srv (carry s b r) ≡ carry s b (advance_mail env srv r)
  advance-carry (none, st) = refl
  advance-carry (some r, st) = ground arith

  quit-carry :
      (args : Bytes) (st : Session W)
      → dispatch env srv quit args (with_reader s b st) ≡ carry s b (dispatch env srv quit args st)
  unfolding dispatch write
  quit-carry args st = refl

  end-carry :
      (phase : ℕ) (st : Session W)
      → end_transaction env srv phase (with_reader s b st)
        ≡ with_reader s b (end_transaction env srv phase st)
  unfolding end_transaction reset_tx new_tx reset_body_buf
  end-carry phase st = refl

  dispatch-carry :
      (v : Verb) (args : Bytes) (st : Session W)
      → pauses (command v args) ≡ false
      → dispatch env srv v args (with_reader s b st) ≡ carry s b (dispatch env srv v args st)
  unfolding dispatch
  dispatch-carry helo args st p =
      rw (handle_greeting-carry args false st)
        (greeted-carry phase_helo (handle_greeting env srv args false st))
  dispatch-carry ehlo args st p =
      rw (handle_greeting-carry args true st)
        (greeted-carry phase_helo (handle_greeting env srv args true st))
  dispatch-carry starttls args st p = absurd (unfold pauses in ground arith)
  dispatch-carry mail args st p =
      rw (handle_mail-carry args st) (advance-carry (handle_mail env srv args st))
  dispatch-carry rcpt args st p = handle_rcpt-carry args st
  dispatch-carry data_verb args st p = absurd (unfold pauses in ground arith)
  dispatch-carry bdat args st p = absurd (unfold pauses in ground arith)
  dispatch-carry rset args st p = rw (end-carry phase_init st) refl
  dispatch-carry noop args st p = refl
  dispatch-carry help args st p = refl
  dispatch-carry vrfy args st p = refl
  dispatch-carry expn args st p = refl
  dispatch-carry quit args st p = quit-carry args st
  dispatch-carry unknown args st p = refl

  abandon-carry :
      (st : Session W) → abandon env srv (with_reader s b st) ≡ with_reader s b (abandon env srv st)
  unfolding abandon
  abandon-carry st = rw (end-carry phase_helo st) refl

  -- A command behind which the reader goes on is carried out alike whatever the reader is.
  pub process-carry :
      (c : Command) (st : Session W)
      → pauses c ≡ false
      → process env srv c (with_reader s b st) ≡ carry s b (process env srv c st)
  unfolding process
  process-carry too_long st p = ground (arith, abandon-carry st)
  process-carry (command v args) st p = ground (arith, abandon-carry st, dispatch-carry v args st p)

  pub answer-carry :
      (o : Option Response) (st : Session W)
      → answer env srv (o, with_reader s b st) ≡ with_reader s b (answer env srv (o, st))
  unfolding answer
  answer-carry none st = refl
  answer-carry (some r) st = ground (arith, write-carry (string r) st)

  pub shut_down-carry :
      (st : Session W)
      → shut_down env srv (with_reader s b st) ≡ with_reader s b (shut_down env srv st)
  unfolding shut_down write
  shut_down-carry st = refl
