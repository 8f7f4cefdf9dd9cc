-- ===== src/Session/Invariant/Greetings.antt =====
-- The invariant over HELO, EHLO, STARTTLS and MAIL.
use smtp_gateway.Base.{
  equal_refl, refl, not, ◌||◌, is_nil, ◌++◌, codes, ℕ, ◌<◌, ◌≡◌, Bool, true, false, Bytes, Option,
  none, some, arith, [], ◌∷◌, List,
}
use smtp_gateway.Server.{Server}
use smtp_gateway.Command.{Params, parse_mail_from}
use smtp_gateway.Command.Address.{IsPath, empty-IsPath, parse_mail_from-IsPath}
use smtp_gateway.Response.{Response, is_ok}
use smtp_gateway.Session.{
  Handshake, refused, secured, Env, Session, Callback, panicked, returned, Tx, new_tx,
}
use smtp_gateway.Session.Calls.{or_bad_seq, write, call_hello, call_mail_from}
use smtp_gateway.Session.Greeting.{
  is_some, reply, begin_tls, ready_to_start, handle_greeting, greeting_answer, greet, extensions,
  write_lines, handle_starttls, starttls_answer,
}
use smtp_gateway.Session.Envelope.{size_check, handle_mail, mail_parsed, set_sender}
use smtp_gateway.Session.Loop
use smtp_gateway.Session.Invariant.{Inv, empty-fits, welcomed}

module _ {W : Type 0} (env : Env W) (srv : Server) where
  pub write-Inv : (text : Bytes) (st : Session W) → Inv srv st → Inv srv (write env text st).1
  unfolding write
  write-Inv text st h = ground arith

  write_lines-Inv :
      (ls : List Bytes) (st : Session W) → Inv srv st → Inv srv (write_lines env srv ls st).1
  unfolding write_lines
  write_lines-Inv [] st h = h
  write_lines-Inv (l ∷ []) st h = write-Inv (codes "250 " ++ (l ++ b'\r' ∷ b'\n' ∷ [])) st h
  write_lines-Inv (l ∷ m ∷ ls) st h =
      let text : Bytes = codes "250-" ++ (l ++ b'\r' ∷ b'\n' ∷ []) in
      let c : Bool × Session W = write env text st in
      let h' : Inv srv c.1 = write-Inv text st h in
      ground (arith, h', write_lines-Inv (m ∷ ls) c.1 h')

  greet-Inv :
      (extended : Bool) (next : Tx) (st : Session W)
      → Inv srv st
      → Inv srv (greet env srv extended next st).1
  unfolding greet
  greet-Inv false next st h = h
  greet-Inv true next st h = write_lines-Inv (extensions srv st.conn next) st h

  -- A transaction that is adopted after a greeting or a handshake.
  abbrev pub Fresh : Tx → Session W → Type 0
  Fresh next st =
      (next.tls ≡ st.conn.tls)
      × (next.mail_from ≡ [])
      × (next.accepted ≡ [])
      × (next.rejected ≡ [])
      × ((is_nil next.helo || welcomed next.helo st.trace) ≡ true)

  abbrev pub IsFresh : Option Tx → Session W → Type 0
  IsFresh none st = Unit
  IsFresh (some next) st = Fresh next st

  call_hello-Inv : (tx : Tx) (st : Session W) → Inv srv st → Inv srv (call_hello env tx st).1
  unfolding call_hello
  call_hello-Inv tx st h = ground arith

  pub adopt-Inv :
      (phase : ℕ) (next : Option Tx) (st : Session W)
      → phase < 2
      → Inv srv st
      → IsFresh next st
      → Inv srv (Loop.adopt env srv phase next st)
  unfolding Loop.adopt
  adopt-Inv phase none st p h f = h
  adopt-Inv phase (some next) st p h f =
      ground (arith, empty-IsPath, empty-fits srv.max_message_size)

  write_lines-conn :
      (ls : List Bytes) (st : Session W) → (write_lines env srv ls st).1.conn ≡ st.conn
  unfolding write_lines write
  write_lines-conn [] st = refl
  write_lines-conn (l ∷ []) st = refl
  write_lines-conn (l ∷ m ∷ ls) st = ground (
    arith,
    write_lines-conn (m ∷ ls) (write env (codes "250-" ++ (l ++ b'\r' ∷ b'\n' ∷ [])) st).1,
  )

  welcomed-write :
      (name text : Bytes) (st : Session W)
      → welcomed name (write env text st).1.trace ≡ welcomed name st.trace
  unfolding write
  welcomed-write name text st = ground arith

  -- What is written is no greeting of the handler's.
  welcomed-write_lines :
      (name : Bytes) (ls : List Bytes) (st : Session W)
      → welcomed name (write_lines env srv ls st).1.trace ≡ welcomed name st.trace
  unfolding write_lines
  welcomed-write_lines name [] st = refl
  welcomed-write_lines name (l ∷ []) st =
      welcomed-write name (codes "250 " ++ (l ++ b'\r' ∷ b'\n' ∷ [])) st
  welcomed-write_lines name (l ∷ m ∷ ls) st =
      let text : Bytes = codes "250-" ++ (l ++ b'\r' ∷ b'\n' ∷ []) in
      ground (
        arith,
        welcomed-write name text st,
        welcomed-write_lines name (m ∷ ls) (write env text st).1,
      )

  -- The greeting leaves the invariant, and what it hands over is fresh.
  abbrev pub Greeted : (Option Response × Option Tx) × Session W → Type 0
  Greeted ((r, next), st) = Inv srv st × IsFresh next st

  greet-Greeted :
      (extended : Bool) (next : Tx) (st : Session W)
      → Inv srv st
      → Fresh next st
      → Greeted (greet env srv extended next st)
  unfolding greet
  greet-Greeted false next st h f = (h, f)
  greet-Greeted true next st h f = ground (
    arith,
    write_lines-Inv (extensions srv st.conn next) st,
    write_lines-conn (extensions srv st.conn next) st,
    welcomed-write_lines next.helo (extensions srv st.conn next) st,
  )

  -- A transaction that has the TLS state of the connection, and no envelope.
  abbrev Blank : Tx → Session W → Type 0
  Blank next st =
      (next.tls ≡ st.conn.tls) × (next.mail_from ≡ []) × (next.accepted ≡ []) × (next.rejected ≡ [])

  answer-Greeted :
      (extended : Bool) (next : Tx) (r : Callback) (st : Session W)
      → Inv srv st
      → Blank next st
      → ((x : Response)
          → r ≡ returned (some x)
          → is_ok x ≡ true
          → welcomed next.helo st.trace ≡ true)
      → Greeted (greeting_answer env srv extended next (r, st))
  unfolding greeting_answer
  answer-Greeted extended next panicked st h f c = (h, tt)
  answer-Greeted extended next (returned none) st h f c = (h, tt)
  answer-Greeted extended next (returned (some r)) st h f c =
      ground (arith, greet-Greeted extended next st, λ (k : is_ok r ≡ true). c r refl k)

  call_hello-Welcomed :
      (tx : Tx) (st : Session W) (x : Response)
      → (call_hello env tx st).0 ≡ returned (some x)
      → is_ok x ≡ true
      → welcomed tx.helo (call_hello env tx st).1.trace ≡ true
  unfolding call_hello
  call_hello-Welcomed tx st x e k = rw (e, k, equal_refl tx.helo) refl

  pub handle_greeting-Greeted :
      (args : Bytes) (extended : Bool) (st : Session W)
      → Inv srv st
      → Greeted (handle_greeting env srv args extended st)
  unfolding handle_greeting call_hello new_tx
  handle_greeting-Greeted args extended st h =
      let next : Tx = record (new_tx srv st.conn) { helo = args } in
      let c : Callback × Session W = call_hello env next st in
      ground (
        arith,
        answer-Greeted extended next c.0 c.1 (call_hello-Inv next st h) (refl, refl, refl, refl)
            (call_hello-Welcomed next st),
      )

  abbrev pub adopted : ℕ → (Option Response × Option Tx) × Session W → Session W
  adopted phase ((r, next), st) = Loop.adopt env srv phase next st

  -- After a handshake the transaction has the new TLS state.
  starttls_answer-Inv :
      (o : Handshake) (w : W) (st : Session W)
      → Inv srv st
      → Inv srv (adopted 0 (starttls_answer env srv (o, w) st))
  unfolding starttls_answer Loop.adopt
  starttls_answer-Inv (refused rest) w st h = ground arith
  starttls_answer-Inv (secured state plain) w st h =
      ground (arith, empty-IsPath, empty-fits srv.max_message_size)

  begin_tls-Inv :
      (ok : Bool) (st : Session W) → Inv srv st → Inv srv (adopted 0 (begin_tls env srv (ok, st)))
  unfolding begin_tls Loop.adopt
  begin_tls-Inv false st h = h
  begin_tls-Inv true st h = let (o, w) = env.handshake st.world in starttls_answer-Inv o w st h

  pub starttls-Inv :
      (st : Session W) → Inv srv st → Inv srv (adopted 0 (handle_starttls env srv st))
  unfolding handle_starttls Loop.adopt
  starttls-Inv st h =
      let c : Bool × Session W = write env (ready_to_start env srv) st in
      ground (arith, begin_tls-Inv c.0 c.1 (write-Inv (ready_to_start env srv) st h))

  -- The preconditions of MAIL.
  record Ready (st : Session W) : Type 0 where
    before : st.phase < 2
    named : is_nil st.tx.helo ≡ false
    safe : (not srv.require_tls || is_some st.conn.tls) ≡ true

  -- After the sender is set there is no recipient.
  record Set (st : Session W) : Type 0 where
    ready : Ready st
    none_yet : st.tx.accepted ≡ []

  set_sender-Inv :
      (from : Bytes) (ps : Params) (st : Session W)
      → Inv srv st
      → Ready st
      → IsPath from
      → Inv srv (set_sender env srv from ps st) × Set (set_sender env srv from ps st)
  unfolding set_sender
  set_sender-Inv from ps st h r p = ground arith

  call_mail_from-Inv :
      (st : Session W)
      → Inv srv st
      → Set st
      → Inv srv (call_mail_from env st).1 × Ready (call_mail_from env st).1
  unfolding call_mail_from
  call_mail_from-Inv st h r = ground arith

  advanced-Inv :
      (r : Option Response) (st : Session W)
      → Inv srv st
      → Ready st
      → Inv srv (Loop.advance_mail env srv (r, st)).1
  advanced-Inv none st h r = h
  advanced-Inv (some x) st h r = ground arith

  mail_parsed-Inv :
      (o : Option (Bytes × Params)) (st : Session W)
      → Inv srv st
      → Ready st
      → ((from : Bytes) (ps : Params) → o ≡ some (from, ps) → IsPath from)
      → Inv srv (Loop.advance_mail env srv (mail_parsed env srv o st)).1
  unfolding mail_parsed
  mail_parsed-Inv none st h r p =
      advanced-Inv (reply 501 (codes "5.5.4 Bad MAIL FROM syntax")) st h r
  mail_parsed-Inv (some (from, ps)) st h r p =
      let sent = set_sender-Inv from ps st h r (p from ps refl) in
      let st' : Session W = set_sender env srv from ps st in
      let called = call_mail_from-Inv st' sent.0 sent.1 in
      let c : Callback × Session W = call_mail_from env st' in
      ground (
        arith,
        advanced-Inv (size_check srv.max_message_size ps) st' sent.0 sent.1.ready,
        advanced-Inv (or_bad_seq c.0) c.1 called.0 called.1,
      )

  pub mail-Inv :
      (args : Bytes) (st : Session W)
      → Inv srv st
      → Inv srv (Loop.advance_mail env srv (handle_mail env srv args st)).1
  unfolding handle_mail
  mail-Inv args st h = ground (
    arith,
    λ (r : Ready st).
        mail_parsed-Inv (parse_mail_from env.unicode_upper args) st h r
          (λ from ps e. parse_mail_from-IsPath env.unicode_upper args from ps e),
  )
