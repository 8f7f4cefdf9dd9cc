-- ===== src/Session/Transaction/Beginnings.antt =====
-- HELO, EHLO and the beginning of a transaction.
use smtp_gateway.Base.{
  ◌≡◌, ◌⊎◌, inl, inr, refl, ◌∙◌, true, false, not, Bool, Option, none, some, [], ◌∷◌, Bytes, is_nil,
  arith, List, if◌then◌else◌, codes, ◌++◌,
}
use smtp_gateway.Base.Int.{pos}
use smtp_gateway.Server.{Server}
use smtp_gateway.Command.{validate_helo_domain}
use smtp_gateway.Response.{Response, is_ok}
use smtp_gateway.Session.{Env, Session, Tx, Callback, panicked, returned, new_tx, reset_body_buf}
use smtp_gateway.Session.Calls.{write, call_hello}
use smtp_gateway.Session.Greeting.{
  label, extensions, write_lines, greet, greeting_answer, handle_greeting,
}
use smtp_gateway.Session.Loop.{ehlo, helo, dispatch, adopt, greeted}

-- The variables of the transaction are as they were.
pub record IsSame {W : Type 0} (st st' : Session W) : Type 0 where
  pub conn : st'.conn ≡ st.conn
  pub tx : st'.tx ≡ st.tx
  pub phase : st'.phase ≡ st.phase
  pub in_bdat : st'.in_bdat ≡ st.in_bdat

-- A transaction is begun in which only the name `helo` is set, on the connection of `st`.
pub record IsBegun {W : Type 0} (srv : Server) (helo : Bytes) (st st' : Session W) : Type 0 where
  pub tx : st'.tx ≡ (record (new_tx srv st.conn) { helo = helo })
  pub phase : st'.phase ≡ 1
  pub in_bdat : st'.in_bdat ≡ false
  pub conn : st'.conn ≡ reset_body_buf st.conn

module _ {W : Type 0} (env : Env W) (srv : Server) where
  IsSame-trans : {st st' st'' : Session W} → IsSame st st' → IsSame st' st'' → IsSame st st''
  IsSame-trans a b = record {
    conn = b.conn ∙ a.conn;
    tx = b.tx ∙ a.tx;
    phase = b.phase ∙ a.phase;
    in_bdat = b.in_bdat ∙ a.in_bdat;
  }

  write-IsSame : (text : Bytes) (st : Session W) → IsSame st (write env text st).1
  unfolding write
  write-IsSame text st = record { conn = refl; tx = refl; phase = refl; in_bdat = refl }

  either-IsSame :
      {st : Session W} (ok : Bool) (a b : Bool × Session W)
      → IsSame st a.1
      → IsSame st b.1
      → IsSame st (if ok then a else b).1
  either-IsSame true a b ha hb = ha
  either-IsSame false a b ha hb = hb

  write_lines-IsSame : (ls : List Bytes) (st : Session W) → IsSame st (write_lines env srv ls st).1
  unfolding write_lines
  write_lines-IsSame [] st = record { conn = refl; tx = refl; phase = refl; in_bdat = refl }
  write_lines-IsSame (l ∷ []) st = write-IsSame (codes "250 " ++ (l ++ b'\r' ∷ b'\n' ∷ [])) st
  write_lines-IsSame (l ∷ m ∷ ls) st =
      let text : Bytes = codes "250-" ++ (l ++ b'\r' ∷ b'\n' ∷ []) in
      let first = write-IsSame text st in
      let both = IsSame-trans first (write_lines-IsSame (m ∷ ls) (write env text st).1) in
      let c : Bool × Session W = write env text st in
      either-IsSame c.0 (write_lines env srv (m ∷ ls) c.1) (false, c.1) both first

  -- What the greeting hands over, behind the frame of what it leaves.
  abbrev Hands : Tx → Session W → (Option Response × Option Tx) × Session W → Type 0
  Hands next st ((r, o), st') = IsSame st st' × ((o ≡ none) ⊎ (o ≡ some next))

  greet-Hands :
      (extended : Bool) (next : Tx) (st : Session W)
      → Hands next st (greet env srv extended next st)
  unfolding greet
  greet-Hands false next st =
      (record { conn = refl; tx = refl; phase = refl; in_bdat = refl }, inr refl)
  greet-Hands true next st =
      let ls = extensions srv st.conn next in
      let c : Bool × Session W = write_lines env srv ls st in (write_lines-IsSame ls st, handed c.0)
    where
      handed :
          (ok : Bool)
          → ((if ok then some next else none) ≡ none)
            ⊎ ((if ok then some next else none) ≡ some next)
      handed true = inr refl
      handed false = inl refl

  -- What follows the callback: the transaction is handed over only behind a 250.
  abbrev Answers : Tx → Callback → Session W → (Option Response × Option Tx) × Session W → Type 0
  Answers next c st ((r, o), st') =
      IsSame st st'
      × ((o ≡ none)
          ⊎ ((o ≡ some next) × ((x : Response) × (c ≡ returned (some x)) × (is_ok x ≡ true))))

  greeting_answer-Answers :
      (extended : Bool) (next : Tx) (c : Callback) (st : Session W)
      → Answers next c st (greeting_answer env srv extended next (c, st))
  unfolding greeting_answer
  greeting_answer-Answers extended next panicked st =
      (record { conn = refl; tx = refl; phase = refl; in_bdat = refl }, inl refl)
  greeting_answer-Answers extended next (returned none) st =
      (record { conn = refl; tx = refl; phase = refl; in_bdat = refl }, inl refl)
  greeting_answer-Answers extended next (returned (some x)) st = go (is_ok x) refl
    where
      go :
          (ok : Bool)
          → is_ok x ≡ ok
          → Answers next
              (returned (some x))
              st
              (if ok then greet env srv extended next st else ((some x, none), st))
      go false e = (record { conn = refl; tx = refl; phase = refl; in_bdat = refl }, inl refl)
      go true e = (
        (greet-Hands extended next st).0,
        elim (greet-Hands extended next st).1 [ inl n ↦ inl n | inr s ↦ inr (s, (x, refl, e)) ],
      )

  -- What a greeting does to the transaction: nothing, or it begins a new one.
  abbrev pub Greets : Bytes → Session W → Session W → Type 0
  Greets args st st' =
      IsSame st st'
      ⊎ (IsBegun srv args st st'
          × (is_nil args ≡ false)
          × (validate_helo_domain args ≡ true)
          × ((x : Response) × ((env.hello st.world (record (new_tx srv st.conn) { helo = args })).0
                ≡ returned (some x))
              × (is_ok x ≡ true)))

  call_hello-IsSame : (tx : Tx) (st : Session W) → IsSame st (call_hello env tx st).1
  unfolding call_hello
  call_hello-IsSame tx st = record { conn = refl; tx = refl; phase = refl; in_bdat = refl }

  adopt-Begun :
      (args : Bytes) (o : Option Tx) (st st' : Session W)
      → IsSame st st'
      → o ≡ some (record (new_tx srv st.conn) { helo = args })
      → IsBegun srv args st (adopt env srv 1 o st')
  unfolding adopt reset_body_buf
  adopt-Begun args none st st' h e = absurd (ground arith)
  adopt-Begun args (some tx) st st' h e = ground arith

  adopt-Same :
      (o : Option Tx) (st st' : Session W)
      → IsSame st st'
      → o ≡ none
      → IsSame st (adopt env srv 1 o st')
  unfolding adopt
  adopt-Same none st st' h e = h
  adopt-Same (some tx) st st' h e = absurd (ground arith)

  called_lem :
      (args : Bytes) (extended : Bool) (st : Session W)
      → is_nil args ≡ false
      → validate_helo_domain args ≡ true
      → (let next = record (new_tx srv st.conn) { helo = args } in
          Greets args st
            (greeted env srv 1 (greeting_answer env srv extended next (call_hello env next st))).1)
  called_lem args extended st n v =
      let next : Tx = record (new_tx srv st.conn) { helo = args } in
      let c : Callback × Session W = call_hello env next st in
      let a : (Option Response × Option Tx) × Session W = greeting_answer env srv extended next c in
      let (same, end) = greeting_answer-Answers extended next c.0 c.1 in
      let all : IsSame st a.1 = IsSame-trans (call_hello-IsSame next st) same in
      elim end [
        | inl e ↦ inl (adopt-Same a.0.1 st a.1 all e)
        | inr (e, (x, k, ok)) ↦
            inr (adopt-Begun args a.0.1 st a.1 all e, n, v, (x, unfold call_hello in k, ok))
      ]

  refused-Greets :
      (r : Response) (args : Bytes) (st : Session W)
      → Greets args st (greeted env srv 1 ((some r, none), st)).1
  unfolding adopt
  refused-Greets r args st = inl (record { conn = refl; tx = refl; phase = refl; in_bdat = refl })

  either-Greets :
      {args : Bytes} {st : Session W} (n v : Bool)
      (a b c : (Option Response × Option Tx) × Session W)
      → Greets args st (greeted env srv 1 a).1
      → Greets args st (greeted env srv 1 b).1
      → (n ≡ false → v ≡ true → Greets args st (greeted env srv 1 c).1)
      → Greets args st (greeted env srv 1 (if n then a else if not v then b else c)).1
  either-Greets true v a b c x y z = x
  either-Greets false false a b c x y z = y
  either-Greets false true a b c x y z = z refl refl

  greeting-Greets :
      (args : Bytes) (extended : Bool) (st : Session W)
      → Greets args st (greeted env srv 1 (handle_greeting env srv args extended st)).1
  unfolding handle_greeting
  greeting-Greets args extended st =
      let next : Tx = record (new_tx srv st.conn) { helo = args } in
      let missing : Response = record {
        code = pos 501;
        message = codes "5.5.2 " ++ (label env srv extended ++ codes " requires domain");
      } in
      let invalid : Response = record {
        code = pos 501;
        message = codes "5.5.2 Invalid " ++ (label env srv extended ++ codes " domain");
      } in
      either-Greets (is_nil args) (validate_helo_domain args) ((some missing, none), st)
        ((some invalid, none), st) (greeting_answer env srv extended next (call_hello env next st))
        (refused-Greets missing args st) (refused-Greets invalid args st)
        (λ e f. called_lem args extended st e f)

  -- HELO and EHLO: either the connection, the transaction, the phase and the BDAT sequence are as
  -- they were, or a new transaction begins, in which only the name of the client is set, no chunk
  -- is left and no BDAT sequence is open. The latter needs a name that is valid and that the
  -- handler has answered with 250.
  pub dispatch-Greets :
      (args : Bytes) (extended : Bool) (st : Session W)
      → Greets args st (dispatch env srv (if extended then ehlo else helo) args st).1
  unfolding dispatch
  dispatch-Greets args false st = greeting-Greets args false st
  dispatch-Greets args true st = greeting-Greets args true st
