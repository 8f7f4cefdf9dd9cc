-- ===== src/Pipeline/Ahead.antt =====
-- What it takes to read commands ahead, for a session that stands at an earlier place of the input:
-- `readCommands` and the worker loop of `handleConn` in smtp.go.
use smtp_gateway.Base.{
  ℕ, zero, suc, ◌≡◌, refl, sym, ap, ◌∙◌, Bool, true, false, Bool-cases, inl, inr, Option, none,
  some, List, [], ◌∷◌, ◌++◌, arith, if◌then◌else◌,
}
use smtp_gateway.Wire.{Stream, read_line}
use smtp_gateway.Response.{Response, string}
use smtp_gateway.Server.{Server}
use smtp_gateway.Session.{Env, Session, Effect, sent, write_failed}
use smtp_gateway.Session.Calls.{write}
use smtp_gateway.Session.Loop.{
  Command, process, answer, command_of, shut_down, turn, listen, round, serve,
}
use smtp_gateway.Pipeline.{pauses, polled}
use smtp_gateway.Pipeline.Independence.{with_reader, process-carry, answer-carry}

else_of : {A : Type 0} (c : Bool) (x y : A) → c ≡ false → (if c then x else y) ≡ y
else_of true x y h = absurd (ground arith)
else_of false x y h = refl

module _ {W : Type 0} (env : Env W) (srv : Server) where
  -- From `s` on, the reader reads these commands, and then stands at `s'`.
  abbrev pub Ahead : ℕ → Stream → List Command → Stream → Type 0
  Ahead size s [] s' = s ≡ s'
  Ahead size s (c ∷ cs) s' =
      (command_of env srv (read_line size s).0 ≡ some c) × Ahead size (read_line size s).1 cs s'

  pub Ahead-snoc :
      (size : ℕ) (s : Stream) (cs : List Command) (s' : Stream) (c : Command)
      → Ahead size s cs s'
      → command_of env srv (read_line size s').0 ≡ some c
      → Ahead size s (cs ++ c ∷ []) (read_line size s').1
  Ahead-snoc size s [] s' c a e = (rw a e, ap (λ t. (read_line size t).1) a)
  Ahead-snoc size s (d ∷ cs) s' c (h, a) e = (h, Ahead-snoc size (read_line size s).1 cs s' c a e)

  -- A run of one more round.
  pub serve-suc :
      (n : ℕ) (st : Session W)
      → (serve env srv n st).closed ≡ false
      → serve env srv (suc n) st ≡ round env srv (serve env srv n st)
  unfolding serve
  serve-suc zero st h = rw h refl
  serve-suc (suc n) st h = elim (Bool-cases st.closed) [
    | inl q ↦ absurd (ground arith)
    | inr q ↦
        else_of st.closed st (serve env srv (suc n) (round env srv st)) q
        ∙ (serve-suc n (round env srv st) (ground arith)
            ∙ ap (round env srv)
                (sym (else_of st.closed st (serve env srv n (round env srv st)) q)))
  ]

  pub serve-stays :
      (n : ℕ) (st : Session W)
      → (serve env srv n st).closed ≡ true
      → (serve env srv (suc n) st).closed ≡ true
  unfolding serve
  serve-stays zero st h = ground arith
  serve-stays (suc n) st h = ground (arith, serve-stays n (round env srv st))

  -- The reader is left where it is.
  pub process-kept :
      (c : Command) (st : Session W)
      → pauses c ≡ false
      → ((process env srv c st).1.conn.input ≡ st.conn.input)
        × ((process env srv c st).1.conn.buffer ≡ st.conn.buffer)
  process-kept c st p =
      let e = process-carry env srv st.conn.input st.conn.buffer c st p in
      (ap (λ r. r.1.conn.input) e, ap (λ r. r.1.conn.buffer) e)

  -- A round that finds the next command.
  pub round-take :
      (c : Command) (st : Session W)
      → (env.cancelled st.world).0 ≡ false
      → command_of env srv (read_line st.conn.buffer st.conn.input).0 ≡ some c
      → round env srv st
        ≡ answer env srv (
            process env srv c (
              with_reader
                (read_line st.conn.buffer st.conn.input).1
                st.conn.buffer
                (polled env srv st)))
  unfolding round listen turn polled
  round-take c st q e = rw (q, e) refl

  -- The reply to a command adds to the effects.
  pub answer-trace :
      (o : Option Response) (st : Session W)
      → (xs : List Effect) × ((answer env srv (o, st)).trace ≡ xs ++ st.trace)
  unfolding answer write
  answer-trace none st = ([], refl)
  answer-trace (some r) st = (
    (if (env.write st.world (string r)).0 then sent (string r) else write_failed (string r)) ∷ [],
    ground arith,
  )

  pub answer-kept :
      (o : Option Response) (st : Session W)
      → ((answer env srv (o, st)).conn.input ≡ st.conn.input)
        × ((answer env srv (o, st)).conn.buffer ≡ st.conn.buffer)
  answer-kept o st =
      let e = answer-carry env srv st.conn.input st.conn.buffer o st in
      (ap (λ s. s.conn.input) e, ap (λ s. s.conn.buffer) e)

  pub shut_down-kept :
      (st : Session W)
      → ((shut_down env srv st).conn.input ≡ st.conn.input)
        × ((shut_down env srv st).conn.buffer ≡ st.conn.buffer)
  unfolding shut_down write
  shut_down-kept st = (refl, refl)

  -- A round on a cancelled context.
  pub round-stop :
      (st : Session W)
      → (env.cancelled st.world).0 ≡ true
      → round env srv st ≡ shut_down env srv (polled env srv st)
  unfolding round polled
  round-stop st q = rw q refl
