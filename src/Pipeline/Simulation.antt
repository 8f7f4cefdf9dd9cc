-- ===== src/Pipeline/Simulation.antt =====
-- A connection with its reader ahead, beside one that reads each command itself, over the reader's
-- steps:
-- `readCommands` and `handleConn` of smtp.go.
pub mod Working
use smtp_gateway.Base.{
  ℕ, zero, suc, ◌+◌, ◌<◌, ◌≡◌, ◌⊎◌, inl, inr, refl, sym, ap, ◌∙◌, Bool, true, false, Bool-cases,
  Option, none, some, List, [], ◌∷◌, ◌++◌, append-nil, append_assoc, arith,
}
use smtp_gateway.Wire.{Stream, read_line}
use smtp_gateway.Response.{Response}
use smtp_gateway.Server.{Server}
use smtp_gateway.Session.{Conn, Env, Session, Effect}
use smtp_gateway.Session.Loop.{Command, process, answer, command_of, shut_down, round, serve, start}
use smtp_gateway.Pipeline.{
  Reader, reading, holding, paused, done, abandoned, Worker, idle, busy, replying, Machine, pauses,
  after_send, next_line, read_on, polled, ReaderStep, read_command, read_failed, send, resumed,
  Interrupt, give_up_send, give_up_wait, drop, WorkerStep, take, work, reply, stop, finish, launch,
  Reachable, launched, by_reader, by_interrupt, by_worker,
}
use smtp_gateway.Pipeline.Independence.{
  with_reader, carry, process-carry, answer-carry, shut_down-carry,
}
use smtp_gateway.Pipeline.Discipline.{
  Disciplined, Balanced, pending, in_hand, pausing, Reachable-Disciplined, stands_still, alone,
}
use smtp_gateway.Pipeline.Ahead.{
  Ahead, Ahead-snoc, serve-suc, process-kept, answer-kept, shut_down-kept, round-stop, round-take,
  answer-trace,
}

-- The command that the reader has read and not sent.
unfoldable pub held : Reader → List Command
held (holding c) = c ∷ []
held (abandoned (some c)) = c ∷ []
held _ = []

-- While the reader is at work it stands at the end of what was read.
unfoldable pub Tip : Reader → Stream → Stream → Type 0
Tip done s s' = Unit
Tip _ s s' = s ≡ s'

held-after_send : (c : Command) → held (after_send c) ≡ []
unfolding held after_send
held-after_send c = ground arith

after_send-Tip : (c : Command) (s s' : Stream) → s ≡ s' → Tip (after_send c) s s'
unfolding Tip after_send
after_send-Tip c s s' e = ground arith

pub stands_still-Tip : (r : Reader) (s s' : Stream) → stands_still r ≡ true → Tip r s s' → s ≡ s'
unfolding Tip stands_still
stands_still-Tip r s s' e t = ground arith

pub Tip-refl : (r : Reader) (s : Stream) → Tip r s s
unfolding Tip
Tip-refl r s = ground arith

-- With a command in hand that the reader waits behind, it holds none.
pub nothing-held :
    {W : Type 0} (m : Machine W) (c : Command)
    → Disciplined m
    → m.worker ≡ busy c
    → pauses c ≡ true
    → held m.reader ≡ []
unfolding held Balanced pending in_hand pausing
nothing-held m c d e p = (let b = d.balance in ground arith)

module _ {W : Type 0} (env : Env W) (srv : Server) (w : W) (conn : Conn) where
  abbrev pub run : ℕ → Session W
  run n = serve env srv n (start env srv w conn)

  -- The session that reads each command itself, after `n` rounds, where it stands at `s`.
  unfoldable pub Linked : ℕ → Stream → Worker → Session W → Type 0
  Linked n s idle st = run n ≡ with_reader s st.conn.buffer st
  Linked n s (busy c) st =
      ((run n).trace ≡ st.trace)
      × (run (suc n) ≡ answer env srv (process env srv c (with_reader s st.conn.buffer st)))
  Linked n s (replying o) st = run n ≡ answer env srv (o, with_reader s st.conn.buffer st)

  pub record Sim (m : Machine W) : Type 0 where
    pub rounds : ℕ
    pub here : Stream
    pub tip : Stream
    pub linked : Linked rounds here m.worker m.session
    pub ahead : Ahead env srv m.session.conn.buffer here (m.queue ++ held m.reader) tip
    pub at_tip : Tip m.reader tip m.session.conn.input

  -- Where the reader stands now is of no account.
  Linked-reader :
      (n : ℕ) (s i : Stream) (wk : Worker) (st : Session W)
      → Linked n s wk st
      → Linked n s wk (with_reader i st.conn.buffer st)
  unfolding Linked
  Linked-reader n s i idle st h = h
  Linked-reader n s i (busy c) st h = h
  Linked-reader n s i (replying o) st h = h

  pub Ahead-of :
      (size : ℕ) (s s' : Stream) (cs ds : List Command)
      → cs ≡ ds
      → Ahead env srv size s cs s'
      → Ahead env srv size s ds s'
  Ahead-of size s s' cs ds e h = rw (sym e) h

  -- With nothing held the commands ahead are the queue.
  queued :
      (m : Machine W) (h : Sim m)
      → held m.reader ≡ []
      → Ahead env srv m.session.conn.buffer h.here m.queue h.tip
  queued m h e =
      Ahead-of m.session.conn.buffer h.here h.tip (m.queue ++ held m.reader) m.queue
        (rw e (append-nil m.queue)) h.ahead

  pub read_command-Sim :
      (m : Machine W) (c : Command)
      → Sim m
      → m.reader ≡ reading
      → command_of env srv (next_line env srv m).0 ≡ some c
      → Sim (record m { session = read_on env srv m; reader = holding c })
  unfolding read_on next_line held Tip
  read_command-Sim m c h e l =
      let b : ℕ = m.session.conn.buffer in
      let t : h.tip ≡ m.session.conn.input = (let t' = h.at_tip in ground arith) in
      record {
        rounds = h.rounds;
        here = h.here;
        tip = (read_line b h.tip).1;
        linked = Linked-reader h.rounds h.here _ m.worker m.session h.linked;
        ahead = Ahead-snoc env srv b h.here m.queue h.tip c (queued m h (ground arith)) (rw t l);
        at_tip = ap (λ s. (read_line b s).1) t;
      }

  pub read_failed-Sim :
      (m : Machine W)
      → Sim m
      → m.reader ≡ reading
      → Sim (record m { session = read_on env srv m; reader = done })
  unfolding read_on held Tip
  read_failed-Sim m h e = record {
    rounds = h.rounds;
    here = h.here;
    tip = h.tip;
    linked = Linked-reader h.rounds h.here _ m.worker m.session h.linked;
    ahead =
        Ahead-of m.session.conn.buffer h.here h.tip m.queue (m.queue ++ [])
          (sym (append-nil m.queue)) (queued m h (ground arith));
    at_tip = tt;
  }

  pub send-Sim :
      (m : Machine W) (c : Command)
      → Sim m
      → m.reader ≡ holding c
      → Sim (record m { queue = m.queue ++ c ∷ []; reader = after_send c })
  unfolding held Tip
  send-Sim m c h e = record {
    rounds = h.rounds;
    here = h.here;
    tip = h.tip;
    linked = h.linked;
    ahead =
        Ahead-of m.session.conn.buffer h.here h.tip (m.queue ++ held m.reader) _
          (rw (held-after_send c, append-nil (m.queue ++ c ∷ []), e) refl) h.ahead;
    at_tip = after_send-Tip c h.tip m.session.conn.input (let t = h.at_tip in ground arith);
  }

  -- The reader moves on without reading.
  pub moved-Sim :
      (m : Machine W) (r : Reader) (n : ℕ)
      → (h : Sim m) → held m.reader ≡ held r
      → Tip r h.tip m.session.conn.input
      → Sim (record m { reader = r; resume = n })
  moved-Sim m r n h e t = record {
    rounds = h.rounds;
    here = h.here;
    tip = h.tip;
    linked = h.linked;
    ahead =
        Ahead-of m.session.conn.buffer h.here h.tip (m.queue ++ held m.reader) (m.queue ++ held r)
          (ap (λ x. m.queue ++ x) e) h.ahead;
    at_tip = t;
  }
