-- ===== src/Pipeline/Matching.antt =====
-- A connection with its reader ahead, beside one that reads each command itself, over all steps:
-- `readCommands` and `handleConn` of smtp.go.
use smtp_gateway.Base.{
  ℕ, ◌≡◌, ◌⊎◌, inl, inr, refl, sym, ap, ◌∙◌, Bool, true, false, Bool-cases, none, some, [], arith,
}
use smtp_gateway.Server.{Server}
use smtp_gateway.Session.{Conn, Env}
use smtp_gateway.Session.Loop.{Command, process, serve, start}
use smtp_gateway.Pipeline.{
  reading, abandoned, idle, busy, replying, Machine, pauses, first_reader, read_on, polled,
  ReaderStep, read_command, read_failed, send, resumed, Interrupt, give_up_send, give_up_wait, drop,
  WorkerStep, take, work, reply, stop, finish, launch, Reachable, launched, by_reader, by_interrupt,
  by_worker,
}
use smtp_gateway.Pipeline.Independence.{with_reader}
use smtp_gateway.Pipeline.Discipline.{Disciplined, Reachable-Disciplined}
use smtp_gateway.Pipeline.Simulation.{
  held, Tip, Linked, Sim, run, Ahead-of, Tip-refl, read_command-Sim, read_failed-Sim, send-Sim,
  moved-Sim,
}
use smtp_gateway.Pipeline.Simulation.Working.{
  take-Sim, work_on-Sim, work_alone-Sim, reply-Sim, stop-Sim,
}

first_reader-held : (b : Bool) → held (first_reader b) ≡ []
unfolding held
first_reader-held true = refl
first_reader-held false = refl

module _ {W : Type 0} (env : Env W) (srv : Server) (w : W) (conn : Conn) where
  -- The worker has returned at the end of the events.
  pub record Over (m : Machine W) : Type 0 where
    pub rounds : ℕ
    pub is_over : m.session.closed ≡ true
    pub at_rest : m.worker ≡ idle
    pub seen : (run env srv w conn rounds).trace ≡ m.session.trace

  abbrev pub Matched : Machine W → Type 0
  Matched m = Sim env srv w conn m ⊎ Over m

  unchanged-Over :
      (m m' : Machine W)
      → Over m
      → m'.session.closed ≡ m.session.closed
      → m'.worker ≡ m.worker
      → m'.session.trace ≡ m.session.trace
      → Over m'
  unchanged-Over m m' h a b c = record {
    rounds = h.rounds;
    is_over = a ∙ h.is_over;
    at_rest = b ∙ h.at_rest;
    seen = h.seen ∙ sym c;
  }

  ReaderStep-Matched : (m m' : Machine W) → Matched m → ReaderStep env srv m m' → Matched m'
  unfolding held Tip read_on
  ReaderStep-Matched m m' (inl h) (read_command c e l f) =
      rw f (inl (read_command-Sim env srv w conn m c h e l))
  ReaderStep-Matched m m' (inl h) (read_failed e l f) =
      rw f (inl (read_failed-Sim env srv w conn m h e))
  ReaderStep-Matched m m' (inl h) (send c e l f) = rw f (inl (send-Sim env srv w conn m c h e))
  ReaderStep-Matched m m' (inl h) (resumed n e l f) = rw f (
      inl
        (moved-Sim env srv w conn m reading n h (ground arith) (let t = h.at_tip in ground arith)))
  ReaderStep-Matched m m' (inr h) (read_command c e l f) =
      rw f (inr (unchanged-Over m _ h refl refl refl))
  ReaderStep-Matched m m' (inr h) (read_failed e l f) =
      rw f (inr (unchanged-Over m _ h refl refl refl))
  ReaderStep-Matched m m' (inr h) (send c e l f) = rw f (inr (unchanged-Over m _ h refl refl refl))
  ReaderStep-Matched m m' (inr h) (resumed n e l f) =
      rw f (inr (unchanged-Over m _ h refl refl refl))

  Interrupt-Matched :
      (m m' : Machine W) → Matched m → Interrupt env srv m m' → m'.dropped ≡ false → Matched m'
  unfolding held Tip
  Interrupt-Matched m m' (inl h) (give_up_send c e n f) d = rw f (
      inl (
        moved-Sim env srv w conn m (abandoned (some c)) m.resume h (ground arith)
          (let t = h.at_tip in ground arith)))
  Interrupt-Matched m m' (inl h) (give_up_wait e f) d = rw f (
      inl (
        moved-Sim env srv w conn m (abandoned none) m.resume h (ground arith)
          (let t = h.at_tip in ground arith)))
  Interrupt-Matched m m' h (drop e f) d = absurd (ground arith)
  Interrupt-Matched m m' (inr h) (give_up_send c e n f) d =
      rw f (inr (unchanged-Over m _ h refl refl refl))
  Interrupt-Matched m m' (inr h) (give_up_wait e f) d =
      rw f (inr (unchanged-Over m _ h refl refl refl))

  finish-Over :
      (m : Machine W)
      → Sim env srv w conn m
      → m.worker ≡ idle
      → Over (record m { session = record (polled env srv m.session) { closed = true } })
  unfolding Linked polled
  finish-Over m h e = record {
    rounds = h.rounds;
    is_over = refl;
    at_rest = e;
    seen =
        (let k : run env srv w conn h.rounds ≡ with_reader h.here m.session.conn.buffer m.session =
            (let k' = h.linked in ground arith) in
          ap (λ s. s.trace) k);
  }

  work-Sim :
      (m : Machine W) (c : Command) (n : ℕ)
      → Sim env srv w conn m
      → Disciplined m
      → m.worker ≡ busy c
      → Sim env srv w conn (record m {
        session = (process env srv c m.session).1;
        worker = replying (process env srv c m.session).0;
        resume = n;
      })
  work-Sim m c n h d e = elim (Bool-cases (pauses c)) [
    | inl p ↦ work_alone-Sim env srv w conn m c n h d e p
    | inr p ↦ work_on-Sim env srv w conn m c n h e p
  ]

  WorkerStep-Matched :
      (m m' : Machine W) → Disciplined m → Matched m → WorkerStep env srv m m' → Matched m'
  WorkerStep-Matched m m' d (inl h) (take c cs e l q r f) =
      rw f (inl (take-Sim env srv w conn m c cs h e l q r))
  WorkerStep-Matched m m' d (inl h) (work c e l f) = rw f (inl (work-Sim m c _ h d e))
  WorkerStep-Matched m m' d (inl h) (reply o e f) = rw f (inl (reply-Sim env srv w conn m o h e))
  WorkerStep-Matched m m' d (inl h) (stop e l q f) = rw f (inl (stop-Sim env srv w conn m h e l q))
  WorkerStep-Matched m m' d (inl h) (finish e l q r s f) = rw f (inr (finish-Over m h e))
  WorkerStep-Matched m m' d (inr h) (take c cs e l q r f) =
      absurd (let o = h.is_over in ground arith)
  WorkerStep-Matched m m' d (inr h) (work c e l f) = absurd (let o = h.at_rest in ground arith)
  WorkerStep-Matched m m' d (inr h) (reply o e f) = absurd (let o' = h.at_rest in ground arith)
  WorkerStep-Matched m m' d (inr h) (stop e l q f) = absurd (let o = h.is_over in ground arith)
  WorkerStep-Matched m m' d (inr h) (finish e l q r s f) =
      absurd (let o = h.is_over in ground arith)

  ReaderStep-dropped :
      (m m' : Machine W) → ReaderStep env srv m m' → m'.dropped ≡ false → m.dropped ≡ false
  ReaderStep-dropped m m' (read_command c e l f) d = ground arith
  ReaderStep-dropped m m' (read_failed e l f) d = ground arith
  ReaderStep-dropped m m' (send c e l f) d = ground arith
  ReaderStep-dropped m m' (resumed n e l f) d = ground arith

  Interrupt-dropped :
      (m m' : Machine W) → Interrupt env srv m m' → m'.dropped ≡ false → m.dropped ≡ false
  Interrupt-dropped m m' (give_up_send c e n f) d = ground arith
  Interrupt-dropped m m' (give_up_wait e f) d = ground arith
  Interrupt-dropped m m' (drop e f) d = absurd (ground arith)

  WorkerStep-dropped :
      (m m' : Machine W) → WorkerStep env srv m m' → m'.dropped ≡ false → m.dropped ≡ false
  WorkerStep-dropped m m' (take c cs e l q r f) d = ground arith
  WorkerStep-dropped m m' (work c e l f) d = ground arith
  WorkerStep-dropped m m' (reply o e f) d = ground arith
  WorkerStep-dropped m m' (stop e l q f) d = ground arith
  WorkerStep-dropped m m' (finish e l q r s f) d = ground arith

  launch-Sim : Sim env srv w conn (launch env srv w conn)
  unfolding launch Linked serve
  launch-Sim = record {
    rounds = 0;
    here = (start env srv w conn).conn.input;
    tip = (start env srv w conn).conn.input;
    linked = refl;
    ahead =
        Ahead-of env srv w conn _ _ _ [] _ (sym (first_reader-held (start env srv w conn).closed))
          refl;
    at_tip = Tip-refl (first_reader (start env srv w conn).closed) _;
  }

  pub Reachable-Matched :
      {m : Machine W} → Reachable env srv w conn m → m.dropped ≡ false → Matched m
  Reachable-Matched launched d = inl launch-Sim
  Reachable-Matched (by_reader {p} {m} r s) d =
      ReaderStep-Matched p m (Reachable-Matched r (ReaderStep-dropped p m s d)) s
  Reachable-Matched (by_interrupt {p} {m} r s) d =
      Interrupt-Matched p m (Reachable-Matched r (Interrupt-dropped p m s d)) s d
  Reachable-Matched (by_worker {p} {m} r s) d =
      WorkerStep-Matched p m (Reachable-Disciplined env srv r)
        (Reachable-Matched r (WorkerStep-dropped p m s d)) s
