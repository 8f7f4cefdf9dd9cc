-- ===== src/Pipeline/Progress.antt =====
-- The goroutines of a connection do not wait for one another for ever: the channels between
-- `handleConn` and `readCommands` in smtp.go.
use smtp_gateway.Base.{
  ◌≡◌, ◌⊎◌, inl, inr, refl, false, Bool-cases, Option-cases, List, [], ◌∷◌, arith,
}
use smtp_gateway.Server.{Server}
use smtp_gateway.Session.{Conn, Env}
use smtp_gateway.Session.Loop.{Command, command_of}
use smtp_gateway.Pipeline.{
  Reader, reading, holding, paused, done, abandoned, Worker, idle, busy, replying, Machine,
  is_closed, next_line, ReaderStep, read_command, read_failed, send, resumed, WorkerStep, take,
  work, reply, stop, finish, Reachable,
}
use smtp_gateway.Pipeline.Discipline.{
  in_hand, pending, pausing, Balanced, Disciplined, busy-after_work, Reachable-Disciplined,
}

module _ {W : Type 0} (env : Env W) (srv : Server) where
  abbrev pub Moves : Machine W → Type 0
  Moves m =
      ((m' : Machine W) × ReaderStep env srv m m') ⊎ ((m' : Machine W) × WorkerStep env srv m m')

  reading-Moves : (m : Machine W) → m.reader ≡ reading → Moves m
  reading-Moves m e = elim (Option-cases (command_of env srv (next_line env srv m).0)) [
    | inl q ↦ inl (_, read_failed e q refl)
    | inr (c, q) ↦ inl (_, read_command c e q refl)
  ]

  -- With nothing queued.
  waiting-Moves :
      (r : Reader) (m : Machine W)
      → m.reader ≡ r
      → Disciplined m
      → m.worker ≡ idle
      → m.session.closed ≡ false
      → (env.cancelled m.session.world).0 ≡ false
      → m.queue ≡ []
      → Moves m
  unfolding pending in_hand Balanced pausing is_closed
  waiting-Moves reading m r h e l q f = reading-Moves m r
  waiting-Moves (holding c) m r h e l q f = inl (_, send c r (ground arith) refl)
  waiting-Moves paused m r h e l q f = inl (_, resumed 0 r (let b = h.balance in ground arith) refl)
  waiting-Moves done m r h e l q f = inr (_, finish e l q f (ground arith) refl)
  waiting-Moves (abandoned c) m r h e l q f = inr (_, finish e l q f (ground arith) refl)

  queued-Moves :
      (cs : List Command) (m : Machine W)
      → m.queue ≡ cs
      → Disciplined m
      → m.worker ≡ idle
      → m.session.closed ≡ false
      → (env.cancelled m.session.world).0 ≡ false
      → Moves m
  queued-Moves [] m f h e l q = waiting-Moves m.reader m refl h e l q f
  queued-Moves (c ∷ cs) m f h e l q = inr (_, take c cs e l q f refl)

  worker-Moves :
      (w : Worker) (m : Machine W)
      → m.worker ≡ w
      → Disciplined m
      → m.session.closed ≡ false
      → Moves m
  worker-Moves idle m e h l = elim (Bool-cases (env.cancelled m.session.world).0) [
    | inl q ↦ inr (_, stop e l q refl)
    | inr q ↦ queued-Moves m.queue m refl h e l q
  ]
  worker-Moves (busy c) m e h l = inr (_, work c e (busy-after_work m c h e) refl)
  worker-Moves (replying o) m e h l = inr (_, reply o e refl)

  -- However the two goroutines of a connection interleave, neither waits for the other for ever: as
  -- long as the connection is open, the reader can read, send or be resumed, or the worker can take
  -- its next step. The timer and the cancelled context of the reader are not needed for it.
  pub Reachable-Moves :
      (w : W) (conn : Conn) (m : Machine W)
      → Reachable env srv w conn m
      → m.session.closed ≡ false
      → Moves m
  Reachable-Moves w conn m r l = worker-Moves m.worker m refl (Reachable-Disciplined env srv r) l
