-- ===== src/Pipeline/Safety.antt =====
-- The invariant of a session over the steps of its two goroutines, `handleConn` and `readCommands`
-- of smtp.go.
use smtp_gateway.Base.{◌<◌, ◌≡◌, true, [], All, arith}
use smtp_gateway.Server.{Server}
use smtp_gateway.Session.{Conn, Env, Session}
use smtp_gateway.Session.Invariant.{Inv, IsSound, Backed, all_introduced}
use smtp_gateway.Session.Invariant.Rounds.{process-Inv, answer-Inv, shut_down-Inv, start-Inv}
use smtp_gateway.Pipeline.{
  Machine, read_on, polled, ReaderStep, read_command, read_failed, send, resumed, Interrupt,
  give_up_send, give_up_wait, drop, WorkerStep, take, work, reply, stop, finish, launch, Reachable,
  launched, by_reader, by_interrupt, by_worker,
}

module _ {W : Type 0} (env : Env W) (srv : Server) where
  read_on-Inv : (m : Machine W) → Inv srv m.session → Inv srv (read_on env srv m)
  unfolding read_on
  read_on-Inv m h = ground arith

  polled-Inv : (st : Session W) → Inv srv st → Inv srv (polled env srv st)
  unfolding polled
  polled-Inv st h = ground arith

  closed-Inv : (st : Session W) → Inv srv st → Inv srv (record st { closed = true })
  closed-Inv st h = ground arith

  ReaderStep-Inv :
      (m m' : Machine W) → Inv srv m.session → ReaderStep env srv m m' → Inv srv m'.session
  ReaderStep-Inv m m' h (read_command c e l f) = rw f (read_on-Inv m h)
  ReaderStep-Inv m m' h (read_failed e l f) = rw f (read_on-Inv m h)
  ReaderStep-Inv m m' h (send c e l f) = rw f h
  ReaderStep-Inv m m' h (resumed n e l f) = rw f h

  Interrupt-Inv :
      (m m' : Machine W) → Inv srv m.session → Interrupt env srv m m' → Inv srv m'.session
  Interrupt-Inv m m' h (give_up_send c e n f) = rw f h
  Interrupt-Inv m m' h (give_up_wait e f) = rw f h
  Interrupt-Inv m m' h (drop e f) = rw f h

  WorkerStep-Inv :
      (m m' : Machine W) → Inv srv m.session → WorkerStep env srv m m' → Inv srv m'.session
  WorkerStep-Inv m m' h (take c cs e l q r f) = rw f (polled-Inv m.session h)
  WorkerStep-Inv m m' h (work c e l f) = rw f (process-Inv env srv c m.session h)
  WorkerStep-Inv m m' h (reply o e f) = rw f (answer-Inv env srv o m.session h)
  WorkerStep-Inv m m' h (stop e l q f) =
      rw f (shut_down-Inv env srv (polled env srv m.session) (polled-Inv m.session h))
  WorkerStep-Inv m m' h (finish e l q r s f) =
      rw f (closed-Inv (polled env srv m.session) (polled-Inv m.session h))

  Reachable-Inv :
      {w : W} {conn : Conn} {m : Machine W}
      → 0 < conn.buffer
      → conn.body_buf ≡ []
      → Reachable env srv w conn m
      → Inv srv m.session
  unfolding launch
  Reachable-Inv {w = w} {conn = conn} p e launched = start-Inv env srv w conn p e
  Reachable-Inv l e (by_reader {p} {m} r s) = ReaderStep-Inv p m (Reachable-Inv l e r) s
  Reachable-Inv l e (by_interrupt {p} {m} r s) = Interrupt-Inv p m (Reachable-Inv l e r) s
  Reachable-Inv l e (by_worker {p} {m} r s) = WorkerStep-Inv p m (Reachable-Inv l e r) s

  -- However the two goroutines of a new connection with a reader's buffer that is not empty
  -- interleave, on a cancelled context and behind the reader's timer too: every call of the handler
  -- and of the store is sound in the sense of `IsSound`, with the envelope, the TLS state and the
  -- body that the limits and the phases of the session allow, every message that is stored is stored
  -- right after the handler's Data answered 250 to it, and MailFrom, RcptTo and Data are called only
  -- with a name that an earlier call of Hello answered with 250.
  pub Reachable-IsSound :
      (w : W) (conn : Conn) (m : Machine W)
      → 0 < conn.buffer
      → conn.body_buf ≡ []
      → Reachable env srv w conn m
      → All (IsSound srv) m.session.trace
        × Backed m.session.trace
        × (all_introduced m.session.trace ≡ true)
  Reachable-IsSound w conn m p e r =
      let i : Inv srv m.session = Reachable-Inv p e r in (i.sound, i.backed, i.known)
