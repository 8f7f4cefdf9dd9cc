-- ===== src/Pipeline/Effects.antt =====
-- What each call out of a session keeps, holds of a connection however its goroutines interleave:
-- `handleConn` and `readCommands` of smtp.go.
use smtp_gateway.Base.{List, []}
use smtp_gateway.Server.{Server}
use smtp_gateway.Session.{Effect, Env, Conn}
use smtp_gateway.Session.Effects.{Closed}
use smtp_gateway.Session.Effects.Rounds.{process-Here, answer-Here, shut_down-Here, start-Here}
use smtp_gateway.Pipeline.{
  Machine, read_on, polled, ReaderStep, read_command, read_failed, send, resumed, Interrupt,
  give_up_send, give_up_wait, drop, WorkerStep, take, work, reply, stop, finish, launch, Reachable,
  launched, by_reader, by_interrupt, by_worker,
}

module _ {W : Type 0} (env : Env W) (srv : Server) (D : W → List Effect → Type 0)
    (k : Closed env D) where
  abbrev Holds : Machine W → Type 0
  Holds m = D m.session.world m.session.trace

  ReaderStep-Holds : (m m' : Machine W) → Holds m → ReaderStep env srv m m' → Holds m'
  unfolding read_on
  ReaderStep-Holds m m' h (read_command c e l f) = rw f h
  ReaderStep-Holds m m' h (read_failed e l f) = rw f h
  ReaderStep-Holds m m' h (send c e l f) = rw f h
  ReaderStep-Holds m m' h (resumed n e l f) = rw f h

  Interrupt-Holds : (m m' : Machine W) → Holds m → Interrupt env srv m m' → Holds m'
  Interrupt-Holds m m' h (give_up_send c e n f) = rw f h
  Interrupt-Holds m m' h (give_up_wait e f) = rw f h
  Interrupt-Holds m m' h (drop e f) = rw f h

  WorkerStep-Holds : (m m' : Machine W) → Holds m → WorkerStep env srv m m' → Holds m'
  unfolding polled
  WorkerStep-Holds m m' h (take c cs e l q r f) =
      rw f (k.cancelled m.session.world m.session.trace h)
  WorkerStep-Holds m m' h (work c e l f) = rw f (process-Here env srv D k c m.session h)
  WorkerStep-Holds m m' h (reply o e f) = rw f (answer-Here env srv D k o m.session h)
  WorkerStep-Holds m m' h (stop e l q f) = rw f (
      shut_down-Here env srv D k (polled env srv m.session)
        (k.cancelled m.session.world m.session.trace h))
  WorkerStep-Holds m m' h (finish e l q r s f) =
      rw f (k.cancelled m.session.world m.session.trace h)

  pub Reachable-Holds :
      {w : W} {conn : Conn} {m : Machine W} → D w [] → Reachable env srv w conn m → Holds m
  unfolding launch
  Reachable-Holds {w = w} {conn = conn} d launched = start-Here env srv D k w conn d
  Reachable-Holds d (by_reader {p} {m} r s) = ReaderStep-Holds p m (Reachable-Holds d r) s
  Reachable-Holds d (by_interrupt {p} {m} r s) = Interrupt-Holds p m (Reachable-Holds d r) s
  Reachable-Holds d (by_worker {p} {m} r s) = WorkerStep-Holds p m (Reachable-Holds d r) s
