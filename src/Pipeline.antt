-- ===== src/Pipeline.antt =====
-- The two goroutines of a connection: `readCommands`, which reads commands ahead, and the worker
-- loop of `handleConn`, with the channels `events` and `resumeCh` between them, in smtp.go. Their
-- steps interleave in any order. The worker reads from the connection only while the reader is
-- paused, so that what it does for one command is one step here.
pub mod Independence
pub mod Discipline
pub mod Progress
pub mod Safety
pub mod Effects
pub mod Ahead
pub mod Simulation
pub mod Matching
pub mod Refinement
pub mod Sequential
use smtp_gateway.Base.{
  ℕ, zero, suc, ◌<◌, ◌+◌, ◌≡◌, Bool, true, false, Option, none, some, List, [], ◌∷◌, ◌++◌,
  if◌then◌else◌, length,
}
use smtp_gateway.Wire.{LineResult, Stream, read_line}
use smtp_gateway.Response.{Response}
use smtp_gateway.Server.{Server}
use smtp_gateway.Session.{Conn, Env, Session}
use smtp_gateway.Session.Content.{with_input}
use smtp_gateway.Session.Loop.{
  starttls, data_verb, bdat, quit, Command, command, too_long, process, answer, command_of,
  shut_down, start,
}

-- The capacity of `events`.
abbrev pub max_events : ℕ
max_events = 32

-- Where `readCommands` stands: in `readLine`, before the send of a command, in the wait for
-- `resumeCh`, or behind its return, on the end of the input or QUIT, or because the context was
-- cancelled or the timer of the wait fired; then a command that it had read may be lost.
pub data Reader : Type 0 where
  reading : Reader
  holding : Command → Reader
  paused : Reader
  done : Reader
  abandoned : Option Command → Reader

-- Where the worker stands: in its `select`, before the handler of a command, or before the write of
-- its response.
pub data Worker : Type 0 where
  idle : Worker
  busy : Command → Worker
  replying : Option Response → Worker

-- `queue` and `resume` are what the two channels hold. `dropped` says that a line that is too long
-- was passed over without an event, which happens only on a cancelled context.
pub record Machine (W : Type 0) : Type 0 where
  pub session : Session W
  pub queue : List Command
  pub reader : Reader
  pub worker : Worker
  pub resume : ℕ
  pub dropped : Bool

-- The commands behind which the reader waits.
unfoldable pub pauses : Command → Bool
pauses (command data_verb args) = true
pauses (command bdat args) = true
pauses (command starttls args) = true
pauses _ = false

-- The command behind which the reader returns.
unfoldable pub quits : Command → Bool
quits (command quit args) = true
quits _ = false

-- Where the reader goes behind the send of a command.
unfoldable pub after_send : Command → Reader
after_send c = if pauses c then paused else if quits c then done else reading

-- The tokens in `resumeCh` behind the handler of a command: `handleData`, `handleBdat`,
-- `handleStartTLS` and the check of an open BDAT sequence send one, whatever they answer.
unfoldable pub after_work : Command → ℕ → ℕ
after_work c n = if pauses c then suc n else n

-- Whether `events` is closed: the reader has returned.
unfoldable pub is_closed : Reader → Bool
is_closed done = true
is_closed (abandoned c) = true
is_closed _ = false

-- The reader is started behind the banner.
abbrev pub first_reader : Bool → Reader
first_reader closed = if closed then done else reading

module _ {W : Type 0} (env : Env W) (srv : Server) where
  -- The next line.
  unfoldable pub next_line : Machine W → LineResult × Stream
  next_line m = read_line m.session.conn.buffer m.session.conn.input

  unfoldable pub read_on : Machine W → Session W
  read_on m = with_input env srv (next_line m).1 m.session

  -- The steps of `readCommands`.
  pub data ReaderStep (m : Machine W) (m' : Machine W) : Type 0 where
    read_command :
        (c : Command)
        → m.reader ≡ reading
        → command_of env srv (next_line m).0 ≡ some c
        → m' ≡ record m { session = read_on m; reader = holding c }
        → ReaderStep m m'
    read_failed :
        m.reader ≡ reading
        → command_of env srv (next_line m).0 ≡ none
        → m' ≡ record m { session = read_on m; reader = done }
        → ReaderStep m m'
    send :
        (c : Command)
        → m.reader ≡ holding c
        → length m.queue < max_events
        → m' ≡ record m { queue = m.queue ++ (c ∷ []); reader = after_send c }
        → ReaderStep m m'
    resumed :
        (n : ℕ)
        → m.reader ≡ paused
        → m.resume ≡ suc n
        → m' ≡ record m { resume = n; reader = reading }
        → ReaderStep m m'

  -- Its branches of the cancelled context, and of the timer.
  pub data Interrupt (m : Machine W) (m' : Machine W) : Type 0 where
    give_up_send :
        (c : Command)
        → m.reader ≡ holding c
        → ¬ (c ≡ too_long)
        → m' ≡ record m { reader = abandoned (some c) }
        → Interrupt m m'
    give_up_wait : m.reader ≡ paused → m' ≡ record m { reader = abandoned none } → Interrupt m m'
    drop :
        m.reader ≡ holding too_long
        → m' ≡ record m { reader = reading; dropped = true }
        → Interrupt m m'

  -- The world behind the choice of the worker's `select`.
  unfoldable pub polled : Session W → Session W
  polled st = record st { world = (env.cancelled st.world).1 }

  -- The steps of the worker loop.
  pub data WorkerStep (m : Machine W) (m' : Machine W) : Type 0 where
    take :
        (c : Command) (cs : List Command)
        → m.worker ≡ idle
        → m.session.closed ≡ false
        → (env.cancelled m.session.world).0 ≡ false
        → m.queue ≡ c ∷ cs
        → m' ≡ record m { session = polled m.session; queue = cs; worker = busy c }
        → WorkerStep m m'
    -- A send into `resumeCh` waits for room in it.
    work :
        (c : Command)
        → m.worker ≡ busy c
        → after_work c m.resume < 2
        → m' ≡ record m {
          session = (process env srv c m.session).1;
          worker = replying (process env srv c m.session).0;
          resume = after_work c m.resume;
        }
        → WorkerStep m m'
    reply :
        (o : Option Response)
        → m.worker ≡ replying o
        → m' ≡ record m { session = answer env srv (o, m.session); worker = idle }
        → WorkerStep m m'
    stop :
        m.worker ≡ idle
        → m.session.closed ≡ false
        → (env.cancelled m.session.world).0 ≡ true
        → m' ≡ record m { session = shut_down env srv (polled m.session) }
        → WorkerStep m m'
    finish :
        m.worker ≡ idle
        → m.session.closed ≡ false
        → (env.cancelled m.session.world).0 ≡ false
        → m.queue ≡ []
        → is_closed m.reader ≡ true
        → m' ≡ record m { session = record (polled m.session) { closed = true } }
        → WorkerStep m m'

  -- `handleConn` up to `go s.readCommands`.
  unfoldable pub launch : W → Conn → Machine W
  launch w conn = record {
    session = start env srv w conn;
    queue = [];
    reader = first_reader (start env srv w conn).closed;
    worker = idle;
    resume = 0;
    dropped = false;
  }

  -- The machines that the steps lead to, in any order.
  pub data Reachable (w : W) (conn : Conn) : Machine W → Type 0 where
    launched : Reachable w conn (launch w conn)
    by_reader : {p m : Machine W} → Reachable w conn p → ReaderStep p m → Reachable w conn m
    by_interrupt : {p m : Machine W} → Reachable w conn p → Interrupt p m → Reachable w conn m
    by_worker : {p m : Machine W} → Reachable w conn p → WorkerStep p m → Reachable w conn m
