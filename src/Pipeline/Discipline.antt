-- ===== src/Pipeline/Discipline.antt =====
-- What holds of the two channels of a connection, however its two goroutines interleave: `events`
-- and `resumeCh` in `handleConn` and `readCommands` of smtp.go.
use smtp_gateway.Base.{
  ℕ, suc, ◌+◌, ◌<◌, ◌≤◌, ◌≡◌, refl, sym, Bool, true, false, not, ◌&&◌, ◌||◌, is_nil, Option, none,
  List, [], ◌∷◌, ◌++◌, length, arith, if◌then◌else◌,
}
use smtp_gateway.Response.{Response}
use smtp_gateway.Server.{Server}
use smtp_gateway.Session.{Conn, Env, Session}
use smtp_gateway.Session.Loop.{Command, start}
use smtp_gateway.Pipeline.{
  max_events, Reader, holding, paused, abandoned, Worker, idle, busy, replying, Machine, pauses,
  after_send, after_work, first_reader, ReaderStep, read_command, read_failed, send, resumed,
  Interrupt, give_up_send, give_up_wait, drop, WorkerStep, take, work, reply, stop, finish, launch,
  Reachable, launched, by_reader, by_interrupt, by_worker,
}

-- The command that the worker carries out.
unfoldable pub in_hand : Worker → List Command
in_hand (busy c) = c ∷ []
in_hand _ = []

-- The commands that have been sent and not carried out.
unfoldable pub pending : {W : Type 0} → Machine W → List Command
pending m = in_hand m.worker ++ m.queue

-- How many of them the reader waits behind.
unfoldable pub pausing : List Command → ℕ
pausing [] = 0
pausing (c ∷ cs) = if pauses c then suc (pausing cs) else pausing cs

-- Only the last one may be such a command.
unfoldable pub is_tidy : List Command → Bool
is_tidy [] = true
is_tidy (c ∷ cs) = (not (pauses c) || is_nil cs) && is_tidy cs

-- How many tokens the reader has coming, in `resumeCh` or from a command that is pending.
unfoldable pub Balanced : Reader → ℕ → Type 0
Balanced paused n = n ≡ 1
Balanced (abandoned none) n = n ≤ 1
Balanced _ n = n ≡ 0

pub record Disciplined {W : Type 0} (m : Machine W) : Type 0 where
  pub room : length m.queue ≤ max_events
  pub tidy : is_tidy (pending m) ≡ true
  pub balance : Balanced m.reader (m.resume + pausing (pending m))

-- Whether the reader keeps off the connection.
unfoldable pub stands_still : Reader → Bool
stands_still paused = true
stands_still (abandoned c) = true
stands_still _ = false

length-snoc : (cs : List Command) (c : Command) → length (cs ++ c ∷ []) ≡ suc (length cs)
length-snoc [] c = refl
length-snoc (d ∷ cs) c = ground (arith, length-snoc cs c)

pausing-snoc :
    (cs : List Command) (c : Command)
    → pausing (cs ++ c ∷ []) ≡ pausing cs + (if pauses c then 1 else 0)
unfolding pausing
pausing-snoc [] c = ground arith
pausing-snoc (d ∷ cs) c = ground (arith, pausing-snoc cs c)

is_tidy-snoc : (cs : List Command) (c : Command) → pausing cs ≡ 0 → is_tidy (cs ++ c ∷ []) ≡ true
unfolding pausing is_tidy
is_tidy-snoc [] c h = ground arith
is_tidy-snoc (d ∷ cs) c h = ground (arith, is_tidy-snoc cs c)

-- A pausing command that is pending is the last one.
pub is_tidy-alone :
    (c : Command) (cs : List Command) → is_tidy (c ∷ cs) ≡ true → pauses c ≡ true → cs ≡ []
unfolding is_tidy
is_tidy-alone c [] h p = refl
is_tidy-alone c (d ∷ cs) h p = absurd (ground arith)

pub is_tidy-rest : (c : Command) (cs : List Command) → is_tidy (c ∷ cs) ≡ true → is_tidy cs ≡ true
unfolding is_tidy
is_tidy-rest c cs h = ground arith

after_send-Balanced :
    (c : Command) (n : ℕ) → n ≡ (if pauses c then 1 else 0) → Balanced (after_send c) n
unfolding after_send Balanced
after_send-Balanced c n h = ground arith

pending-snoc :
    (w : Worker) (cs : List Command) (c : Command)
    → in_hand w ++ (cs ++ c ∷ []) ≡ (in_hand w ++ cs) ++ c ∷ []
unfolding in_hand
pending-snoc idle cs c = refl
pending-snoc (busy d) cs c = refl
pending-snoc (replying o) cs c = refl

send-Disciplined :
    {W : Type 0} (m : Machine W) (c : Command)
    → Disciplined m
    → m.reader ≡ holding c
    → length m.queue < max_events
    → Disciplined (record m { queue = m.queue ++ c ∷ []; reader = after_send c })
unfolding pending
send-Disciplined m c h e l =
    let b : m.resume + pausing (in_hand m.worker ++ m.queue) ≡ 0 =
      unfold Balanced in (let b' = h.balance in ground arith) in
    record {
      room = ground (arith, length-snoc m.queue c);
      tidy =
          rw (pending-snoc m.worker m.queue c)
            (is_tidy-snoc (in_hand m.worker ++ m.queue) c (omega arith));
      balance =
          rw (pending-snoc m.worker m.queue c, pausing-snoc (in_hand m.worker ++ m.queue) c)
            (after_send-Balanced c _ (omega arith));
    }

Balanced-le : (r : Reader) (n : ℕ) → Balanced r n → n ≤ 1
unfolding Balanced
Balanced-le r n h = ground arith

-- With a command in hand, its token has room in `resumeCh`.
pub busy-after_work :
    {W : Type 0} (m : Machine W) (c : Command)
    → Disciplined m
    → m.worker ≡ busy c
    → after_work c m.resume < 2
unfolding pending in_hand pausing Balanced after_work
busy-after_work m c h e =
    let l = Balanced-le m.reader (m.resume + pausing (in_hand m.worker ++ m.queue)) h.balance in
    ground arith

take-Disciplined :
    {W : Type 0} (m : Machine W) (st : Session W) (c : Command) (cs : List Command)
    → Disciplined m
    → m.worker ≡ idle
    → m.queue ≡ c ∷ cs
    → Disciplined (record m { session = st; queue = cs; worker = busy c })
unfolding pending in_hand
take-Disciplined m st c cs h e f = record {
  room = (let r = h.room in ground arith);
  tidy = (let t = h.tidy in rw (sym f) (ground arith));
  balance = (let b = h.balance in rw (sym f) (ground arith));
}

work-Disciplined :
    {W : Type 0} (m : Machine W) (st : Session W) (c : Command) (o : Option Response)
    → Disciplined m
    → m.worker ≡ busy c
    → Disciplined (record m { session = st; worker = replying o; resume = after_work c m.resume })
unfolding pending in_hand after_work pausing
work-Disciplined m st c o h e = record {
  room = h.room;
  tidy = is_tidy-rest c m.queue (let t = h.tidy in ground arith);
  balance = (let b = h.balance in ground arith);
}

module _ {W : Type 0} (env : Env W) (srv : Server) where
  ReaderStep-Disciplined :
      (m m' : Machine W) → Disciplined m → ReaderStep env srv m m' → Disciplined m'
  unfolding pending Balanced
  ReaderStep-Disciplined m m' h (read_command c e l f) = rw f (ground arith)
  ReaderStep-Disciplined m m' h (read_failed e l f) = rw f (ground arith)
  ReaderStep-Disciplined m m' h (send c e l f) = rw f (send-Disciplined m c h e l)
  ReaderStep-Disciplined m m' h (resumed n e l f) = rw f (ground arith)

  Interrupt-Disciplined :
      (m m' : Machine W) → Disciplined m → Interrupt env srv m m' → Disciplined m'
  unfolding pending Balanced
  Interrupt-Disciplined m m' h (give_up_send c e n f) = rw f (ground arith)
  Interrupt-Disciplined m m' h (give_up_wait e f) = rw f (ground arith)
  Interrupt-Disciplined m m' h (drop e f) = rw f (ground arith)

  WorkerStep-Disciplined :
      (m m' : Machine W) → Disciplined m → WorkerStep env srv m m' → Disciplined m'
  unfolding pending in_hand
  WorkerStep-Disciplined m m' h (take c cs e l q r f) = rw f (take-Disciplined m _ c cs h e r)
  WorkerStep-Disciplined m m' h (work c e l f) = rw f (work-Disciplined m _ c _ h e)
  WorkerStep-Disciplined m m' h (reply o e f) = rw f (ground arith)
  WorkerStep-Disciplined m m' h (stop e l q f) = rw f (ground arith)
  WorkerStep-Disciplined m m' h (finish e l q r s f) = rw f (ground arith)

  first_reader-Balanced : (b : Bool) → Balanced (first_reader b) 0
  unfolding Balanced
  first_reader-Balanced true = refl
  first_reader-Balanced false = refl

  pub Reachable-Disciplined :
      {w : W} {conn : Conn} {m : Machine W} → Reachable env srv w conn m → Disciplined m
  unfolding launch pending in_hand is_tidy pausing
  Reachable-Disciplined {w = w} {conn = conn} launched = record {
    room = omega arith;
    tidy = refl;
    balance = first_reader-Balanced (start env srv w conn).closed;
  }
  Reachable-Disciplined (by_reader {p} {m} r s) =
      ReaderStep-Disciplined p m (Reachable-Disciplined r) s
  Reachable-Disciplined (by_interrupt {p} {m} r s) =
      Interrupt-Disciplined p m (Reachable-Disciplined r) s
  Reachable-Disciplined (by_worker {p} {m} r s) =
      WorkerStep-Disciplined p m (Reachable-Disciplined r) s

  pub alone :
      (m : Machine W) (c : Command)
      → Disciplined m
      → m.worker ≡ busy c
      → pauses c ≡ true
      → (stands_still m.reader ≡ true) × (m.queue ≡ []) × (m.resume ≡ 0)
  unfolding pending in_hand pausing Balanced stands_still
  alone m c h e p =
      let q : m.queue ≡ [] = is_tidy-alone c m.queue (let t = h.tidy in ground arith) p in
      let b = h.balance in ground arith

  -- However the two goroutines of a connection interleave, when the worker carries out DATA, BDAT or
  -- STARTTLS, which take bytes off the connection, the reader keeps off it, until it is resumed or
  -- for good, no command is queued behind, and `resumeCh` has room for the token that the handler
  -- sends.
  pub busy-exclusive :
      (w : W) (conn : Conn) (m : Machine W) (c : Command)
      → Reachable env srv w conn m
      → m.worker ≡ busy c
      → pauses c ≡ true
      → (stands_still m.reader ≡ true) × (m.queue ≡ []) × (m.resume ≡ 0)
  busy-exclusive w conn m c r e p = alone m c (Reachable-Disciplined r) e p
