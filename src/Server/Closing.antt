-- ===== src/Server/Closing.antt =====
-- `Shutdown`, and the end of `Serve`, beside the accept loop (gateway.go), as steps that may come in
-- any order: the server context, the wait group, and the calls of `Shutdown` that wait for it.
use smtp_gateway.Base.{ℕ, suc, ◌≡◌, Bool, true, false, arith}
use smtp_gateway.Base.Int.{ℤ}
use smtp_gateway.Server.Accepting.{
  Pool, idle, Arrival, Departure, finish, release_unlimited, release, done, arrival, departure,
  Reachable, begin, next, Reachable-Grouped,
}

-- Where `Serve` stands: in the accept loop, in `wg.Wait`, or behind its return, with nil or with the
-- error of `Accept`.
pub data Serving : Type 0 where
  accepting draining returned broken : Serving

-- `waiting` calls of `Shutdown` wait for the connections.
pub record Gateway : Type 0 where
  pub pool : Pool
  pub cancelled : Bool
  pub serving : Serving
  pub waiting : ℕ

abbrev pub opened : Gateway
opened = record { pool = idle; cancelled = false; serving = accepting; waiting = 0 }

-- `max` is `MaxConnections`.
pub data Turn (max : ℤ) (g : Gateway) (g' : Gateway) : Type 0 where
  -- The accept loop takes a connection, or turns it away.
  arrive :
      (q : Pool)
      → g.serving ≡ accepting
      → Arrival max g.pool q
      → g' ≡ record g { pool = q }
      → Turn max g g'
  -- A goroutine that handled a connection comes nearer to its end, whatever Serve does.
  depart : (q : Pool) → Departure max g.pool q → g' ≡ record g { pool = q } → Turn max g g'
  -- `Accept` fails on a context that is cancelled, or is not.
  accept_closed :
      g.serving ≡ accepting
      → g.pool.entering ≡ false
      → g.cancelled ≡ true
      → g' ≡ record g { serving = draining }
      → Turn max g g'
  accept_failed :
      g.serving ≡ accepting
      → g.pool.entering ≡ false
      → g.cancelled ≡ false
      → g' ≡ record g { serving = broken }
      → Turn max g g'
  -- `wg.Wait` of Serve returns.
  drained :
      g.serving ≡ draining
      → g.pool.active ≡ 0
      → g' ≡ record g { serving = returned }
      → Turn max g g'
  -- A call of Shutdown cancels the context, and waits.
  shut_down : g' ≡ record g { cancelled = true; waiting = suc g.waiting } → Turn max g g'
  -- It returns nil when the connections have ended,
  shut_down_done :
      (n : ℕ)
      → g.waiting ≡ suc n
      → g.pool.active ≡ 0
      → g' ≡ record g { waiting = n }
      → Turn max g g'
  -- or an error when its own context expires.
  shut_down_expired : (n : ℕ) → g.waiting ≡ suc n → g' ≡ record g { waiting = n } → Turn max g g'

pub data Run (max : ℤ) : Gateway → Type 0 where
  begun : Run max opened
  turn : {g g' : Gateway} → Run max g → Turn max g g' → Run max g'

-- What holds behind the return of Serve, by how it returned.
abbrev pub Rested : Serving → Gateway → Type 0
Rested accepting g = Unit
Rested broken g = Unit
Rested draining g = g.cancelled ≡ true
Rested returned g = (g.cancelled ≡ true) × (g.pool.active ≡ 0)

Departure-active : (max : ℤ) (p q : Pool) → p.active ≡ 0 → Departure max p q → q.active ≡ 0
Departure-active max p q z (finish n a e) = ground arith
Departure-active max p q z (release_unlimited n l a e) = ground arith
Departure-active max p q z (release n m l a b e) = ground arith
Departure-active max p q z (done n m a b e) = ground arith

depart-Rested :
    (max : ℤ) (s : Serving) (g : Gateway) (q : Pool)
    → Departure max g.pool q
    → Rested s g
    → Rested s (record g { pool = q })
depart-Rested max accepting g q d h = tt
depart-Rested max broken g q d h = tt
depart-Rested max draining g q d h = h
depart-Rested max returned g q d h = (h.0, Departure-active max g.pool q h.1 d)

Turn-Rested : (max : ℤ) (g g' : Gateway) → Rested g.serving g → Turn max g g' → Rested g'.serving g'
Turn-Rested max g g' h (arrive q e s f) = ground arith
Turn-Rested max g g' h (depart q d f) = rw f (depart-Rested max g.serving g q d h)
Turn-Rested max g g' h (accept_closed e n c f) = ground arith
Turn-Rested max g g' h (accept_failed e n c f) = ground arith
Turn-Rested max g g' h (drained e c f) = ground arith
Turn-Rested max g g' h (shut_down f) = ground arith
Turn-Rested max g g' h (shut_down_done n e c f) = ground arith
Turn-Rested max g g' h (shut_down_expired n e f) = ground arith

Run-Rested : {max : ℤ} {g : Gateway} → Run max g → Rested g.serving g
Run-Rested begun = tt
Run-Rested {max = max} (turn {g} {g'} r s) = Turn-Rested max g g' (Run-Rested r) s

Turn-pool :
    (max : ℤ) (g g' : Gateway) → Reachable max g.pool → Turn max g g' → Reachable max g'.pool
Turn-pool max g g' r (arrive q e s f) = rw f (next g.pool q r (arrival s))
Turn-pool max g g' r (depart q d f) = rw f (next g.pool q r (departure d))
Turn-pool max g g' r (accept_closed e n c f) = rw f r
Turn-pool max g g' r (accept_failed e n c f) = rw f r
Turn-pool max g g' r (drained e c f) = rw f r
Turn-pool max g g' r (shut_down f) = rw f r
Turn-pool max g g' r (shut_down_done n e c f) = rw f r
Turn-pool max g g' r (shut_down_expired n e f) = rw f r

Run-pool : {max : ℤ} {g : Gateway} → Run max g → Reachable max g.pool
Run-pool begun = begin
Run-pool {max = max} (turn {g} {g'} r s) = Turn-pool max g g' (Run-pool r) s

-- In whatever order connections come and go, and Shutdown is called and returns: once Serve has
-- returned nil, Shutdown was called, no connection is being handled, and no goroutine of a connection
-- has yet to call Done, then or later.
pub returned-drained :
    (max : ℤ) (g : Gateway)
    → Run max g
    → g.serving ≡ returned
    → (g.cancelled ≡ true)
      × (g.pool.active ≡ 0)
      × (g.pool.handled ≡ 0)
      × (g.pool.finishing ≡ 0)
      × (g.pool.leaving ≡ 0)
returned-drained max g r e =
    let h = Run-Rested r in let w = Reachable-Grouped (Run-pool r) in ground arith
