-- ===== src/Server/Accepting.antt =====
-- The accept loop of `Serve` and the end of its goroutines (gateway.go), as steps of a count of the
-- connections. The goroutines take these steps in any order: the semaphore and the wait group change
-- at different steps, as in the source.
use smtp_gateway.Base.{ℕ, suc, ◌+◌, ◌<◌, ◌≤◌, ◌≡◌, refl, Bool, true, false, arith}
use smtp_gateway.Base.Int.{ℤ, pos_part, is_positive}

-- The goroutines by where they stand, and what they share.
pub record Pool : Type 0 where
  -- The accept loop stands between the semaphore and the start of a goroutine.
  pub entering : Bool
  -- in `handleConn`
  pub handled : ℕ
  -- behind `handleConn`, before the receive from `connSem`
  pub finishing : ℕ
  -- behind that receive, before `wg.Done`
  pub leaving : ℕ
  -- the items in `connSem`
  pub taken : ℕ
  -- the counter of the wait group
  pub active : ℕ

-- Serve begins with no connection.
abbrev pub idle : Pool
idle = record { entering = false; handled = 0; finishing = 0; leaving = 0; taken = 0; active = 0 }

-- The accept loop; `max` is `MaxConnections`.
pub data Arrival (max : ℤ) (p : Pool) (q : Pool) : Type 0 where
  -- A connection is accepted without a limit.
  enter_unlimited :
      is_positive max ≡ false
      → p.entering ≡ false
      → q ≡ record p { entering = true }
      → Arrival max p q
  -- A connection is accepted and put into the semaphore, which has room.
  enter :
      is_positive max ≡ true
      → p.entering ≡ false
      → p.taken < pos_part max
      → q ≡ record p { entering = true; taken = suc p.taken }
      → Arrival max p q
  -- The semaphore is full: the connection gets 421 and is closed.
  turn_away :
      is_positive max ≡ true → p.entering ≡ false → pos_part max ≤ p.taken → q ≡ p → Arrival max p q
  -- `wg.Add`, and the goroutine that handles the connection.
  spawn :
      p.entering ≡ true
      → q ≡ record p { entering = false; active = suc p.active; handled = suc p.handled }
      → Arrival max p q

-- The end of a goroutine.
pub data Departure (max : ℤ) (p : Pool) (q : Pool) : Type 0 where
  -- `handleConn` returns.
  finish :
      (n : ℕ)
      → p.handled ≡ suc n
      → q ≡ record p { handled = n; finishing = suc p.finishing }
      → Departure max p q
  -- The second deferred function, without a limit,
  release_unlimited :
      (n : ℕ)
      → is_positive max ≡ false
      → p.finishing ≡ suc n
      → q ≡ record p { finishing = n; leaving = suc p.leaving }
      → Departure max p q
  -- and with one, where an item is received from the semaphore.
  release :
      (n m : ℕ)
      → is_positive max ≡ true
      → p.finishing ≡ suc n
      → p.taken ≡ suc m
      → q ≡ record p { finishing = n; leaving = suc p.leaving; taken = m }
      → Departure max p q
  -- `wg.Done`, which panics on a counter of zero.
  done :
      (n m : ℕ)
      → p.leaving ≡ suc n
      → p.active ≡ suc m
      → q ≡ record p { leaving = n; active = m }
      → Departure max p q

pub data Step (max : ℤ) (p : Pool) (q : Pool) : Type 0 where
  arrival : Arrival max p q → Step max p q
  departure : Departure max p q → Step max p q

pub data Reachable (max : ℤ) : Pool → Type 0 where
  begin : Reachable max idle
  next : (p q : Pool) → Reachable max p → Step max p q → Reachable max q

abbrev pub count : Bool → ℕ
count false = 0
count true = 1

-- The wait group counts the goroutines that have not called `wg.Done`.
abbrev pub Grouped : Pool → Type 0
Grouped p = p.active ≡ p.handled + (p.finishing + p.leaving)

Step-Grouped : (max : ℤ) (p q : Pool) → Grouped p → Step max p q → Grouped q
Step-Grouped max p q h (arrival (enter_unlimited l b e)) = rw e h
Step-Grouped max p q h (arrival (enter l b room e)) = rw e h
Step-Grouped max p q h (arrival (turn_away l b full e)) = rw e h
Step-Grouped max p q h (arrival (spawn b e)) = ground arith
Step-Grouped max p q h (departure (finish n a e)) = ground arith
Step-Grouped max p q h (departure (release_unlimited n l a e)) = ground arith
Step-Grouped max p q h (departure (release n m l a b e)) = ground arith
Step-Grouped max p q h (departure (done n m a b e)) = ground arith

pub Reachable-Grouped : {max : ℤ} {p : Pool} → Reachable max p → Grouped p
Reachable-Grouped begin = refl
Reachable-Grouped {max = max} (next p q r s) = Step-Grouped max p q (Reachable-Grouped r) s

-- The semaphore counts the connections that have not given their item back.
pub record IsCounted (max : ℤ) (p : Pool) : Type 0 where
  pub items : p.taken ≡ count p.entering + (p.handled + p.finishing)
  pub limited : p.taken ≤ pos_part max

Step-IsCounted :
    (max : ℤ) (p q : Pool)
    → is_positive max ≡ true
    → IsCounted max p
    → Step max p q
    → IsCounted max q
Step-IsCounted max p q l h (arrival (enter_unlimited f b e)) = absurd (ground arith)
Step-IsCounted max p q l h (arrival (enter f b room e)) = ground arith
Step-IsCounted max p q l h (arrival (turn_away f b full e)) = rw e h
Step-IsCounted max p q l h (arrival (spawn b e)) = ground arith
Step-IsCounted max p q l h (departure (finish n a e)) = ground arith
Step-IsCounted max p q l h (departure (release_unlimited n f a e)) = absurd (ground arith)
Step-IsCounted max p q l h (departure (release n m f a b e)) = ground arith
Step-IsCounted max p q l h (departure (done n m a b e)) = ground arith

-- With a positive MaxConnections, in whatever order connections come and go: the semaphore holds one
-- item for each connection that is let in, is handled, or was handled and has not given its item
-- back, so that a goroutine never waits for an item, and there are never more than MaxConnections of
-- these; the wait group counts each goroutine from its start until it calls Done, so that its counter
-- never falls below zero.
pub Reachable-IsCounted :
    (max : ℤ) (p : Pool) → is_positive max ≡ true → Reachable max p → IsCounted max p × Grouped p
Reachable-IsCounted max p l begin = (record { items = refl; limited = omega arith }, refl)
Reachable-IsCounted max q l (next p _ r s) =
    let (h, w) = Reachable-IsCounted max p l r in
    (Step-IsCounted max p q l h s, Step-Grouped max p q w s)
