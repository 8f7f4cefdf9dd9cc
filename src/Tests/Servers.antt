-- ===== src/Tests/Servers.antt =====
-- Instances of the theorems on the server.
use smtp_gateway.Base.{◌≡◌, refl, true, false, some, [], codes, arith}
use smtp_gateway.Base.Int.{pos}
use smtp_gateway.Server.Start
use smtp_gateway.Server.Start.{
  default_hostname, literal, new_server, refusal, with_defaults, read_deadline,
}
use smtp_gateway.Server.Start.Ready.{IsReady, start-IsReady, start-new_server}
use smtp_gateway.Server.Closing
use smtp_gateway.Server.Closing.{
  Run, turn, arrive, depart, accept_closed, drained, shut_down, returned, returned-drained,
}
use smtp_gateway.Server.Accepting.{
  Pool, IsCounted, Grouped, Reachable, idle, next, begin, arrival, departure, enter, spawn, finish,
  release, done, Reachable-IsCounted,
}

started_test :
    Start.start (default_hostname (some [])) false (literal true)
    ≡ Start.started (with_defaults (codes "localhost") (literal true))
unfolding Start.start refusal default_hostname
started_test = refl

start-IsReady_example : IsReady (with_defaults (codes "localhost") (literal true))
start-IsReady_example =
    start-IsReady (some []) false (literal true) (with_defaults (codes "localhost") (literal true))
      started_test

start-new_server_example :
    Start.start (codes "mx") true (new_server (codes "mx") true [])
    ≡ Start.start (codes "mx") true (literal true)
start-new_server_example = start-new_server (codes "mx") true true refl

-- A connection is let in while the goroutine of the one before, which has given its item back, has
-- yet to call Done.
abbrev handing_over : Pool
handing_over = record {
  entering = true;
  handled = 0;
  finishing = 0;
  leaving = 1;
  taken = 1;
  active = 1;
}

handing_over_run : Reachable (pos 1) handing_over
handing_over_run =
    next _ handing_over
      (next _ _
        (next _ _
          (next (record idle { entering = true; taken = 1 }) _
            (next idle _ begin (arrival (enter refl refl (omega arith) refl)))
            (arrival (spawn refl refl)))
          (departure (finish 0 refl refl)))
        (departure (release 0 0 refl refl refl refl)))
      (arrival (enter refl refl (omega arith) refl))

Reachable-IsCounted_example : IsCounted (pos 1) handing_over × Grouped handing_over
Reachable-IsCounted_example = Reachable-IsCounted (pos 1) handing_over refl handing_over_run

abbrev handling : Pool
handling = record idle { handled = 1; taken = 1; active = 1 }

-- A connection comes, Shutdown is called, and Serve waits for its end.
drained_run :
    Run (pos 1) (record { pool = idle; cancelled = true; serving = returned; waiting = 1 })
drained_run =
    turn
      (turn
        (turn
          (turn
            (turn
              (turn
                (turn
                  (turn Closing.begun (
                    arrive (record idle { entering = true; taken = 1 }) refl
                      (enter refl refl (omega arith) refl) refl))
                  (arrive handling refl (spawn refl refl) refl))
                (shut_down refl))
              (accept_closed refl refl refl refl))
            (depart (record handling { handled = 0; finishing = 1 }) (finish 0 refl refl) refl))
          (depart (record handling { handled = 0; leaving = 1; taken = 0 })
            (release 0 0 refl refl refl refl) refl))
        (depart idle (done 0 0 refl refl refl) refl))
      (drained refl refl refl)

returned-drained_example :
    (true ≡ true)
    × (idle.active ≡ 0)
    × (idle.handled ≡ 0)
    × (idle.finishing ≡ 0)
    × (idle.leaving ≡ 0)
returned-drained_example =
    returned-drained (pos 1)
      (record { pool = idle; cancelled = true; serving = returned; waiting = 1 }) drained_run refl
