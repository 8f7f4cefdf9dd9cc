-- ===== src/Tests/Pipelines.antt =====
-- A connection whose reader and worker take turns.
use smtp_gateway.Base.{◌≡◌, refl, true, false, some, [], ◌∷◌, ◌++◌, All, codes, arith}
use smtp_gateway.Wire.{read_line}
use smtp_gateway.Text.Case.{to_upper}
use smtp_gateway.Text.Search.{cut_byte}
use smtp_gateway.Command.{split_verb}
use smtp_gateway.Session.Content.{handle_data}
use smtp_gateway.Session.Calls.{write}
use smtp_gateway.Session.Loop.{
  Command, command, data_verb, process, dispatch, end_transaction, answer, command_of, start,
  verb_of,
}
use smtp_gateway.Session.Invariant.{all_introduced, IsSound, Backed}
use smtp_gateway.Pipeline.{
  Machine, holding, paused, reading, idle, busy, replying, pauses, after_send, after_work,
  next_line, read_on, polled, read_command, send, take, work, reply, launch, Reachable, launched,
  by_reader, by_worker,
}
use smtp_gateway.Pipeline.Discipline.{stands_still, busy-exclusive}
use smtp_gateway.Pipeline.Progress.{Moves, Reachable-Moves}
use smtp_gateway.Pipeline.Safety.{Reachable-IsSound}
use smtp_gateway.Pipeline.Refinement.{Refines, Reachable-Refines}
use smtp_gateway.Tests.{accepting, gateway, client, eol}

abbrev data_command : Command
data_command = command data_verb []

abbrev early : Machine Unit
early = launch accepting gateway tt (client (codes "DATA" ++ eol))

abbrev read : Machine Unit
read = record early { session = read_on accepting gateway early; reader = holding data_command }

abbrev queued : Machine Unit
queued = record read { queue = data_command ∷ []; reader = paused }

abbrev taken : Machine Unit
taken = record queued {
  session = polled accepting gateway queued.session;
  queue = [];
  worker = busy data_command;
}

abbrev worked : Machine Unit
worked = record taken {
  session = (process accepting gateway data_command taken.session).1;
  worker = replying (process accepting gateway data_command taken.session).0;
  resume = 1;
}

abbrev answered : Machine Unit
answered = record worked {
  session =
      answer accepting gateway
        ((process accepting gateway data_command taken.session).0, worked.session);
  worker = idle;
}

next_test : command_of accepting gateway (next_line accepting gateway early).0 ≡ some data_command
unfolding command_of next_line launch start write split_verb verb_of read_line to_upper cut_byte
next_test = refl

early_test :
    (early.reader ≡ reading) × (early.queue ≡ []) × (early.worker ≡ idle) × (early.resume ≡ 0)
unfolding launch start write
early_test = (refl, refl, refl, refl)

taken-Reachable : Reachable accepting gateway tt (client (codes "DATA" ++ eol)) taken
unfolding launch start write after_send pauses read_on polled
taken-Reachable =
    by_worker
      (by_reader (by_reader launched (read_command data_command refl next_test refl))
        (send data_command refl (omega arith) refl))
      (take data_command [] refl refl refl refl refl)

answered-Reachable : Reachable accepting gateway tt (client (codes "DATA" ++ eol)) answered
unfolding launch start write after_work pauses
answered-Reachable =
    by_worker (by_worker taken-Reachable (work data_command refl (omega arith) refl))
      (reply (process accepting gateway data_command taken.session).0 refl refl)

open_test : answered.session.closed ≡ false
unfolding launch start write read_on polled process dispatch handle_data answer end_transaction
open_test = refl

busy-exclusive_example :
    (stands_still taken.reader ≡ true) × (taken.queue ≡ []) × (taken.resume ≡ 0)
busy-exclusive_example =
    busy-exclusive accepting gateway tt (client (codes "DATA" ++ eol)) taken data_command
      taken-Reachable refl (unfold pauses in refl)

Reachable-Moves_example : Moves accepting gateway answered
Reachable-Moves_example =
    Reachable-Moves accepting gateway tt (client (codes "DATA" ++ eol)) answered answered-Reachable
      open_test

Reachable-IsSound_example :
    All (IsSound gateway) answered.session.trace
    × Backed answered.session.trace
    × (all_introduced answered.session.trace ≡ true)
Reachable-IsSound_example =
    Reachable-IsSound accepting gateway tt (client (codes "DATA" ++ eol)) answered (omega arith)
      refl answered-Reachable

Reachable-Refines_example :
    Refines accepting gateway tt (client (codes "DATA" ++ eol)) answered.session
Reachable-Refines_example =
    Reachable-Refines accepting gateway tt (client (codes "DATA" ++ eol)) answered
      answered-Reachable (unfold launch in refl)
