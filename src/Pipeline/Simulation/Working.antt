-- ===== src/Pipeline/Simulation/Working.antt =====
-- The same over the steps of the worker:
-- `readCommands` and `handleConn` of smtp.go.
use smtp_gateway.Base.{
  ℕ, suc, ◌≡◌, refl, sym, ap, ◌∙◌, true, false, Option, List, [], ◌∷◌, ◌++◌, arith,
}
use smtp_gateway.Wire.{read_line}
use smtp_gateway.Response.{Response}
use smtp_gateway.Server.{Server}
use smtp_gateway.Session.{Conn, Env, Session}
use smtp_gateway.Session.Loop.{Command, process, answer, shut_down, round, start}
use smtp_gateway.Pipeline.{idle, busy, replying, Machine, pauses, polled}
use smtp_gateway.Pipeline.Independence.{with_reader, process-carry, answer-carry, shut_down-carry}
use smtp_gateway.Pipeline.Discipline.{Disciplined, alone}
use smtp_gateway.Pipeline.Ahead.{
  serve-suc, process-kept, answer-kept, shut_down-kept, round-stop, round-take,
}
use smtp_gateway.Pipeline.Simulation.{
  held, Linked, Sim, run, Ahead-of, stands_still-Tip, Tip-refl, nothing-held,
}

module _ {W : Type 0} (env : Env W) (srv : Server) (w : W) (conn : Conn) where
  pub take-Sim :
      (m : Machine W) (c : Command) (cs : List Command)
      → Sim env srv w conn m
      → m.worker ≡ idle
      → m.session.closed ≡ false
      → (env.cancelled m.session.world).0 ≡ false
      → m.queue ≡ c ∷ cs
      → Sim env srv w conn
          (record m { session = polled env srv m.session; queue = cs; worker = busy c })
  unfolding Linked polled
  take-Sim m c cs h e l q f =
      let b : ℕ = m.session.conn.buffer in
      let k : run env srv w conn h.rounds ≡ with_reader h.here b m.session =
        (let k' = h.linked in ground arith) in
      let a =
        Ahead-of env srv w conn b h.here h.tip (m.queue ++ held m.reader)
          (c ∷ (cs ++ held m.reader)) (rw f refl) h.ahead in
      record {
        rounds = h.rounds;
        here = (read_line b h.here).1;
        tip = h.tip;
        linked = (
          ap (λ s. s.trace) k,
          serve-suc env srv h.rounds (start env srv w conn) (ap (λ s. s.closed) k ∙ l)
              ∙ (ap (round env srv) k
                  ∙ round-take env srv c (with_reader h.here b m.session) q a.0),
        );
        ahead = a.1;
        at_tip = h.at_tip;
      }

  busy-Linked :
      (m : Machine W) (c : Command) (h : Sim env srv w conn m)
      → m.worker ≡ busy c
      → run env srv w conn (suc h.rounds)
        ≡ answer env srv (process env srv c (with_reader h.here m.session.conn.buffer m.session))
  unfolding Linked
  busy-Linked m c h e = (let k = h.linked in ground arith)

  -- The handler of a command behind which the reader goes on.
  pub work_on-Sim :
      (m : Machine W) (c : Command) (n : ℕ)
      → Sim env srv w conn m
      → m.worker ≡ busy c
      → pauses c ≡ false
      → Sim env srv w conn (record m {
        session = (process env srv c m.session).1;
        worker = replying (process env srv c m.session).0;
        resume = n;
      })
  unfolding Linked
  work_on-Sim m c n h e p =
      let b : ℕ = m.session.conn.buffer in
      let (i, j) = process-kept env srv c m.session p in
      record {
        rounds = suc h.rounds;
        here = h.here;
        tip = h.tip;
        linked =
            busy-Linked m c h e
            ∙ (ap (answer env srv) (process-carry env srv h.here b c m.session p)
                ∙ ap
                    (λ x. answer env srv (
                      (process env srv c m.session).0,
                      with_reader h.here x (process env srv c m.session).1,
                    ))
                    (sym j));
        ahead = rw j h.ahead;
        at_tip = rw i h.at_tip;
      }

  -- The handler of a command behind which the reader waits: it has read nothing ahead.
  pub work_alone-Sim :
      (m : Machine W) (c : Command) (n : ℕ)
      → Sim env srv w conn m
      → Disciplined m
      → m.worker ≡ busy c
      → pauses c ≡ true
      → Sim env srv w conn (record m {
        session = (process env srv c m.session).1;
        worker = replying (process env srv c m.session).0;
        resume = n;
      })
  unfolding Linked
  work_alone-Sim m c n h d e p =
      let (x, y, z) = alone env srv m c d e p in
      let a =
        Ahead-of env srv w conn m.session.conn.buffer h.here h.tip (m.queue ++ held m.reader) []
          (rw (y, nothing-held m c d e p) refl) h.ahead in
      let i = a ∙ stands_still-Tip m.reader h.tip m.session.conn.input x h.at_tip in
      record {
        rounds = suc h.rounds;
        here = (process env srv c m.session).1.conn.input;
        tip = (process env srv c m.session).1.conn.input;
        linked =
            busy-Linked m c h e
            ∙ ap
                (λ s.
                  answer env srv
                    (process env srv c (with_reader s m.session.conn.buffer m.session)))
                i;
        ahead =
            Ahead-of env srv w conn _ _ _ [] (m.queue ++ held m.reader)
              (rw (y, nothing-held m c d e p) refl) refl;
        at_tip = Tip-refl m.reader _;
      }

  pub reply-Sim :
      (m : Machine W) (o : Option Response)
      → Sim env srv w conn m
      → m.worker ≡ replying o
      → Sim env srv w conn (record m { session = answer env srv (o, m.session); worker = idle })
  unfolding Linked
  reply-Sim m o h e =
      let b : ℕ = m.session.conn.buffer in
      let k : run env srv w conn h.rounds ≡ answer env srv (o, with_reader h.here b m.session) =
        (let k' = h.linked in ground arith) in
      let (i, j) = answer-kept env srv o m.session in
      record {
        rounds = h.rounds;
        here = h.here;
        tip = h.tip;
        linked =
            k
            ∙ (answer-carry env srv h.here b o m.session
                ∙ ap (λ x. with_reader h.here x (answer env srv (o, m.session))) (sym j));
        ahead = rw j h.ahead;
        at_tip = rw i h.at_tip;
      }

  pub stop-Sim :
      (m : Machine W)
      → Sim env srv w conn m
      → m.worker ≡ idle
      → m.session.closed ≡ false
      → (env.cancelled m.session.world).0 ≡ true
      → Sim env srv w conn (record m { session = shut_down env srv (polled env srv m.session) })
  unfolding Linked polled
  stop-Sim m h e l q =
      let b : ℕ = m.session.conn.buffer in
      let st : Session W = polled env srv m.session in
      let k : run env srv w conn h.rounds ≡ with_reader h.here b m.session =
        (let k' = h.linked in ground arith) in
      let (i, j) = shut_down-kept env srv st in
      record {
        rounds = suc h.rounds;
        here = h.here;
        tip = h.tip;
        linked = rw e (
            serve-suc env srv h.rounds (start env srv w conn) (ap (λ s. s.closed) k ∙ l)
            ∙ (ap (round env srv) k
                ∙ (round-stop env srv (with_reader h.here b m.session) q
                    ∙ (shut_down-carry env srv h.here b st
                        ∙ ap (λ x. with_reader h.here x (shut_down env srv st)) (sym j)))));
        ahead = rw j h.ahead;
        at_tip = rw i h.at_tip;
      }
