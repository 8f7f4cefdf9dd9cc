-- ===== src/Pipeline/Refinement.antt =====
-- The two goroutines of a connection against the worker loop that reads each command itself:
-- `readCommands` and `handleConn` of smtp.go.
use smtp_gateway.Base.{ℕ, ◌≡◌, inl, inr, ap, ◌∙◌, false, List, [], ◌++◌}
use smtp_gateway.Wire.{Stream}
use smtp_gateway.Server.{Server}
use smtp_gateway.Session.{Conn, Env, Session, Effect}
use smtp_gateway.Session.Loop.{serve, start}
use smtp_gateway.Pipeline.{Worker, idle, busy, replying, Machine, Reachable}
use smtp_gateway.Pipeline.Independence.{with_reader}
use smtp_gateway.Pipeline.Ahead.{answer-trace}
use smtp_gateway.Pipeline.Simulation.{Linked}
use smtp_gateway.Pipeline.Matching.{Matched, Reachable-Matched}

module _ {W : Type 0} (env : Env W) (srv : Server) (w : W) (conn : Conn) where
  -- The effects so far of a connection are an initial part of those of a run of the loop.
  abbrev pub Refines : Session W → Type 0
  Refines st =
      (n : ℕ) × (xs : List Effect) × ((serve env srv n (start env srv w conn)).trace
        ≡ xs ++ st.trace)

  Linked-Refines :
      (n : ℕ) (s : Stream) (wk : Worker) (st : Session W)
      → Linked env srv w conn n s wk st
      → Refines st
  unfolding Linked
  Linked-Refines n s idle st h = (n, [], ap (λ t. t.trace) h)
  Linked-Refines n s (busy c) st h = (n, [], h.0)
  Linked-Refines n s (replying o) st h =
      let (xs, e) = answer-trace env srv o (with_reader s st.conn.buffer st) in
      (n, xs, ap (λ t. t.trace) h ∙ e)

  Matched-Refines : (m : Machine W) → Matched env srv w conn m → Refines m.session
  Matched-Refines m (inl h) = Linked-Refines h.rounds h.here m.worker m.session h.linked
  Matched-Refines m (inr h) = (h.rounds, [], h.seen)

  -- However the two goroutines of a connection interleave, with commands read up to 32 ahead of the
  -- worker: unless a line that is too long was passed over on a cancelled context, the replies, the
  -- calls of the handler and the stored messages so far, with their arguments and in their order,
  -- are an initial part of those of a session that reads each command only when the one before it
  -- has been answered.
  pub Reachable-Refines :
      (m : Machine W) → Reachable env srv w conn m → m.dropped ≡ false → Refines m.session
  Reachable-Refines m r d = Matched-Refines m (Reachable-Matched env srv w conn r d)
