-- ===== src/Pipeline/Sequential.antt =====
-- The worker loop that reads each command itself is one of the ways in which the goroutines of a
-- connection may interleave: `readCommands` and `handleConn` of smtp.go.
use smtp_gateway.Base.{
  ℕ, zero, suc, ◌≡◌, refl, sym, ap, ◌∙◌, true, false, Bool-cases, inl, inr, Option, none, some, [],
  ◌∷◌, Bytes, arith,
}
use mathlib.Core.Path.{subst}
use smtp_gateway.Wire.{read_line}
use smtp_gateway.Response.{Response}
use smtp_gateway.Server.{Server}
use smtp_gateway.Session.{Conn, Env, Session}
use smtp_gateway.Session.Calls.{write}
use smtp_gateway.Session.Loop.{
  Verb, quit, Command, command, too_long, dispatch, process, answer, command_of, turn, shut_down,
  listen, round, serve, start, is_allowed_during_bdat,
}
use smtp_gateway.Pipeline.{
  reading, holding, idle, busy, replying, Machine, pauses, quits, after_send, after_work, next_line,
  read_on, polled, read_command, send, resumed, take, work, reply, launch, first_reader, Reachable,
  launched, by_reader, by_worker,
}
use smtp_gateway.Pipeline.Ahead.{serve-suc, serve-stays, round-stop}

quits_verb : (v : Verb) (args : Bytes) → quits (command v args) ≡ true → v ≡ quit
unfolding quits
quits_verb v args h = ground arith

module _ {W : Type 0} (env : Env W) (srv : Server) where
  -- Nothing is read ahead, and nothing is under way.
  abbrev pub settled : Session W → Machine W
  settled st = record {
    session = st;
    queue = [];
    reader = reading;
    worker = idle;
    resume = 0;
    dropped = false;
  }

  quit-closed :
      (args : Bytes) (st : Session W) → (process env srv (command quit args) st).1.closed ≡ true
  unfolding process dispatch write is_allowed_during_bdat
  quit-closed args st = ground arith

  quits-closed :
      (c : Command) (st : Session W) → quits c ≡ true → (process env srv c st).1.closed ≡ true
  unfolding quits
  quits-closed too_long st h = absurd (ground arith)
  quits-closed (command v args) st h = rw (quits_verb v args h) (quit-closed args st)

  -- Closed sessions stay closed under a reply.
  answer-closed :
      (o : Option Response) (st : Session W)
      → st.closed ≡ true
      → (answer env srv (o, st)).closed ≡ true
  unfolding answer write
  answer-closed none st h = h
  answer-closed (some r) st h = ground arith

  -- From the send of a command to its reply.
  module _ (w : W) (conn : Conn) where
    settle :
        (st : Session W) (c : Command)
        → Reachable env srv w conn (settled st)
        → st.closed ≡ false
        → (env.cancelled st.world).0 ≡ false
        → command_of env srv (read_line st.conn.buffer st.conn.input).0 ≡ some c
        → quits c ≡ false
        → Reachable env srv w conn (
            settled
              (answer env srv (process env srv c (polled env srv (read_on env srv (settled st))))))
    unfolding next_line read_on after_send
    settle st c r l q e n =
        let m0 : Machine W = settled st in
        let m1 : Machine W = record m0 { session = read_on env srv m0; reader = holding c } in
        let m2 : Machine W = record m1 { queue = c ∷ []; reader = after_send c } in
        let m3 : Machine W = record m2 {
          session = polled env srv m2.session;
          queue = [];
          worker = busy c;
        } in
        let p = process env srv c m3.session in
        let m4 : Machine W = record m3 {
          session = p.1;
          worker = replying p.0;
          resume = after_work c 0;
        } in
        let r1 = by_reader r (read_command c refl e refl) in
        let r2 = by_reader r1 (send c refl (omega arith) refl) in
        let r3 = by_worker r2 (take c [] refl l q refl refl) in
        let r4 = by_worker r3 (work c refl (unfold after_work in ground arith) refl) in
        elim (Bool-cases (pauses c)) [
          | inl h ↦
              by_worker
                (by_reader r4 (resumed 0 (ground arith) (unfold after_work in ground arith) refl))
                (reply p.0 refl refl)
          | inr h ↦
              (let none_left : after_work c 0 ≡ 0 = unfold after_work in ground arith in
                let goes_on : after_send c ≡ reading = ground arith in
                by_worker r4 (reply p.0 refl (rw (none_left, goes_on) refl)))
        ]

    open_turn :
        (o : Option Command) (st : Session W)
        → (turn env srv o st).closed ≡ false
        → (c : Command) × (o ≡ some c) × (quits c ≡ false)
    unfolding turn
    open_turn none st h = absurd (ground arith)
    open_turn (some c) st h = elim (Bool-cases (quits c)) [
      | inl k ↦ absurd (
          let p = process env srv c st in
          let e = answer-closed p.0 p.1 (quits-closed c st k) in ground arith)
      | inr k ↦ (c, refl, k)
    ]

    round_listens :
        (st : Session W)
        → (env.cancelled st.world).0 ≡ false
        → round env srv st
          ≡ turn env srv
              (command_of env srv (read_line st.conn.buffer st.conn.input).0)
              (polled env srv (read_on env srv (settled st)))
    unfolding round listen polled read_on next_line
    round_listens st q = rw q refl

    turn_takes :
        (o : Option Command) (c : Command) (st : Session W)
        → o ≡ some c
        → turn env srv o st ≡ answer env srv (process env srv c st)
    unfolding turn
    turn_takes o c st e = rw e refl

    round_stops :
        (st : Session W) → (env.cancelled st.world).0 ≡ true → (round env srv st).closed ≡ true
    unfolding shut_down
    round_stops st q = ap (λ s. s.closed) (round-stop env srv st q)

    round-settled :
        (st : Session W)
        → Reachable env srv w conn (settled st)
        → st.closed ≡ false
        → (round env srv st).closed ≡ false
        → Reachable env srv w conn (settled (round env srv st))
    round-settled st r l h = elim (Bool-cases (env.cancelled st.world).0) [
      | inl q ↦ absurd (let e = round_stops st q in ground arith)
      | inr q ↦
          (let e = round_listens st q in
            let (c, f, n) =
              open_turn (command_of env srv (read_line st.conn.buffer st.conn.input).0)
                (polled env srv (read_on env srv (settled st))) (ap (λ s. s.closed) (sym e) ∙ h) in
            subst (λ (s : Session W). Reachable env srv w conn (settled s))
              (sym (
                e
                ∙ turn_takes (command_of env srv (read_line st.conn.buffer st.conn.input).0) c
                    (polled env srv (read_on env srv (settled st))) f))
              (settle st c r l q f n))
    ]

    start-settled :
        (start env srv w conn).closed ≡ false
        → Reachable env srv w conn (settled (start env srv w conn))
    start-settled h =
        (let e : launch env srv w conn ≡ settled (start env srv w conn) =
            unfold launch in
            ap (λ b. record (settled (start env srv w conn)) { reader = first_reader b }) h in
          subst (λ (m : Machine W). Reachable env srv w conn m) e launched)

    serve-zero : serve env srv 0 (start env srv w conn) ≡ start env srv w conn
    unfolding serve
    serve-zero = refl

    -- The state of the loop that reads each command itself, after any number of rounds in which it
    -- goes on, is one of those that the two goroutines reach, with nothing read ahead.
    pub serve-Reachable :
        (n : ℕ)
        → (serve env srv n (start env srv w conn)).closed ≡ false
        → Reachable env srv w conn (settled (serve env srv n (start env srv w conn)))
    serve-Reachable zero h =
        subst (λ (s : Session W). Reachable env srv w conn (settled s)) (sym serve-zero)
          (start-settled (ap (λ s. s.closed) (sym serve-zero) ∙ h))
    serve-Reachable (suc n) h = elim (Bool-cases (serve env srv n (start env srv w conn)).closed) [
      | inl q ↦ absurd (let e = serve-stays env srv n (start env srv w conn) q in ground arith)
      | inr q ↦
          (let e = serve-suc env srv n (start env srv w conn) q in
            subst (λ (s : Session W). Reachable env srv w conn (settled s)) (sym e)
              (round-settled (serve env srv n (start env srv w conn)) (serve-Reachable n q) q
                (ap (λ s. s.closed) (sym e) ∙ h)))
    ]
