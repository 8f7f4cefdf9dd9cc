-- ===== src/Session/Invariant/Recipients.antt =====
-- The invariant over RCPT.
use smtp_gateway.Base.{
  ℕ, ◌<◌, ◌+◌, ◌≡◌, refl, is_nil, ltb, false, Bytes, none, some, arith, [], ◌∷◌, ◌++◌, length, All,
  All-append, length-append, is_nil-snoc,
}
use smtp_gateway.Base.Int.{ℤ, pos, over_limit}
use smtp_gateway.Server.{Server}
use smtp_gateway.Command.{parse_rcpt_to}
use smtp_gateway.Command.Address.{IsPath, IsPath-of_tests}
use smtp_gateway.Response.{Response, bad_seq}
use smtp_gateway.Session.{Env, Session, Callback, panicked, returned, Rejection}
use smtp_gateway.Session.Calls.{call_rcpt_to}
use smtp_gateway.Session.Envelope.{accept, reject, handle_rcpt, rcpt_answer, present}
use smtp_gateway.Session.Invariant.{Inv}

module _ {W : Type 0} (env : Env W) (srv : Server) where
  -- What `handleRcpt` has checked when it calls the handler.
  record Offered (rcpt : Bytes) (st : Session W) : Type 0 where
    uncounted : length st.tx.accepted + length st.tx.rejected < length st.tx.rcpts
    few : over_limit srv.max_recipients (pos (length st.tx.rcpts)) ≡ false
    path : IsPath rcpt
    open_phase : st.phase ≡ 3

  capped_more :
      (a b c : ℕ) (max : ℤ)
      → a + b < c
      → over_limit max (pos c) ≡ false
      → over_limit max (pos (a + 1)) ≡ false
  capped_more a b c max p q = ground arith

  accept-Inv :
      (rcpt : Bytes) (st : Session W)
      → Inv srv st
      → Offered rcpt st
      → Inv srv (accept env srv rcpt st)
  unfolding accept
  accept-Inv rcpt st h o =
      let more = length-append st.tx.accepted (rcpt ∷ []) in
      let kept : All IsPath (st.tx.accepted ++ rcpt ∷ []) =
        All-append IsPath st.tx.accepted (rcpt ∷ []) h.recipients (o.path, tt) in
      let filled : is_nil (st.tx.accepted ++ rcpt ∷ []) ≡ false = is_nil-snoc st.tx.accepted rcpt in
      ground (
        arith,
        more,
        kept,
        filled,
        capped_more (length st.tx.accepted) (length st.tx.rejected) (length st.tx.rcpts)
            srv.max_recipients o.uncounted o.few,
      )

  reject-Inv :
      (rcpt : Bytes) (r : Response) (st : Session W)
      → Inv srv st
      → Offered rcpt st
      → Inv srv (reject env srv rcpt r st)
  unfolding reject
  reject-Inv rcpt r st h o =
      let r' : Rejection = record { recipient = rcpt; response = r } in
      let more = length-append st.tx.rejected (r' ∷ []) in ground (arith, more)

  rcpt_answer-Inv :
      (rcpt : Bytes) (c : Callback) (st : Session W)
      → Inv srv st
      → Offered rcpt st
      → Inv srv (rcpt_answer env srv rcpt (c, st)).1
  unfolding rcpt_answer
  rcpt_answer-Inv rcpt panicked st h o = h
  rcpt_answer-Inv rcpt (returned none) st h o = reject-Inv rcpt bad_seq st h o
  rcpt_answer-Inv rcpt (returned (some r)) st h o =
      ground (arith, accept-Inv rcpt st h o, reject-Inv rcpt r st h o)

  -- Between the greeting's check and the callback.
  record Addressed (st : Session W) : Type 0 where
    named : is_nil st.tx.helo ≡ false
    mailed : ltb st.phase 2 ≡ false

  present-Inv :
      (rcpt : Bytes) (st : Session W)
      → Inv srv st
      → Inv srv (present env srv rcpt st)
        × (length st.tx.accepted + length st.tx.rejected
            < length (present env srv rcpt st).tx.rcpts)
  unfolding present
  present-Inv rcpt st h = ground (arith, length-append st.tx.rcpts (rcpt ∷ []))

  call_rcpt_to-Inv :
      (rcpt : Bytes) (st : Session W)
      → Inv srv st
      → Addressed st
      → Offered rcpt st
      → Inv srv (call_rcpt_to env st).1 × Offered rcpt (call_rcpt_to env st).1
  unfolding call_rcpt_to
  call_rcpt_to-Inv rcpt st h a o = ground arith

  called-Inv :
      (rcpt : Bytes) (st : Session W)
      → Inv srv st
      → Addressed st
      → Offered rcpt st
      → Inv srv (rcpt_answer env srv rcpt (call_rcpt_to env st)).1
  called-Inv rcpt st h a o =
      let c : Callback × Session W = call_rcpt_to env st in
      let (h', o') = call_rcpt_to-Inv rcpt st h a o in rcpt_answer-Inv rcpt c.0 c.1 h' o'

  phase_rcpt-Inv : (st : Session W) → Inv srv st → Addressed st → Inv srv (record st { phase = 3 })
  phase_rcpt-Inv st h a = ground arith

  -- The state in which the handler is called.
  presented_lem :
      (rcpt : Bytes) (st : Session W)
      → Inv srv st
      → Addressed st
      → IsPath rcpt
      → over_limit srv.max_recipients (pos (length (present env srv rcpt st).tx.rcpts)) ≡ false
      → (let st' = record (present env srv rcpt st) { phase = 3 } in
          Inv srv st' × Addressed st' × Offered rcpt st')
  unfolding present
  presented_lem rcpt st h a p few =
      let (kept, more) = present-Inv rcpt st h in
      let a' : Addressed (present env srv rcpt st) = record {
        named = a.named;
        mailed = a.mailed;
      } in
      (
        phase_rcpt-Inv (present env srv rcpt st) kept a',
        record { named = a'.named; mailed = refl },
        record { uncounted = more; few = few; path = p; open_phase = refl },
      )

  pub rcpt-Inv :
      (args : Bytes) (st : Session W) → Inv srv st → Inv srv (handle_rcpt env srv args st).1
  unfolding handle_rcpt
  rcpt-Inv args st h =
      let rcpt = parse_rcpt_to args in
      let st' : Session W = record (present env srv rcpt st) { phase = 3 } in
      ground (
        arith,
        (present-Inv rcpt st h).0,
        λ (a : Addressed st) (p : IsPath rcpt)
              (few : over_limit srv.max_recipients (pos (length (present env srv rcpt st).tx.rcpts))
                ≡ false).
            (let (x, y, z) = presented_lem rcpt st h a p few in called-Inv rcpt st' x y z),
        IsPath-of_tests rcpt,
      )
