-- ===== src/Session/Transaction/Recipient.antt =====
-- MAIL and RCPT: what the envelope holds behind each answer.
use smtp_gateway.Base.{
  Bool, Bool-cases, inl, inr, ◌⊎◌, leb, ◌≡◌, refl, true, false, not, ◌||◌, Option, none, some, [],
  ◌∷◌, List, Bytes, is_nil, arith, if◌then◌else◌, codes, ◌++◌, ltb,
}
use smtp_gateway.Base.Int.{ℤ, pos, negsuc, pos_part, is_positive}
use smtp_gateway.Server.{Server}
use smtp_gateway.Text.Number.{parse_int}
use smtp_gateway.Command.{Params, get_param, parse_mail_from, parse_rcpt_to}
use smtp_gateway.Response.{Response, is_ok}
use smtp_gateway.Session.{
  Env, Session, Callback, panicked, returned, phase_mail, phase_rcpt, mail_called,
}
use smtp_gateway.Session.Loop.{advance_mail, dispatch, mail}
use smtp_gateway.Session.Calls.{call_rcpt_to, call_mail_from, or_bad_seq}
use smtp_gateway.Session.Greeting.{is_some}
use smtp_gateway.Session.Envelope.{
  size_number, size_check, set_sender, mail_parsed, handle_mail, accept, reject, rcpt_answer,
  answer, present, handle_rcpt,
}

module _ {W : Type 0} (env : Env W) (srv : Server) where
  -- The accepted recipients behind an answer to RCPT.
  abbrev pub Adds : Bytes → List Bytes → Option Response × Session W → Type 0
  Adds rcpt old (none, st) = st.tx.accepted ≡ old
  Adds rcpt old (some r, st) = st.tx.accepted ≡ (if is_ok r then old ++ rcpt ∷ [] else old)

  rcpt_answer-Adds :
      (rcpt : Bytes) (c : Callback) (st : Session W)
      → Adds rcpt st.tx.accepted (rcpt_answer env srv rcpt (c, st))
  unfolding rcpt_answer accept reject
  rcpt_answer-Adds rcpt panicked st = refl
  rcpt_answer-Adds rcpt (returned none) st = refl
  rcpt_answer-Adds rcpt (returned (some r)) st = ground arith

  called-Adds :
      (rcpt : Bytes) (st : Session W)
      → Adds rcpt st.tx.accepted (
          rcpt_answer env srv rcpt
            (call_rcpt_to env (record (present env srv rcpt st) { phase = phase_rcpt })))
  unfolding call_rcpt_to present
  called-Adds rcpt st =
      let c : Callback × Session W =
        call_rcpt_to env (record (present env srv rcpt st) { phase = phase_rcpt }) in
      rcpt_answer-Adds rcpt c.0 c.1

  -- On every branch of RCPT the recipient is added to the accepted ones, behind those that were
  -- there, if and only if the client gets 250; a panic of the handler, which gets no answer, adds
  -- none.
  pub handle_rcpt-Adds :
      (args : Bytes) (st : Session W)
      → Adds (parse_rcpt_to args) st.tx.accepted (handle_rcpt env srv args st)
  unfolding handle_rcpt present
  handle_rcpt-Adds args st = ground (arith, called-Adds (parse_rcpt_to args) st)

  -- Whether a SIZE parameter, if there is one, is a number within a limit.
  abbrev within : ℤ → Option ℤ → Bool
  within max none = false
  within max (some (negsuc n)) = false
  within max (some (pos n)) = leb n (pos_part max)

  abbrev pub admits : Option Bytes → Bool
  admits none = true
  admits (some text) =
      not (is_positive srv.max_message_size) || within srv.max_message_size (parse_int text)

  -- What a MAIL command finds, and leaves, where the handler is asked and answers `c`.
  pub record Asked (args : Bytes) (st st' : Session W) (c : Callback) : Type 0 where
    -- The client has greeted, under TLS where that is required, and has no transaction open.
    pub named : is_nil st.tx.helo ≡ false
    pub secure : (not srv.require_tls || is_some st.conn.tls) ≡ true
    pub closed_before : ltb st.phase phase_mail ≡ true
    -- The sender and the parameters are those of the command, and the size is admitted.
    pub parsed : parse_mail_from env.unicode_upper args ≡ some (st'.tx.mail_from, st'.tx.params)
    pub admitted : admits (get_param (codes "SIZE") st'.tx.params) ≡ true
    -- The envelope has no recipient, and no chunk is left.
    pub no_attempt : st'.tx.rcpts ≡ []
    pub no_recipient : st'.tx.accepted ≡ []
    pub no_chunk : st'.conn.body_buf ≡ []
    -- The handler was asked once, with this envelope.
    pub asked : st'.trace ≡ mail_called st'.tx c ∷ st.trace

  -- The transaction behind an answer to MAIL: it is opened, or stays as far as it was.
  abbrev pub Opens : Bytes → Session W → Option Response × Session W → Type 0
  Opens args st (none, st') = st'.phase ≡ st.phase
  Opens args st (some r, st') =
      ((is_ok r ≡ true) × (st'.phase ≡ phase_mail) × Asked args st st' (returned (some r)))
      ⊎ ((is_ok r ≡ false) × (st'.phase ≡ st.phase))

  advanced-Asked :
      (args : Bytes) (st st' : Session W) (c : Callback)
      → Asked args st st' c
      → Asked args st (record st' { phase = phase_mail }) c
  advanced-Asked args st st' c h = record {
    named = h.named;
    secure = h.secure;
    closed_before = h.closed_before;
    parsed = h.parsed;
    admitted = h.admitted;
    no_attempt = h.no_attempt;
    no_recipient = h.no_recipient;
    no_chunk = h.no_chunk;
    asked = h.asked;
  }

  answered-Opens :
      (args : Bytes) (st st' : Session W) (c : Callback)
      → Asked args st st' c
      → st'.phase ≡ st.phase
      → Opens args st (advance_mail env srv (or_bad_seq c, st'))
  answered-Opens args st st' panicked h p = p
  answered-Opens args st st' (returned none) h p = inr (refl, p)
  answered-Opens args st st' (returned (some r)) h p = elim (Bool-cases (is_ok r)) [
    | inl b ↦ rw b (inl (refl, refl, advanced-Asked args st st' (returned (some r)) h))
    | inr b ↦ rw b (inr (refl, p))
  ]

  -- What `handleMail` has checked before it parses the command.
  record Ready (st : Session W) : Type 0 where
    named : is_nil st.tx.helo ≡ false
    secure : (not srv.require_tls || is_some st.conn.tls) ≡ true
    before : ltb st.phase phase_mail ≡ true

  size_check-admits :
      (ps : Params)
      → size_check srv.max_message_size ps ≡ none
      → admits (get_param (codes "SIZE") ps) ≡ true
  unfolding size_check size_number
  size_check-admits ps e = ground arith

  size_check-refuses :
      (ps : Params) (r : Response) → size_check srv.max_message_size ps ≡ some r → is_ok r ≡ false
  unfolding size_check size_number
  size_check-refuses ps r e = ground arith

  called-Asked :
      (args from : Bytes) (ps : Params) (st : Session W)
      → Ready st
      → parse_mail_from env.unicode_upper args ≡ some (from, ps)
      → size_check srv.max_message_size ps ≡ none
      → (let c = call_mail_from env (set_sender env srv from ps st) in
          Asked args st c.1 c.0 × (c.1.phase ≡ st.phase))
  unfolding set_sender call_mail_from
  called-Asked args from ps st h e k = (
    record {
      named = h.named;
      secure = h.secure;
      closed_before = h.before;
      parsed = e;
      admitted = size_check-admits ps k;
      no_attempt = refl;
      no_recipient = refl;
      no_chunk = refl;
      asked = refl;
    },
    refl,
  )

  checked-Opens :
      (args from : Bytes) (ps : Params) (st : Session W) (o : Option Response)
      → Ready st
      → parse_mail_from env.unicode_upper args ≡ some (from, ps)
      → size_check srv.max_message_size ps ≡ o
      → Opens args st (
          advance_mail env srv (elim o [
            | some refusal ↦ (some refusal, set_sender env srv from ps st)
            | none ↦ answer env srv (call_mail_from env (set_sender env srv from ps st))
          ]))
  checked-Opens args from ps st none h e k =
      let c : Callback × Session W = call_mail_from env (set_sender env srv from ps st) in
      let (a, p) = called-Asked args from ps st h e k in answered-Opens args st c.1 c.0 a p
  checked-Opens args from ps st (some r) h e k =
      let b = size_check-refuses ps r k in unfold set_sender in rw b (inr (refl, refl))

  parsed-Opens :
      (args : Bytes) (st : Session W) (o : Option (Bytes × Params))
      → Ready st
      → parse_mail_from env.unicode_upper args ≡ o
      → Opens args st (advance_mail env srv (mail_parsed env srv o st))
  unfolding mail_parsed
  parsed-Opens args st none h e = inr (refl, refl)
  parsed-Opens args st (some (from, ps)) h e =
      checked-Opens args from ps st (size_check srv.max_message_size ps) h e refl

  -- On every branch of MAIL: if the client gets 250, it had greeted, under TLS where that is
  -- required, and had no transaction open; the command parses, and declares no size or, under a
  -- positive limit, one within it; the handler's MailFrom was called once and answered 250, with the
  -- sender and the parameters of the command, no recipient and no chunk; and the transaction is open.
  -- On any other answer, and where the handler panics, the phase is as it was.
  pub dispatch-Opens :
      (args : Bytes) (st : Session W) → Opens args st (dispatch env srv mail args st)
  unfolding dispatch handle_mail
  dispatch-Opens args st = ground (
    arith,
    λ (h : Ready st). parsed-Opens args st (parse_mail_from env.unicode_upper args) h refl,
  )
