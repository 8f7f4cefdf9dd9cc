-- ===== src/Session/Transaction/Starttls.antt =====
-- STARTTLS and the transaction.
use smtp_gateway.Base.{
  ℕ, ◌≡◌, ◌⊎◌, inl, inr, refl, true, false, not, Bool, Option, none, some, [], Bytes, is_nil, arith,
  if◌then◌else◌, codes,
}
use smtp_gateway.Server.{Server}
use smtp_gateway.Wire.{Stream}
use smtp_gateway.Response.{Response}
use smtp_gateway.Session.{Handshake, refused, secured, Env, Session, Tx, new_tx, reset_body_buf}
use smtp_gateway.Session.Calls.{write}
use smtp_gateway.Session.Greeting.{
  reply, is_some, handle_starttls, begin_tls, starttls_answer, ready_to_start, upgrade_to_tls,
}
use smtp_gateway.Session.Loop.{starttls, dispatch, adopt, greeted}

-- The transaction goes on as it was. The input may be at its end.
pub record IsUnmoved {W : Type 0} (st st' : Session W) : Type 0 where
  pub tx : st'.tx ≡ st.tx
  pub phase : st'.phase ≡ st.phase
  pub in_bdat : st'.in_bdat ≡ st.in_bdat
  pub tls : st'.conn.tls ≡ st.conn.tls
  pub body_buf : st'.conn.body_buf ≡ st.conn.body_buf

-- The session starts again under TLS: the client has to greet, and what it sends is what comes
-- out of the handshake.
pub record IsUpgraded {W : Type 0} (srv : Server) (made : Handshake) (st' : Session W)
    : Type 0 where
  pub tx : st'.tx ≡ new_tx srv st'.conn
  pub phase : st'.phase ≡ 0
  pub in_bdat : st'.in_bdat ≡ false
  pub body_buf : st'.conn.body_buf ≡ []
  pub handed :
      (k : ℕ) × ((plain : Stream) × (made ≡ secured k plain)
        × (st'.conn.tls ≡ some k)
        × (st'.conn.input ≡ plain))

module _ {W : Type 0} (env : Env W) (srv : Server) where
  abbrev adopted : (Option Response × Option Tx) × Session W → Session W
  adopted c = (greeted env srv 0 c).1

  answer_cases :
      (o : Handshake) (w : W) (st : Session W)
      → IsUnmoved st (adopted (starttls_answer env srv (o, w) st))
        ⊎ IsUpgraded srv o (adopted (starttls_answer env srv (o, w) st))
  unfolding starttls_answer adopt reset_body_buf upgrade_to_tls new_tx
  answer_cases (refused rest) w st =
      inl (record { tx = refl; phase = refl; in_bdat = refl; tls = refl; body_buf = refl })
  answer_cases (secured k plain) w st = inr (record {
    tx = refl;
    phase = refl;
    in_bdat = refl;
    body_buf = refl;
    handed = (k, (plain, refl, refl, refl));
  })

  refused-Unmoved : (r : Option Response) (st : Session W) → IsUnmoved st (adopted ((r, none), st))
  unfolding adopt
  refused-Unmoved r st = record {
    tx = refl;
    phase = refl;
    in_bdat = refl;
    tls = refl;
    body_buf = refl;
  }

  -- What STARTTLS does to `st`.
  abbrev pub Upgrades : Session W → Session W → Type 0
  Upgrades st st' =
      IsUnmoved st st'
      ⊎ (IsUpgraded srv (env.handshake (write env (ready_to_start env srv) st).1.world).0 st'
          × (st.conn.tls ≡ none)
          × (is_nil st.tx.helo ≡ false)
          × (srv.tls_config ≡ true))

  begin_cases :
      (ok : Bool) (st : Session W)
      → IsUnmoved st (adopted (begin_tls env srv (ok, st)))
        ⊎ IsUpgraded srv (env.handshake st.world).0 (adopted (begin_tls env srv (ok, st)))
  unfolding begin_tls
  begin_cases false st = inl (refused-Unmoved (reply 454 (codes "4.7.0 TLS handshake failed")) st)
  begin_cases true st = let c : Handshake × W = env.handshake st.world in answer_cases c.0 c.1 st

  written-Unmoved :
      (text : Bytes) (st st' : Session W) → IsUnmoved (write env text st).1 st' → IsUnmoved st st'
  unfolding write
  written-Unmoved text st st' h = record {
    tx = h.tx;
    phase = h.phase;
    in_bdat = h.in_bdat;
    tls = h.tls;
    body_buf = h.body_buf;
  }

  started_lem :
      (st : Session W)
      → st.conn.tls ≡ none
      → is_nil st.tx.helo ≡ false
      → srv.tls_config ≡ true
      → Upgrades st (adopted (begin_tls env srv (write env (ready_to_start env srv) st)))
  started_lem st a b c =
      let written : Bool × Session W = write env (ready_to_start env srv) st in
      elim (begin_cases written.0 written.1) [
        | inl same ↦
            inl (
              written-Unmoved (ready_to_start env srv) st (adopted (begin_tls env srv written))
                same)
        | inr up ↦ inr (up, a, b, c)
      ]

  either-Upgrades :
      {st : Session W} (x y z : Bool) (a b c d : (Option Response × Option Tx) × Session W)
      → Upgrades st (adopted a)
      → Upgrades st (adopted b)
      → Upgrades st (adopted c)
      → (x ≡ false → y ≡ false → z ≡ true → Upgrades st (adopted d))
      → Upgrades st (adopted (if x then a else if y then b else if not z then c else d))
  either-Upgrades true y z a b c d p q r h = p
  either-Upgrades false true z a b c d p q r h = q
  either-Upgrades false false false a b c d p q r h = r
  either-Upgrades false false true a b c d p q r h = h refl refl refl

  none_of_test : (o : Option ℕ) → is_some o ≡ false → o ≡ none
  none_of_test none h = refl
  none_of_test (some k) h = absurd (ground arith)

  -- STARTTLS: either the transaction, the phase, the chunks and the TLS state are as they were, or
  -- the connection was in the clear, the client had greeted and the server has a TLS configuration,
  -- and then the handshake made the TLS state, the input is what comes out of the handshake and
  -- nothing that was sent in the clear, and the client has to greet again, with an empty envelope.
  pub dispatch-Upgrades :
      (args : Bytes) (st : Session W) → Upgrades st (dispatch env srv starttls args st).1
  unfolding dispatch handle_starttls
  dispatch-Upgrades args st =
      let again : Option Response = reply 503 (codes "5.5.1 STARTTLS already done") in
      let early : Option Response = reply 503 (codes "5.5.1 EHLO required first") in
      let unknown : Option Response = reply 502 (codes "5.5.1 STARTTLS not supported") in
      either-Upgrades (is_some st.conn.tls) (is_nil st.tx.helo) srv.tls_config ((again, none), st)
        ((early, none), st) ((unknown, none), st)
        (begin_tls env srv (write env (ready_to_start env srv) st)) (inl (refused-Unmoved again st))
        (inl (refused-Unmoved early st)) (inl (refused-Unmoved unknown st))
        (λ a b c. started_lem st (none_of_test st.conn.tls a) b c)
