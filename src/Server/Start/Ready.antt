-- ===== src/Server/Start/Ready.antt =====
-- The configuration with which `Serve` accepts connections.
use smtp_gateway.Base.{
  zero, suc, ◌≡◌, ◌∙◌, sym, refl, Bool, true, false, not, ◌&&◌, ◌||◌, Option, none, some, [], ◌∷◌,
  is_nil, Bytes, if◌then◌else◌, codes, arith,
}
use smtp_gateway.Base.Int.{ℤ, pos, negsuc, is_positive, is_negative, ltb_ℤ}
use smtp_gateway.Server.{
  Server, default_max_message_size, default_read_timeout, default_idle_timeout,
}
use smtp_gateway.Server.Start.{
  default_hostname, literal, apply_all, new_server, Refusal, first_bad, refusal, or_default,
  with_defaults, started, start, read_deadline,
}

pub record IsReady (s : Server) : Type 0 where
  pub named : is_nil s.hostname ≡ false
  pub handled : s.handler ≡ true
  pub secure : (not s.require_tls || s.tls_config) ≡ true
  pub sized : is_positive s.max_message_size ≡ true
  pub reads : is_positive s.read_timeout ≡ true
  pub idles : is_positive s.idle_timeout ≡ true
  pub recipients : is_negative s.max_recipients ≡ false
  pub connections : is_negative s.max_connections ≡ false
  pub writes : is_negative s.write_timeout ≡ false

default_hostname-named : (answer : Option Bytes) → is_nil (default_hostname answer) ≡ false
unfolding default_hostname
default_hostname-named none = refl
default_hostname-named (some h) = ground arith

or_default-positive :
    (v d : ℤ) → is_negative v ≡ false → is_positive d ≡ true → is_positive (or_default v d) ≡ true
or_default-positive (pos zero) d n p = p
or_default-positive (pos (suc v)) d n p = ground arith
or_default-positive (negsuc v) d n p = absurd (ground arith)

-- The checks, one by one.
record Passed (s : Server) : Type 0 where
  handled : s.handler ≡ true
  secure : (not s.require_tls || s.tls_config) ≡ true
  sized : is_negative s.max_message_size ≡ false
  reads : is_negative s.read_timeout ≡ false
  idles : is_negative s.idle_timeout ≡ false
  recipients : is_negative s.max_recipients ≡ false
  connections : is_negative s.max_connections ≡ false
  writes : is_negative s.write_timeout ≡ false

passed_lem :
    (h r t a b c d e f p made : Bool)
    → (if not h
        then some Refusal.handler_missing
        else if r && not t
        then some Refusal.tls_missing
        else elim (first_bad (
            (codes "MaxMessageSize", a)
            ∷ (codes "MaxRecipients", b)
            ∷ (codes "MaxConnections", c)
            ∷ (codes "ReadTimeout", d)
            ∷ (codes "WriteTimeout", e)
            ∷ (codes "IdleTimeout", f)
            ∷ [])) [
              | some x ↦ some x
              | none ↦ if not p && not made then some Refusal.postcat_dir_failed else none
            ])
      ≡ none
    → (h ≡ true)
      × ((not r || t) ≡ true)
      × (a ≡ false)
      × (b ≡ false)
      × (c ≡ false)
      × (d ≡ false)
      × (e ≡ false)
      × (f ≡ false)
passed_lem h r t a b c d e f p made q = ground arith

refusal-Passed : (made : Bool) (s : Server) → refusal made s ≡ none → Passed s
unfolding refusal
refusal-Passed made s e =
    let (h, t, a, b, c, d, w, f) =
      passed_lem s.handler s.require_tls s.tls_config (is_negative s.max_message_size)
        (is_negative s.max_recipients) (is_negative s.max_connections) (is_negative s.read_timeout)
        (is_negative s.write_timeout) (is_negative s.idle_timeout) (is_nil s.postcat_dir) made e in
    record {
      handled = h;
      secure = t;
      sized = a;
      recipients = b;
      connections = c;
      reads = d;
      writes = w;
      idles = f;
    }

with_defaults-IsReady :
    (host : Bytes) (s : Server) → is_nil host ≡ false → Passed s → IsReady (with_defaults host s)
unfolding with_defaults
with_defaults-IsReady host s n h = record {
  named = ground (arith, n);
  handled = h.handled;
  secure = h.secure;
  sized = or_default-positive s.max_message_size default_max_message_size h.sized refl;
  reads = or_default-positive s.read_timeout default_read_timeout h.reads refl;
  idles = or_default-positive s.idle_timeout default_idle_timeout h.idles refl;
  recipients = h.recipients;
  connections = h.connections;
  writes = h.writes;
}

-- Whenever `Serve` goes on to accept connections, whatever its configuration was and whether or not
-- the machine has a name, the host name is not empty, the handler is set, TLS is configured where it
-- is required, the size limit and the two read timeouts are positive, and no other number is
-- negative.
pub start-IsReady :
    (answer : Option Bytes) (made : Bool) (s ready : Server)
    → start (default_hostname answer) made s ≡ started ready
    → IsReady ready
unfolding start
start-IsReady answer made s ready e = go (refusal made s) refl
  where
    go : (o : Option Refusal) → refusal made s ≡ o → IsReady ready
    go none k =
        let same : started (with_defaults (default_hostname answer) s) ≡ started ready =
          sym (rw (k, start)) ∙ e in
        unstarted same
      where
        unstarted :
            started (with_defaults (default_hostname answer) s) ≡ started ready → IsReady ready
        unstarted q = ground (
          arith,
          with_defaults-IsReady (default_hostname answer) s (default_hostname-named answer)
              (refusal-Passed made s k),
        )
    go (some r) k = absurd (ground (arith, e, k))

-- With a host name that is not empty, `NewServer` without options and the struct literal with the
-- same handler are served alike.
pub start-new_server :
    (host : Bytes) (made handler : Bool)
    → is_nil host ≡ false
    → start host made (new_server host handler []) ≡ start host made (literal handler)
unfolding start refusal with_defaults new_server apply_all
start-new_server host made false h = ground arith
start-new_server host made true h = ground arith

-- In a server that is ready, the deadline of a read is positive, and no later than either timeout.
read_deadline-least :
    (s : Server)
    → IsReady s
    → (is_positive (read_deadline s) ≡ true)
      × (ltb_ℤ s.read_timeout (read_deadline s) ≡ false)
      × (ltb_ℤ s.idle_timeout (read_deadline s) ≡ false)
unfolding read_deadline
read_deadline-least s h = ground (arith, h.reads, h.idles)
