-- ===== src/Server/Start.antt =====
-- `NewServer`, its options, `defaultHostname`, the checks and the defaults of `Serve` (gateway.go),
-- and `readDeadline` (smtp.go).
pub mod Ready
use smtp_gateway.Base.{
  ℕ, ◌≡◌, Bool, true, false, not, ◌&&◌, ◌||◌, Option, none, some, List, [], ◌∷◌, is_nil, Bytes,
  if◌then◌else◌, codes,
}
use smtp_gateway.Base.Int.{ℤ, pos, is_positive, is_negative, is_zero, ltb_ℤ}
use smtp_gateway.Server.{
  Server, default_max_message_size, default_read_timeout, default_idle_timeout,
}

-- The server of a struct literal with a handler and nothing else.
abbrev pub literal : Bool → Server
literal handler = record {
  hostname = [];
  tls_config = false;
  require_tls = false;
  handler = handler;
  max_message_size = pos 0;
  max_recipients = pos 0;
  max_connections = pos 0;
  read_timeout = pos 0;
  write_timeout = pos 0;
  idle_timeout = pos 0;
  postcat_dir = [];
}

-- `ServerOption`; `WithLogger` changes nothing that is modelled.
pub data ServerOption : Type 0 where
  with_hostname : Bytes → ServerOption
  with_tls_config : Bool → ServerOption
  with_require_tls : Bool → ServerOption
  with_max_message_size : ℤ → ServerOption
  with_max_recipients : ℤ → ServerOption
  with_max_connections : ℤ → ServerOption
  with_read_timeout : ℤ → ServerOption
  with_write_timeout : ℤ → ServerOption
  with_idle_timeout : ℤ → ServerOption
  with_logger : ServerOption
  with_postcat_dir : Bytes → ServerOption

unfoldable pub apply : ServerOption → Server → Server
apply (with_hostname v) s = record s { hostname = v }
apply (with_tls_config v) s = record s { tls_config = v }
apply (with_require_tls v) s = record s { require_tls = v }
apply (with_max_message_size v) s = record s { max_message_size = v }
apply (with_max_recipients v) s = record s { max_recipients = v }
apply (with_max_connections v) s = record s { max_connections = v }
apply (with_read_timeout v) s = record s { read_timeout = v }
apply (with_write_timeout v) s = record s { write_timeout = v }
apply (with_idle_timeout v) s = record s { idle_timeout = v }
apply with_logger s = s
apply (with_postcat_dir v) s = record s { postcat_dir = v }

unfoldable pub apply_all : List ServerOption → Server → Server
unfolding apply
apply_all [] s = s
apply_all (o ∷ os) s = apply_all os (apply o s)

-- `defaultHostname`, with what `os.Hostname` gives.
unfoldable pub default_hostname : Option Bytes → Bytes
default_hostname none = codes "localhost"
default_hostname (some h) = if is_nil h then codes "localhost" else h

-- `NewServer`; `host` is the result of `defaultHostname`.
unfoldable pub new_server : Bytes → Bool → List ServerOption → Server
unfolding apply_all
new_server host handler os = apply_all os (record (literal handler) {
  hostname = host;
  max_message_size = default_max_message_size;
  read_timeout = default_read_timeout;
  idle_timeout = default_idle_timeout;
})

-- The errors of `Serve` before it accepts a connection.
pub data Refusal : Type 0 where
  handler_missing tls_missing postcat_dir_failed : Refusal
  negative : Bytes → Refusal

abbrev pub first_bad : List (Bytes × Bool) → Option Refusal
first_bad [] = none
first_bad ((name, bad) ∷ fields) =
    let later = first_bad fields in if bad then some (negative name) else later

-- The checks of `Serve`; `made` says whether the directory could be made.
unfoldable pub refusal : Bool → Server → Option Refusal
refusal made s =
    if not s.handler
    then some handler_missing
    else if s.require_tls && not s.tls_config
    then some tls_missing
    else (elim (first_bad (
        (codes "MaxMessageSize", is_negative s.max_message_size)
        ∷ (codes "MaxRecipients", is_negative s.max_recipients)
        ∷ (codes "MaxConnections", is_negative s.max_connections)
        ∷ (codes "ReadTimeout", is_negative s.read_timeout)
        ∷ (codes "WriteTimeout", is_negative s.write_timeout)
        ∷ (codes "IdleTimeout", is_negative s.idle_timeout)
        ∷ [])) [
          | some r ↦ some r
          | none ↦ if not (is_nil s.postcat_dir) && not made then some postcat_dir_failed else none
        ])

abbrev pub or_default : ℤ → ℤ → ℤ
or_default v default = if is_zero v then default else v

-- The defaults of `Serve`.
unfoldable pub with_defaults : Bytes → Server → Server
with_defaults host s = record s {
  hostname = if is_nil s.hostname then host else s.hostname;
  max_message_size = or_default s.max_message_size default_max_message_size;
  read_timeout = or_default s.read_timeout default_read_timeout;
  idle_timeout = or_default s.idle_timeout default_idle_timeout;
}

-- The server with which `Serve` handles connections, or its error.
pub data Started : Type 0 where
  refused : Refusal → Started
  started : Server → Started

unfoldable pub start : Bytes → Bool → Server → Started
unfolding refusal with_defaults
start host made s = elim (refusal made s) [
  | some r ↦ refused r
  | none ↦ started (with_defaults host s)
]

-- `readDeadline`
unfoldable pub read_deadline : Server → ℤ
read_deadline s =
    if is_positive s.idle_timeout
      && (not (is_positive s.read_timeout) || ltb_ℤ s.idle_timeout s.read_timeout)
    then s.idle_timeout
    else s.read_timeout
