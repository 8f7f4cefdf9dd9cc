-- ===== src/Server.antt =====
-- `Server` of gateway.go: the configuration. The handler, the logger and the listener are not data:
-- of the handler and of `TLSConfig` the record says whether they are set.
pub mod Start
pub mod Accepting
pub mod Closing
use smtp_gateway.Base.{◌*◌, ◌^◌, Bool, Bytes}
use smtp_gateway.Base.Int.{ℤ, pos}

-- Durations are in nanoseconds.
pub record Server : Type 0 where
  pub hostname : Bytes
  pub tls_config : Bool
  pub require_tls : Bool
  pub handler : Bool
  pub max_message_size : ℤ
  pub max_recipients : ℤ
  pub max_connections : ℤ
  pub read_timeout : ℤ
  pub write_timeout : ℤ
  pub idle_timeout : ℤ
  pub postcat_dir : Bytes

-- 25 MiB
abbrev pub default_max_message_size : ℤ
default_max_message_size = pos (25 * 2 ^ 20)

-- Five minutes.
abbrev pub default_read_timeout : ℤ
default_read_timeout = pos (300 * 1000000000)

abbrev pub default_idle_timeout : ℤ
default_idle_timeout = pos (300 * 1000000000)
