-- ===== src/Tools.antt =====
-- The command-line tools around the package postcat and the server: cmd/postcat/main.go,
-- cmd/verify-postcat/main.go and cmd/test-server/main.go. What they print is a list of values; the
-- files are arguments, `none` for one that cannot be read.
pub mod Verified
use smtp_gateway.Base.{
  ℕ, zero, suc, ◌+◌, Bool, true, false, not, ◌&&◌, ◌||◌, Option, none, some, List, [], ◌∷◌, is_nil,
  length, if◌then◌else◌, Bytes, codes, equal,
}
use smtp_gateway.Base.Int.{pos}
use smtp_gateway.Postcat.{Message, parse}
use smtp_gateway.Server.{Server}
use smtp_gateway.Server.Start.{
  with_hostname, with_postcat_dir, with_read_timeout, with_write_timeout, with_idle_timeout,
  new_server,
}
use smtp_gateway.Response.{hello_ok, mail_ok, rcpt_ok, data_ok}
use smtp_gateway.Examples.{seconds, Handler, accept}

-- What a tool prints, for a time of the type `T`.
pub data Output (T : Type 0) : Type 0 where
  usage : Output T
  failed_to_read : Output T
  failed : Bytes → Output T
  passed : Bytes → Bytes → List Bytes → ℕ → Output T
  verified : ℕ → Output T
  -- sender, recipients, time, and the size and the bytes of the body
  message : Bytes → List Bytes → Option T → ℕ → Bytes → Output T

-- `-h` or `--help` alone.
unfoldable pub asks_help : List Bytes → Bool
unfolding equal
asks_help (a ∷ []) = equal a (codes "-h") || equal a (codes "--help")
asks_help _ = false

module _ {T : Type 0} (format_time : T → Bytes) (parse_time : Bytes → Option T) where
  -- `postcat.Parse` of a file.
  unfoldable pub read_message : Option Bytes → Option (Message T)
  read_message none = none
  read_message (some raw) = parse format_time parse_time raw

  -- The loop of verify-postcat over the entries of the directory, with the count `pass`: what is
  -- printed, and the exit code.
  unfoldable pub verify : ℕ → List (Bytes × Option Bytes) → List (Output T) × ℕ
  verify pass [] = (verified pass ∷ [], 0)
  verify pass ((name, file) ∷ entries) =
      let (outs, code) = verify (suc pass) entries in
      elim (read_message file) [
        | none ↦ (failed name ∷ [], 1)
        | some m ↦ (passed name m.sender m.recipients (length m.raw_message) ∷ outs, code)
      ]

  -- `run` of verify-postcat; the directory may not be readable.
  unfoldable pub run_verify :
      List Bytes → Option (List (Bytes × Option Bytes)) → List (Output T) × ℕ
  run_verify [] dir = (usage ∷ [], 1)
  run_verify (a ∷ rest) dir =
      if asks_help (a ∷ rest)
      then (usage ∷ [], 0)
      else (elim dir [ none ↦ (failed_to_read ∷ [], 1) | some entries ↦ verify 0 entries ])

  -- `run` of postcat.
  unfoldable pub run_postcat : List Bytes → Option Bytes → List (Output T) × ℕ
  run_postcat [] file = (usage ∷ [], 1)
  run_postcat (a ∷ rest) file =
      if asks_help (a ∷ rest) then (usage ∷ [], 0) else (elim (read_message file) [
        | none ↦ (failed_to_read ∷ [], 1)
        | some m ↦
            (message m.sender m.recipients m.time (length m.raw_message) m.raw_message ∷ [], 0)
      ])

-- The server of test-server, `none` if its key pair cannot be loaded: `host` is the result of
-- `defaultHostname`, and `loaded` says whether the files hold a key pair.
unfoldable pub test_server : Bytes → Bytes → Bytes → Bool → Bool → Bytes → Option Server
unfolding new_server
test_server host tls_cert tls_key loaded require_tls postcat_dir =
    let srv = new_server host true (
      with_hostname (codes "test.local")
      ∷ with_postcat_dir postcat_dir
      ∷ with_read_timeout (seconds 30)
      ∷ with_write_timeout (seconds 30)
      ∷ with_idle_timeout (seconds 60)
      ∷ []) in
    if not (is_nil tls_cert) && not (is_nil tls_key)
    then (if loaded
        then some (record srv { tls_config = true; require_tls = require_tls })
        else none)
    else some (record srv { require_tls = require_tls })

-- `acceptAllHandler`
unfoldable pub accept_all_handler : {W : Type 0} → Handler W
accept_all_handler = record {
  hello = λ w tx. accept hello_ok w;
  mail_from = λ w tx. accept mail_ok w;
  rcpt_to = λ w tx. accept rcpt_ok w;
  receive = λ w tx body. accept data_ok w;
}
