-- ===== src/Examples/PostcatOnly.antt =====
-- examples/postcat-only/main.go: the server that `run` starts, behind its listener.
use smtp_gateway.Base.{true, List, [], ◌∷◌, Bytes, codes}
use smtp_gateway.Base.Int.{pos}
use smtp_gateway.Server.{Server}
use smtp_gateway.Server.Start.{
  ServerOption, with_hostname, with_postcat_dir, with_max_connections, with_read_timeout,
  with_write_timeout, with_idle_timeout, with_logger, new_server,
}
use smtp_gateway.Examples.{Environment, env_default, seconds, Handler, accept, rcpt_to}
use smtp_gateway.Response.{hello_ok, mail_ok, data_ok}

unfoldable pub postcat_only_options : Environment → List ServerOption
unfolding env_default
postcat_only_options getenv =
    with_hostname (getenv (codes "SMTP_HOSTNAME"))
    ∷ with_postcat_dir (env_default getenv (codes "POSTCAT_DIR") (codes "/tmp/postcat-mail"))
    ∷ with_max_connections (pos 100)
    ∷ with_read_timeout (seconds 300)
    ∷ with_write_timeout (seconds 60)
    ∷ with_idle_timeout (seconds 300)
    ∷ with_logger
    ∷ []

-- `host` is the result of `defaultHostname`.
unfoldable pub postcat_only : Bytes → Environment → Server
unfolding postcat_only_options new_server
postcat_only host getenv = new_server host true (postcat_only_options getenv)

-- `handler`
unfoldable pub postcat_only_handler : {W : Type 0} → Handler W
postcat_only_handler = record {
  hello = λ w tx. accept hello_ok w;
  mail_from = λ w tx. accept mail_ok w;
  rcpt_to = rcpt_to;
  receive = λ w tx body. accept data_ok w;
}
