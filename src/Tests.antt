-- ===== src/Tests.antt =====
-- Data for runs of the model on concrete inputs. The children hold an instance of each theorem that
-- has hypotheses.
mod Readers
mod Parsing
mod Stores
mod Servers
mod Sessions
mod Pipelines
mod Tools
mod Gateways
use smtp_gateway.Base.{
  ◌==◌, if◌then◌else◌, ℕ, Option, none, ◌+◌, ◌-◌, ◌≡◌, refl, true, false, none, some, List, [], ◌∷◌,
  ◌++◌, Bytes, codes, arith, length, All, ◌<◌, ◌≤◌, ◌^◌, ap, not, ◌||◌,
}
use smtp_gateway.Base.Int.{pos, is_positive, ltb_ℤ}
use smtp_gateway.Wire.{
  Stream, bytes, byte, LineResult, line, read_line, max_line_length, trim_suffix,
}
use smtp_gateway.Wire.Line.{read_line_lem, read_line_buffer, read_line-le}
use smtp_gateway.Wire.Chunk.{
  ChunkResult, chunk, max_bdat_chunk, read_n_bytes, discard, read_n_bytes_lem, discard-bytes,
  length-read_n_bytes,
}
use smtp_gateway.Wire.Body.Limits.{read_dot_unstuffed-le}
use smtp_gateway.Command.Address.{
  IsPath, parse_mail_from-IsPath, parse_mail_from_path, parse_rcpt_to_path,
}
use smtp_gateway.Response.{is_ok, message_size}
use smtp_gateway.Server.{Server}
use smtp_gateway.Session.{secured, Env, Session, Conn, Callback, returned}
use smtp_gateway.Wire.Body.{BodyResult, body, read_dot_unstuffed, body_loop}
use smtp_gateway.Wire.Body.Stuffing.{wire, read_dot_unstuffed-wire}
use smtp_gateway.Text.Number.{parse_int, parse_int-lt, digits, unsigned}
use smtp_gateway.Text.Space.{fields, fields_from, trim_space, trim_left}
use smtp_gateway.Text.Case.{to_upper, equal_fold}
use smtp_gateway.Text.Search.{cut_byte}
use smtp_gateway.Command.{
  parse_bdat_args, bdat_fields, parse_rcpt_to, parse_mail_from, mail_from_path, bracketed,
  add_params, add_param, get_param, set_param, contains_control,
}
use smtp_gateway.Postcat.{sanitize_addr, format_null_sender, format_envelope, parse}
use smtp_gateway.Postcat.Sanitize.{NoBreak, sanitize_addr-NoBreak}
use smtp_gateway.Postcat.RoundTrip.{parse-format_envelope}
use smtp_gateway.Postcat.Files.{Disk, write_message}
use smtp_gateway.Postcat.Files.Atomic.{Outcome, write_message-Outcome}
use smtp_gateway.Server.Start
use smtp_gateway.Server.Start.{literal, new_server, refusal, with_defaults, read_deadline}
use smtp_gateway.Server.Start.Ready.{IsReady, start-IsReady, start-new_server}
use smtp_gateway.Server.Accepting.{IsCounted, idle, next, begin, Reachable-IsCounted}
use smtp_gateway.Session.Ending.Rounds.{closed-serve}
use smtp_gateway.Session.Calls.{write}
use smtp_gateway.Session.Content.{bdat_parsed, handle_data, handle_bdat}
use smtp_gateway.Session.Envelope.{handle_rcpt, handle_mail}
use smtp_gateway.Session.Loop.{
  serve, start, dispatch, starttls, ehlo, data_verb, bdat, end_transaction,
}
use smtp_gateway.Session.Invariant.{IsSound, Backed}
use smtp_gateway.Session.Safety.{session, serve-IsSound, serve-Backed, serve-quiet}
use smtp_gateway.Session.Chunks.{transfer, delivered, bdat_parsed-transfer}
use smtp_gateway.Session.Transaction.Beginnings.{Greets, dispatch-Greets}
use smtp_gateway.Session.Transaction.Starttls.{Upgrades, dispatch-Upgrades}
use smtp_gateway.Session.Transaction.Endings.{
  IsEnded, data-IsEnded, is_last, bdat-IsEnded, tx-handle_data,
}
use smtp_gateway.Session.Transaction.Recipient.{Adds, handle_rcpt-Adds}

abbrev pub ok : Callback
ok = returned (some (record { code = pos 250; message = codes "2.0.0 OK" }))

-- A handler that accepts all, a network that never fails and a TLS library without input behind it.
abbrev pub accepting : Env Unit
accepting = record {
  hello = λ w tx. (ok, w);
  mail_from = λ w tx. (ok, w);
  rcpt_to = λ w tx. (ok, w);
  receive = λ w tx b. (ok, w);
  write = λ w text. (true, w);
  handshake = λ w. (secured 772 [], w);
  store = λ w dir from to b. w;
  cancelled = λ w. (false, w);
  unicode_upper = λ s. s;
}

abbrev pub gateway : Server
gateway = record {
  hostname = codes "mx";
  tls_config = true;
  require_tls = false;
  handler = true;
  max_message_size = pos 64;
  max_recipients = pos 2;
  max_connections = pos 10;
  read_timeout = pos 0;
  write_timeout = pos 0;
  idle_timeout = pos 0;
  postcat_dir = codes "d";
}

abbrev pub client : Bytes → Conn
client text = record {
  remote_addr = codes "1";
  input = bytes text [];
  buffer = 16;
  body_buf = [];
  tls = none;
}

abbrev pub eol : Bytes
eol = b'\r' ∷ b'\n' ∷ []

abbrev pub lines : List Bytes → Bytes
lines [] = []
lines (l ∷ ls) = l ++ (eol ++ lines ls)

abbrev pub mail_lines : List Bytes
mail_lines =
    codes "EHLO a"
    ∷ codes "MAIL FROM:<a@b>"
    ∷ codes "RCPT TO:<c@d>"
    ∷ codes "DATA"
    ∷ codes "..x"
    ∷ codes "."
    ∷ []

-- A session that has an accepted recipient and reads `input`.
abbrev pub ready : Stream → Session Unit
ready s = record {
  world = tt;
  conn = record (client []) { input = s };
  tx = record {
    remote_addr = codes "1";
    tls = none;
    hostname = codes "mx";
    helo = codes "a";
    mail_from = codes "a@b";
    params = [];
    rcpts = codes "c@d" ∷ [];
    accepted = codes "c@d" ∷ [];
    rejected = [];
  };
  phase = 3;
  in_bdat = false;
  closed = false;
  trace = [];
}

-- One that has greeted.
abbrev pub greeted : Session Unit
greeted = record (ready []) {
  tx = record (ready []).tx { mail_from = []; rcpts = []; accepted = [] };
  phase = 1;
}

-- A session under TLS, whose client sends two lines.
abbrev pub secure_session : Session Unit
secure_session = record (ready []) {
  conn = record (client (lines (codes "NOOP" ∷ codes "RSET" ∷ []))) { tls = some 772 };
}
