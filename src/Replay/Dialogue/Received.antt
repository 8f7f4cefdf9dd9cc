-- ===== src/Replay/Dialogue/Received.antt =====
-- What `replay` of cmd/postcat-replay/main.go writes against the readers and parsers of smtp.go.
use smtp_gateway.Base.{
  ℕ, ◌<◌, ◌^◌, ◌≡◌, ap, ◌∙◌, Option, some, List, [], ◌∷◌, ◌++◌, All, length, if◌then◌else◌, Bytes,
  codes,
}
use smtp_gateway.Base.Int.{ℤ, pos, over_limit}
use smtp_gateway.Wire.{Stream, bytes}
use smtp_gateway.Wire.Line.{bytes-append}
use smtp_gateway.Wire.Body.{body, too_large, read_dot_unstuffed}
use smtp_gateway.Wire.Body.Stuffing.{message, Fits}
use smtp_gateway.Command.{parse_mail_from, parse_rcpt_to}
use smtp_gateway.Command.Address.{parse_rcpt_to_path}
use smtp_gateway.Server.{Server}
use smtp_gateway.Session.{Env}
use smtp_gateway.Session.Loop.{mail, quit, command}
use smtp_gateway.Postcat.{Message, format_null_sender}
use smtp_gateway.Postcat.Sanitize.{NoBreak}
use smtp_gateway.Pipeline.Ahead.{Ahead}
use smtp_gateway.Replay.{send_body, format_sender}
use smtp_gateway.Replay.Body.{read_dot_unstuffed-send_body}
use smtp_gateway.Replay.Sender.{parse_mail_from-format_sender}
use smtp_gateway.Replay.Dialogue.{eol}
use smtp_gateway.Replay.Dialogue.Told.{recipients_text, transcript}
use smtp_gateway.Replay.Dialogue.Lines.{
  rcpt_commands, commands, quit_text, Addressable, quit_Ahead, rcpts_Ahead, mail_Ahead, ehlo_Ahead,
}

module _ {W : Type 0} (env : Env W) (srv : Server) (size : ℕ) (room : 0 < size) (s : Stream) where
  -- The server reads the commands, their paths, the body, and QUIT.
  pub record Received {T : Type 0} (m : Message T) (p : Bytes) (max : ℤ) : Type 0 where
    pub heard :
        Ahead env srv size
          (bytes (transcript m) s)
          (commands m)
          (bytes (send_body m.raw_message ++ quit_text) s)
    pub sender :
        parse_mail_from env.unicode_upper (codes "FROM:" ++ format_sender m.sender) ≡ some (p, [])
    pub recipients : All (λ r. parse_rcpt_to (codes "TO:<" ++ (r ++ codes ">")) ≡ r) m.recipients
    pub content : read_dot_unstuffed size max (bytes (send_body m.raw_message ++ quit_text) s) ≡ (
      (if over_limit max (pos (length m.raw_message)) then too_large else body m.raw_message),
      bytes quit_text s,
    )
    pub left : Ahead env srv size (bytes quit_text s) (command quit [] ∷ []) s

  paths_read :
      (rs : List Bytes)
      → All Addressable rs
      → All (λ r. parse_rcpt_to (codes "TO:<" ++ (r ++ codes ">")) ≡ r) rs
  paths_read [] h = tt
  paths_read (r ∷ rs) h = (parse_rcpt_to_path r h.0.1, paths_read rs h.1)

  -- A stored message with a clean sender, or none, and clean recipients, whose body consists of
  -- lines in CR LF that fit and of less than 2^63 bytes: from what a replay writes, a server with a
  -- reader's buffer that is not empty reads EHLO, MAIL with the sender, one RCPT for each recipient
  -- in order, and DATA; behind it the body as it was stored, if it is within the limit, and as too
  -- large otherwise; and behind that QUIT, and nothing is left of it. A clean path has at most 320
  -- bytes, no control character but tabs and no closing bracket.
  pub transcript-Received :
      {T : Type 0} (p : Bytes) (rs : List Bytes) (time : Option T) (ls : List Bytes) (max : ℤ)
      → Addressable p
      → All Addressable rs
      → All NoBreak ls
      → All Fits ls
      → length (message ls) < 2 ^ 63
      → Received
          (record {
            sender = format_null_sender p;
            recipients = rs;
            time = time;
            raw_message = message ls;
          })
          p
          max
  transcript-Received p rs time ls max h hs nb fits small =
      let rest : Bytes = send_body (message ls) ++ quit_text in
      record {
        heard =
            ehlo_Ahead env srv size room s
              ((codes "MAIL FROM:" ++ (format_sender (format_null_sender p) ++ eol))
                ++ (recipients_text rs ++ ((codes "DATA" ++ eol) ++ rest)))
              (command mail (codes "FROM:" ++ format_sender (format_null_sender p))
                ∷ rcpt_commands rs)
              (bytes rest s)
              (mail_Ahead env srv size room s p
                (recipients_text rs ++ ((codes "DATA" ++ eol) ++ rest)) (rcpt_commands rs)
                (bytes rest s) h (rcpts_Ahead env srv size room s rs rest hs));
        sender = parse_mail_from-format_sender env.unicode_upper p h.0 h.1;
        recipients = paths_read rs hs;
        content =
            ap (read_dot_unstuffed size max) (bytes-append (send_body (message ls)) quit_text s)
            ∙ read_dot_unstuffed-send_body size max ls (bytes quit_text s) room nb fits small;
        left = quit_Ahead env srv size room s;
      }
