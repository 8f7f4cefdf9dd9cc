-- ===== src/Replay/Sender.antt =====
-- `formatSender` of cmd/postcat-replay/main.go against `parseMailFrom` of smtp.go.
use smtp_gateway.Base.{◌≡◌, refl, ap, ◌∙◌, some, [], ◌∷◌, ◌++◌, Bytes, codes, equal, arith}
use smtp_gateway.Command.{parse_mail_from}
use smtp_gateway.Command.Address.{IsPath, Unbracketed, parse_mail_from_path}
use smtp_gateway.Postcat.{format_null_sender}
use smtp_gateway.Replay.{format_sender}

pub format_sender_lem :
    (s : Bytes)
    → Unbracketed s
    → format_sender (format_null_sender s) ≡ codes "<" ++ (s ++ codes ">")
unfolding format_sender format_null_sender equal
format_sender_lem [] u = refl
format_sender_lem (c ∷ []) u = ground arith
format_sender_lem (c ∷ d ∷ []) u = ground arith
format_sender_lem (c ∷ d ∷ e ∷ s) u = ground arith

-- The sender record of a path of at most 320 bytes, without control characters but tabs and
-- without a closing bracket, the empty path included, is sent so that `parseMailFrom` reads back
-- the path, without parameters.
pub parse_mail_from-format_sender :
    (unicode_upper : Bytes → Bytes) (s : Bytes)
    → IsPath s
    → Unbracketed s
    → parse_mail_from unicode_upper (codes "FROM:" ++ format_sender (format_null_sender s))
      ≡ some (s, [])
parse_mail_from-format_sender unicode_upper s h u =
    ap (λ x. parse_mail_from unicode_upper (codes "FROM:" ++ x)) (format_sender_lem s u)
    ∙ parse_mail_from_path unicode_upper s h u
