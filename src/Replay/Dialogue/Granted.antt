-- ===== src/Replay/Dialogue/Granted.antt =====
-- The answers that `replay` of cmd/postcat-replay/main.go has had when it succeeds.
use smtp_gateway.Base.{ℕ, refl, Option, none, some, List, [], ◌∷◌, ◌++◌, append_assoc, Bytes, codes}
use mathlib.Core.Path.{subst}
use smtp_gateway.Wire.{Stream}
use smtp_gateway.Postcat.{Message}
use smtp_gateway.Replay.{body_lines, send_line, format_sender}
use smtp_gateway.Replay.Dialogue.{
  Failure, at_greeting, at_ehlo, at_mail_from, at_rcpt_to, at_data, at_body, at_response, Link,
  ◌then◌, say, hear, eol, say_recipients, say_lines, leave, dialogue,
}
use smtp_gateway.Replay.Dialogue.Answers.{
  Answers, Heard, say-Heard, hear-Heard, then-Heard, hear_next, quiet_next,
}

abbrev pub rcpt_codes : List Bytes → List ℕ
rcpt_codes [] = []
rcpt_codes (r ∷ rs) = 250 ∷ rcpt_codes rs

-- The codes that the server answers, up to that of the message.
abbrev pub reply_codes : {T : Type 0} → Message T → List ℕ
reply_codes m = 220 ∷ 250 ∷ 250 ∷ (rcpt_codes m.recipients ++ 354 ∷ 250 ∷ [])

say_recipients-Heard :
    (rs : List Bytes) (c : Link) → Heard (rcpt_codes rs) c.incoming (say_recipients rs c)
unfolding say_recipients
say_recipients-Heard [] c = refl
say_recipients-Heard (r ∷ rs) c =
    let text : Bytes = codes "RCPT TO:<" ++ (r ++ (codes ">" ++ eol)) in
    then-Heard (250 ∷ []) (rcpt_codes rs) c.incoming
      (say (at_rcpt_to r) text c then hear (at_rcpt_to r) 250) (say_recipients rs)
      (hear_next [] c.incoming (at_rcpt_to r) 250 (say (at_rcpt_to r) text c)
        (say-Heard (at_rcpt_to r) text c))
      (say_recipients-Heard rs)

say_lines-Heard : (ls : List Bytes) (c : Link) → Heard [] c.incoming (say_lines ls c)
unfolding say_lines
say_lines-Heard [] c = say-Heard at_body (b'.' ∷ eol) c
say_lines-Heard (l ∷ ls) c =
    quiet_next [] c.incoming (say at_body (send_line l) c) (say_lines ls) (say_lines-Heard ls)
      (say-Heard at_body (send_line l) c)

-- What a success says: the stream begins with these answers.
abbrev pub Granted : List ℕ → Stream → Option Failure × Link → Type 0
Granted ws s (none, c) = (t : Stream) × Answers ws s t
Granted ws s (some e, c) = Unit

leave-Granted :
    (ws : List ℕ) (s : Stream) (r : Option Failure × Link)
    → Heard ws s r
    → Granted ws s (r then leave)
leave-Granted ws s (some e, c) h = tt
leave-Granted ws s (none, c) h = granted (leave c)
  where
    granted : (r : Option Failure × Link) → Granted ws s r
    granted (none, d) = (c.incoming, h)
    granted (some e, d) = tt

module _ {T : Type 0} (m : Message T) (c : Link) where
  abbrev begun : Option Failure × Link
  begun =
      hear at_greeting 220 c
      then say at_ehlo (codes "EHLO replay.local" ++ eol)
      then hear at_ehlo 250
      then say at_mail_from (codes "MAIL FROM:" ++ (format_sender m.sender ++ eol))

  begun-Heard : Heard (220 ∷ 250 ∷ []) c.incoming begun
  begun-Heard =
      let s : Stream = c.incoming in
      let ehlo : Bytes = codes "EHLO replay.local" ++ eol in
      let mail : Bytes = codes "MAIL FROM:" ++ (format_sender m.sender ++ eol) in
      let h0 =
        quiet_next (220 ∷ []) s (hear at_greeting 220 c) (say at_ehlo ehlo) (say-Heard at_ehlo ehlo)
          (hear-Heard at_greeting 220 c) in
      let h1 =
        hear_next (220 ∷ []) s at_ehlo 250 (hear at_greeting 220 c then say at_ehlo ehlo) h0 in
      quiet_next (220 ∷ 250 ∷ []) s
        (hear at_greeting 220 c then say at_ehlo ehlo then hear at_ehlo 250) (say at_mail_from mail)
        (say-Heard at_mail_from mail) h1

  abbrev addressed : Option Failure × Link
  addressed =
      begun
      then hear at_mail_from 250
      then say_recipients m.recipients
      then say at_data (codes "DATA" ++ eol)

  addressed-Heard : Heard (220 ∷ 250 ∷ 250 ∷ rcpt_codes m.recipients) c.incoming addressed
  addressed-Heard =
      let s : Stream = c.incoming in
      let h0 = hear_next (220 ∷ 250 ∷ []) s at_mail_from 250 begun begun-Heard in
      let h1 =
        then-Heard (220 ∷ 250 ∷ 250 ∷ []) (rcpt_codes m.recipients) s
          (begun then hear at_mail_from 250) (say_recipients m.recipients) h0
          (say_recipients-Heard m.recipients) in
      quiet_next (220 ∷ 250 ∷ 250 ∷ rcpt_codes m.recipients) s
        (begun then hear at_mail_from 250 then say_recipients m.recipients)
        (say at_data (codes "DATA" ++ eol)) (say-Heard at_data (codes "DATA" ++ eol)) h1

  pub dialogue-Granted : Granted (reply_codes m) c.incoming (dialogue m c)
  unfolding dialogue
  dialogue-Granted =
      let s : Stream = c.incoming in
      let ws : List ℕ = 220 ∷ 250 ∷ 250 ∷ rcpt_codes m.recipients in
      let ls : List Bytes = body_lines m.raw_message in
      let h0 = hear_next ws s at_data 354 addressed addressed-Heard in
      let h1 =
        quiet_next (ws ++ 354 ∷ []) s (addressed then hear at_data 354) (say_lines ls)
          (say_lines-Heard ls) h0 in
      let h2 =
        hear_next (ws ++ 354 ∷ []) s at_response 250
          (addressed then hear at_data 354 then say_lines ls) h1 in
      leave-Granted (reply_codes m) s
        (addressed then hear at_data 354 then say_lines ls then hear at_response 250)
        (subst
          (λ (vs : List ℕ).
            Heard (220 ∷ 250 ∷ 250 ∷ vs) s
              (addressed then hear at_data 354 then say_lines ls then hear at_response 250))
          (append_assoc (rcpt_codes m.recipients) (354 ∷ []) (250 ∷ [])) h2)
