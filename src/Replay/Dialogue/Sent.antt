-- ===== src/Replay/Dialogue/Sent.antt =====
-- What `replay` of cmd/postcat-replay/main.go has written when it returns.
use smtp_gateway.Base.{
  ℕ, ◌≡◌, ap, ◌∙◌, Bool, true, false, not, Option, none, some, [], ◌∷◌, ◌++◌, append_assoc, is_nil,
  if◌then◌else◌, Bytes, codes,
}
use smtp_gateway.Postcat.{Message}
use smtp_gateway.Replay.{body_lines, send_lines, send_body, format_sender}
use smtp_gateway.Replay.Dialogue.{
  Failure, no_recipients, empty_body, dial_failed, at_greeting, at_ehlo, at_mail_from, at_data,
  at_response, Link, ◌then◌, say, hear, eol, say_recipients, say_lines, leave, dialogue, replay,
}
use smtp_gateway.Wire.{Stream}
use smtp_gateway.Replay.Dialogue.Answers.{Answers}
use smtp_gateway.Replay.Dialogue.Granted.{reply_codes, Granted, dialogue-Granted}
use smtp_gateway.Replay.Dialogue.Told.{
  recipients_text, transcript, Told, Short, Short-of, then-Told, hear-Told, say-Told, nothing-Told,
  say_recipients-Told, say_lines-Told, then-Short, leave-Short,
}

flat :
    (a b c d e f : Bytes) → ((((a ++ b) ++ c) ++ d) ++ e) ++ f ≡ a ++ (b ++ (c ++ (d ++ (e ++ f))))
flat a b c d e f =
    append_assoc (((a ++ b) ++ c) ++ d) e f
    ∙ append_assoc ((a ++ b) ++ c) d (e ++ f)
    ∙ append_assoc (a ++ b) c (d ++ (e ++ f))
    ∙ append_assoc a b (c ++ (d ++ (e ++ f)))

-- What a replay leaves behind: the whole transcript, and the answers that it has had from the
-- stream; or a part of the transcript that lacks its end.
abbrev pub Outcome : {T : Type 0} → Message T → Stream → Option Failure × Link → Type 0
Outcome m s (none, c) = (c.sent ≡ transcript m) × ((t : Stream) × Answers (reply_codes m) s t)
Outcome m s (some e, c) = (b : ℕ) × (rest : Bytes) × (c.sent ++ (b ∷ rest) ≡ transcript m)

Short-Outcome :
    {T : Type 0} (m : Message T) (s : Stream) (r : Option Failure × Link)
    → Short [] (transcript m) r
    → Granted (reply_codes m) s r
    → Outcome m s r
Short-Outcome m s (none, c) h k = (h, k)
Short-Outcome m s (some e, c) h k = h

module _ {T : Type 0} (m : Message T) (c : Link) where
  abbrev ehlo_text : Bytes
  ehlo_text = codes "EHLO replay.local" ++ eol

  abbrev mail_text : Bytes
  mail_text = codes "MAIL FROM:" ++ (format_sender m.sender ++ eol)

  abbrev data_text : Bytes
  data_text = codes "DATA" ++ eol

  abbrev begun : Option Failure × Link
  begun =
      hear at_greeting 220 c
      then say at_ehlo ehlo_text
      then hear at_ehlo 250
      then say at_mail_from mail_text

  begun-Told : Told c.sent (ehlo_text ++ mail_text) begun
  begun-Told =
      let h0 = hear-Told c.sent [] at_greeting 220 (none, c) (nothing-Told c) in
      let h1 =
        then-Told c.sent [] ehlo_text (hear at_greeting 220 c) (say at_ehlo ehlo_text) h0
          (say-Told at_ehlo ehlo_text) in
      let h2 =
        hear-Told c.sent ehlo_text at_ehlo 250 (hear at_greeting 220 c then say at_ehlo ehlo_text)
          h1 in
      then-Told c.sent ehlo_text mail_text
        (hear at_greeting 220 c then say at_ehlo ehlo_text then hear at_ehlo 250)
        (say at_mail_from mail_text) h2 (say-Told at_mail_from mail_text)

  abbrev addressed : Option Failure × Link
  addressed =
      begun then hear at_mail_from 250 then say_recipients m.recipients then say at_data data_text

  addressed-Told :
      Told c.sent
        (((ehlo_text ++ mail_text) ++ recipients_text m.recipients) ++ data_text)
        addressed
  addressed-Told =
      let h0 = hear-Told c.sent (ehlo_text ++ mail_text) at_mail_from 250 begun begun-Told in
      let h1 =
        then-Told c.sent (ehlo_text ++ mail_text) (recipients_text m.recipients)
          (begun then hear at_mail_from 250) (say_recipients m.recipients) h0
          (say_recipients-Told m.recipients) in
      then-Told c.sent ((ehlo_text ++ mail_text) ++ recipients_text m.recipients) data_text
        (begun then hear at_mail_from 250 then say_recipients m.recipients) (say at_data data_text)
        h1 (say-Told at_data data_text)

  dialogue-Short : Short c.sent (transcript m) (dialogue m c)
  unfolding dialogue send_body
  dialogue-Short =
      let a : Bytes = ((ehlo_text ++ mail_text) ++ recipients_text m.recipients) ++ data_text in
      let b : Bytes = send_lines (body_lines m.raw_message) in
      let h0 = hear-Told c.sent a at_data 354 addressed addressed-Told in
      let h1 =
        then-Told c.sent a b (addressed then hear at_data 354)
          (say_lines (body_lines m.raw_message)) h0 (say_lines-Told (body_lines m.raw_message)) in
      let h2 =
        hear-Told c.sent (a ++ b) at_response 250
          (addressed then hear at_data 354 then say_lines (body_lines m.raw_message)) h1 in
      Short-of c.sent ((a ++ b) ++ (codes "QUIT" ++ eol)) c.sent (transcript m) (dialogue m c)
        (ap (λ x. c.sent ++ x)
          (flat ehlo_text mail_text (recipients_text m.recipients) data_text b
            (codes "QUIT" ++ eol)))
        (then-Short c.sent (a ++ b) (codes "UIT" ++ eol) b'Q'
          (addressed
            then hear at_data 354
            then say_lines (body_lines m.raw_message)
            then hear at_response 250)
          leave h2 leave-Short)

  if-Outcome :
      (b : Bool) (x y : Option Failure × Link)
      → Outcome m c.incoming x
      → Outcome m c.incoming y
      → Outcome m c.incoming (if b then x else y)
  if-Outcome true x y h k = h
  if-Outcome false x y h k = k

  nothing-Outcome : (e : Failure) → c.sent ≡ [] → Outcome m c.incoming (some e, c)
  nothing-Outcome e h = (b'E', _, ap (λ x. x ++ transcript m) h)

  -- Whatever the server answers, and wherever the connection breaks: a replay that reports success
  -- has written EHLO, MAIL, one RCPT for each recipient, DATA, the body and QUIT, in this order and
  -- nothing else, and what it received begins with answers of one or more lines with the codes 220,
  -- 250, 250, one 250 for each recipient, 354 and 250; one that reports an error has written a part
  -- of this that lacks its end. Nothing was written on the connection before.
  pub replay-Outcome :
      (dialled : Bool) → c.sent ≡ [] → Outcome m c.incoming (replay (some m) dialled c)
  unfolding replay
  replay-Outcome dialled h =
      let sent : Short [] (transcript m) (dialogue m c) =
        Short-of c.sent (transcript m) [] (transcript m) (dialogue m c)
          (ap (λ x. x ++ transcript m) h) dialogue-Short in
      if-Outcome (is_nil m.recipients) _ _ (nothing-Outcome no_recipients h) (
        if-Outcome (is_nil m.raw_message) _ _ (nothing-Outcome empty_body h) (
          if-Outcome (not dialled) _ _ (nothing-Outcome dial_failed h)
            (Short-Outcome m c.incoming (dialogue m c) sent (dialogue-Granted m c))))
