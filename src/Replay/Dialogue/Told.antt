-- ===== src/Replay/Dialogue/Told.antt =====
-- What each step of `replay` of cmd/postcat-replay/main.go writes.
use smtp_gateway.Base.{
  ℕ, zero, suc, ◌≡◌, refl, sym, ap, ◌∙◌, Bool-cases, inl, inr, Option, none, some, List, [], ◌∷◌,
  ◌++◌, append_assoc, append-nil, length, take, drop, leb, leb→lt, ◌<◌, if◌then◌else◌, Bytes, codes,
  arith,
}
use smtp_gateway.Postcat.{Message}
use smtp_gateway.Replay.{send_line, send_lines, send_body, format_sender}
use smtp_gateway.Replay.Dialogue.{
  Cause, Failure, at_rcpt_to, at_body, at_quit, staged, expect, Link, Talk, ◌then◌, transmit, say,
  hear, eol, say_recipients, say_lines, leave,
}

-- The commands for the recipients.
abbrev pub recipients_text : List Bytes → Bytes
recipients_text [] = []
recipients_text (r ∷ rs) = (codes "RCPT TO:<" ++ (r ++ (codes ">" ++ eol))) ++ recipients_text rs

-- All that is sent for a message.
abbrev pub transcript : {T : Type 0} → Message T → Bytes
transcript m =
    (codes "EHLO replay.local" ++ eol)
    ++ ((codes "MAIL FROM:" ++ (format_sender m.sender ++ eol))
        ++ (recipients_text m.recipients
            ++ ((codes "DATA" ++ eol) ++ (send_body m.raw_message ++ (codes "QUIT" ++ eol)))))

-- A step writes the text, or fails behind a part of it.
abbrev pub Told : Bytes → Bytes → Option Failure × Link → Type 0
Told before text (none, c) = c.sent ≡ before ++ text
Told before text (some e, c) = (rest : Bytes) × (c.sent ++ rest ≡ before ++ text)

-- The same, where at least one byte is missing behind an error.
abbrev pub Short : Bytes → Bytes → Option Failure × Link → Type 0
Short before text (none, c) = c.sent ≡ before ++ text
Short before text (some e, c) = (b : ℕ) × (rest : Bytes) × (c.sent ++ (b ∷ rest) ≡ before ++ text)

pub Told-of :
    (b0 t0 b1 t1 : Bytes) (r : Option Failure × Link)
    → b0 ++ t0 ≡ b1 ++ t1
    → Told b0 t0 r
    → Told b1 t1 r
Told-of b0 t0 b1 t1 (none, c) e h = h ∙ e
Told-of b0 t0 b1 t1 (some x, c) e (rest, h) = (rest, h ∙ e)

pub Short-of :
    (b0 t0 b1 t1 : Bytes) (r : Option Failure × Link)
    → b0 ++ t0 ≡ b1 ++ t1
    → Short b0 t0 r
    → Short b1 t1 r
Short-of b0 t0 b1 t1 (none, c) e h = h ∙ e
Short-of b0 t0 b1 t1 (some x, c) e (b, rest, h) = (b, rest, h ∙ e)

pub then-Told :
    (before a b : Bytes) (r : Option Failure × Link) (f : Talk)
    → Told before a r
    → ((c : Link) → Told c.sent b (f c))
    → Told before (a ++ b) (r then f)
then-Told before a b (none, c) f h g =
    Told-of c.sent b before (a ++ b) (f c) (ap (λ x. x ++ b) h ∙ append_assoc before a b) (g c)
then-Told before a b (some e, c) f (rest, h) g =
    (rest ++ b, sym (append_assoc c.sent rest b) ∙ (ap (λ x. x ++ b) h ∙ append_assoc before a b))

heard-Told :
    (o : Option Cause) (before a : Bytes) (stage : Cause → Failure) (c : Link)
    → c.sent ≡ before ++ a
    → Told before a (staged stage o, c)
heard-Told none before a stage c h = h
heard-Told (some e) before a stage c h = ([], append-nil c.sent ∙ h)

-- `replay` only hears what it is answered.
pub hear-Told :
    (before a : Bytes) (stage : Cause → Failure) (want : ℕ) (r : Option Failure × Link)
    → Told before a r
    → Told before a (r then hear stage want)
unfolding hear
hear-Told before a stage want (none, c) h =
    heard-Told (expect want c.incoming).0 before a stage
      (record c { incoming = (expect want c.incoming).1 }) h
hear-Told before a stage want (some e, c) h = h

split_text : (n : ℕ) (s : Bytes) → take n s ++ drop n s ≡ s
split_text zero s = refl
split_text (suc n) [] = refl
split_text (suc n) (c ∷ s) = ap (λ x. c ∷ x) (split_text n s)

-- What is left of a text that is not taken whole.
split_short :
    (n : ℕ) (s : Bytes) → n < length s → (b : ℕ) × (rest : Bytes) × (take n s ++ (b ∷ rest) ≡ s)
split_short n [] h = absurd (omega arith)
split_short zero (c ∷ s) h = (c, s, refl)
split_short (suc n) (c ∷ s) h =
    let (b, rest, e) = split_short n s (omega arith) in (b, rest, ap (λ x. c ∷ x) e)

say-Short :
    (stage : Cause → Failure) (text : Bytes) (c : Link) → Short c.sent text (say stage text c)
unfolding say transmit
say-Short stage text c = elim (Bool-cases (leb (length text) c.budget)) [
  | inl q ↦ rw q refl
  | inr q ↦
      (let (b, rest, e) = split_short c.budget text (leb→lt (length text) c.budget q) in
        rw q
          (b, rest, append_assoc c.sent (take c.budget text) (b ∷ rest) ∙ ap (λ x. c.sent ++ x) e))
]

Short-Told :
    (before text : Bytes) (r : Option Failure × Link) → Short before text r → Told before text r
Short-Told before text (none, c) h = h
Short-Told before text (some e, c) (b, rest, h) = (b ∷ rest, h)

pub say-Told :
    (stage : Cause → Failure) (text : Bytes) (c : Link) → Told c.sent text (say stage text c)
say-Told stage text c = Short-Told c.sent text (say stage text c) (say-Short stage text c)

pub nothing-Told : (c : Link) → Told c.sent [] (none, c)
nothing-Told c = sym (append-nil c.sent)

pub say_recipients-Told :
    (rs : List Bytes) (c : Link) → Told c.sent (recipients_text rs) (say_recipients rs c)
unfolding say_recipients
say_recipients-Told [] c = nothing-Told c
say_recipients-Told (r ∷ rs) c =
    let text : Bytes = codes "RCPT TO:<" ++ (r ++ (codes ">" ++ eol)) in
    then-Told c.sent text (recipients_text rs)
      (say (at_rcpt_to r) text c then hear (at_rcpt_to r) 250) (say_recipients rs)
      (hear-Told c.sent text (at_rcpt_to r) 250 (say (at_rcpt_to r) text c)
        (say-Told (at_rcpt_to r) text c))
      (say_recipients-Told rs)

pub say_lines-Told : (ls : List Bytes) (c : Link) → Told c.sent (send_lines ls) (say_lines ls c)
unfolding say_lines send_lines
say_lines-Told [] c = say-Told at_body (b'.' ∷ eol) c
say_lines-Told (l ∷ ls) c =
    then-Told c.sent (send_line l) (send_lines ls) (say at_body (send_line l) c) (say_lines ls)
      (say-Told at_body (send_line l) c) (say_lines-Told ls)

pub then-Short :
    (before a b : Bytes) (x : ℕ) (r : Option Failure × Link) (f : Talk)
    → Told before a r
    → ((c : Link) → Short c.sent (x ∷ b) (f c))
    → Short before (a ++ (x ∷ b)) (r then f)
then-Short before a b x (none, c) f h g =
    Short-of c.sent (x ∷ b) before (a ++ (x ∷ b)) (f c)
      (ap (λ y. y ++ (x ∷ b)) h ∙ append_assoc before a (x ∷ b)) (g c)
then-Short before a b x (some e, c) f ([], h) g =
    (x, b, ap (λ y. y ++ (x ∷ b)) (sym (append-nil c.sent) ∙ h) ∙ append_assoc before a (x ∷ b))
then-Short before a b x (some e, c) f (y ∷ rest, h) g = (
  y,
  rest ++ (x ∷ b),
  sym (append_assoc c.sent (y ∷ rest) (x ∷ b))
      ∙ (ap (λ z. z ++ (x ∷ b)) h ∙ append_assoc before a (x ∷ b)),
)

said-Short :
    (before text : Bytes) (r : Option Failure × Link)
    → Short before text r
    → Short before text (r then (λ d. (none, (hear at_quit 221 d).1)))
unfolding hear
said-Short before text (none, c) h = h
said-Short before text (some e, c) h = h

pub leave-Short : (c : Link) → Short c.sent (codes "QUIT" ++ eol) (leave c)
unfolding leave
leave-Short c =
    said-Short c.sent (codes "QUIT" ++ eol) (say at_quit (codes "QUIT" ++ eol) c)
      (say-Short at_quit (codes "QUIT" ++ eol) c)
