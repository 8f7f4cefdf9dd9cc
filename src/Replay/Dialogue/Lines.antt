-- ===== src/Replay/Dialogue/Lines.antt =====
-- The command lines of `replay` of cmd/postcat-replay/main.go against `readLine` and the verbs of
-- smtp.go.
use mathlib.Core.Path.{subst}
use smtp_gateway.Base.{
  ℕ, ◌≤◌, ◌<◌, ◌≡◌, ◌≢◌, refl, sym, ap, ◌∙◌, false, List, [], ◌∷◌, ◌++◌, append_assoc, All,
  All-append, is_nil, length, length-append, Bytes, codes, arith,
}
use smtp_gateway.Text.Space.{trim_space}
use smtp_gateway.Text.Space.Tight.{trim_space_tight}
use smtp_gateway.Text.Case.{to_upper}
use smtp_gateway.Text.Search.{break_at}
use smtp_gateway.Wire.{Stream, bytes, line, max_line_length, read_line}
use smtp_gateway.Wire.Line.{NoNewline, read_line-crlf, bytes-append}
use smtp_gateway.Command.{split_verb, is_blank, contains_control}
use smtp_gateway.Command.Address.{IsPath, Unbracketed}
use smtp_gateway.Server.{Server}
use smtp_gateway.Session.{Env}
use smtp_gateway.Session.Loop.{
  Verb, ehlo, mail, rcpt, data_verb, quit, Command, command, command_of, verb_of,
}
use smtp_gateway.Postcat.{Message, format_null_sender}
use smtp_gateway.Pipeline.Ahead.{Ahead}
use smtp_gateway.Replay.{format_sender}
use smtp_gateway.Replay.Sender.{format_sender_lem}
use smtp_gateway.Replay.Dialogue.{eol}
use smtp_gateway.Replay.Dialogue.Told.{recipients_text}

clean-NoNewline : (p : Bytes) → contains_control p ≡ false → NoNewline p
unfolding contains_control
clean-NoNewline [] h = tt
clean-NoNewline (c ∷ p) h = ground (arith, clean-NoNewline p)

module _ (unicode_upper : Bytes → Bytes) where
  split_blank :
      (l before after : Bytes)
      → trim_space l ≡ l
      → break_at is_blank l ≡ (before, after)
      → is_nil after ≡ false
      → split_verb unicode_upper l ≡ (to_upper unicode_upper before, trim_space after)
  unfolding split_verb
  split_blank l before after t b n = rw (t, b, n) refl

  trim_blank : (c d : ℕ) (s : Bytes) → trim_space (b' ' ∷ c ∷ d ∷ s) ≡ trim_space (c ∷ d ∷ s)
  unfolding trim_space
  trim_blank c d s = refl

  split_mail :
      (p : Bytes)
      → split_verb unicode_upper (codes "MAIL FROM:<" ++ (p ++ codes ">"))
        ≡ (codes "MAIL", codes "FROM:<" ++ (p ++ codes ">"))
  unfolding break_at to_upper
  split_mail p =
      split_blank (codes "MAIL FROM:<" ++ (p ++ codes ">")) (codes "MAIL")
        (codes " FROM:<" ++ (p ++ codes ">"))
        (trim_space_tight b'M' (codes "AIL FROM:<" ++ p) b'>' (omega arith) (omega arith)) refl refl
      ∙ ap (λ t. (codes "MAIL", t))
          (trim_blank b'F' b'R' (codes "OM:<" ++ (p ++ codes ">"))
            ∙ trim_space_tight b'F' (codes "ROM:<" ++ p) b'>' (omega arith) (omega arith))

  split_rcpt :
      (p : Bytes)
      → split_verb unicode_upper (codes "RCPT TO:<" ++ (p ++ codes ">"))
        ≡ (codes "RCPT", codes "TO:<" ++ (p ++ codes ">"))
  unfolding break_at to_upper
  split_rcpt p =
      split_blank (codes "RCPT TO:<" ++ (p ++ codes ">")) (codes "RCPT")
        (codes " TO:<" ++ (p ++ codes ">"))
        (trim_space_tight b'R' (codes "CPT TO:<" ++ p) b'>' (omega arith) (omega arith)) refl refl
      ∙ ap (λ t. (codes "RCPT", t))
          (trim_blank b'T' b'O' (codes ":<" ++ (p ++ codes ">"))
            ∙ trim_space_tight b'T' (codes "O:<" ++ p) b'>' (omega arith) (omega arith))

  split_plain :
      (split_verb unicode_upper (codes "EHLO replay.local") ≡ (codes "EHLO", codes "replay.local"))
      × (split_verb unicode_upper (codes "DATA") ≡ (codes "DATA", []))
      × (split_verb unicode_upper (codes "QUIT") ≡ (codes "QUIT", []))
  unfolding split_verb trim_space break_at to_upper
  split_plain = (refl, refl, refl)

-- The commands of a replay.
abbrev pub rcpt_commands : List Bytes → List Command
rcpt_commands [] = command data_verb [] ∷ []
rcpt_commands (r ∷ rs) = command rcpt (codes "TO:<" ++ (r ++ codes ">")) ∷ rcpt_commands rs

abbrev pub commands : {T : Type 0} → Message T → List Command
commands m =
    command ehlo (codes "replay.local")
    ∷ command mail (codes "FROM:" ++ format_sender m.sender)
    ∷ rcpt_commands m.recipients

abbrev pub quit_text : Bytes
quit_text = codes "QUIT" ++ eol

abbrev pub Addressable : Bytes → Type 0
Addressable p = IsPath p × Unbracketed p

module _ {W : Type 0} (env : Env W) (srv : Server) (size : ℕ) (room : 0 < size) (s : Stream) where
  -- One command at the head of the input.
  ahead_line :
      (l name args rest : Bytes) (v : Verb) (cs : List Command) (s' : Stream)
      → NoNewline l
      → length l ≤ max_line_length
      → split_verb env.unicode_upper l ≡ (name, args)
      → verb_of name ≡ v
      → Ahead env srv size (bytes rest s) cs s'
      → Ahead env srv size (bytes ((l ++ eol) ++ rest) s) (command v args ∷ cs) s'
  unfolding command_of
  ahead_line l name args rest v cs s' n f e q a =
      let r : read_line size (bytes ((l ++ eol) ++ rest) s) ≡ (line l, bytes rest s) =
        ap (read_line size) (bytes-append (l ++ eol) rest s)
        ∙ read_line-crlf size l (bytes rest s) room n
        ∙ ground arith in
      (rw (r, e, q) refl, rw (ap (λ x. x.1) r) a)

  path_line :
      (before p : Bytes)
      → Addressable p
      → NoNewline before
      → length before ≤ 100
      → NoNewline (before ++ (p ++ codes ">"))
        × (length (before ++ (p ++ codes ">")) ≤ max_line_length)
  path_line before p h n l = (
    All-append (λ c. c ≢ b'\n') before (p ++ codes ">") n
        (All-append (λ c. c ≢ b'\n') p (codes ">") (clean-NoNewline p h.0.clean) (ground arith)),
    (let short = h.0.short in
        omega (arith, length-append before (p ++ codes ">"), length-append p (codes ">"))),
  )

  data_Ahead :
      (rest : Bytes)
      → Ahead env srv size
          (bytes ((codes "DATA" ++ eol) ++ rest) s)
          (command data_verb [] ∷ [])
          (bytes rest s)
  unfolding verb_of
  data_Ahead rest =
      ahead_line (codes "DATA") (codes "DATA") [] rest data_verb [] (bytes rest s) (ground arith)
        (omega arith) (split_plain env.unicode_upper).1 refl refl

  pub quit_Ahead : Ahead env srv size (bytes quit_text s) (command quit [] ∷ []) s
  unfolding verb_of
  quit_Ahead =
      ahead_line (codes "QUIT") (codes "QUIT") [] [] quit [] s (ground arith) (omega arith)
        (split_plain env.unicode_upper).2 refl refl

  pub rcpts_Ahead :
      (rs : List Bytes) (rest : Bytes)
      → All Addressable rs
      → Ahead env srv size
          (bytes (recipients_text rs ++ ((codes "DATA" ++ eol) ++ rest)) s)
          (rcpt_commands rs)
          (bytes rest s)
  unfolding verb_of
  rcpts_Ahead [] rest h = data_Ahead rest
  rcpts_Ahead (r ∷ rs) rest h =
      let more : Bytes = recipients_text rs ++ ((codes "DATA" ++ eol) ++ rest) in
      let l : Bytes = codes "RCPT TO:<" ++ (r ++ codes ">") in
      let (n, f) = path_line (codes "RCPT TO:<") r h.0 (ground arith) (omega arith) in
      let e =
        append_assoc (codes "RCPT TO:<" ++ (r ++ (codes ">" ++ eol))) (recipients_text rs)
          ((codes "DATA" ++ eol) ++ rest)
        ∙ ap (λ x. (codes "RCPT TO:<" ++ x) ++ more) (sym (append_assoc r (codes ">") eol)) in
      subst (λ (x : Bytes). Ahead env srv size (bytes x s) (rcpt_commands (r ∷ rs)) (bytes rest s))
        (sym e)
        (ahead_line l (codes "RCPT") (codes "TO:<" ++ (r ++ codes ">")) more rcpt (rcpt_commands rs)
          (bytes rest s) n f (split_rcpt env.unicode_upper r) refl (rcpts_Ahead rs rest h.1))

  pub mail_Ahead :
      (p rest : Bytes) (cs : List Command) (s' : Stream)
      → Addressable p
      → Ahead env srv size (bytes rest s) cs s'
      → Ahead env srv size
          (bytes ((codes "MAIL FROM:" ++ (format_sender (format_null_sender p) ++ eol)) ++ rest) s)
          (command mail (codes "FROM:" ++ format_sender (format_null_sender p)) ∷ cs)
          s'
  unfolding verb_of
  mail_Ahead p rest cs s' h a =
      let (n, f) = path_line (codes "MAIL FROM:<") p h (ground arith) (omega arith) in
      subst
        (λ (x : Bytes).
          Ahead env srv size (bytes ((codes "MAIL FROM:" ++ (x ++ eol)) ++ rest) s)
            (command mail (codes "FROM:" ++ x) ∷ cs) s')
        (sym (format_sender_lem p h.1))
        (ahead_line (codes "MAIL FROM:<" ++ (p ++ codes ">")) (codes "MAIL")
          (codes "FROM:<" ++ (p ++ codes ">")) rest mail cs s' n f (split_mail env.unicode_upper p)
          refl a)

  pub ehlo_Ahead :
      (rest : Bytes) (cs : List Command) (s' : Stream)
      → Ahead env srv size (bytes rest s) cs s'
      → Ahead env srv size
          (bytes ((codes "EHLO replay.local" ++ eol) ++ rest) s)
          (command ehlo (codes "replay.local") ∷ cs)
          s'
  unfolding verb_of
  ehlo_Ahead rest cs s' a =
      ahead_line (codes "EHLO replay.local") (codes "EHLO") (codes "replay.local") rest ehlo cs s'
        (ground arith) (omega arith) (split_plain env.unicode_upper).0 refl a
