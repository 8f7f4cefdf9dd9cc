-- ===== src/Replay/Body.antt =====
-- `sendBody` of cmd/postcat-replay/main.go against `readDotUnstuffed` of smtp.go.
use smtp_gateway.Base.{
  ℕ, ◌<◌, ◌^◌, ◌≡◌, refl, ap, ◌∙◌, false, List, [], ◌∷◌, ◌++◌, All, length, append_assoc,
  if◌then◌else◌, Bytes, arith,
}
use smtp_gateway.Base.Int.{ℤ, pos, over_limit}
use smtp_gateway.Wire.{Stream, bytes}
use smtp_gateway.Wire.Line.{NoNewline}
use smtp_gateway.Wire.Body.{body, too_large, read_dot_unstuffed, crlf}
use smtp_gateway.Wire.Body.Stuffing.{stuff, wire, message, Fits, read_dot_unstuffed-wire}
use smtp_gateway.Postcat.{is_break, split_lines}
use smtp_gateway.Postcat.Sanitize.{NoBreak}
use smtp_gateway.Postcat.Lines.{split_first}
use smtp_gateway.Replay.{
  replace_crlf, drop_last_empty, body_lines, send_line, send_lines, send_body,
}

send_line-stuff : (l : Bytes) → send_line l ≡ stuff l ++ crlf
unfolding send_line
send_line-stuff [] = refl
send_line-stuff (c ∷ l) = ground arith

send_lines-wire : (ls : List Bytes) → send_lines ls ≡ wire ls
unfolding send_lines
send_lines-wire [] = refl
send_lines-wire (l ∷ ls) =
    ap (λ x. x ++ send_lines ls) (send_line-stuff l)
    ∙ ap (λ x. (stuff l ++ crlf) ++ x) (send_lines-wire ls)

-- The line endings become LF.
abbrev lf_lines : List Bytes → Bytes
lf_lines [] = []
lf_lines (l ∷ ls) = l ++ (b'\n' ∷ lf_lines ls)

replace_lf : (s : Bytes) → replace_crlf (b'\n' ∷ s) ≡ b'\n' ∷ replace_crlf s
unfolding replace_crlf
replace_lf [] = refl
replace_lf (c ∷ s) = refl

replace_ending : (s : Bytes) → replace_crlf (b'\r' ∷ b'\n' ∷ s) ≡ b'\n' ∷ replace_crlf s
unfolding replace_crlf
replace_ending [] = refl
replace_ending (c ∷ s) = refl

replace_first : (c : ℕ) (s : Bytes) → is_break c ≡ false → replace_crlf (c ∷ s) ≡ c ∷ replace_crlf s
unfolding replace_crlf
replace_first c [] h = refl
replace_first c (d ∷ s) h = ground arith

replace_line :
    (l s : Bytes)
    → NoBreak l
    → replace_crlf (l ++ (b'\r' ∷ b'\n' ∷ s)) ≡ l ++ (b'\n' ∷ replace_crlf s)
replace_line [] s h = replace_ending s
replace_line (c ∷ l) s h =
    replace_first c (l ++ (b'\r' ∷ b'\n' ∷ s)) h.0 ∙ ap (λ x. c ∷ x) (replace_line l s h.1)

replace_crlf-message : (ls : List Bytes) → All NoBreak ls → replace_crlf (message ls) ≡ lf_lines ls
replace_crlf-message [] h = unfold replace_crlf in refl
replace_crlf-message (l ∷ ls) h =
    ap replace_crlf (append_assoc l crlf (message ls))
    ∙ replace_line l (message ls) h.0
    ∙ ap (λ x. l ++ (b'\n' ∷ x)) (replace_crlf-message ls h.1)

split_lines-lf_lines :
    (ls : List Bytes) → All NoBreak ls → split_lines (lf_lines ls) ≡ ls ++ [] ∷ []
split_lines-lf_lines [] h = unfold split_lines in refl
split_lines-lf_lines (l ∷ ls) h =
    split_first l (lf_lines ls) h.0 ∙ ap (λ x. l ∷ x) (split_lines-lf_lines ls h.1)

drop_last : (ls : List Bytes) → drop_last_empty (ls ++ [] ∷ []) ≡ ls
unfolding drop_last_empty
drop_last [] = refl
drop_last (l ∷ []) = refl
drop_last (l ∷ m ∷ ls) = ap (λ x. l ∷ x) (drop_last (m ∷ ls))

body_lines-message : (ls : List Bytes) → All NoBreak ls → body_lines (message ls) ≡ ls
unfolding body_lines
body_lines-message ls h =
    ap (λ x. drop_last_empty (split_lines x)) (replace_crlf-message ls h)
    ∙ ap drop_last_empty (split_lines-lf_lines ls h)
    ∙ drop_last ls

NoNewline-NoBreak : (l : Bytes) → NoBreak l → NoNewline l
NoNewline-NoBreak [] h = tt
NoNewline-NoBreak (c ∷ l) h = ground (arith, NoNewline-NoBreak l h.1)

lines-NoNewline : (ls : List Bytes) → All NoBreak ls → All NoNewline ls
lines-NoNewline [] h = tt
lines-NoNewline (l ∷ ls) h = (NoNewline-NoBreak l h.0, lines-NoNewline ls h.1)

-- A message of lines that end in CR LF and hold no other CR or LF, each within `maxLineLength` once
-- stuffed, and of less than 2^63 bytes, is read by `readDotUnstuffed` from what `sendBody` writes
-- as it was stored, if it is within the server's limit, and refused as too large otherwise. In
-- both cases nothing of it is left on the stream. The reader's buffer is not empty.
pub read_dot_unstuffed-send_body :
    (size : ℕ) (max : ℤ) (ls : List Bytes) (s : Stream)
    → 0 < size
    → All NoBreak ls
    → All Fits ls
    → length (message ls) < 2 ^ 63
    → read_dot_unstuffed size max (bytes (send_body (message ls)) s)
      ≡ ((if over_limit max (pos (length (message ls))) then too_large else body (message ls)), s)
unfolding send_body
read_dot_unstuffed-send_body size max ls s p h f n =
    ap (λ x. read_dot_unstuffed size max (bytes (send_lines x) s)) (body_lines-message ls h)
    ∙ ap (λ x. read_dot_unstuffed size max (bytes x s)) (send_lines-wire ls)
    ∙ read_dot_unstuffed-wire size max ls s p (lines-NoNewline ls h) f n
