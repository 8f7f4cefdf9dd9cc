-- ===== src/Replay/Dialogue/Replies.antt =====
-- The answers of the server, as `String` and `MultiLine` of gateway.go write them, against `expect` of
-- cmd/postcat-replay/main.go.
use mathlib.Core.List.{reverse-append, reverse-reverse}
use smtp_gateway.Base.{
  ℕ, zero, suc, ◌+◌, ◌/◌, ◌%◌, ◌≤◌, ◌<◌, ◌≡◌, refl, sym, ap, ◌∙◌, true, false, Option, none, some,
  List, [], ◌∷◌, ◌++◌, reverse, append_assoc, All, length, length-append, Bytes, ◌≢◌, All-append,
  ◌==◌, if◌then◌else◌, arith,
}
use smtp_gateway.Base.Int.{pos}
use smtp_gateway.Text.Space.{space_width}
use smtp_gateway.Text.Space.Tight.{trim_left-solid, space_width-solid}
use smtp_gateway.Text.Number.{parse_int, unsigned, digits, is_digit}
use smtp_gateway.Wire.{Stream, bytes}
use smtp_gateway.Wire.Line.{NoNewline, All-reverse_aux, bytes-append, length-bytes}
use smtp_gateway.Response.{string, multi_line, format_int, three, format_int-three}
use smtp_gateway.Postcat.{is_break}
use smtp_gateway.Postcat.Sanitize.{NoBreak}
use smtp_gateway.Replay.Dialogue.{
  Cause, got, read_string, drop_breaks, trim_breaks, leading_digits, signed_digits, scan_int, judge,
  consider, expect_loop, expect,
}

-- A line is read up to its line feed.
read_string-line :
    (l : Bytes) (s : Stream)
    → NoNewline l
    → read_string (bytes (l ++ b'\n' ∷ []) s) ≡ (got (l ++ b'\n' ∷ []), s)
unfolding read_string
read_string-line [] s h = refl
read_string-line (c ∷ l) s h = ground (arith, read_string-line l s h.1)

-- The digits of a code, with something else behind them, are scanned.
signed_digits-three :
    (a b c sep : ℕ) (rest : Bytes)
    → is_digit a ≡ true
    → is_digit b ≡ true
    → is_digit c ≡ true
    → is_digit sep ≡ false
    → signed_digits (a ∷ b ∷ c ∷ sep ∷ rest) ≡ a ∷ b ∷ c ∷ []
unfolding signed_digits leading_digits is_digit
signed_digits-three a b c sep rest h i j k = ground arith

parse_int-three : (n : ℕ) → n < 1000 → parse_int (three n) ≡ some (pos n)
unfolding parse_int unsigned digits is_digit
parse_int-three n h = ground arith

scan_int-three :
    (n sep : ℕ) (rest : Bytes)
    → n < 1000
    → is_digit sep ≡ false
    → scan_int (three n ++ sep ∷ rest) ≡ some (pos n)
unfolding scan_int
scan_int-three n sep rest h d =
    ap (λ t. parse_int (signed_digits t))
      (trim_left-solid space_width (b'0' + n / 10 / 10 % 10)
        ((b'0' + n / 10 % 10) ∷ (b'0' + n % 10) ∷ sep ∷ rest)
        (space_width-solid (b'0' + n / 10 / 10 % 10)
          ((b'0' + n / 10 % 10) ∷ (b'0' + n % 10) ∷ sep ∷ rest) (omega arith)))
    ∙ ap parse_int (
        signed_digits-three (b'0' + n / 10 / 10 % 10) (b'0' + n / 10 % 10) (b'0' + n % 10) sep rest
          (unfold is_digit in ground arith) (unfold is_digit in ground arith)
          (unfold is_digit in ground arith) d)
    ∙ parse_int-three n h

abbrev crlf : Bytes
crlf = b'\r' ∷ b'\n' ∷ []

drop_breaks-clean : (l : Bytes) → NoBreak l → drop_breaks l ≡ l
unfolding drop_breaks
drop_breaks-clean [] h = refl
drop_breaks-clean (c ∷ l) h = ground (arith, h.0)

trim_breaks-crlf : (l : Bytes) → NoBreak l → trim_breaks (l ++ crlf) ≡ l
unfolding trim_breaks drop_breaks
trim_breaks-crlf l h =
    ap (λ x. reverse (drop_breaks x)) (reverse-append l crlf)
    ∙ ap reverse
        (drop_breaks-clean (reverse l) (All-reverse_aux (λ c. is_break c ≡ false) l [] h tt))
    ∙ reverse-reverse l

NoBreak-NoNewline : (l : Bytes) → NoBreak l → NoNewline l
NoBreak-NoNewline [] h = tt
NoBreak-NoNewline (c ∷ l) h = ground (arith, NoBreak-NoNewline l h.1)

read_string-crlf :
    (l : Bytes) (s : Stream) → NoBreak l → read_string (bytes (l ++ crlf) s) ≡ (got (l ++ crlf), s)
read_string-crlf l s h =
    ap (λ x. read_string (bytes x s)) (sym (append_assoc l (b'\r' ∷ []) (b'\n' ∷ [])))
    ∙ read_string-line (l ++ b'\r' ∷ []) s
        (All-append (λ c. c ≢ b'\n') l (b'\r' ∷ []) (NoBreak-NoNewline l h) (ground arith))
    ∙ ap (λ x. (got x, s)) (append_assoc l (b'\r' ∷ []) (b'\n' ∷ []))

-- One line of an answer, without its ending.
abbrev text : ℕ → ℕ → Bytes → Bytes
text code sep message = three code ++ sep ∷ message

three-NoBreak : (n sep : ℕ) (m : Bytes) → is_break sep ≡ false → NoBreak m → NoBreak (text n sep m)
three-NoBreak n sep m h k = (ground arith, (ground arith, (ground arith, (h, k))))

judge-three :
    (code sep : ℕ) (m : Bytes) (s : Stream) (rest : Option Cause × Stream)
    → 200 ≤ code
    → judge code (text code sep m) s rest (some (pos code))
      ≡ (if sep == b' ' then (none, s) else rest)
unfolding judge
judge-three code sep m s rest low = ground arith

-- A round of the loop takes a line with the code.
expect_loop-line :
    (fuel code sep : ℕ) (m : Bytes) (s : Stream)
    → 200 ≤ code
    → code < 1000
    → is_digit sep ≡ false
    → is_break sep ≡ false
    → NoBreak m
    → expect_loop (suc fuel) code (bytes (text code sep m ++ crlf) s)
      ≡ (if sep == b' ' then (none, s) else expect_loop fuel code s)
unfolding expect_loop consider
expect_loop-line fuel code sep m s low high d b h =
    let l : Bytes = text code sep m in
    let clean : NoBreak l = three-NoBreak code sep m b h in
    ap (λ r. consider code (expect_loop fuel code r.1) r) (read_string-crlf l s clean)
    ∙ ap (λ x. judge code x s (expect_loop fuel code s) (scan_int x)) (trim_breaks-crlf l clean)
    ∙ ap (judge code l s (expect_loop fuel code s)) (scan_int-three code sep m high d)
    ∙ judge-three code sep m s (expect_loop fuel code s) low

-- An answer with these messages, one a line.
abbrev pub answer_text : ℕ → List Bytes → Bytes
answer_text code [] = []
answer_text code (m ∷ []) = string (record { code = pos code; message = m })
answer_text code (m ∷ n ∷ ms) =
    multi_line (record { code = pos code; message = m }) ++ answer_text code (n ∷ ms)

string-text :
    (code : ℕ) (m : Bytes)
    → 100 ≤ code
    → code < 1000
    → (string (record { code = pos code; message = m }) ≡ text code b' ' m ++ crlf)
      × (multi_line (record { code = pos code; message = m }) ≡ text code b'-' m ++ crlf)
unfolding string multi_line
string-text code m low high = let e = format_int-three code low high in (rw e refl, rw e refl)

expect_loop-answer :
    (fuel code : ℕ) (m : Bytes) (ms : List Bytes) (s : Stream)
    → 200 ≤ code
    → code < 1000
    → All NoBreak (m ∷ ms)
    → length ms < fuel
    → expect_loop fuel code (bytes (answer_text code (m ∷ ms)) s) ≡ (none, s)
expect_loop-answer zero code m ms s low high h f = absurd (omega arith)
expect_loop-answer (suc fuel) code m [] s low high h f =
    ap (λ x. expect_loop (suc fuel) code (bytes x s)) (string-text code m (omega arith) high).0
    ∙ expect_loop-line fuel code b' ' m s low high (unfold is_digit in refl) refl h.0
expect_loop-answer (suc fuel) code m (n ∷ ms) s low high h f =
    let more : Bytes = answer_text code (n ∷ ms) in
    ap (λ x. expect_loop (suc fuel) code (bytes (x ++ more) s))
      (string-text code m (omega arith) high).1
    ∙ ap (expect_loop (suc fuel) code) (bytes-append (text code b'-' m ++ crlf) more s)
    ∙ expect_loop-line fuel code b'-' m (bytes more s) low high (unfold is_digit in refl) refl h.0
    ∙ expect_loop-answer fuel code n ms s low high h.1 (omega arith)

length-answer_text : (code : ℕ) (ms : List Bytes) → length ms ≤ length (answer_text code ms)
unfolding string multi_line
length-answer_text code [] = omega arith
length-answer_text code (m ∷ []) =
    omega (arith, length-append (format_int (pos code)) (b' ' ∷ (m ++ crlf)))
length-answer_text code (m ∷ n ∷ ms) = omega (
  arith,
  length-answer_text code (n ∷ ms),
  length-append (format_int (pos code) ++ (b'-' ∷ (m ++ crlf))) (answer_text code (n ∷ ms)),
  length-append (format_int (pos code)) (b'-' ∷ (m ++ crlf)),
)

-- An answer of the server with a code from 200 to 999, of one line as `String` writes it, or of more
-- with `MultiLine` before the last, whose messages hold no line breaks: `expect` of its code takes
-- it, and leaves what follows on the connection.
pub expect-answer_text :
    (code : ℕ) (m : Bytes) (ms : List Bytes) (s : Stream)
    → 200 ≤ code
    → code < 1000
    → All NoBreak (m ∷ ms)
    → expect code (bytes (answer_text code (m ∷ ms)) s) ≡ (none, s)
unfolding expect
expect-answer_text code m ms s low high h =
    expect_loop-answer (suc (length (bytes (answer_text code (m ∷ ms)) s))) code m ms s low high h
      (omega (arith, length-bytes (answer_text code (m ∷ ms)) s, length-answer_text code (m ∷ ms)))
