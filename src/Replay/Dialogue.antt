-- ===== src/Replay/Dialogue.antt =====
-- The dialogue of cmd/postcat-replay/main.go: `expect`, `replay` and `run`, over a connection of
-- which any write may fail and on which the server may answer anything.
pub mod Answers
pub mod Granted
pub mod Replies
pub mod Told
pub mod Sent
pub mod Lines
pub mod Received
use smtp_gateway.Base.{
  ℕ, zero, suc, ◌-◌, Bool, true, false, ◌&&◌, ◌||◌, not, Option, none, some, List, [], ◌∷◌, ◌++◌,
  reverse, is_nil, length, take, leb, ltb, ◌==◌, if◌then◌else◌, Bytes, codes,
}
use smtp_gateway.Base.Int.{ℤ, pos, negsuc, ltb_ℤ}
use smtp_gateway.Text.Space.{trim_left, space_width}
use smtp_gateway.Text.Number.{is_digit, parse_int}
use smtp_gateway.Wire.{ReadError, eof, Stream, byte, fault}
use smtp_gateway.Postcat.{Message, is_break}
use smtp_gateway.Replay.{body_lines, send_line, format_sender}

-- What `ReadString('\n')` returns: a line with its ending, or an error.
pub data ReadString : Type 0 where
  got : Bytes → ReadString
  ended : ReadError → ReadString

abbrev pub behind : ℕ → ReadString × Stream → ReadString × Stream
behind b (got l, s) = (got (b ∷ l), s)
behind b (ended e, s) = (ended e, s)

unfoldable pub read_string : Stream → ReadString × Stream
read_string [] = (ended eof, [])
read_string (fault e ∷ s) = (ended e, s)
read_string (byte b ∷ s) =
    let rest = read_string s in if b == b'\n' then (got (b ∷ []), s) else behind b rest

unfoldable pub drop_breaks : Bytes → Bytes
drop_breaks [] = []
drop_breaks (c ∷ s) = let rest = drop_breaks s in if is_break c then rest else c ∷ s

-- `strings.TrimRight(line, "\r\n")`
unfoldable pub trim_breaks : Bytes → Bytes
unfolding drop_breaks
trim_breaks s = reverse (drop_breaks (reverse s))

unfoldable pub leading_digits : Bytes → Bytes
leading_digits [] = []
leading_digits (c ∷ s) = let rest = leading_digits s in if is_digit c then c ∷ rest else []

unfoldable pub signed_digits : Bytes → Bytes
signed_digits [] = []
signed_digits (c ∷ s) =
    if c == b'-' || c == b'+' then c ∷ leading_digits s else leading_digits (c ∷ s)

-- `Sscanf(line, "%d", &code)`: white space, a sign and digits; `none` is its error.
unfoldable pub scan_int : Bytes → Option ℤ
scan_int s = parse_int (signed_digits (trim_left space_width 0 s))

-- Why `expect` fails.
pub data Cause : Type 0 where
  read_failed : ReadError → Cause
  bad_response : Bytes → Cause
  unexpected : ℤ → Bytes → Cause
  write_failed : Cause

abbrev pub same_code : ℤ → ℕ → Bool
same_code (pos n) want = n == want
same_code (negsuc n) want = false

-- Whether the fourth byte is a space.
abbrev pub ends_reply : Bytes → Bool
ends_reply (a ∷ b ∷ c ∷ d ∷ s) = d == b' '
ends_reply _ = false

-- What `expect` makes of one line, where `rest` is the loop behind it.
unfoldable pub judge : ℕ → Bytes → Stream → Option Cause × Stream → Option ℤ → Option Cause × Stream
judge want text s rest none = (some (bad_response text), s)
judge want text s rest (some code) =
    if ltb_ℤ code (pos 200)
    then (some (bad_response text), s)
    else if not (same_code code want)
    then (some (unexpected code text), s)
    else if ends_reply text
    then (none, s)
    else rest

-- What `expect` makes of a read.
unfoldable pub consider : ℕ → Option Cause × Stream → ReadString × Stream → Option Cause × Stream
consider want rest (ended e, s) = (some (read_failed e), s)
consider want rest (got l, s) = let text = trim_breaks l in judge want text s rest (scan_int text)

-- The loop of `expect`. Every round takes a line off the stream, so the stream's length is fuel
-- enough; what is returned without fuel is never reached.
unfoldable pub expect_loop : ℕ → ℕ → Stream → Option Cause × Stream
expect_loop zero want s = (some (read_failed eof), s)
expect_loop (suc fuel) want s =
    let r = read_string s in let rest = expect_loop fuel want r.1 in consider want rest r

-- `expect`: `none` if the server answers with the code.
unfoldable pub expect : ℕ → Stream → Option Cause × Stream
expect want s = expect_loop (suc (length s)) want s

-- The connection: what the server will send, how many bytes will be taken before a write fails, and
-- what was taken.
pub record Link : Type 0 where
  pub incoming : Stream
  pub budget : ℕ
  pub sent : Bytes

-- A write to the connection: whether all of it was taken.
unfoldable pub transmit : Bytes → Link → Bool × Link
transmit text c =
    if leb (length text) c.budget
    then (true, record c { budget = c.budget - length text; sent = c.sent ++ text })
    else (false, record c { budget = 0; sent = c.sent ++ take c.budget text })

-- The errors of `replay`, by the call that they come from.
pub data Failure : Type 0 where
  parse_failed no_recipients empty_body dial_failed : Failure
  at_greeting at_ehlo at_mail_from at_data at_body at_response at_quit : Cause → Failure
  at_rcpt_to : Bytes → Cause → Failure

abbrev pub Talk : Type 0
Talk = Link → Option Failure × Link

-- A step, and another one unless it fails.
infixl 10 ◌then◌
abbrev pub ◌then◌ : Option Failure × Link → Talk → Option Failure × Link
(some e, c) then f = (some e, c)
(none, c) then f = f c

unfoldable pub say : (Cause → Failure) → Bytes → Talk
unfolding transmit
say stage text c =
    let (ok, c') = transmit text c in if ok then (none, c') else (some (stage write_failed), c')

abbrev pub staged : (Cause → Failure) → Option Cause → Option Failure
staged stage none = none
staged stage (some e) = some (stage e)

unfoldable pub hear : (Cause → Failure) → ℕ → Talk
hear stage want c =
    let (r, s) = expect want c.incoming in (staged stage r, record c { incoming = s })

abbrev pub eol : Bytes
eol = b'\r' ∷ b'\n' ∷ []

-- The loop over the recipients.
unfoldable pub say_recipients : List Bytes → Talk
say_recipients [] c = (none, c)
say_recipients (r ∷ rs) c =
    say (at_rcpt_to r) (codes "RCPT TO:<" ++ (r ++ (codes ">" ++ eol))) c
    then hear (at_rcpt_to r) 250
    then say_recipients rs

-- The loop of `sendBody`.
unfoldable pub say_lines : List Bytes → Talk
say_lines [] c = say at_body (b'.' ∷ eol) c
say_lines (l ∷ ls) c = say at_body (send_line l) c then say_lines ls

-- QUIT, behind which the answer is ignored.
unfoldable pub leave : Talk
leave c = say at_quit (codes "QUIT" ++ eol) c then (λ d. (none, (hear at_quit 221 d).1))

module _ {T : Type 0} where
  -- `replay` behind the dial.
  unfoldable pub dialogue : Message T → Talk
  dialogue m c =
      hear at_greeting 220 c
      then say at_ehlo (codes "EHLO replay.local" ++ eol)
      then hear at_ehlo 250
      then say at_mail_from (codes "MAIL FROM:" ++ (format_sender m.sender ++ eol))
      then hear at_mail_from 250
      then say_recipients m.recipients
      then say at_data (codes "DATA" ++ eol)
      then hear at_data 354
      then say_lines (body_lines m.raw_message)
      then hear at_response 250
      then leave

  -- `replay` of a file that `Parse` has read or not, to an address that can be dialled or not.
  unfoldable pub replay : Option (Message T) → Bool → Talk
  replay none dialled c = (some parse_failed, c)
  replay (some m) dialled c =
      if is_nil m.recipients
      then (some no_recipients, c)
      else if is_nil m.raw_message
      then (some empty_body, c)
      else if not dialled
      then (some dial_failed, c)
      else dialogue m c

-- How many of the replays of `run` failed.
unfoldable pub failures : List (Option Failure) → ℕ
failures [] = 0
failures (none ∷ rs) = failures rs
failures (some e ∷ rs) = suc (failures rs)

-- The exit code of `run`, behind its flags.
unfoldable pub exit_code : List (Option Failure) → ℕ
unfolding failures
exit_code [] = 1
exit_code (r ∷ rs) = if ltb 0 (failures (r ∷ rs)) then 1 else 0
