-- ===== src/Wire/Body.antt =====
-- `readDotUnstuffed` of smtp.go. The buffer that the source returns beside an error is not used by
-- its caller, and is left out.
pub mod Fuel
pub mod Stuffing
pub mod Limits
use smtp_gateway.Base.{
  ℕ, zero, suc, ◌+◌, Bool, true, false, [], ◌∷◌, ◌++◌, length, if◌then◌else◌, ◌==◌, Bytes, equal,
}
use smtp_gateway.Base.Int.{ℤ, add_int, over_limit}
use smtp_gateway.Wire.{
  ReadError, eof, Stream, LineResult, line, line_too_long, line_error, read_line,
}

pub data BodyResult : Type 0 where
  body : Bytes → BodyResult
  too_long : BodyResult
  too_large : BodyResult
  failed : ReadError → BodyResult

abbrev pub dot : Bytes
dot = b'.' ∷ []

abbrev pub crlf : Bytes
crlf = b'\r' ∷ b'\n' ∷ []

-- The leading dot of a stuffed line is removed.
unfoldable pub unstuff : Bytes → Bytes
unstuff [] = []
unstuff (c ∷ l) = if c == b'.' then l else c ∷ l

-- The inner loop, which reads on to the end of a body that is too large.
unfoldable pub drain : ℕ → ℕ → Stream → BodyResult × Stream
drain zero size s = (failed eof, s)
drain (suc fuel) size s =
    let (r, s') = read_line size s in
    let more = drain fuel size s' in
    elim r [
      | line l ↦ if equal l dot then (too_large, s') else more
      | line_too_long ↦ more
      | line_error e ↦ (too_large, s')
    ]

-- What one round of the outer loop decides: to return, to drain the body that is too large, or to
-- go on with the body so far and the flag `tooLong`.
pub data Next : Type 0 where
  stop : BodyResult → Next
  overflow : Next
  again : Bytes → Bool → Next

unfoldable pub body_step : ℤ → Bytes → Bool → LineResult → Next
unfolding unstuff
body_step max buf long (line_error e) = stop (failed e)
body_step max buf long line_too_long = again buf true
body_step max buf long (line l) =
    if equal l dot
    then stop (if long then too_long else body buf)
    else if long
    then again buf true
    else if over_limit max (add_int (length buf + length (unstuff l)) 2)
    then overflow
    else again (buf ++ (unstuff l ++ crlf)) false

-- The outer loop. Each line that is read shortens the stream, so its length is fuel enough; what is
-- returned without fuel, here and above, is never reached.
unfoldable pub body_loop : ℕ → ℕ → ℤ → Bytes → Bool → Stream → BodyResult × Stream
unfolding body_step drain
body_loop zero size max buf long s = (failed eof, s)
body_loop (suc fuel) size max buf long s =
    let (r, s') = read_line size s in
    elim (body_step max buf long r) [
      | stop b ↦ (b, s')
      | overflow ↦ drain (suc (length s')) size s'
      | again buf' long' ↦ body_loop fuel size max buf' long' s'
    ]

-- `readDotUnstuffed`, for a reader with a buffer of `size` bytes.
unfoldable pub read_dot_unstuffed : ℕ → ℤ → Stream → BodyResult × Stream
unfolding body_loop
read_dot_unstuffed size max s = body_loop (suc (length s)) size max [] false s
