-- ===== src/Wire.antt =====
-- The client's side of the connection, and `readLine` of smtp.go over `bufio.Reader`.
mod Slices
pub mod Line
pub mod Body
pub mod Chunk
pub mod Rest
use smtp_gateway.Base.{
  ℕ, zero, suc, ◌+◌, Bool, true, false, ◌||◌, Option, none, some, List, [], ◌∷◌, ◌++◌, reverse,
  length, ltb, ◌==◌, if◌then◌else◌, Bytes,
}

-- Why a read ends: the peer closed, the read deadline passed, or the connection broke.
pub data ReadError : Type 0 where
  eof timeout broken : ReadError

-- What the client sends, in order: bytes, and the moments at which a read fails. After the last
-- item every read is at the end of the file.
pub data Item : Type 0 where
  byte : ℕ → Item
  fault : ReadError → Item

abbrev pub Stream : Type 0
Stream = List Item

abbrev pub bytes : Bytes → Stream → Stream
bytes [] s = s
bytes (b ∷ bs) s = byte b ∷ bytes bs s

-- The three ways in which `ReadSlice('\n')` returns.
pub data Status : Type 0 where
  delimiter buffer_full : Status
  failure : ReadError → Status

pub record Slice : Type 0 where
  pub frag : Bytes
  pub status : Status
  pub rest : Stream

abbrev pub prepend : Bytes → Slice → Slice
prepend bs r = record r { frag = bs ++ r.frag }

-- `ReadSlice('\n')` with room for so many bytes.
unfoldable pub read_slice : ℕ → Stream → Slice
read_slice zero s = record { frag = []; status = buffer_full; rest = s }
read_slice (suc k) [] = record { frag = []; status = failure eof; rest = [] }
read_slice (suc k) (fault e ∷ s) = record { frag = []; status = failure e; rest = s }
read_slice (suc k) (byte b ∷ s) =
    if b == b'\n'
    then record { frag = b ∷ []; status = delimiter; rest = s }
    else prepend (b ∷ []) (read_slice k s)

-- `maxLineLength`
abbrev pub max_line_length : ℕ
max_line_length = 65536

-- What is left of the second text behind the first.
unfoldable pub drop_prefix : Bytes → Bytes → Option Bytes
drop_prefix [] s = some s
drop_prefix (p ∷ ps) [] = none
drop_prefix (p ∷ ps) (c ∷ s) = if p == c then drop_prefix ps s else none

-- `strings.TrimSuffix`, with the text first.
unfoldable pub trim_suffix : Bytes → Bytes → Bytes
unfolding drop_prefix
trim_suffix s suffix = elim (drop_prefix (reverse suffix) (reverse s)) [
  | none ↦ s
  | some t ↦ reverse t
]

pub data LineResult : Type 0 where
  line : Bytes → LineResult
  line_too_long : LineResult
  line_error : ReadError → LineResult

-- `readLine` behind its loop.
unfoldable pub finish_line : Bool → Bytes → LineResult
unfolding trim_suffix
finish_line true text = line_too_long
finish_line false text =
    let stripped = trim_suffix (trim_suffix text (b'\r' ∷ b'\n' ∷ [])) (b'\n' ∷ []) in
    if ltb max_line_length (length stripped) then line_too_long else line stripped

-- The loop of `readLine`. Each round but the last takes a full buffer off the stream, so the
-- stream's length is fuel enough; what is returned without fuel is never reached.
unfoldable pub read_line_loop : ℕ → ℕ → Bytes → Bool → Stream → LineResult × Stream
unfolding read_slice finish_line
read_line_loop zero size text too_long s = (line_error eof, s)
read_line_loop (suc fuel) size text too_long s =
    let r = read_slice size s in
    let too_long' = too_long || ltb (max_line_length + 2) (length text + length r.frag) in
    let text' = if too_long' then text else text ++ r.frag in
    elim r.status [
      | delimiter ↦ (finish_line too_long' text', r.rest)
      | buffer_full ↦ read_line_loop fuel size text' too_long' r.rest
      | failure e ↦ (line_error e, r.rest)
    ]

-- `readLine`, for a reader with a buffer of `size` bytes.
unfoldable pub read_line : ℕ → Stream → LineResult × Stream
unfolding read_line_loop
read_line size s = read_line_loop (suc (length s)) size [] false s
