-- ===== src/Wire/Chunk.antt =====
-- `readNBytes` of smtp.go, and `Discard` of `bufio.Reader`.
use smtp_gateway.Base.{
  ℕ, zero, suc, ◌*◌, ◌^◌, ◌≤◌, ◌≡◌, refl, [], ◌∷◌, arith, length, ltb, ◌==◌, if◌then◌else◌, Bytes,
}
use smtp_gateway.Wire.{ReadError, eof, Stream, byte, fault, bytes}

-- `maxBDATChunk`, 64 MiB.
abbrev pub max_bdat_chunk : ℕ
max_bdat_chunk = 64 * 2 ^ 20

pub data ChunkResult : Type 0 where
  chunk : Bytes → ChunkResult
  chunk_too_big : ChunkResult
  chunk_error : ReadError → ChunkResult

abbrev prepend_chunk : ℕ → ChunkResult → ChunkResult
prepend_chunk b (chunk bs) = chunk (b ∷ bs)
prepend_chunk b chunk_too_big = chunk_too_big
prepend_chunk b (chunk_error e) = chunk_error e

-- `io.ReadFull` into a buffer of `n` bytes. The part read before an error is not used.
unfoldable pub read_full : ℕ → Stream → ChunkResult × Stream
read_full zero s = (chunk [], s)
read_full (suc n) [] = (chunk_error eof, [])
read_full (suc n) (fault e ∷ s) = (chunk_error e, s)
read_full (suc n) (byte b ∷ s) = let (r, s') = read_full n s in (prepend_chunk b r, s')

-- `readNBytes`
unfoldable pub read_n_bytes : ℕ → Stream → ChunkResult × Stream
unfolding read_full
read_n_bytes n s =
    if n == 0
    then (chunk [], s)
    else if ltb max_bdat_chunk n
    then (chunk_too_big, s)
    else read_full n s

-- `Discard(n)`: what is left of the stream.
unfoldable pub discard : ℕ → Stream → Stream
discard zero s = s
discard (suc n) [] = []
discard (suc n) (fault e ∷ s) = s
discard (suc n) (byte b ∷ s) = discard n s

read_full-bytes : (b : Bytes) (s : Stream) → read_full (length b) (bytes b s) ≡ (chunk b, s)
unfolding read_full
read_full-bytes [] s = refl
read_full-bytes (x ∷ b) s = rw (read_full-bytes b s)

-- A chunk of at most 64 MiB is read as it was sent, and the stream is left behind it. A larger
-- one is refused, and nothing of it is read.
pub read_n_bytes_lem :
    (b : Bytes) (s : Stream)
    → read_n_bytes (length b) (bytes b s)
      ≡ (if ltb max_bdat_chunk (length b) then (chunk_too_big, bytes b s) else (chunk b, s))
unfolding read_n_bytes
read_n_bytes_lem [] s = refl
read_n_bytes_lem (x ∷ b) s = ground (arith, read_full-bytes (x ∷ b) s)

-- `Discard` of as many bytes as were sent leaves the stream behind them.
pub discard-bytes : (b : Bytes) (s : Stream) → discard (length b) (bytes b s) ≡ s
unfolding discard
discard-bytes [] s = refl
discard-bytes (x ∷ b) s = discard-bytes b s

read_full-le : (n : ℕ) (s : Stream) (b : Bytes) → (read_full n s).0 ≡ chunk b → length b ≡ n
unfolding read_full
read_full-le zero s b e = ground arith
read_full-le (suc n) [] b e = cc
read_full-le (suc n) (fault x ∷ s) b e = cc
read_full-le (suc n) (byte x ∷ s) [] e = ground arith
read_full-le (suc n) (byte x ∷ s) (y ∷ b) e = ground (arith, read_full-le n s b)

-- A chunk that is read has the size asked for.
pub length-read_n_bytes :
    (n : ℕ) (s : Stream) (b : Bytes)
    → (read_n_bytes n s).0 ≡ chunk b
    → (length b ≡ n) × (n ≤ max_bdat_chunk)
unfolding read_n_bytes
length-read_n_bytes n s b e = ground (arith, read_full-le n s b)
