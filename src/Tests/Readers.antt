-- ===== src/Tests/Readers.antt =====
-- Instances of the theorems on lines, bodies and chunks.
use smtp_gateway.Base.{◌≡◌, false, [], ◌∷◌, ◌++◌, codes, arith, length, ◌≤◌, ap}
use smtp_gateway.Base.Int.{pos}
use smtp_gateway.Wire.{
  Stream, bytes, byte, LineResult, line, read_line, max_line_length, trim_suffix,
}
use smtp_gateway.Wire.Line.{read_line_lem, read_line_buffer, read_line-le}
use smtp_gateway.Wire.Chunk.{
  ChunkResult, chunk, max_bdat_chunk, read_n_bytes, read_n_bytes_lem, length-read_n_bytes,
}
use smtp_gateway.Wire.Body.Limits.{read_dot_unstuffed-le}
use smtp_gateway.Wire.Body.Fuel.{Returns, read_dot_unstuffed-Returns}
use smtp_gateway.Wire.Body.{BodyResult, body, read_dot_unstuffed}
use smtp_gateway.Wire.Body.Stuffing.{wire, read_dot_unstuffed-wire}
use smtp_gateway.Tests.{eol, lines, mail_lines}

read_dot_unstuffed-wire_example :
    read_dot_unstuffed 16 (pos 64) (bytes (wire (codes "a" ∷ codes ".b" ∷ [])) [])
    ≡ (body (codes "a" ++ (eol ++ (codes ".b" ++ eol))), [])
read_dot_unstuffed-wire_example =
    read_dot_unstuffed-wire 16 (pos 64) (codes "a" ∷ codes ".b" ∷ []) [] (omega arith)
      (ground arith) (ground arith) (omega arith)

read_dot_unstuffed-le_example : 3 ≤ 64
read_dot_unstuffed-le_example =
    read_dot_unstuffed-le 16 64 (omega arith) (omega arith) (bytes (wire (codes "a" ∷ [])) [])
      (codes "a" ++ eol) (omega arith)
      (ap (λ (r : BodyResult × Stream). r.0)
        (read_dot_unstuffed-wire 16 (pos 64) (codes "a" ∷ []) [] (omega arith) (ground arith)
          (ground arith) (omega arith)))

-- A body that is above the limit, and whose end never comes.
read_dot_unstuffed-Returns_example :
    Returns 16
      (pos 1)
      (read_dot_unstuffed 16 (pos 1) (bytes (codes "a" ++ eol) []))
      []
      false
      (bytes (codes "a" ++ eol) [])
read_dot_unstuffed-Returns_example =
    read_dot_unstuffed-Returns 16 (pos 1) (bytes (codes "a" ++ eol) []) (omega arith)

read_line_lem_example :
    read_line 16 (bytes (codes "QUIT") (byte b'\n' ∷ [])) ≡ (line (codes "QUIT"), [])
unfolding trim_suffix
read_line_lem_example = read_line_lem 16 (codes "QUIT") [] (omega arith) (ground arith)

read_line_buffer_example :
    read_line 16 (bytes (lines mail_lines) []) ≡ read_line 4096 (bytes (lines mail_lines) [])
read_line_buffer_example =
    read_line_buffer 16 4096 (bytes (lines mail_lines) []) (omega arith) (omega arith)

read_line-le_example : 4 ≤ max_line_length
unfolding trim_suffix
read_line-le_example =
    read_line-le 16 (bytes (codes "QUIT") (byte b'\n' ∷ [])) (codes "QUIT") (omega arith) (
      ap (λ (r : LineResult × Stream). r.0)
        (read_line_lem 16 (codes "QUIT") [] (omega arith) (ground arith)))

read_n_bytes_lem_example : read_n_bytes 2 (bytes (codes "de") []) ≡ (chunk (codes "de"), [])
read_n_bytes_lem_example = read_n_bytes_lem (codes "de") []

length-read_n_bytes_example : (length (codes "de") ≡ 2) × (2 ≤ max_bdat_chunk)
length-read_n_bytes_example =
    length-read_n_bytes 2 (bytes (codes "de") []) (codes "de")
      (ap (λ (r : ChunkResult × Stream). r.0) (read_n_bytes_lem (codes "de") []))
