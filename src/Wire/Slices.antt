-- ===== src/Wire/Slices.antt =====
-- `ReadSlice` with a small buffer against one with an unlimited buffer.
use smtp_gateway.Base.{
  ℕ, zero, suc, ◌+◌, ◌≡◌, ◌≢◌, refl, [], ◌∷◌, arith, length, ◌==◌, if◌then◌else◌,
}
use smtp_gateway.Wire.{
  Stream, byte, fault, eof, delimiter, buffer_full, failure, Slice, prepend, read_slice,
}

-- `ReadSlice` that never runs out of room.
unfoldable pub whole : Stream → Slice
whole [] = record { frag = []; status = failure eof; rest = [] }
whole (fault e ∷ s) = record { frag = []; status = failure e; rest = s }
whole (byte b ∷ s) =
    if b == b'\n'
    then record { frag = b ∷ []; status = delimiter; rest = s }
    else prepend (b ∷ []) (whole s)

-- A slice that does not fill the buffer is the whole one.
pub read_slice-whole :
    (k : ℕ) (s : Stream) → (read_slice k s).status ≢ buffer_full → read_slice k s ≡ whole s
unfolding read_slice whole
read_slice-whole zero s h = absurd (h refl)
read_slice-whole (suc k) [] h = refl
read_slice-whole (suc k) (fault e ∷ s) h = refl
read_slice-whole (suc k) (byte b ∷ s) h = ground (arith, read_slice-whole k s)

-- One that does is a prefix of it.
pub read_slice-full :
    (k : ℕ) (s : Stream)
    → (read_slice k s).status ≡ buffer_full
    → whole s ≡ prepend (read_slice k s).frag (whole (read_slice k s).rest)
unfolding read_slice whole
read_slice-full zero s h = refl
read_slice-full (suc k) [] h = cc
read_slice-full (suc k) (fault e ∷ s) h = cc
read_slice-full (suc k) (byte b ∷ s) h = ground (arith, read_slice-full k s)

pub length-read_slice :
    (k : ℕ) (s : Stream)
    → (read_slice k s).status ≡ buffer_full
    → k + length (read_slice k s).rest ≡ length s
unfolding read_slice
length-read_slice zero s h = omega arith
length-read_slice (suc k) [] h = cc
length-read_slice (suc k) (fault e ∷ s) h = cc
length-read_slice (suc k) (byte b ∷ s) h = ground (arith, length-read_slice k s)
