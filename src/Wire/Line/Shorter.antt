-- ===== src/Wire/Line/Shorter.antt =====
-- `readLine` of smtp.go makes the stream shorter, so that the loops around it end.
use smtp_gateway.Base.{ℕ, ◌≤◌, ◌<◌, ◌≡◌, refl, [], ◌∷◌, arith, length, Bytes, Bool}
use smtp_gateway.Wire.{
  Stream, byte, fault, Status, delimiter, buffer_full, failure, Slice, LineResult, line,
  line_too_long, line_error, finish_line, read_line,
}
use smtp_gateway.Wire.Slices.{whole}
use smtp_gateway.Wire.Line.{outcome, over, read_line-outcome}

length-whole : (s : Stream) → length (whole s).rest ≤ length s
unfolding whole
length-whole [] = omega arith
length-whole (fault e ∷ s) = omega arith
length-whole (byte b ∷ s) = ground (arith, length-whole s)

length-whole_lt : (s : Stream) → (whole s).status ≡ delimiter → length (whole s).rest < length s
unfolding whole
length-whole_lt [] h = cc
length-whole_lt (fault e ∷ s) h = omega arith
length-whole_lt (byte b ∷ s) h = ground (arith, length-whole_lt s)

-- What is left of the stream is no longer than before, and shorter where a line was read.
abbrev pub Shorter : LineResult → Stream → Stream → Type 0
Shorter (line_error e) s' s = length s' ≤ length s
Shorter _ s' s = length s' < length s

Shorter-of_lt : (r : LineResult) (s' s : Stream) → length s' < length s → Shorter r s' s
Shorter-of_lt (line_error e) s' s h = omega arith
Shorter-of_lt (line l) s' s h = h
Shorter-of_lt line_too_long s' s h = h

outcome-Shorter :
    (b : Bool) (text : Bytes) (st : Status) (w : Slice) (s : Stream)
    → w.status ≡ st
    → (st ≡ delimiter → length w.rest < length s)
    → length w.rest ≤ length s
    → Shorter (outcome b text w).0 (outcome b text w).1 s
outcome-Shorter b text delimiter w s e d h =
    rw (e, outcome) (Shorter-of_lt (finish_line b text) w.rest s (d refl))
outcome-Shorter b text buffer_full w s e d h = rw (e, outcome) h
outcome-Shorter b text (failure x) w s e d h = rw (e, outcome) h

pub read_line-Shorter :
    (size : ℕ) (s : Stream) → 0 < size → Shorter (read_line size s).0 (read_line size s).1 s
read_line-Shorter size s pos = rw (read_line-outcome size s pos) (
    outcome-Shorter (over [] (whole s).frag) (whole s).frag _ (whole s) s refl (length-whole_lt s)
      (length-whole s))
