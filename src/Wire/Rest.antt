-- ===== src/Wire/Rest.antt =====
-- What is left of the stream behind a read.
use smtp_gateway.Base.{ℕ, zero, suc, ◌<◌, ◌≤◌, refl, Bool, false, Bytes, length, arith, [], ◌∷◌}
use smtp_gateway.Base.Int.{ℤ}
use smtp_gateway.Wire.{Stream, byte, fault, LineResult, line, line_too_long, line_error, read_line}
use smtp_gateway.Wire.Line.Shorter.{read_line-Shorter, Shorter}
use smtp_gateway.Wire.Body.{
  Next, stop, overflow, again, body_step, drain, body_loop, read_dot_unstuffed,
}
use smtp_gateway.Wire.Body.Fuel.{proceed, body_loop_step}
use smtp_gateway.Wire.Chunk.{read_full, read_n_bytes, discard}

le_of_Shorter : (r : LineResult) (s' s : Stream) → Shorter r s' s → length s' ≤ length s
le_of_Shorter (line l) s' s h = omega arith
le_of_Shorter line_too_long s' s h = omega arith
le_of_Shorter (line_error e) s' s h = h

pub discard-le : (n : ℕ) (s : Stream) → length (discard n s) ≤ length s
unfolding discard
discard-le zero s = omega arith
discard-le (suc n) [] = omega arith
discard-le (suc n) (fault e ∷ s) = omega arith
discard-le (suc n) (byte b ∷ s) = omega (arith, discard-le n s)

read_full-rest : (n : ℕ) (s : Stream) → length (read_full n s).1 ≤ length s
unfolding read_full
read_full-rest zero s = omega arith
read_full-rest (suc n) [] = omega arith
read_full-rest (suc n) (fault e ∷ s) = omega arith
read_full-rest (suc n) (byte b ∷ s) = omega (arith, read_full-rest n s)

pub read_n_bytes-rest : (n : ℕ) (s : Stream) → length (read_n_bytes n s).1 ≤ length s
unfolding read_n_bytes
read_n_bytes-rest n s = ground (arith, read_full-rest n s)

module _ (size : ℕ) (room : 0 < size) where
  pub read_line-rest : (s : Stream) → length (read_line size s).1 ≤ length s
  read_line-rest s =
      le_of_Shorter (read_line size s).0 (read_line size s).1 s (read_line-Shorter size s room)

  drain-rest : (fuel : ℕ) (s : Stream) → length (drain fuel size s).1 ≤ length s
  unfolding drain
  drain-rest zero s = omega arith
  drain-rest (suc fuel) s = ground (arith, read_line-rest s, drain-rest fuel (read_line size s).1)

  body_loop-rest :
      (fuel : ℕ) (max : ℤ) (buf : Bytes) (long : Bool) (s : Stream)
      → length (body_loop fuel size max buf long s).1 ≤ length s
  body_loop-rest zero max buf long s = unfold body_loop in omega arith
  body_loop-rest (suc fuel) max buf long s = rw (body_loop_step fuel size max buf long s refl) (
      next (body_step max buf long (read_line size s).0)
        (λ b l. body_loop-rest fuel max b l (read_line size s).1))
    where
      next :
          (n : Next)
          → ((b : Bytes) (l : Bool)
              → length (body_loop fuel size max b l (read_line size s).1).1
                ≤ length (read_line size s).1)
          → length (proceed fuel size max n (read_line size s).1).1 ≤ length s
      next (stop b) ih = read_line-rest s
      next overflow ih = omega (
        arith,
        read_line-rest s,
        drain-rest (suc (length (read_line size s).1)) (read_line size s).1,
      )
      next (again b l) ih = omega (arith, read_line-rest s, ih b l)

  pub read_dot_unstuffed-rest :
      (max : ℤ) (s : Stream) → length (read_dot_unstuffed size max s).1 ≤ length s
  unfolding read_dot_unstuffed
  read_dot_unstuffed-rest max s = body_loop-rest (suc (length s)) max [] false s
