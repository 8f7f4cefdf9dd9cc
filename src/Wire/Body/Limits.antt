-- ===== src/Wire/Body/Limits.antt =====
-- The size of what `readLine` and `readDotUnstuffed` return.
use smtp_gateway.Base.{
  ℕ, zero, suc, ◌+◌, ◌<◌, ◌≤◌, ◌^◌, ◌≡◌, refl, ◌∙◌, Bool, false, [], ◌∷◌, ◌++◌, arith, length,
  length-append, Bytes, ap, sym,
}
use smtp_gateway.Base.Int.{pos}
use smtp_gateway.Wire.{
  Stream, LineResult, line, line_too_long, line_error, read_line, max_line_length,
}
use smtp_gateway.Wire.Line.{read_line-le}
use smtp_gateway.Wire.Body.{
  BodyResult, body, Next, stop, overflow, again, body_step, drain, body_loop, unstuff,
  read_dot_unstuffed, crlf,
}
use smtp_gateway.Wire.Body.Fuel.{proceed, body_loop_step}

length-unstuff : (l : Bytes) → length (unstuff l) ≤ length l
unfolding unstuff
length-unstuff [] = omega arith
length-unstuff (c ∷ l) = ground arith

drain-ne-body : (fuel size : ℕ) (s : Stream) (b : Bytes) → (drain fuel size s).0 ≡ body b → ⊥
unfolding drain
drain-ne-body zero size s b e = cc
drain-ne-body (suc fuel) size s b e = ground (arith, drain-ne-body fuel size (read_line size s).1 b)

module _ (size m : ℕ) (room : 0 < size) (small : m + 65538 < 2 ^ 63) where
  -- What a round keeps is within the limit.
  again-Within :
      (buf : Bytes) (long : Bool) (r : LineResult) {buf' : Bytes} {long' : Bool}
      → ((l : Bytes) → r ≡ line l → length l ≤ max_line_length)
      → 0 < m
      → length buf ≤ m
      → body_step (pos m) buf long r ≡ again buf' long'
      → length buf' ≤ m
  unfolding body_step
  again-Within buf long (line_error e) short p h k = cc
  again-Within buf long line_too_long short p h k = ground arith
  again-Within buf long (line l) short p h k = ground (
    arith,
    short l refl,
    length-unstuff l,
    length-append buf (unstuff l ++ crlf),
    length-append (unstuff l) crlf,
  )

  stop-le :
      (buf : Bytes) (long : Bool) (r : LineResult) {b : Bytes}
      → body_step (pos m) buf long r ≡ stop (body b)
      → b ≡ buf
  unfolding body_step
  stop-le buf long (line_error e) h = cc
  stop-le buf long line_too_long h = cc
  stop-le buf long (line l) h = ground arith

  body_loop-le :
      (fuel : ℕ) (buf : Bytes) (long : Bool) (s : Stream) (b : Bytes)
      → 0 < m
      → length buf ≤ m
      → (body_loop fuel size (pos m) buf long s).0 ≡ body b
      → length b ≤ m
  body_loop-le zero buf long s b p h e = unfold body_loop in cc
  body_loop-le (suc fuel) buf long s b p h e =
      go (body_step (pos m) buf long (read_line size s).0) refl
        (λ buf' long' k. body_loop-le fuel buf' long' (read_line size s).1 b p k)
    where
      next :
          (n : Next)
          → body_step (pos m) buf long (read_line size s).0 ≡ n
          → (proceed fuel size (pos m) n (read_line size s).1).0 ≡ body b
      next n k =
          ap (λ (q : BodyResult × Stream). q.0)
            (sym (body_loop_step fuel size (pos m) buf long s k))
          ∙ e

      go :
          (n : Next)
          → body_step (pos m) buf long (read_line size s).0 ≡ n
          → ((buf' : Bytes) (long' : Bool)
              → length buf' ≤ m
              → (body_loop fuel size (pos m) buf' long' (read_line size s).1).0 ≡ body b
              → length b ≤ m)
          → length b ≤ m
      go (stop x) k ih = ground (
        arith,
        next (stop x) k,
        stop-le buf long (read_line size s).0 (k ∙ ap stop (next (stop x) k)),
      )
      go overflow k ih = absurd (drain-ne-body _ size (read_line size s).1 b (next overflow k))
      go (again buf' long') k ih =
          ih buf' long'
            (again-Within buf long (read_line size s).0 (λ l. read_line-le size s l room) p h k)
            (next (again buf' long') k)

  -- For a positive limit below 2^63 - 65538 and a reader's buffer that is not empty, a body that
  -- `readDotUnstuffed` returns is within the limit, whatever the client sends.
  pub read_dot_unstuffed-le :
      (s : Stream) (b : Bytes)
      → 0 < m
      → (read_dot_unstuffed size (pos m) s).0 ≡ body b
      → length b ≤ m
  unfolding read_dot_unstuffed
  read_dot_unstuffed-le s b p e = body_loop-le (suc (length s)) [] false s b p (omega arith) e
