-- ===== src/Wire/Body/Fuel.antt =====
-- The loops of `readDotUnstuffed` and their fuel.
use mathlib.Core.Path.{subst}
use smtp_gateway.Base.{
  [], false, true, equal, if◌then◌else◌, Bool-cases, inl, inr, ℕ, zero, suc, ◌<◌, ◌≡◌, refl, sym,
  ap, ◌∙◌, Bool, Bytes, length, arith,
}
use smtp_gateway.Base.Int.{ℤ}
use smtp_gateway.Wire.{Stream, LineResult, ReadError, line, line_too_long, line_error, read_line}
use smtp_gateway.Wire.Line.Shorter.{Shorter, read_line-Shorter}
use smtp_gateway.Wire.Body.{
  BodyResult, too_large, dot, Next, stop, overflow, again, body_step, drain, body_loop,
  read_dot_unstuffed,
}

-- What the loop does with the decision of one round.
abbrev pub proceed : ℕ → ℕ → ℤ → Next → Stream → BodyResult × Stream
proceed fuel size max (stop b) s' = (b, s')
proceed fuel size max overflow s' = drain (suc (length s')) size s'
proceed fuel size max (again buf long) s' = body_loop fuel size max buf long s'

pub body_loop_step :
    (fuel size : ℕ) (max : ℤ) (buf : Bytes) (long : Bool) (s : Stream) {n : Next}
    → body_step max buf long (read_line size s).0 ≡ n
    → body_loop (suc fuel) size max buf long s ≡ proceed fuel size max n (read_line size s).1
unfolding body_loop
body_loop_step fuel size max buf long s e = ground arith

pub body_loop_reads :
    (fuel size : ℕ) (max : ℤ) (buf : Bytes) (long : Bool) (s : Stream) (r : LineResult)
    (s' : Stream)
    → read_line size s ≡ (r, s')
    → body_loop (suc fuel) size max buf long s ≡ proceed fuel size max (body_step max buf long r) s'
body_loop_reads fuel size max buf long s r s' e =
    body_loop_step fuel size max buf long s refl
    ∙ ap (λ (p : LineResult × Stream). proceed fuel size max (body_step max buf long p.0) p.1) e

-- The inner loop without fuel, round by round: it returns `r` from a stream.
pub data Drains (size : ℕ) (r : BodyResult × Stream) : Stream → Type 0 where
  drain_stops :
      (s : Stream) (l : Bytes)
      → (read_line size s).0 ≡ line l
      → equal l dot ≡ true
      → r ≡ (too_large, (read_line size s).1)
      → Drains size r s
  drain_skips :
      (s : Stream) (l : Bytes)
      → (read_line size s).0 ≡ line l
      → equal l dot ≡ false
      → Drains size r (read_line size s).1
      → Drains size r s
  drain_skips_long :
      (s : Stream)
      → (read_line size s).0 ≡ line_too_long
      → Drains size r (read_line size s).1
      → Drains size r s
  drain_fails :
      (s : Stream) (e : ReadError)
      → (read_line size s).0 ≡ line_error e
      → r ≡ (too_large, (read_line size s).1)
      → Drains size r s

-- The outer loop without fuel: it returns `r` from a body so far, the flag `tooLong` and a stream.
pub data Returns (size : ℕ) (max : ℤ) (r : BodyResult × Stream)
    : Bytes → Bool → Stream → Type 0 where
  stops :
      (buf : Bytes) (long : Bool) (s : Stream) (b : BodyResult)
      → body_step max buf long (read_line size s).0 ≡ stop b
      → r ≡ (b, (read_line size s).1)
      → Returns size max r buf long s
  overflows :
      (buf : Bytes) (long : Bool) (s : Stream)
      → body_step max buf long (read_line size s).0 ≡ overflow
      → Drains size r (read_line size s).1
      → Returns size max r buf long s
  goes_on :
      (buf : Bytes) (long : Bool) (s : Stream) (buf' : Bytes) (long' : Bool)
      → body_step max buf long (read_line size s).0 ≡ again buf' long'
      → Returns size max r buf' long' (read_line size s).1
      → Returns size max r buf long s

module _ (size : ℕ) (pos : 0 < size) where
  -- The inner loop ends on any fuel above the length of the stream.
  drain-Drains : (f : ℕ) (s : Stream) → length s < f → Drains size (drain f size s) s
  unfolding drain
  drain-Drains zero s h = absurd (omega arith)
  drain-Drains (suc f) s h =
      go (read_line size s).0 refl (read_line-Shorter size s pos)
        (λ k. drain-Drains f (read_line size s).1 k)
    where
      go :
          (o : LineResult)
          → (read_line size s).0 ≡ o
          → Shorter o (read_line size s).1 s
          → (length (read_line size s).1 < f
              → Drains size (drain f size (read_line size s).1) (read_line size s).1)
          → Drains size
              (elim o [
                | line l ↦
                    if equal l dot
                    then (too_large, (read_line size s).1)
                    else drain f size (read_line size s).1
                | line_too_long ↦ drain f size (read_line size s).1
                | line_error e ↦ (too_large, (read_line size s).1)
              ])
              s
      go (line l) e k ih = elim (Bool-cases (equal l dot)) [
        | inl b ↦ rw b (drain_stops s l e b refl)
        | inr b ↦ rw b (drain_skips s l e b (ih (omega arith)))
      ]
      go line_too_long e k ih = drain_skips_long s e (ih (omega arith))
      go (line_error x) e k ih = drain_fails s x e refl

  -- A round that goes on has read a line.
  again_shorter :
      (max : ℤ) (buf : Bytes) (long : Bool) (s : Stream) (buf' : Bytes) (long' : Bool)
      → body_step max buf long (read_line size s).0 ≡ again buf' long'
      → length (read_line size s).1 < length s
  unfolding body_step
  again_shorter max buf long s buf' long' e = ground (arith, read_line-Shorter size s pos)

  proceed-Returns :
      (f : ℕ) (max : ℤ) (buf : Bytes) (long : Bool) (s : Stream) (n : Next)
      → body_step max buf long (read_line size s).0 ≡ n
      → ((b : Bytes) (l : Bool)
          → n ≡ again b l
          → Returns size max
              (body_loop f size max b l (read_line size s).1)
              b
              l
              (read_line size s).1)
      → Returns size max (proceed f size max n (read_line size s).1) buf long s
  proceed-Returns f max buf long s (stop b) e ih = stops buf long s b e refl
  proceed-Returns f max buf long s overflow e ih =
      overflows buf long s e
        (drain-Drains (suc (length (read_line size s).1)) (read_line size s).1 (omega arith))
  proceed-Returns f max buf long s (again b l) e ih = goes_on buf long s b l e (ih b l refl)

  -- The outer loop ends, from any of its states, on any fuel above the length of the stream.
  body_loop-Returns :
      (f : ℕ) (max : ℤ) (buf : Bytes) (long : Bool) (s : Stream)
      → length s < f
      → Returns size max (body_loop f size max buf long s) buf long s
  body_loop-Returns zero max buf long s h = absurd (omega arith)
  body_loop-Returns (suc f) max buf long s h =
      subst (λ r. Returns size max r buf long s) (sym (body_loop_step f size max buf long s refl))
        (proceed-Returns f max buf long s (body_step max buf long (read_line size s).0) refl
          (λ b l e.
            let shorter = again_shorter max buf long s b l e in
            body_loop-Returns f max b l (read_line size s).1 (omega arith)))

-- The loops of `readDotUnstuffed` end: with a reader's buffer that is not empty, whatever the client
-- sends, finitely many rounds of the loops lead to a return, with the result that the model gives on
-- its fuel.
pub read_dot_unstuffed-Returns :
    (size : ℕ) (max : ℤ) (s : Stream)
    → 0 < size
    → Returns size max (read_dot_unstuffed size max s) [] false s
unfolding read_dot_unstuffed
read_dot_unstuffed-Returns size max s pos =
    body_loop-Returns size pos (suc (length s)) max [] false s (omega arith)
