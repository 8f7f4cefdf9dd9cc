-- ===== src/Wire/Body/Stuffing.antt =====
-- A body that a client sends by the rules of RFC 5321 §4.5.2, against `readDotUnstuffed`.
use mathlib.Core.Path.{ap₂}
use native.Mathlib.Nat.{add-zero}
use smtp_gateway.Base.{
  ℕ, zero, suc, ◌+◌, ◌<◌, ◌≤◌, ◌^◌, ◌≡◌, refl, sym, ap, ◌∙◌, Bool, true, false, List, [], ◌∷◌, ◌++◌,
  inl, inr, All, arith, length, length-append, append_assoc, append-nil, ltb, ◌==◌, if◌then◌else◌,
  Bool-cases, if-true, if-false, Bytes, equal,
}
use smtp_gateway.Base.Int.{ℤ, pos, add_int, over_limit, add_int-pos, over_limit_mono}
use smtp_gateway.Wire.{Stream, line, line_too_long, bytes, read_line, max_line_length}
use smtp_gateway.Wire.Line.{NoNewline, read_line-crlf, bytes-append, length-bytes}
use smtp_gateway.Wire.Body.{
  body, too_large, overflow, again, body_step, drain, body_loop, dot, crlf, unstuff,
  read_dot_unstuffed,
}
use smtp_gateway.Wire.Body.Fuel.{proceed, body_loop_reads}

-- A line as the client sends it, without its ending.
abbrev pub stuff : Bytes → Bytes
stuff [] = []
stuff (c ∷ l) = if c == b'.' then c ∷ c ∷ l else c ∷ l

-- The lines of a body on the wire, and the final dot.
abbrev pub wire : List Bytes → Bytes
wire [] = dot ++ crlf
wire (l ∷ ls) = (stuff l ++ crlf) ++ wire ls

-- The message that the lines make up.
abbrev pub message : List Bytes → Bytes
message [] = []
message (l ∷ ls) = (l ++ crlf) ++ message ls

pub unstuff-stuff : (l : Bytes) → unstuff (stuff l) ≡ l
unfolding unstuff
unstuff-stuff [] = refl
unstuff-stuff (c ∷ l) = ground arith

equal-stuff : (l : Bytes) → equal (stuff l) dot ≡ false
unfolding equal
equal-stuff [] = refl
equal-stuff (c ∷ []) = ground arith
equal-stuff (c ∷ d ∷ l) = ground arith

NoNewline-stuff : (l : Bytes) → NoNewline l → NoNewline (stuff l)
NoNewline-stuff [] h = h
NoNewline-stuff (c ∷ l) h = ground arith

abbrev pub Fits : Bytes → Type 0
Fits l = length (stuff l) ≤ max_line_length

module _ (size : ℕ) (room : 0 < size) where
  read_line-stuff :
      (l rest : Bytes) (s : Stream)
      → NoNewline l
      → read_line size (bytes ((stuff l ++ crlf) ++ rest) s) ≡ (
        (if ltb max_line_length (length (stuff l)) then line_too_long else line (stuff l)),
        bytes rest s,
      )
  read_line-stuff l rest s h =
      ap (read_line size) (bytes-append (stuff l ++ crlf) rest s)
      ∙ read_line-crlf size (stuff l) (bytes rest s) room (NoNewline-stuff l h)

  read_line-dot : (s : Stream) → read_line size (bytes (dot ++ crlf) s) ≡ (line dot, s)
  read_line-dot s = read_line-crlf size dot s room (ground arith)

  drain-wire :
      (fuel : ℕ) (ls : List Bytes) (s : Stream)
      → All NoNewline ls
      → length (bytes (wire ls) s) < fuel
      → drain fuel size (bytes (wire ls) s) ≡ (too_large, s)
  unfolding drain
  drain-wire zero ls s h f = absurd (omega arith)
  drain-wire (suc fuel) [] s h f = unfold equal in ground (arith, read_line-dot s)
  drain-wire (suc fuel) (l ∷ ls) s h f =
      let shorter = length-bytes ((stuff l ++ crlf) ++ wire ls) s in
      ground (
        arith,
        read_line-stuff l (wire ls) s h.0,
        equal-stuff l,
        drain-wire fuel ls s h.1,
        shorter,
        length-append (stuff l ++ crlf) (wire ls),
        length-append (stuff l) crlf,
        length-bytes (wire ls) s,
      )

  -- One line of the body.
  body_step-stuff :
      (max : ℤ) (buf l : Bytes)
      → body_step max buf false (line (stuff l)) ≡ (
          if over_limit max (add_int (length buf + length l) 2)
          then overflow
          else again (buf ++ (l ++ crlf)) false)
  unfolding body_step
  body_step-stuff max buf l = rw (equal-stuff l, unstuff-stuff l)

  length-wire :
      (l : Bytes) (ls : List Bytes) (s : Stream)
      → length (bytes (wire ls) s) < length (bytes (wire (l ∷ ls)) s)
  length-wire l ls s = omega (
    arith,
    length-bytes ((stuff l ++ crlf) ++ wire ls) s,
    length-bytes (wire ls) s,
    length-append (stuff l ++ crlf) (wire ls),
    length-append (stuff l) crlf,
  )

  length_test : (l : Bytes) → Fits l → ltb max_line_length (length (stuff l)) ≡ false
  length_test l h = ground arith

  length-message :
      (l : Bytes) (ls : List Bytes) → length (message (l ∷ ls)) ≡ length l + 2 + length (message ls)
  length-message l ls = omega (arith, length-append (l ++ crlf) (message ls), length-append l crlf)

  -- One round of the loop, on one line of the body.
  body_loop-line :
      (fuel : ℕ) (max : ℤ) (buf l : Bytes) (ls : List Bytes) (s : Stream)
      → NoNewline l
      → Fits l
      → length buf + length l + 2 < 2 ^ 63
      → body_loop (suc fuel) size max buf false (bytes (wire (l ∷ ls)) s) ≡ (
          if over_limit max (pos (length buf + length l + 2))
          then drain (suc (length (bytes (wire ls) s))) size (bytes (wire ls) s)
          else body_loop fuel size max (buf ++ (l ++ crlf)) false (bytes (wire ls) s))
  body_loop-line fuel max buf l ls s h fits small =
      body_loop_reads fuel size max buf false _ (line (stuff l)) (bytes (wire ls) s)
        (read_line-stuff l (wire ls) s h ∙ rw (length_test l fits))
      ∙ ap (λ n. proceed fuel size max n (bytes (wire ls) s)) (body_step-stuff max buf l)
      ∙ ap
          (λ n.
            proceed fuel size max
              (if over_limit max n then overflow else again (buf ++ (l ++ crlf)) false)
              (bytes (wire ls) s))
          (add_int-pos (length buf + length l) 2 small)
      ∙ branch (over_limit max (pos (length buf + length l + 2)))
    where
      branch :
          (b : Bool)
          → proceed fuel size max
              (if b then overflow else again (buf ++ (l ++ crlf)) false)
              (bytes (wire ls) s)
            ≡ (if b
                then drain (suc (length (bytes (wire ls) s))) size (bytes (wire ls) s)
                else body_loop fuel size max (buf ++ (l ++ crlf)) false (bytes (wire ls) s))
      branch true = refl
      branch false = refl

  body_loop-wire :
      (fuel : ℕ) (max : ℤ) (buf : Bytes) (ls : List Bytes) (s : Stream)
      → All NoNewline ls
      → All Fits ls
      → length (bytes (wire ls) s) < fuel
      → length buf + length (message ls) < 2 ^ 63
      → over_limit max (pos (length buf)) ≡ false
      → body_loop fuel size max buf false (bytes (wire ls) s) ≡ (
        (if over_limit max (pos (length buf + length (message ls)))
            then too_large
            else body (buf ++ message ls)),
        s,
      )
  body_loop-wire zero max buf ls s h fits f small under = absurd (omega arith)
  body_loop-wire (suc fuel) max buf [] s h fits f small under =
      body_loop_reads fuel size max buf false _ (line dot) s (read_line-dot s)
      ∙ unfold body_step equal in ground (arith, append-nil buf, ap pos (add-zero (length buf)))
  body_loop-wire (suc fuel) max buf (l ∷ ls) s h fits f small under =
      let n : ℕ = length buf + length l + 2 in
      let total : ℕ = length buf + length (message (l ∷ ls)) in
      let grown : n + length (message ls) ≡ total = omega (arith, length-message l ls) in
      let next : Bytes = buf ++ (l ++ crlf) in
      let kept : length next ≡ n =
        omega (arith, length-append buf (l ++ crlf), length-append l crlf) in
      let shorter : length (bytes (wire ls) s) < fuel = omega (arith, length-wire l ls s) in
      body_loop-line fuel max buf l ls s h.0 fits.0 (omega arith)
      ∙ elim (Bool-cases (over_limit max (pos n))) [
        | inl o ↦
            if-true _ _ o
            ∙ drain-wire (suc (length (bytes (wire ls) s))) ls s h.1 (omega arith)
            ∙ ap (λ b. ((if b then too_large else body (buf ++ message (l ∷ ls))), s))
                (sym (over_limit_mono max n total (omega arith) o))
        | inr o ↦
            if-false _ _ o
            ∙ body_loop-wire fuel max next ls s h.1 fits.1 shorter (omega arith)
                (ap (λ k. over_limit max (pos k)) kept ∙ o)
            ∙ ap₂ (λ (k : ℕ) b. ((if over_limit max (pos k) then too_large else body b), s))
                (ap (λ k. k + length (message ls)) kept ∙ grown)
                (append_assoc buf (l ++ crlf) (message ls))
      ]

-- A body that the client sends line by line, dot-stuffed, is returned as it was, unless it is over
-- the limit: then the error is `ErrMessageTooLarge`. In both cases the stream is left behind the
-- final dot. The reader's buffer is not empty, the lines hold no line feed and are within
-- `maxLineLength` once stuffed, and the body is below 2^63 bytes.
pub read_dot_unstuffed-wire :
    (size : ℕ) (max : ℤ) (ls : List Bytes) (s : Stream)
    → 0 < size
    → All NoNewline ls
    → All Fits ls
    → length (message ls) < 2 ^ 63
    → read_dot_unstuffed size max (bytes (wire ls) s)
      ≡ ((if over_limit max (pos (length (message ls))) then too_large else body (message ls)), s)
unfolding read_dot_unstuffed
read_dot_unstuffed-wire size max ls s room h fits small =
    body_loop-wire size room (suc (length (bytes (wire ls) s))) max [] ls s h fits (omega arith)
      (omega arith) (ground arith)
    ∙ ap (λ (n : ℕ). ((if over_limit max (pos n) then too_large else body (message ls)), s))
        (omega arith)
