-- ===== src/Wire/Line.antt =====
-- `readLine` of smtp.go against the lines of the stream.
pub mod Shorter
use mathlib.Core.List.{reverse_aux, reverse-append, reverse-reverse}
use smtp_gateway.Base.{
  sym, All-append, ℕ, zero, suc, ◌+◌, ◌≤◌, ◌<◌, ◌≡◌, ◌≢◌, ◌⊎◌, ◌∙◌, refl, ap, inl, inr, true, [],
  ◌∷◌, ◌++◌, arith, length, Bool-cases, if◌then◌else◌, Bytes, ltb, Bool, false, ◌||◌, append_assoc,
  All, reverse, length-append,
}
use native.Mathlib.Nat.{add_assoc}
use smtp_gateway.Wire.{
  Stream, byte, fault, eof, Status, delimiter, buffer_full, failure, Slice, prepend, read_slice,
  LineResult, line, line_too_long, line_error, finish_line, read_line_loop, read_line,
  max_line_length, trim_suffix, bytes,
}
use smtp_gateway.Wire.Slices.{whole, read_slice-whole, read_slice-full, length-read_slice}

-- What the loop returns once it has the whole slice.
abbrev outcome : Bool → Bytes → Slice → LineResult × Stream
outcome too_long text r = elim r.status [
  | delimiter ↦ (finish_line too_long text, r.rest)
  | buffer_full ↦ (line_error eof, r.rest)
  | failure e ↦ (line_error e, r.rest)
]

abbrev over : Bytes → Bytes → Bool
over text frag = ltb (max_line_length + 2) (length text + length frag)

outcome_too_long : (a b : Bytes) (r : Slice) → outcome true a r ≡ outcome true b r
unfolding finish_line
outcome_too_long a b r = ground arith

-- One more fragment before the whole slice.
outcome-prepend :
    (too_long : Bool) (text frag : Bytes) (w : Slice)
    → (let tl = too_long || over text frag in
        let text' = if tl then text else text ++ frag in
        outcome (tl || over text' w.frag) (text' ++ w.frag) w)
      ≡ outcome (too_long || over text (frag ++ w.frag)) (text ++ (frag ++ w.frag)) (prepend frag w)
unfolding finish_line
outcome-prepend true text frag w = ground arith
outcome-prepend false text frag w = elim (Bool-cases (over text frag)) [
  | inl o ↦ ground (arith, length-append frag w.frag)
  | inr o ↦ rw (o, append_assoc, length-append text frag, length-append frag w.frag, add_assoc)
]

-- A round that does not fill the buffer ends the loop.
loop_ends :
    (fuel size : ℕ) (text : Bytes) (too_long : Bool) (s : Stream)
    → (read_slice size s).status ≢ buffer_full
    → read_line_loop (suc fuel) size text too_long s
      ≡ outcome
          (too_long || over text (read_slice size s).frag)
          (text ++ (read_slice size s).frag)
          (read_slice size s)
unfolding read_line_loop
loop_ends fuel size text too_long s h = ground arith

-- A round that does is a prefix of the line.
loop_goes_on :
    (fuel size : ℕ) (text : Bytes) (too_long : Bool) (s : Stream)
    → (read_slice size s).status ≡ buffer_full
    → read_line_loop (suc fuel) size text too_long s ≡ (
        let r = read_slice size s in
        let tl = too_long || over text r.frag in
        read_line_loop fuel size (if tl then text else text ++ r.frag) tl r.rest)
unfolding read_line_loop
loop_goes_on fuel size text too_long s h = ground arith

Status-cases : (t : Status) → (t ≡ buffer_full) ⊎ (t ≢ buffer_full)
Status-cases delimiter = inr (ground arith)
Status-cases buffer_full = inl refl
Status-cases (failure e) = inr (ground arith)

read_line_loop-outcome :
    (fuel size : ℕ) (text : Bytes) (too_long : Bool) (s : Stream)
    → 0 < size
    → length s < fuel
    → read_line_loop fuel size text too_long s
      ≡ outcome (too_long || over text (whole s).frag) (text ++ (whole s).frag) (whole s)
read_line_loop-outcome zero size text too_long s pos h = absurd (omega arith)
read_line_loop-outcome (suc fuel) size text too_long s pos h =
    elim (Status-cases (read_slice size s).status) [
      | inr ends ↦ rw (← read_slice-whole size s ends) (loop_ends fuel size text too_long s ends)
      | inl full ↦
          let r = read_slice size s in
          let tl = too_long || over text r.frag in
          loop_goes_on fuel size text too_long s full
          ∙ read_line_loop-outcome fuel size (if tl then text else text ++ r.frag) tl r.rest pos
              (omega (arith, length-read_slice size s full))
          ∙ outcome-prepend too_long text r.frag (whole r.rest)
          ∙ rw (read_slice-full size s full)
    ]

-- The result is that of a single `ReadSlice` with room for all of the line.
read_line-outcome :
    (size : ℕ) (s : Stream)
    → 0 < size
    → read_line size s ≡ outcome (over [] (whole s).frag) (whole s).frag (whole s)
unfolding read_line
read_line-outcome size s pos =
    read_line_loop-outcome (suc (length s)) size [] false s pos (omega arith)

-- `readLine` returns the same line, or the same error, and leaves the stream at the same place,
-- for any two sizes of the reader's buffer that are not zero.
pub read_line_buffer : (a b : ℕ) (s : Stream) → 0 < a → 0 < b → read_line a s ≡ read_line b s
read_line_buffer a b s ha hb = rw (read_line-outcome a s ha, read_line-outcome b s hb)

abbrev pub strip_cr : Bytes → Bytes
strip_cr l = trim_suffix l (b'\r' ∷ [])

abbrev pub NoNewline : Bytes → Type 0
NoNewline = All (λ b. b ≢ b'\n')

reverse-concat : (l : Bytes) (c : ℕ) → reverse (l ++ c ∷ []) ≡ c ∷ reverse l
reverse-concat l c = reverse-append l (c ∷ [])

-- The two trims behind the loop, on the reversed line.
trims_reversed :
    (l t : Bytes)
    → reverse l ≡ t
    → NoNewline t
    → trim_suffix (trim_suffix (l ++ b'\n' ∷ []) (b'\r' ∷ b'\n' ∷ [])) (b'\n' ∷ []) ≡ strip_cr l
unfolding trim_suffix
trims_reversed l [] e h = ground (arith, reverse-concat l b'\n', reverse-reverse l)
trims_reversed l (c ∷ []) e h = ground (arith, reverse-concat l b'\n', reverse-reverse l)
trims_reversed l (c ∷ d ∷ u) e h =
    ground (arith, reverse-concat l b'\n', reverse-reverse l, reverse-reverse (d ∷ u))

pub All-reverse_aux :
    (P : ℕ → Type 0) (xs ys : Bytes) → All P xs → All P ys → All P (reverse_aux xs ys)
All-reverse_aux P [] ys h k = k
All-reverse_aux P (x ∷ xs) ys h k = All-reverse_aux P xs (x ∷ ys) h.1 (h.0, k)

finish_line_lem :
    (l : Bytes)
    → NoNewline l
    → finish_line false (l ++ b'\n' ∷ [])
      ≡ (if ltb max_line_length (length (strip_cr l)) then line_too_long else line (strip_cr l))
unfolding finish_line
finish_line_lem l h =
    rw (trims_reversed l (reverse l) refl (All-reverse_aux (λ b. b ≢ b'\n') l [] h tt))

whole-bytes :
    (l : Bytes) (s : Stream)
    → NoNewline l
    → whole (bytes l (byte b'\n' ∷ s))
      ≡ record { frag = l ++ b'\n' ∷ []; status = delimiter; rest = s }
unfolding whole
whole-bytes [] s h = refl
whole-bytes (b ∷ l) s h = ground (arith, whole-bytes l s h.1)

length-reverse_aux : (xs ys : Bytes) → length (reverse_aux xs ys) ≡ length xs + length ys
length-reverse_aux [] ys = omega arith
length-reverse_aux (x ∷ xs) ys = omega (arith, length-reverse_aux xs (x ∷ ys))

length-strip_cr_reversed : (l t : Bytes) → reverse l ≡ t → length l ≤ length (strip_cr l) + 1
unfolding trim_suffix
length-strip_cr_reversed l [] e = ground arith
length-strip_cr_reversed l (c ∷ u) e =
    ground (arith, ap length e, length-reverse_aux l [], length-reverse_aux u [])

length-strip_cr : (l : Bytes) → length l ≤ length (strip_cr l) + 1
length-strip_cr l = length-strip_cr_reversed l (reverse l) refl

over-strip_cr :
    (l : Bytes)
    → over [] (l ++ b'\n' ∷ []) ≡ true
    → ltb max_line_length (length (strip_cr l)) ≡ true
over-strip_cr l o = ground (arith, length-strip_cr l, length-append l (b'\n' ∷ []))

-- With a reader's buffer that is not empty, what stands before the first LF is returned, without a
-- CR at its end, if it is then within `maxLineLength`, and reported as too long otherwise. In both
-- cases the stream is left behind the line feed.
pub read_line_lem :
    (size : ℕ) (l : Bytes) (s : Stream)
    → 0 < size
    → NoNewline l
    → read_line size (bytes l (byte b'\n' ∷ s)) ≡ (
      (if ltb max_line_length (length (strip_cr l)) then line_too_long else line (strip_cr l)),
      s,
    )
unfolding finish_line
read_line_lem size l s pos h =
    rw (read_line-outcome size (bytes l (byte b'\n' ∷ s)) pos, whole-bytes l s h)
      (elim (Bool-cases (over [] (l ++ b'\n' ∷ []))) [
        | inl o ↦ rw (o, over-strip_cr l o, finish_line)
        | inr o ↦ rw (o, finish_line_lem l h)
      ])

pub bytes-append : (a b : Bytes) (s : Stream) → bytes (a ++ b) s ≡ bytes a (bytes b s)
bytes-append [] b s = refl
bytes-append (x ∷ a) b s = ap (◌∷◌ (byte x)) (bytes-append a b s)

pub length-bytes : (a : Bytes) (s : Stream) → length (bytes a s) ≡ length a + length s
length-bytes [] s = omega arith
length-bytes (x ∷ a) s = omega (arith, length-bytes a s)

strip_cr-concat : (l : Bytes) → strip_cr (l ++ b'\r' ∷ []) ≡ l
unfolding trim_suffix
strip_cr-concat l = ground (arith, reverse-concat l b'\r', reverse-reverse l)

-- A line that the client ends in CR LF.
pub read_line-crlf :
    (size : ℕ) (l : Bytes) (s : Stream)
    → 0 < size
    → NoNewline l
    → read_line size (bytes (l ++ b'\r' ∷ b'\n' ∷ []) s)
      ≡ ((if ltb max_line_length (length l) then line_too_long else line l), s)
read_line-crlf size l s pos h =
    ap (read_line size)
      (bytes-append l (b'\r' ∷ b'\n' ∷ []) s ∙ sym (bytes-append l (b'\r' ∷ []) (byte b'\n' ∷ s)))
    ∙ read_line_lem size (l ++ b'\r' ∷ []) s pos (All-append (λ b. b ≢ b'\n') l _ h (ground arith))
    ∙ rw (strip_cr-concat l)

outcome-le :
    (b : Bool) (text : Bytes) (w : Slice) (l : Bytes)
    → (outcome b text w).0 ≡ line l
    → length l ≤ max_line_length
unfolding finish_line
outcome-le b text w l e = ground arith

-- With a reader's buffer that is not empty, every line that `readLine` returns is at most
-- `maxLineLength` bytes long, whatever the client sends.
pub read_line-le :
    (size : ℕ) (s : Stream) (l : Bytes)
    → 0 < size
    → (read_line size s).0 ≡ line l
    → length l ≤ max_line_length
read_line-le size s l pos e =
    outcome-le (over [] (whole s).frag) (whole s).frag (whole s) l
      (ap (λ (p : LineResult × Stream). p.0) (sym (read_line-outcome size s pos)) ∙ e)
