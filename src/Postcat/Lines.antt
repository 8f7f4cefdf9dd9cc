-- ===== src/Postcat/Lines.antt =====
-- Lines, and the blank line behind them, as `findBlankLine` and `strings.Split` find them.
use smtp_gateway.Base.{
  ℕ, zero, suc, ◌+◌, ◌≡◌, ◌≢◌, refl, ap, sym, ◌∙◌, Bool, true, false, ◌&&◌, not, Option, none, some,
  List, [], ◌∷◌, ◌++◌, All, All-append, length, is_nil, arith, Bytes, reverse, append-nil, ◌==◌,
}
use smtp_gateway.Wire.{drop_prefix, trim_suffix}
use smtp_gateway.Wire.Line.{All-reverse_aux}
use smtp_gateway.Postcat.{is_break, index, find_blank_line, two_lf, two_crlf, earliest, split_lines}
use smtp_gateway.Postcat.Sanitize.{NoBreak}

-- No two line feeds in a row, and none at the end.
abbrev pub tight : Bytes → Bool
tight [] = true
tight (c ∷ []) = not (c == b'\n')
tight (c ∷ d ∷ s) = not (c == b'\n' && d == b'\n') && tight (d ∷ s)

index-tight :
    (e body : Bytes) → tight e ≡ true → index two_lf (e ++ (two_lf ++ body)) ≡ some (length e)
unfolding index drop_prefix
index-tight [] body h = refl
index-tight (c ∷ []) body h = ground (arith, index-tight [] body refl)
index-tight (c ∷ d ∷ s) body h = ground (arith, index-tight (d ∷ s) body)

-- Without a CR in front, `\r\n\r\n` is found no earlier than behind the first text.
abbrev later : ℕ → Option ℕ → Option ℕ
later n none = none
later n (some i) = some (n + i)

index-later :
    (e rest : Bytes)
    → All (λ c. c ≢ b'\r') e
    → index two_crlf (e ++ rest) ≡ later (length e) (index two_crlf rest)
unfolding index drop_prefix
index-later [] rest h = ground arith
index-later (c ∷ e) rest h = ground (arith, index-later e rest h.1)

earliest-later :
    (n : ℕ) (o : Option ℕ) → (o ≡ some 0 → ⊥) → earliest (some n) (later n o) ≡ some (n, 2)
earliest-later n none h = refl
earliest-later n (some zero) h = absurd (h refl)
earliest-later n (some (suc i)) h = ground arith

index-two_lf : (body : Bytes) → index two_crlf (two_lf ++ body) ≡ some 0 → ⊥
unfolding index drop_prefix
index-two_lf body e = ground arith

pub find-tight :
    (e body : Bytes)
    → tight e ≡ true
    → All (λ c. c ≢ b'\r') e
    → find_blank_line (e ++ (two_lf ++ body)) ≡ some (length e, 2)
unfolding find_blank_line
find-tight e body t h = rw (index-tight e body t) (
    rw (index-later e (two_lf ++ body) h)
      (earliest-later (length e) (index two_crlf (two_lf ++ body)) (index-two_lf body)))

-- Lines with a line feed between any two.
abbrev pub between_lf : List Bytes → Bytes
between_lf [] = []
between_lf (l ∷ []) = l
between_lf (l ∷ m ∷ ls) = l ++ (b'\n' ∷ between_lf (m ∷ ls))

-- A line of a record: not empty, and unbroken.
pub record IsLine (l : Bytes) : Type 0 where
  pub filled : is_nil l ≡ false
  pub whole : NoBreak l

split_line : (l : Bytes) → NoBreak l → split_lines l ≡ l ∷ []
unfolding split_lines
split_line [] h = refl
split_line (c ∷ l) h = ground (arith, split_line l h.1)

pub split_first :
    (l rest : Bytes) → NoBreak l → split_lines (l ++ (b'\n' ∷ rest)) ≡ l ∷ split_lines rest
unfolding split_lines
split_first [] rest h = refl
split_first (c ∷ l) rest h = ground (arith, split_first l rest h.1)

pub split_lines-between_lf :
    (l : Bytes) (ls : List Bytes) → All IsLine (l ∷ ls) → split_lines (between_lf (l ∷ ls)) ≡ l ∷ ls
split_lines-between_lf l [] h = split_line l h.0.whole
split_lines-between_lf l (m ∷ ls) h =
    split_first l (between_lf (m ∷ ls)) h.0.whole
    ∙ ap (λ r. l ∷ r) (split_lines-between_lf m ls h.1)

tight_line : (l : Bytes) → NoBreak l → tight l ≡ true
tight_line [] h = refl
tight_line (c ∷ []) h = ground arith
tight_line (c ∷ d ∷ l) h = ground (arith, tight_line (d ∷ l) h.1)

-- The first byte is not LF.
abbrev opens : Bytes → Bool
opens [] = false
opens (c ∷ s) = not (c == b'\n')

tight-append :
    (l rest : Bytes)
    → is_nil l ≡ false
    → NoBreak l
    → opens rest ≡ true
    → tight rest ≡ true
    → tight (l ++ (b'\n' ∷ rest)) ≡ true
tight-append [] rest n h o t = ground arith
tight-append (x ∷ []) [] n h o t = ground arith
tight-append (x ∷ []) (c ∷ rest) n h o t = ground arith
tight-append (x ∷ y ∷ l) rest n h o t = ground (arith, tight-append (y ∷ l) rest refl h.1 o t)

opens-line : (l rest : Bytes) → is_nil l ≡ false → NoBreak l → opens (l ++ rest) ≡ true
opens-line [] rest n h = ground arith
opens-line (c ∷ l) rest n h = ground arith

opens-between_lf : (l : Bytes) (ls : List Bytes) → IsLine l → opens (between_lf (l ∷ ls)) ≡ true
opens-between_lf l [] h = ap opens (sym (append-nil l)) ∙ opens-line l [] h.filled h.whole
opens-between_lf l (m ∷ ls) h = opens-line l (b'\n' ∷ between_lf (m ∷ ls)) h.filled h.whole

pub tight-between_lf :
    (l : Bytes) (ls : List Bytes) → All IsLine (l ∷ ls) → tight (between_lf (l ∷ ls)) ≡ true
tight-between_lf l [] h = tight_line l h.0.whole
tight-between_lf l (m ∷ ls) h =
    tight-append l (between_lf (m ∷ ls)) h.0.filled h.0.whole (opens-between_lf m ls h.1.0)
      (tight-between_lf m ls h.1)

abbrev pub NoCr : Bytes → Type 0
NoCr = All (λ c. c ≢ b'\r')

NoBreak-NoCr : (l : Bytes) → NoBreak l → NoCr l
NoBreak-NoCr [] h = tt
NoBreak-NoCr (c ∷ l) h = ground (arith, NoBreak-NoCr l h.1)

pub between_lf-NoCr : (ls : List Bytes) → All IsLine ls → NoCr (between_lf ls)
between_lf-NoCr [] h = tt
between_lf-NoCr (l ∷ []) h = NoBreak-NoCr l h.0.whole
between_lf-NoCr (l ∷ m ∷ ls) h =
    let next : NoCr (b'\n' ∷ between_lf (m ∷ ls)) = ground (arith, between_lf-NoCr (m ∷ ls) h.1) in
    All-append (λ c. c ≢ b'\r') l (b'\n' ∷ between_lf (m ∷ ls)) (NoBreak-NoCr l h.0.whole) next

trim_reversed : (l t : Bytes) → reverse l ≡ t → NoBreak t → trim_suffix l (b'\r' ∷ []) ≡ l
unfolding trim_suffix drop_prefix
trim_reversed l [] e h = rw (e, trim_suffix)
trim_reversed l (c ∷ t) e h = rw (e, trim_suffix) (ground arith)

pub trim_line : (l : Bytes) → NoBreak l → trim_suffix l (b'\r' ∷ []) ≡ l
trim_line l h =
    trim_reversed l (reverse l) refl (All-reverse_aux (λ c. is_break c ≡ false) l [] h tt)
