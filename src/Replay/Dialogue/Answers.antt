-- ===== src/Replay/Dialogue/Answers.antt =====
-- What a success of `expect` of cmd/postcat-replay/main.go says of the answers of the server.
use mathlib.Core.Path.{subst}
use smtp_gateway.Base.{
  ℕ, zero, suc, ◌≡◌, refl, sym, ap, ◌∙◌, Bool, true, false, not, Bool-cases, inl, inr, Option, none,
  some, List, [], ◌∷◌, ◌++◌, append-nil, joined, length, leb, ◌==◌, if◌then◌else◌, Bytes, arith,
}
use smtp_gateway.Base.Int.{ℤ, pos, negsuc, ltb_ℤ}
use smtp_gateway.Wire.{Stream, byte, fault, bytes}
use smtp_gateway.Wire.Line.{bytes-append}
use smtp_gateway.Replay.Dialogue.{
  ReadString, got, ended, behind, read_string, trim_breaks, scan_int, Cause, same_code, ends_reply,
  judge, consider, expect_loop, expect, Failure, Link, Talk, ◌then◌, transmit, say, staged, hear,
}

-- One answer with the code: lines that all begin with it, of which only the last has a space behind.
abbrev pub Answered : ℕ → List Bytes → Type 0
Answered want [] = ⊥
Answered want (l ∷ []) =
    (scan_int (trim_breaks l) ≡ some (pos want)) × (ends_reply (trim_breaks l) ≡ true)
Answered want (l ∷ m ∷ ls) =
    (scan_int (trim_breaks l) ≡ some (pos want))
    × (ends_reply (trim_breaks l) ≡ false)
    × Answered want (m ∷ ls)

-- The stream begins with answers with these codes, and the second stream is what is behind them.
abbrev pub Answers : List ℕ → Stream → Stream → Type 0
Answers [] s s' = s ≡ s'
Answers (w ∷ ws) s s' =
    (ls : List Bytes) × (t : Stream) × Answered w ls × (s ≡ bytes (joined ls) t) × Answers ws t s'

pub Answers-append :
    (ws vs : List ℕ) (s t u : Stream) → Answers ws s t → Answers vs t u → Answers (ws ++ vs) s u
Answers-append [] vs s t u a b = rw a b
Answers-append (w ∷ ws) vs s t u (ls, s', h, e, a) b =
    (ls, s', h, e, Answers-append ws vs s' t u a b)

abbrev Read : Stream → ReadString × Stream → Type 0
Read s (got l, t) = s ≡ bytes l t
Read s (ended e, t) = Unit

behind-Read :
    (b : ℕ) (s : Stream) (r : ReadString × Stream) → Read s r → Read (byte b ∷ s) (behind b r)
behind-Read b s (got l, t) h = ap (λ x. byte b ∷ x) h
behind-Read b s (ended e, t) h = tt

read_string-Read : (s : Stream) → Read s (read_string s)
unfolding read_string
read_string-Read [] = tt
read_string-Read (fault e ∷ s) = tt
read_string-Read (byte b ∷ s) = elim (Bool-cases (b == b'\n')) [
  | inl q ↦ rw (q, read_string) refl
  | inr q ↦ rw (q, read_string) (behind-Read b s (read_string s) (read_string-Read s))
]

-- An answer with the code stands at the head of the stream, if there is no error.
abbrev Found : ℕ → Stream → Option Cause × Stream → Type 0
Found want s (none, t) = (ls : List Bytes) × Answered want ls × (s ≡ bytes (joined ls) t)
Found want s (some e, t) = Unit

same_code_sound : (code : ℤ) (want : ℕ) → same_code code want ≡ true → code ≡ pos want
same_code_sound (pos n) want h = ground arith
same_code_sound (negsuc n) want h = cc

first_line :
    (want : ℕ) (l : Bytes) (s t : Stream) (r : Option Cause × Stream)
    → s ≡ bytes l t
    → scan_int (trim_breaks l) ≡ some (pos want)
    → ends_reply (trim_breaks l) ≡ false
    → Found want t r
    → Found want s r
first_line want l s t (none, u) e c n ([], a, h) = absurd a
first_line want l s t (none, u) e c n (m ∷ ls, a, h) =
    (l ∷ m ∷ ls, (c, n, a), e ∙ ap (bytes l) h ∙ sym (bytes-append l (joined (m ∷ ls)) u))
first_line want l s t (some x, u) e c n h = tt

if-Found :
    (want : ℕ) (s : Stream) (b : Bool) (x y : Option Cause × Stream)
    → (b ≡ true → Found want s x)
    → (b ≡ false → Found want s y)
    → Found want s (if b then x else y)
if-Found want s true x y h k = h refl
if-Found want s false x y h k = k refl

judge-Found :
    (want : ℕ) (l : Bytes) (s t : Stream) (rest : Option Cause × Stream) (o : Option ℤ)
    → s ≡ bytes l t
    → scan_int (trim_breaks l) ≡ o
    → Found want t rest
    → Found want s (judge want (trim_breaks l) t rest o)
unfolding judge
judge-Found want l s t rest none e q h = tt
judge-Found want l s t rest (some code) e q h =
    if-Found want s (ltb_ℤ code (pos 200)) _ _ (λ a. tt)
      (λ a.
        if-Found want s (not (same_code code want)) _ _ (λ b. tt)
          (λ b.
            let c : scan_int (trim_breaks l) ≡ some (pos want) =
              q ∙ ap some (same_code_sound code want (ground arith)) in
            if-Found want s (ends_reply (trim_breaks l)) _ _
              (λ d. (l ∷ [], (c, d), e ∙ ap (λ x. bytes x t) (sym (append-nil l))))
              (λ d. first_line want l s t rest e c d h)))

consider-Found :
    (want : ℕ) (s : Stream) (rest : Option Cause × Stream) (r : ReadString × Stream)
    → Read s r
    → Found want r.1 rest
    → Found want s (consider want rest r)
unfolding consider
consider-Found want s rest (ended e, t) h k = tt
consider-Found want s rest (got l, t) h k =
    judge-Found want l s t rest (scan_int (trim_breaks l)) h refl k

expect_loop-Found : (fuel want : ℕ) (s : Stream) → Found want s (expect_loop fuel want s)
unfolding expect_loop
expect_loop-Found zero want s = tt
expect_loop-Found (suc fuel) want s =
    consider-Found want s (expect_loop fuel want (read_string s).1) (read_string s)
      (read_string-Read s) (expect_loop-Found fuel want (read_string s).1)

-- A step that succeeds has had such answers.
abbrev pub Heard : List ℕ → Stream → Option Failure × Link → Type 0
Heard ws s (none, c) = Answers ws s c.incoming
Heard ws s (some e, c) = Unit

staged-Heard :
    (want : ℕ) (s : Stream) (stage : Cause → Failure) (c : Link) (r : Option Cause × Stream)
    → Found want s r
    → Heard (want ∷ []) s (staged stage r.0, record c { incoming = r.1 })
staged-Heard want s stage c (none, t) (ls, h, e) = (ls, t, h, e, refl)
staged-Heard want s stage c (some e, t) h = tt

pub hear-Heard :
    (stage : Cause → Failure) (want : ℕ) (c : Link)
    → Heard (want ∷ []) c.incoming (hear stage want c)
unfolding hear expect
hear-Heard stage want c =
    staged-Heard want c.incoming stage c (expect want c.incoming)
      (expect_loop-Found (suc (length c.incoming)) want c.incoming)

-- Nothing is read in a write.
pub say-Heard :
    (stage : Cause → Failure) (text : Bytes) (c : Link) → Heard [] c.incoming (say stage text c)
unfolding say transmit
say-Heard stage text c = elim (Bool-cases (leb (length text) c.budget)) [
  | inl q ↦ rw q refl
  | inr q ↦ rw q tt
]

pub then-Heard :
    (ws vs : List ℕ) (s : Stream) (r : Option Failure × Link) (f : Talk)
    → Heard ws s r
    → ((c : Link) → Heard vs c.incoming (f c))
    → Heard (ws ++ vs) s (r then f)
then-Heard ws vs s (some e, c) f h g = tt
then-Heard ws vs s (none, c) f h g = behind_answers (f c) (g c)
  where
    behind_answers : (r : Option Failure × Link) → Heard vs c.incoming r → Heard (ws ++ vs) s r
    behind_answers (none, d) k = Answers-append ws vs s c.incoming d.incoming h k
    behind_answers (some e, d) k = tt

pub hear_next :
    (ws : List ℕ) (s : Stream) (stage : Cause → Failure) (want : ℕ) (r : Option Failure × Link)
    → Heard ws s r
    → Heard (ws ++ want ∷ []) s (r then hear stage want)
hear_next ws s stage want r h =
    then-Heard ws (want ∷ []) s r (hear stage want) h (hear-Heard stage want)

pub quiet_next :
    (ws : List ℕ) (s : Stream) (r : Option Failure × Link) (f : Talk)
    → ((c : Link) → Heard [] c.incoming (f c))
    → Heard ws s r
    → Heard ws s (r then f)
quiet_next ws s r f g h =
    subst (λ (vs : List ℕ). Heard vs s (r then f)) (append-nil ws) (then-Heard ws [] s r f h g)
