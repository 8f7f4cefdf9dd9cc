-- ===== src/Text/Search.antt =====
-- `strings.IndexAny`, `strings.IndexByte` and `strings.Cut` by the parts that they split a text into.
use smtp_gateway.Base.{
  ℕ, Bool, Option, none, some, [], ◌∷◌, ◌++◌, ◌≡◌, ◌≢◌, arith, ◌==◌, if◌then◌else◌, Bytes, All,
}

-- The text before the first byte that passes the test, and the text from there on.
unfoldable pub break_at : (ℕ → Bool) → Bytes → Bytes × Bytes
break_at p [] = ([], [])
break_at p (c ∷ s) =
    let (before, after) = break_at p s in if p c then ([], c ∷ s) else (c ∷ before, after)

abbrev pub tail : Bytes → Bytes
tail [] = []
tail (c ∷ s) = s

-- The text on both sides of the first separator, as `IndexByte` finds it; `none` for -1.
unfoldable pub cut_byte : ℕ → Bytes → Option (Bytes × Bytes)
cut_byte sep [] = none
cut_byte sep (c ∷ s) =
    let later = cut_byte sep s in
    if c == sep then some ([], s) else elim later [ none ↦ none | some (a, b) ↦ some (c ∷ a, b) ]

pub cut_byte-append :
    (sep : ℕ) (a b : Bytes) → All (λ c. c ≢ sep) a → cut_byte sep (a ++ sep ∷ b) ≡ some (a, b)
unfolding cut_byte
cut_byte-append sep [] b h = ground arith
cut_byte-append sep (c ∷ a) b h = ground (arith, cut_byte-append sep a b h.1)

pub cut_byte_sound :
    (sep : ℕ) (s a b : Bytes)
    → cut_byte sep s ≡ some (a, b)
    → (s ≡ a ++ sep ∷ b) × All (λ c. c ≢ sep) a
unfolding cut_byte
cut_byte_sound sep [] a b h = cc
cut_byte_sound sep (c ∷ s) [] b h = ground arith
cut_byte_sound sep (c ∷ s) (x ∷ a) b h = ground (arith, cut_byte_sound sep s a b)
