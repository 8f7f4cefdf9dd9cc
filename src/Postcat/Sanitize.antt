-- ===== src/Postcat/Sanitize.antt =====
-- The bytes that `sanitizeAddr` of internal/postcat/postcat.go lets through.
use smtp_gateway.Base.{
  ℕ, zero, suc, ◌≡◌, refl, true, false, Option, none, some, [], ◌∷◌, ◌++◌, All, All-append, any,
  take, arith, Bytes, Bool-cases, Option-cases, inl, inr, if◌then◌else◌,
}
use smtp_gateway.Postcat.{
  is_break, second, further, rune_rest, replacement, map_runes, sanitize_addr,
}

abbrev pub NoBreak : Bytes → Type 0
NoBreak = All (λ c. is_break c ≡ false)

further-NoBreak : (n : ℕ) (s : Bytes) → further n s ≡ true → NoBreak (take n s)
further-NoBreak zero s h = tt
further-NoBreak (suc n) [] h = tt
further-NoBreak (suc n) (c ∷ s) h = ground (arith, further-NoBreak n s)

second-unbroken : (c d : ℕ) → second c d ≡ true → is_break d ≡ false
second-unbroken c d h = ground arith

rune_rest-NoBreak : (c : ℕ) (s : Bytes) (k : ℕ) → rune_rest c s ≡ some k → NoBreak (take k s)
unfolding rune_rest
rune_rest-NoBreak c [] k e = ground arith
rune_rest-NoBreak c (d ∷ s) k e =
    ground
      (arith, second-unbroken c d, further-NoBreak 0 s, further-NoBreak 1 s, further-NoBreak 2 s)

-- The first step of a rune, with the result for what follows it.
step-NoBreak :
    (c : ℕ) (n : Option ℕ) (rest : Bytes)
    → NoBreak rest
    → NoBreak
        (if is_break c then rest else elim n [ none ↦ replacement ++ rest | some k ↦ c ∷ rest ])
step-NoBreak c none rest h = elim (Bool-cases (is_break c)) [
  | inl b ↦ rw b h
  | inr b ↦
      rw b (All-append (λ x. is_break x ≡ false) replacement rest (refl, (refl, (refl, tt))) h)
]
step-NoBreak c (some k) rest h = elim (Bool-cases (is_break c)) [
  | inl b ↦ rw b h
  | inr b ↦ rw b (b, h)
]

map_runes-NoBreak : (k : ℕ) (s : Bytes) → NoBreak (take k s) → NoBreak (map_runes k s)
unfolding map_runes
map_runes-NoBreak zero [] h = tt
map_runes-NoBreak (suc k) [] h = tt
map_runes-NoBreak (suc k) (c ∷ s) h = (h.0, map_runes-NoBreak k s h.1)
map_runes-NoBreak zero (c ∷ s) h =
    step-NoBreak c (rune_rest c s) _ (elim (Option-cases (rune_rest c s)) [
      | inl e ↦ rw e (map_runes-NoBreak 0 s tt)
      | inr (k, e) ↦ rw e (map_runes-NoBreak k s (rune_rest-NoBreak c s k e))
    ])

any-NoBreak : (s : Bytes) → any is_break s ≡ false → NoBreak s
any-NoBreak [] h = tt
any-NoBreak (c ∷ s) h = ground (arith, any-NoBreak s)

-- A sanitized address holds neither CR nor LF, whatever bytes it is made from.
pub sanitize_addr-NoBreak : (a : Bytes) → NoBreak (sanitize_addr a)
unfolding sanitize_addr
sanitize_addr-NoBreak a = elim (Bool-cases (any is_break a)) [
  | inl b ↦ rw b (map_runes-NoBreak 0 a tt)
  | inr b ↦ rw b (any-NoBreak a b)
]
