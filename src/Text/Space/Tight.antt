-- ===== src/Text/Space/Tight.antt =====
-- `strings.TrimSpace` on a text that begins and ends with printable ASCII.
use mathlib.Core.List.{reverse-append, reverse-reverse}
use smtp_gateway.Base.{ℕ, ◌≤◌, ◌<◌, ◌≡◌, refl, ap, ◌∙◌, sym, [], ◌∷◌, ◌++◌, reverse, arith, Bytes}
use smtp_gateway.Text.Space.{space_width, last_space_width, trim_left, trim_space}

-- A printable ASCII byte other than the space.
abbrev pub IsSolid : ℕ → Type 0
IsSolid c = (33 ≤ c) × (c < 127)

pub space_width-solid : (c : ℕ) (s : Bytes) → IsSolid c → space_width (c ∷ s) ≡ 0
unfolding space_width
space_width-solid c [] h = ground arith
space_width-solid c (a ∷ []) h = ground arith
space_width-solid c (a ∷ b ∷ s) h = ground arith

pub last_space_width-solid : (c : ℕ) (s : Bytes) → IsSolid c → last_space_width (c ∷ s) ≡ 0
unfolding last_space_width
last_space_width-solid c [] h = ground arith
last_space_width-solid c (a ∷ []) h = ground arith
last_space_width-solid c (a ∷ b ∷ s) h = ground arith

pub trim_left-solid :
    (width : Bytes → ℕ) (c : ℕ) (s : Bytes) → width (c ∷ s) ≡ 0 → trim_left width 0 (c ∷ s) ≡ c ∷ s
unfolding trim_left
trim_left-solid width c s h = rw (h, trim_left)

trim_left-last :
    (l : Bytes) (d : ℕ) (m : Bytes)
    → IsSolid d
    → reverse l ≡ d ∷ m
    → reverse (trim_left last_space_width 0 (reverse l)) ≡ l
trim_left-last l d m h e =
    ap (λ t. reverse (trim_left last_space_width 0 t)) e
    ∙ ap reverse (trim_left-solid last_space_width d m (last_space_width-solid d m h))
    ∙ ap reverse (sym e)
    ∙ reverse-reverse l

-- A text of at least two characters.
pub trim_space_tight :
    (c : ℕ) (s : Bytes) (d : ℕ)
    → IsSolid c
    → IsSolid d
    → trim_space (c ∷ (s ++ d ∷ [])) ≡ c ∷ (s ++ d ∷ [])
unfolding trim_space
trim_space_tight c s d hc hd =
    let text = c ∷ (s ++ d ∷ []) in
    ap (λ t. reverse (trim_left last_space_width 0 (reverse t)))
      (trim_left-solid space_width c (s ++ d ∷ []) (space_width-solid c (s ++ d ∷ []) hc))
    ∙ trim_left-last text d (reverse (c ∷ s)) hd (reverse-append (c ∷ s) (d ∷ []))

-- A text of one character.
pub trim_space_one : (c : ℕ) → IsSolid c → trim_space (c ∷ []) ≡ c ∷ []
unfolding trim_space
trim_space_one c h =
    ap (λ t. reverse (trim_left last_space_width 0 (reverse t)))
      (trim_left-solid space_width c [] (space_width-solid c [] h))
    ∙ trim_left-last (c ∷ []) c [] h refl
