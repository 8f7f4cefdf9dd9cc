-- ===== src/Text/Space.antt =====
-- `strings.TrimSpace` and `strings.Fields`. White space is that of `unicode.IsSpace`: six ASCII
-- bytes, and U+0085, U+00A0, U+1680, U+2000 to U+200A, U+2028, U+2029, U+202F, U+205F and U+3000 in
-- UTF-8. The first byte of each of these is no continuation byte, so they are found bytewise.
pub mod Tight
use smtp_gateway.Base.{
  ℕ, zero, suc, Bool, true, false, ◌&&◌, ◌||◌, not, List, [], ◌∷◌, ◌++◌, ◌≡◌, refl, reverse, arith,
  leb, ◌==◌, if◌then◌else◌, Bytes, codes,
}

-- '\t', '\n', '\v', '\f', '\r' and ' '.
unfoldable pub is_ascii_space : ℕ → Bool
is_ascii_space c = (leb 9 c && leb c 13) || c == b' '

-- Behind 0xE2 stand two bytes of a space.
unfoldable pub is_general_space : ℕ → ℕ → Bool
is_general_space b c =
    (b == 0x80 && ((leb 0x80 c && leb c 0x8A) || c == 0xA8 || c == 0xA9 || c == 0xAF))
    || (b == 0x81 && c == 0x9F)

two_byte_space : ℕ → ℕ → Bool
two_byte_space a b = a == 0xC2 && (b == 0x85 || b == 0xA0)

three_byte_space : ℕ → ℕ → ℕ → Bool
unfolding is_general_space
three_byte_space a b c =
    (a == 0xE1 && b == 0x9A && c == 0x80)
    || (a == 0xE2 && is_general_space b c)
    || (a == 0xE3 && b == 0x80 && c == 0x80)

-- The length of the white space character at the head of the text, or 0.
unfoldable pub space_width : Bytes → ℕ
unfolding is_ascii_space two_byte_space three_byte_space
space_width [] = 0
space_width (a ∷ []) = if is_ascii_space a then 1 else 0
space_width (a ∷ b ∷ []) = if is_ascii_space a then 1 else if two_byte_space a b then 2 else 0
space_width (a ∷ b ∷ c ∷ s) =
    if is_ascii_space a
    then 1
    else if two_byte_space a b
    then 2
    else if three_byte_space a b c
    then 3
    else 0

-- The same for the character at the end, on the reversed text.
unfoldable pub last_space_width : Bytes → ℕ
unfolding is_ascii_space two_byte_space three_byte_space
last_space_width [] = 0
last_space_width (a ∷ []) = if is_ascii_space a then 1 else 0
last_space_width (b ∷ a ∷ []) = if is_ascii_space b then 1 else if two_byte_space a b then 2 else 0
last_space_width (c ∷ b ∷ a ∷ s) =
    if is_ascii_space c
    then 1
    else if two_byte_space b c
    then 2
    else if three_byte_space a b c
    then 3
    else 0

-- Drops `skip` bytes, and then every character of white space, as `width` measures it.
unfoldable pub trim_left : (Bytes → ℕ) → ℕ → Bytes → Bytes
trim_left width skip [] = []
trim_left width (suc skip) (c ∷ s) = trim_left width skip s
trim_left width zero (c ∷ s) = elim (width (c ∷ s)) [ zero ↦ c ∷ s | suc k ↦ trim_left width k s ]

unfoldable pub trim_space : Bytes → Bytes
unfolding trim_left space_width last_space_width
trim_space s = reverse (trim_left last_space_width 0 (reverse (trim_left space_width 0 s)))

-- The fields of what follows, where `word` is the field that is open, reversed.
abbrev close_field : Bytes → List Bytes → List Bytes
close_field [] fs = fs
close_field (c ∷ word) fs = reverse (c ∷ word) ∷ fs

unfoldable pub fields_from : ℕ → Bytes → Bytes → List Bytes
unfolding space_width
fields_from skip word [] = close_field word []
fields_from (suc skip) word (c ∷ s) = fields_from skip word s
fields_from zero word (c ∷ s) = elim (space_width (c ∷ s)) [
  | zero ↦ fields_from 0 (c ∷ word) s
  | suc k ↦ close_field word (fields_from k [] s)
]

-- `strings.Fields`
unfoldable pub fields : Bytes → List Bytes
unfolding fields_from
fields s = fields_from 0 [] s

trim_space_example : trim_space (codes " \t FROM:<a> \r\n") ≡ codes "FROM:<a>"
unfolding trim_space
trim_space_example = refl

fields_example : fields (codes " 10  LAST ") ≡ codes "10" ∷ codes "LAST" ∷ []
unfolding fields
fields_example = refl

-- U+3000 at both ends
wide_space : trim_space (0xE3 ∷ 0x80 ∷ 0x80 ∷ b'x' ∷ 0xE3 ∷ 0x80 ∷ 0x80 ∷ []) ≡ b'x' ∷ []
unfolding trim_space
wide_space = refl
