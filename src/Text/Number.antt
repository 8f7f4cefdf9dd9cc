-- ===== src/Text/Number.antt =====
-- `strconv.ParseInt(s, 10, 64)` and `strconv.Atoi`, which agree on a 64-bit platform.
use smtp_gateway.Base.{
  ℕ, ◌+◌, ◌*◌, ◌-◌, ◌^◌, ◌<◌, Bool, ◌&&◌, Option, none, some, [], ◌∷◌, ◌≡◌, refl, arith, ltb, leb,
  ◌==◌, if◌then◌else◌, Bytes, codes,
}
use smtp_gateway.Base.Int.{ℤ, pos, negsuc}

unfoldable pub is_digit : ℕ → Bool
is_digit c = leb b'0' c && leb c b'9'

-- The number that the digits spell behind `n`.
unfoldable pub digits : ℕ → Bytes → Option ℕ
unfolding is_digit
digits n [] = some n
digits n (c ∷ s) = let rest = digits (n * 10 + (c - b'0')) s in if is_digit c then rest else none

-- At least one digit.
unfoldable pub unsigned : Bytes → Option ℕ
unfolding digits
unsigned [] = none
unsigned (c ∷ s) = digits 0 (c ∷ s)

-- The range of a positive and of a negative `int64`.
abbrev as_pos : Option ℕ → Option ℤ
as_pos none = none
as_pos (some n) = if ltb n (2 ^ 63) then some (pos n) else none

abbrev as_neg : Option ℕ → Option ℤ
as_neg none = none
as_neg (some n) =
    if n == 0 then some (pos 0) else if leb n (2 ^ 63) then some (negsuc (n - 1)) else none

unfoldable pub parse_int : Bytes → Option ℤ
unfolding unsigned
parse_int [] = none
parse_int (c ∷ s) =
    if c == b'-'
    then as_neg (unsigned s)
    else if c == b'+'
    then as_pos (unsigned s)
    else as_pos (unsigned (c ∷ s))

-- A number that `strconv.ParseInt` accepts, if it is not negative, is below 2^63.
pub parse_int-lt : (s : Bytes) (n : ℕ) → parse_int s ≡ some (pos n) → n < 2 ^ 63
unfolding parse_int
parse_int-lt [] n h = cc
parse_int-lt (c ∷ s) n h = ground arith

numbers :
    (parse_int (codes "1024") ≡ some (pos 1024))
    × (parse_int (codes "-1") ≡ some (negsuc 0))
    × (parse_int (codes "9223372036854775808") ≡ none)
    × (parse_int (codes "1k") ≡ none)
unfolding parse_int
numbers = (refl, refl, refl, refl)
