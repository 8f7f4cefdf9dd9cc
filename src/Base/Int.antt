-- ===== src/Base/Int.antt =====
-- Go's `int` (64 bits) where the program uses its sign: the integers over the native numbers,
-- and the sum of two non-negative `int`s, which wraps.
use Prim.Native.Nat.{ℕ, suc, ◌+◌, ◌-◌, ◌^◌, ◌≤◌, ◌<◌}
use mathlib.Core.Path.{◌≡◌}
use mathlib.Core.Bool.{Bool, true, false, ◌&&◌}
use native.Mathlib.Omega.{arith}
use smtp_gateway.Base.Tests.{ltb, if◌then◌else◌}

-- `negsuc n` is -(n + 1).
pub data ℤ : Type 0 where
  pos : ℕ → ℤ
  negsuc : ℕ → ℤ

abbrev pub pos_part : ℤ → ℕ
pos_part (pos n) = n
pos_part (negsuc n) = 0

abbrev pub neg_part : ℤ → ℕ
neg_part (pos n) = 0
neg_part (negsuc n) = suc n

abbrev pub ltb_ℤ : ℤ → ℤ → Bool
ltb_ℤ a b = ltb (pos_part a + neg_part b) (pos_part b + neg_part a)

abbrev pub is_positive : ℤ → Bool
is_positive a = ltb_ℤ (pos 0) a

abbrev pub is_negative : ℤ → Bool
is_negative a = ltb_ℤ a (pos 0)

abbrev pub is_zero : ℤ → Bool
is_zero (pos n) = ltb n 1
is_zero (negsuc n) = false

-- `a + b` for `int`s that are not negative.
abbrev pub add_int : ℕ → ℕ → ℤ
add_int a b = let s = a + b in if ltb s (2 ^ 63) then pos s else negsuc (2 ^ 64 - s - 1)

-- `max > 0 && n > max`.
abbrev pub over_limit : ℤ → ℤ → Bool
over_limit max n = is_positive max && ltb_ℤ max n

-- A sum that does not wrap.
pub add_int-pos : (a b : ℕ) → a + b < 2 ^ 63 → add_int a b ≡ pos (a + b)
add_int-pos a b h = ground arith

-- What passes the limit still does when it grows.
pub over_limit_mono :
    (max : ℤ) (a b : ℕ) → a ≤ b → over_limit max (pos a) ≡ true → over_limit max (pos b) ≡ true
over_limit_mono max a b h o = ground arith
