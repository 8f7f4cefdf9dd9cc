-- ===== src/Text/Case.antt =====
-- `strings.ToUpper`, and `strings.EqualFold` against an ASCII literal.
use smtp_gateway.Base.{
  ℕ, ◌-◌, Bool, true, ◌&&◌, map, ◌≡◌, refl, all, ltb, leb, if◌then◌else◌, Bytes, codes, equal,
}

unfoldable pub upper : ℕ → ℕ
upper c = if leb b'a' c && leb c b'z' then c - 32 else c

abbrev pub is_ascii : Bytes → Bool
is_ascii = all (λ c. ltb c 128)

-- `unicode_upper` stands for the Unicode case tables, which `ToUpper` asks only if the text is not
-- ASCII.
unfoldable pub to_upper : (Bytes → Bytes) → Bytes → Bytes
unfolding upper
to_upper unicode_upper s = if is_ascii s then map upper s else unicode_upper s

-- `EqualFold(s, literal)` for a literal of ASCII letters other than K and S, digits and signs: no
-- other character folds to one of these.
unfoldable pub equal_fold : Bytes → Bytes → Bool
unfolding upper equal
equal_fold s literal = equal (map upper s) (map upper literal)

fold_example : equal_fold (codes "from:") (codes "FROM:") ≡ true
unfolding equal_fold
fold_example = refl
