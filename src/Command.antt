-- ===== src/Command.antt =====
-- The parsers and the character tests of smtp.go. `unicode_upper` stands for the Unicode case
-- tables behind `strings.ToUpper`.
pub mod Address
use smtp_gateway.Base.{
  ℕ, ◌+◌, ◌≤◌, Bool, true, false, ◌&&◌, ◌||◌, not, Option, none, some, List, [], ◌∷◌, ◌++◌, any,
  drop, is_nil, length, take, ltb, leb, ◌==◌, if◌then◌else◌, Bytes, codes, equal,
}
use smtp_gateway.Base.Int.{ℤ, pos, negsuc}
use smtp_gateway.Text.Space.{trim_space, fields}
use smtp_gateway.Text.Case.{to_upper, equal_fold}
use smtp_gateway.Text.Search.{break_at, cut_byte, tail}
use smtp_gateway.Text.Number.{parse_int}

-- `containsControl`: a control character other than the tab.
unfoldable pub is_control : ℕ → Bool
is_control c = (ltb c 0x20 && not (c == b'\t')) || c == 0x7F

unfoldable pub contains_control : Bytes → Bool
unfolding is_control
contains_control = any is_control

-- `contains8Bit`
unfoldable pub contains_8bit : Bytes → Bool
contains_8bit = any (λ c. ltb 127 c)

-- `validateHeloDomain`; the tab is refused here.
unfoldable pub validate_helo_domain : Bytes → Bool
validate_helo_domain domain =
    if ltb 255 (length domain) then false else not (any (λ c. ltb c 0x20 || c == 0x7F) domain)

abbrev pub is_blank : ℕ → Bool
is_blank c = c == b' ' || c == b'\t'

-- `params`, a map with one value for each key.
abbrev pub Params : Type 0
Params = List (Bytes × Bytes)

unfoldable pub get_param : Bytes → Params → Option Bytes
unfolding equal
get_param k [] = none
get_param k ((j, v) ∷ ps) = if equal j k then some v else get_param k ps

unfoldable pub set_param : Bytes → Bytes → Params → Params
unfolding equal
set_param k v [] = (k, v) ∷ []
set_param k v ((j, w) ∷ ps) = if equal j k then (k, v) ∷ ps else (j, w) ∷ set_param k v ps

-- The path between `<` and `>`, and what follows it.
unfoldable pub bracketed : Bytes → Option (Bytes × Bytes)
unfolding cut_byte
bracketed [] = none
bracketed (c ∷ s) = if c == b'<' then cut_byte b'>' s else none

-- `parseRcptTo` behind the keyword.
unfoldable pub rcpt_path : Bytes → Bytes
unfolding cut_byte
rcpt_path [] = []
rcpt_path (c ∷ s) =
    if c == b'<' then (elim (cut_byte b'>' s) [ none ↦ s | some (path, _) ↦ path ]) else c ∷ s

-- `parseRcptTo`
unfoldable pub parse_rcpt_to : Bytes → Bytes
unfolding rcpt_path trim_space equal_fold
parse_rcpt_to args =
    let rest = trim_space args in
    if ltb (length rest) 3 || not (equal_fold (take 3 rest) (codes "TO:"))
    then rest
    else rcpt_path (trim_space (drop 3 rest))

module _ (unicode_upper : Bytes → Bytes) where
  -- `splitVerb`, and so `parseSMTPCommand`
  unfoldable pub split_verb : Bytes → Bytes × Bytes
  unfolding trim_space break_at to_upper
  split_verb text =
      let line = trim_space text in
      let (before, after) = break_at is_blank line in
      if is_nil after
      then (to_upper unicode_upper line, [])
      else (to_upper unicode_upper before, trim_space after)

  -- One `key=value` or bare keyword behind the path.
  unfoldable pub add_param : Params → Bytes → Params
  unfolding set_param cut_byte to_upper
  add_param ps part = elim (cut_byte b'=' part) [
    | none ↦ set_param (to_upper unicode_upper part) [] ps
    | some (k, v) ↦ set_param (to_upper unicode_upper k) v ps
  ]

  unfoldable pub add_params : Params → List Bytes → Params
  unfolding add_param
  add_params ps [] = ps
  add_params ps (part ∷ parts) = add_params (add_param ps part) parts

  -- `parseMailFrom` from the path on.
  unfoldable pub mail_from_path : Option (Bytes × Bytes) → Option (Bytes × Params)
  unfolding contains_control trim_space fields add_params
  mail_from_path none = none
  mail_from_path (some (path, rest)) =
      if ltb 320 (length path) || contains_control path
      then none
      else some (path, add_params [] (fields (trim_space rest)))

  -- `parseMailFrom`; `none` is `ErrBadSyntax`.
  unfoldable pub parse_mail_from : Bytes → Option (Bytes × Params)
  unfolding mail_from_path bracketed trim_space equal_fold
  parse_mail_from args =
      let rest = trim_space args in
      if ltb (length rest) 5 || not (equal_fold (take 5 rest) (codes "FROM:"))
      then none
      else mail_from_path (bracketed (trim_space (drop 5 rest)))

  -- The second field of BDAT.
  abbrev is_last : Bytes → Bool
  is_last f = equal (to_upper unicode_upper f) (codes "LAST")

  abbrev bdat_size : Option ℤ → Bool → Option (ℕ × Bool)
  bdat_size (some (pos n)) last = some (n, last)
  bdat_size (some (negsuc n)) last = none
  bdat_size none last = none

  -- `parseBdatArgs`; `none` is `ErrBadSyntax`.
  unfoldable pub bdat_fields : List Bytes → Option (ℕ × Bool)
  unfolding parse_int to_upper equal
  bdat_fields (n ∷ []) = bdat_size (parse_int n) false
  bdat_fields (n ∷ f ∷ []) = if is_last f then bdat_size (parse_int n) true else none
  bdat_fields _ = none

  unfoldable pub parse_bdat_args : Bytes → Option (ℕ × Bool)
  unfolding bdat_fields fields
  parse_bdat_args args = bdat_fields (fields args)
