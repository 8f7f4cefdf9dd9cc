-- ===== src/Postcat.antt =====
-- internal/postcat/postcat.go: the text of a stored message, and its parser. The clock's type, its
-- RFC 3339 text and the parser of that text belong to Go's package time: they are parameters.
-- The file that `Parse` reads is its argument; `Files` has the file operations of `Write`.
pub mod Sanitize
pub mod Lines
pub mod RoundTrip
pub mod Files
use smtp_gateway.Base.{
  ℕ, zero, suc, ◌+◌, ◌-◌, Bool, true, false, ◌&&◌, ◌||◌, Option, none, some, List, [], ◌∷◌, ◌++◌,
  any, drop, take, is_nil, ltb, leb, ◌==◌, if◌then◌else◌, Bytes, codes, equal,
}
use smtp_gateway.Wire.{drop_prefix, trim_suffix}

-- `Message`; no time is Go's zero time.
pub record Message (T : Type 0) : Type 0 where
  pub sender : Bytes
  pub recipients : List Bytes
  pub time : Option T
  pub raw_message : Bytes

-- `FormatNullSender`
unfoldable pub format_null_sender : Bytes → Bytes
unfolding equal
format_null_sender s = if is_nil s || equal s (codes "<>") then codes "<>" else s

abbrev pub is_break : ℕ → Bool
is_break c = c == b'\n' || c == b'\r'

abbrev pub between : ℕ → ℕ → ℕ → Bool
between low high c = leb low c && leb c high

-- Whether the second byte of a rune of several bytes may follow the first.
abbrev pub second : ℕ → ℕ → Bool
second c d =
    if c == 0xE0
    then between 0xA0 0xBF d
    else if c == 0xED
    then between 0x80 0x9F d
    else if c == 0xF0
    then between 0x90 0xBF d
    else if c == 0xF4
    then between 0x80 0x8F d
    else between 0x80 0xBF d

abbrev pub further : ℕ → Bytes → Bool
further zero s = true
further (suc n) [] = false
further (suc n) (c ∷ s) = between 0x80 0xBF c && further n s

-- How many bytes belong to the rune behind its first byte `c`; `none` if the UTF-8 is not valid.
unfoldable pub rune_rest : ℕ → Bytes → Option ℕ
rune_rest c [] = if ltb c 0x80 then some 0 else none
rune_rest c (d ∷ s) =
    if ltb c 0x80
    then some 0
    else if not_start c
    then none
    else if second c d && further (more c) s
    then some (suc (more c))
    else none
  where
    not_start : ℕ → Bool
    not_start x = ltb x 0xC2 || ltb 0xF4 x

    -- the bytes behind the second
    more : ℕ → ℕ
    more x = if ltb x 0xE0 then 0 else if ltb x 0xF0 then 1 else 2

-- U+FFFD, which `strings.Map` writes for a byte that is no rune.
abbrev pub replacement : Bytes
replacement = 0xEF ∷ 0xBF ∷ 0xBD ∷ []

-- The loop of `strings.Map`, in which `k` bytes of the current rune are still to be copied.
unfoldable pub map_runes : ℕ → Bytes → Bytes
unfolding rune_rest
map_runes k [] = []
map_runes (suc k) (c ∷ s) = c ∷ map_runes k s
map_runes zero (c ∷ s) =
    let n = rune_rest c s in
    let rest = map_runes (elim n [ none ↦ 0 | some k ↦ k ]) s in
    if is_break c then rest else elim n [ none ↦ replacement ++ rest | some k ↦ c ∷ rest ]

-- `sanitizeAddr`
unfoldable pub sanitize_addr : Bytes → Bytes
unfolding map_runes
sanitize_addr a = if any is_break a then map_runes 0 a else a

-- `bytes.Index`
unfoldable pub index : Bytes → Bytes → Option ℕ
unfolding drop_prefix
index p [] = none
index p (c ∷ s) =
    let later = index p s in
    elim (drop_prefix p (c ∷ s)) [
      | some t ↦ some 0
      | none ↦ elim later [ none ↦ none | some i ↦ some (suc i) ]
    ]

abbrev pub two_lf : Bytes
two_lf = b'\n' ∷ b'\n' ∷ []

abbrev pub two_crlf : Bytes
two_crlf = b'\r' ∷ b'\n' ∷ b'\r' ∷ b'\n' ∷ []

-- The separator and its length, from the places of the two.
abbrev pub earliest : Option ℕ → Option ℕ → Option (ℕ × ℕ)
earliest none none = none
earliest none (some c) = some (c, 4)
earliest (some l) none = some (l, 2)
earliest (some l) (some c) = if ltb l c then some (l, 2) else some (c, 4)

-- `findBlankLine`; `none` for -1.
unfoldable pub find_blank_line : Bytes → Option (ℕ × ℕ)
unfolding index
find_blank_line b = earliest (index two_lf b) (index two_crlf b)

-- `strings.Split` at line feeds.
abbrev pub onto_first : ℕ → List Bytes → List Bytes
onto_first c [] = (c ∷ []) ∷ []
onto_first c (l ∷ ls) = (c ∷ l) ∷ ls

unfoldable pub split_lines : Bytes → List Bytes
split_lines [] = [] ∷ []
split_lines (c ∷ s) =
    let rest = split_lines s in if c == b'\n' then [] ∷ rest else onto_first c rest

module _ {T : Type 0} (format_time : T → Bytes) (parse_time : Bytes → Option T) where
  recipient_records : List Bytes → Bytes
  unfolding sanitize_addr
  recipient_records [] = []
  recipient_records (r ∷ rs) = codes "R " ++ (sanitize_addr r ++ (b'\n' ∷ recipient_records rs))

  -- `writeEnvelope`, to a writer that does not fail
  unfoldable pub write_envelope : Bytes → List Bytes → T → Bytes
  unfolding recipient_records sanitize_addr format_null_sender
  write_envelope mail_from accepted t =
      codes "S "
      ++ (sanitize_addr (format_null_sender mail_from)
          ++ (b'\n'
              ∷ (recipient_records accepted
                  ++ (codes "T " ++ (format_time t ++ (b'\n' ∷ b'\n' ∷ []))))))

  -- `FormatEnvelope`
  unfoldable pub format_envelope : Bytes → List Bytes → T → Bytes → Bytes
  unfolding write_envelope
  format_envelope mail_from accepted t body = write_envelope mail_from accepted t ++ body

  -- One record of `Parse`; `none` is the error of a wrong time.
  unfoldable pub add_record : Message T → Bytes → Option (Message T)
  unfolding drop_prefix
  add_record m line = elim (drop_prefix (codes "S ") line) [
    | some s ↦ some (record m { sender = s })
    | none ↦ elim (drop_prefix (codes "R ") line) [
      | some r ↦ some (record m { recipients = m.recipients ++ r ∷ [] })
      | none ↦ elim (drop_prefix (codes "T ") line) [
        | some t ↦ elim (parse_time t) [ none ↦ none | some x ↦ some (record m { time = some x }) ]
        | none ↦ some m
      ]
    ]
  ]

  unfoldable pub add_records : Message T → List Bytes → Option (Message T)
  add_records m [] = some m
  add_records m (l ∷ ls) = elim (add_record m (trim_suffix l (b'\r' ∷ []))) [
    | none ↦ none
    | some next ↦ add_records next ls
  ]

  abbrev pub empty : Message T
  empty = record { sender = []; recipients = []; time = none; raw_message = [] }

  -- `Parse` of the bytes of the file.
  unfoldable pub parse : Bytes → Option (Message T)
  unfolding find_blank_line split_lines add_records
  parse raw = elim (find_blank_line raw) [
    | none ↦ some empty
    | some (i, n) ↦ elim (add_records empty (split_lines (take i raw))) [
      | none ↦ none
      | some m ↦ some (record m { raw_message = drop (i + n) raw })
    ]
  ]
