-- ===== src/Command/Address.antt =====
-- The paths of `parseMailFrom` and `parseRcptTo`.
use smtp_gateway.Base.{
  ◌≤◌, ◌≡◌, ◌≢◌, ap, ◌∙◌, false, not, ◌||◌, Option, none, some, [], ◌∷◌, ◌++◌, arith, drop, take,
  length, ltb, Bytes, codes, All, if◌then◌else◌, if-false,
}
use smtp_gateway.Text.Space.{trim_space}
use smtp_gateway.Text.Space.Tight.{trim_space_tight}
use smtp_gateway.Text.Case.{equal_fold}
use smtp_gateway.Text.Search.{cut_byte-append, cut_byte_sound}
use smtp_gateway.Command.{
  contains_control, Params, bracketed, rcpt_path, parse_rcpt_to, mail_from_path, parse_mail_from,
}

-- At most 320 bytes and no control character.
pub record IsPath (p : Bytes) : Type 0 where
  pub short : length p ≤ 320
  pub clean : contains_control p ≡ false

pub empty-IsPath : IsPath []
unfolding contains_control
empty-IsPath = ground arith

-- What the tests of `parseMailFrom` and `handleRcpt` let through.
pub IsPath-of_tests : (p : Bytes) → (ltb 320 (length p) || contains_control p) ≡ false → IsPath p
IsPath-of_tests p h = ground arith

abbrev pub Unbracketed : Bytes → Type 0
Unbracketed = All (λ c. c ≢ b'>')

bracketed_sound :
    (s path rest : Bytes)
    → bracketed s ≡ some (path, rest)
    → (s ≡ b'<' ∷ (path ++ b'>' ∷ rest)) × Unbracketed path
unfolding bracketed
bracketed_sound [] path rest h = cc
bracketed_sound (c ∷ s) path rest h = ground (arith, cut_byte_sound b'>' s path rest)

-- `FROM:` or `TO:` behind the trims, and the path behind it.
bracketed_path :
    (path : Bytes)
    → Unbracketed path
    → bracketed (codes "<" ++ (path ++ codes ">")) ≡ some (path, [])
unfolding bracketed
bracketed_path path u = cut_byte-append b'>' path [] u

from_test :
    (path : Bytes)
    → (let rest = codes "FROM:<" ++ (path ++ codes ">") in
        ltb (length rest) 5 || not (equal_fold (take 5 rest) (codes "FROM:")))
      ≡ false
unfolding equal_fold
from_test path = ground arith

to_test :
    (path : Bytes)
    → (let rest = codes "TO:<" ++ (path ++ codes ">") in
        ltb (length rest) 3 || not (equal_fold (take 3 rest) (codes "TO:")))
      ≡ false
unfolding equal_fold
to_test path = ground arith

module _ (unicode_upper : Bytes → Bytes) where
  mail_from_path-IsPath :
      (o : Option (Bytes × Bytes)) (path : Bytes) (ps : Params)
      → mail_from_path unicode_upper o ≡ some (path, ps)
      → IsPath path
  unfolding mail_from_path
  mail_from_path-IsPath none path ps h = cc
  mail_from_path-IsPath (some (p, rest)) path ps h = ground arith

  -- Whatever the argument of MAIL is, a reverse-path that `parseMailFrom` accepts is at most 320
  -- bytes long and holds no control character but tabs.
  pub parse_mail_from-IsPath :
      (args path : Bytes) (ps : Params)
      → parse_mail_from unicode_upper args ≡ some (path, ps)
      → IsPath path
  unfolding parse_mail_from
  parse_mail_from-IsPath args path ps h =
      ground
        (arith, mail_from_path-IsPath (bracketed (trim_space (drop 5 (trim_space args)))) path ps)

  -- A path of at most 320 bytes, without control characters but tabs and without a closing
  -- bracket, is accepted in `FROM:<path>`, and read back as it was written, without parameters.
  pub parse_mail_from_path :
      (path : Bytes)
      → IsPath path
      → Unbracketed path
      → parse_mail_from unicode_upper (codes "FROM:<" ++ (path ++ codes ">")) ≡ some (path, [])
  unfolding parse_mail_from
  parse_mail_from_path path h u =
      ap
        (λ rest.
          if ltb (length rest) 5 || not (equal_fold (take 5 rest) (codes "FROM:"))
          then none
          else mail_from_path unicode_upper (bracketed (trim_space (drop 5 rest))))
        (trim_space_tight b'F' (codes "ROM:<" ++ path) b'>' (omega arith) (omega arith))
      ∙ if-false none
          (mail_from_path unicode_upper (bracketed (trim_space (codes "<" ++ (path ++ codes ">")))))
          (from_test path)
      ∙ ap (λ rest. mail_from_path unicode_upper (bracketed rest))
          (trim_space_tight b'<' path b'>' (omega arith) (omega arith))
      ∙ ap (mail_from_path unicode_upper) (bracketed_path path u)
      ∙ ground (arith, h.clean)

-- From `TO:<path>`, where the path holds no closing bracket, `parseRcptTo` takes the path.
pub parse_rcpt_to_path :
    (path : Bytes) → Unbracketed path → parse_rcpt_to (codes "TO:<" ++ (path ++ codes ">")) ≡ path
unfolding parse_rcpt_to
parse_rcpt_to_path path u =
    ap
      (λ rest.
        if ltb (length rest) 3 || not (equal_fold (take 3 rest) (codes "TO:"))
        then rest
        else rcpt_path (trim_space (drop 3 rest)))
      (trim_space_tight b'T' (codes "O:<" ++ path) b'>' (omega arith) (omega arith))
    ∙ if-false (codes "TO:<" ++ (path ++ codes ">"))
        (rcpt_path (trim_space (codes "<" ++ (path ++ codes ">")))) (to_test path)
    ∙ ap rcpt_path (trim_space_tight b'<' path b'>' (omega arith) (omega arith))
    ∙ ap (λ (o : Option (Bytes × Bytes)). elim o [ none ↦ path ++ codes ">" | some (p, _) ↦ p ])
        (cut_byte-append b'>' path [] u)
