-- ===== src/Tests/Parsing.antt =====
-- Instances of the theorems on the parsers.
use smtp_gateway.Base.{◌≡◌, refl, some, [], ◌∷◌, codes, arith}
use smtp_gateway.Base.Int.{pos}
use smtp_gateway.Command.Address.{
  IsPath, parse_mail_from-IsPath, parse_mail_from_path, parse_rcpt_to_path,
}
use smtp_gateway.Text.Number.{parse_int}
use smtp_gateway.Text.Space.{fields, fields_from, trim_space, trim_left}
use smtp_gateway.Text.Case.{to_upper, equal_fold}
use smtp_gateway.Text.Search.{cut_byte}
use smtp_gateway.Command.{
  parse_rcpt_to, parse_mail_from, mail_from_path, bracketed, add_params, add_param, get_param,
  set_param, contains_control,
}
use smtp_gateway.Tests.{accepting}

oversize_test :
    parse_mail_from accepting.unicode_upper (codes "FROM:<a@b> SIZE=65")
    ≡ some (codes "a@b", (codes "SIZE", codes "65") ∷ [])
unfolding parse_mail_from mail_from_path bracketed cut_byte trim_space trim_left fields fields_from
    add_params add_param equal_fold to_upper contains_control set_param
oversize_test = refl

size_param_test : get_param (codes "SIZE") ((codes "SIZE", codes "65") ∷ []) ≡ some (codes "65")
unfolding get_param
size_param_test = refl

size_value_test : parse_int (codes "65") ≡ some (pos 65)
unfolding parse_int
size_value_test = refl

parse_mail_from-IsPath_example : IsPath (codes "a@b")
parse_mail_from-IsPath_example =
    parse_mail_from-IsPath accepting.unicode_upper (codes "FROM:<a@b> SIZE=65") (codes "a@b")
      ((codes "SIZE", codes "65") ∷ []) oversize_test

clean-IsPath_test : IsPath (codes "a@b")
unfolding contains_control
clean-IsPath_test = record { short = omega arith; clean = refl }

parse_mail_from_path_example :
    parse_mail_from accepting.unicode_upper (codes "FROM:<a@b>") ≡ some (codes "a@b", [])
parse_mail_from_path_example =
    parse_mail_from_path accepting.unicode_upper (codes "a@b") clean-IsPath_test (ground arith)

parse_rcpt_to_path_example : parse_rcpt_to (codes "TO:<c@d>") ≡ codes "c@d"
parse_rcpt_to_path_example = parse_rcpt_to_path (codes "c@d") (ground arith)
