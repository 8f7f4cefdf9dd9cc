-- ===== src/Tests/Sessions.antt =====
-- Instances of the theorems on sessions.
use smtp_gateway.Base.{◌≡◌, refl, true, false, some, [], ◌∷◌, codes, arith, All, not, ◌||◌}
use smtp_gateway.Base.Int.{pos}
use smtp_gateway.Wire.{bytes}
use smtp_gateway.Response.{is_ok}
use smtp_gateway.Text.Number.{parse_int, digits, unsigned}
use smtp_gateway.Text.Space.{fields, fields_from}
use smtp_gateway.Command.{parse_bdat_args, bdat_fields, parse_rcpt_to}
use smtp_gateway.Session.Ending.Rounds.{closed-serve}
use smtp_gateway.Session.Content.{bdat_parsed, handle_data, handle_bdat}
use smtp_gateway.Session.Envelope.{handle_rcpt}
use smtp_gateway.Session.Loop.{
  serve, dispatch, mail, starttls, ehlo, data_verb, bdat, end_transaction,
}
use smtp_gateway.Session.Invariant.{all_introduced, IsSound, Backed}
use smtp_gateway.Session.Safety.{session, serve-IsSound, serve-Backed}
use smtp_gateway.Session.Chunks.{transfer, delivered, bdat_parsed-transfer}
use smtp_gateway.Session.Transaction.Beginnings.{Greets, dispatch-Greets}
use smtp_gateway.Session.Transaction.Starttls.{Upgrades, dispatch-Upgrades}
use smtp_gateway.Session.Transaction.Endings.{IsEnded, data-IsEnded, is_last, bdat-IsEnded}
use smtp_gateway.Session.Transaction.Recipient.{Adds, handle_rcpt-Adds, Opens, dispatch-Opens}
use smtp_gateway.Tests.{
  accepting, gateway, client, lines, mail_lines, ready, greeted, secure_session,
}

serve-IsSound_example :
    All (IsSound gateway) (session accepting gateway 5 tt (client (lines mail_lines))).trace
    × (all_introduced (session accepting gateway 5 tt (client (lines mail_lines))).trace ≡ true)
serve-IsSound_example =
    serve-IsSound accepting gateway 5 tt (client (lines mail_lines)) (omega arith) refl

serve-Backed_example : Backed (session accepting gateway 5 tt (client (lines mail_lines))).trace
serve-Backed_example =
    serve-Backed accepting gateway 5 tt (client (lines mail_lines)) (omega arith) refl

bdat_parsed-transfer_example :
    bdat_parsed accepting gateway (some (2, true)) (
      transfer accepting gateway
        (codes "abc" ∷ [])
        (ready (bytes (codes "abc") (bytes (codes "de") []))))
    ≡ delivered accepting gateway
        (codes "abcde")
        []
        (ready (bytes (codes "abc") (bytes (codes "de") [])))
bdat_parsed-transfer_example =
    bdat_parsed-transfer accepting gateway (codes "abc" ∷ []) (codes "de") []
      (ready (bytes (codes "abc") (bytes (codes "de") []))) refl (ground arith) (omega arith)
      (record { addressed = refl; filled = refl; room = refl; small = omega arith })

dispatch-Upgrades_example :
    Upgrades accepting gateway greeted (dispatch accepting gateway starttls [] greeted).1
dispatch-Upgrades_example = dispatch-Upgrades accepting gateway [] greeted

dispatch-Greets_example :
    Greets accepting gateway
      (codes "b")
      greeted
      (dispatch accepting gateway ehlo (codes "b") greeted).1
dispatch-Greets_example = dispatch-Greets accepting gateway (codes "b") true greeted

data-IsEnded_example : IsEnded (codes "a") (dispatch accepting gateway data_verb [] greeted).1
data-IsEnded_example =
    data-IsEnded accepting gateway [] greeted
      (record { code = pos 503; message = codes "5.5.1 RCPT required first" })
      (unfold dispatch in unfold handle_data in refl)

early_chunk_test :
    (dispatch accepting gateway bdat (codes "1 LAST") greeted).0
    ≡ some (record { code = pos 503; message = codes "5.5.1 RCPT required first" })
unfolding dispatch handle_bdat bdat_parsed parse_bdat_args bdat_fields parse_int fields fields_from
    digits unsigned end_transaction
early_chunk_test = refl

last_chunk_test :
    (is_last accepting gateway (parse_bdat_args accepting.unicode_upper (codes "1 LAST"))
      || not (is_ok (record { code = pos 503; message = codes "5.5.1 RCPT required first" })))
    ≡ true
unfolding parse_bdat_args bdat_fields parse_int
last_chunk_test = refl

bdat-IsEnded_example :
    IsEnded (codes "a") (dispatch accepting gateway bdat (codes "1 LAST") greeted).1
    × ((dispatch accepting gateway bdat (codes "1 LAST") greeted).1.in_bdat ≡ false)
bdat-IsEnded_example =
    bdat-IsEnded accepting gateway (codes "1 LAST") greeted
      (record { code = pos 503; message = codes "5.5.1 RCPT required first" }) early_chunk_test
      last_chunk_test

handle_rcpt-Adds_example :
    Adds accepting gateway
      (codes "e@f")
      (codes "c@d" ∷ [])
      (handle_rcpt accepting gateway (codes "TO:<e@f>") (ready []))
unfolding parse_rcpt_to
handle_rcpt-Adds_example = handle_rcpt-Adds accepting gateway (codes "TO:<e@f>") (ready [])

dispatch-Opens_example :
    Opens accepting gateway
      (codes "FROM:<a@b> SIZE=65")
      greeted
      (dispatch accepting gateway mail (codes "FROM:<a@b> SIZE=65") greeted)
dispatch-Opens_example = dispatch-Opens accepting gateway (codes "FROM:<a@b> SIZE=65") greeted

closed-serve_example : (serve accepting gateway 13 secure_session).closed ≡ true
closed-serve_example =
    closed-serve accepting gateway 13 secure_session (omega arith) (omega arith) refl
