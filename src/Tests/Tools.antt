-- ===== src/Tests/Tools.antt =====
-- Runs of the command-line tools and the examples on concrete inputs.
use smtp_gateway.Base.{
  ℕ, ◌≡◌, ◌-◌, ◌+◌, refl, sym, true, false, Option, none, some, List, [], ◌∷◌, ◌++◌, Bytes, codes,
  arith,
}
use smtp_gateway.Base.Int.{pos}
use smtp_gateway.Wire.{bytes}
use smtp_gateway.Wire.Body.Stuffing.{message}
use smtp_gateway.Command.{contains_control}
use smtp_gateway.Command.Address.{empty-IsPath}
use smtp_gateway.Postcat.{Message, format_null_sender}
use smtp_gateway.Replay.Dialogue.{
  Link, replay, dialogue, hear, say, transmit, expect, say_recipients, say_lines, leave,
  expect_loop, consider, judge, read_string, trim_breaks, scan_int, signed_digits, leading_digits,
}
use smtp_gateway.Replay.{format_sender, body_lines, send_line}
use smtp_gateway.Text.Number.{parse_int}
use smtp_gateway.Text.Space.{trim_left, space_width}
use smtp_gateway.Replay.Dialogue.Sent.{Outcome, replay-Outcome}
use smtp_gateway.Replay.Dialogue.Replies.{answer_text, expect-answer_text}
use smtp_gateway.Replay.Dialogue.Received.{Received, transcript-Received}
use smtp_gateway.Examples.S3.{Object, Cloud, store_data}
use smtp_gateway.Examples.S3.Stored.{Kept, store_data-Kept}
use smtp_gateway.Tools.{verify}
use smtp_gateway.Tools.Verified.{Verdict, verify-Verdict}
use smtp_gateway.Tests.{accepting, gateway, lines, ready}

abbrev stamp : ℕ → Bytes
stamp t = (b'0' + t) ∷ []

abbrev read_stamp : Bytes → Option ℕ
read_stamp (c ∷ []) = some (c - b'0')
read_stamp _ = none

abbrev stored : Message ℕ
stored = record {
  sender = codes "<>";
  recipients = codes "c@d" ∷ [];
  time = some 7;
  raw_message = codes "x" ++ b'\r' ∷ b'\n' ∷ [];
}

-- A server that accepts all.
abbrev link : Link
link = record {
  incoming =
      bytes
        (lines (
          codes "220 mx ESMTP"
          ∷ codes "250-mx"
          ∷ codes "250 PIPELINING"
          ∷ codes "250 2.1.0 OK"
          ∷ codes "250 2.1.5 OK"
          ∷ codes "354 Go ahead"
          ∷ codes "250 2.0.0 OK"
          ∷ codes "221 2.0.0 Bye"
          ∷ []))
        [];
  budget = 200;
  sent = [];
}

success_test : (replay (some stored) true link).0 ≡ none
unfolding replay dialogue hear say transmit expect say_recipients say_lines leave expect_loop
    consider judge read_string trim_breaks scan_int parse_int signed_digits trim_left space_width
    leading_digits format_sender body_lines send_line
success_test = refl

replay-Outcome_example : Outcome stored link.incoming (replay (some stored) true link)
replay-Outcome_example = replay-Outcome stored link true refl

abbrev dotted : Message ℕ
dotted = record {
  sender = codes "<>";
  recipients = codes "c@d" ∷ [];
  time = some 7;
  raw_message = message (codes ".x" ∷ []);
}

path_test : contains_control (codes "c@d") ≡ false
unfolding contains_control
path_test = refl

transcript-Received_example : Received accepting gateway 16 (omega arith) [] dotted [] (pos 64)
unfolding format_null_sender
transcript-Received_example =
    transcript-Received accepting gateway 16 (omega arith) [] [] (codes "c@d" ∷ []) (some 7)
      (codes ".x" ∷ []) (pos 64) (empty-IsPath, tt)
      ((record { short = omega arith; clean = path_test }, ground arith), tt) (ground arith)
      (ground arith) (omega arith)

-- A store in a list, a compression that does nothing, and a clock that stands still.
abbrev cloud : Cloud (List Object) ℕ
cloud = record {
  connect = λ w endpoint options. (true, w);
  bucket_exists = λ w bucket. (some true, w);
  now = λ w. (7, w);
  compress = λ w s. (some s, w);
  put_object = λ w o. (true, o ∷ w);
}

store_data-Kept_example :
    Kept stamp read_stamp stamp
      (λ t. pos t)
      (λ s. s)
      cloud
      (codes "b")
      (codes "mail/")
      (λ w. w)
      (λ s. some s)
      (ready []).tx
      (codes "x")
      (store_data stamp read_stamp stamp
        (λ t. pos t)
        (λ s. s)
        cloud
        (codes "b")
        (codes "mail/")
        []
        (ready []).tx
        (codes "x"))
store_data-Kept_example =
    store_data-Kept stamp read_stamp stamp (λ t. pos t) (λ s. s) cloud (codes "b") (codes "mail/")
      (λ w. w) (λ s. some s) (λ w o h. refl) (λ w s packed h. sym h) (λ t. ground arith)
      (λ t. ground arith) [] (ready []).tx (codes "x")

verify-Verdict_example :
    Verdict stamp read_stamp 0
      ((codes "a.eml", some (codes "S a")) ∷ (codes "b.eml", none) ∷ [])
      (verify stamp read_stamp 0 ((codes "a.eml", some (codes "S a")) ∷ (codes "b.eml", none) ∷ []))
verify-Verdict_example =
    verify-Verdict stamp read_stamp 0
      ((codes "a.eml", some (codes "S a")) ∷ (codes "b.eml", none) ∷ [])

expect-answer_text_example :
    expect 250 (bytes (answer_text 250 (codes "mx" ∷ codes "PIPELINING" ∷ [])) []) ≡ (none, [])
expect-answer_text_example =
    expect-answer_text 250 (codes "mx") (codes "PIPELINING" ∷ []) [] (omega arith) (omega arith)
      (ground arith)
