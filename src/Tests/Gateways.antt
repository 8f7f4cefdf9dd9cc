-- ===== src/Tests/Gateways.antt =====
-- A connection of the S3 gateway, from its greeting to a stored message.
use smtp_gateway.Base.{
  ℕ, ◌≡◌, ◌-◌, ◌+◌, refl, sym, inr, length, true, false, Option, none, some, List, [], ◌∷◌, Bytes,
  codes, arith,
}
use smtp_gateway.Base.Int.{pos}
use smtp_gateway.Session.{Env, Session, secured, panicked}
use smtp_gateway.Session.Loop.{
  serve, start, round, listen, turn, command_of, process, dispatch, answer, verb_of,
  end_transaction, adopt, is_allowed_during_bdat,
}
use smtp_gateway.Session.Greeting.{handle_greeting, greeting_answer, greet, write_lines, extensions}
use smtp_gateway.Session.Calls.{
  write, call_hello, call_mail_from, call_rcpt_to, call_data, write_postcat,
}
use smtp_gateway.Session.Envelope.{
  handle_mail, mail_parsed, set_sender, size_check, handle_rcpt, present, rcpt_answer, accept,
  reject,
}
use smtp_gateway.Session.Content.{
  handle_bdat, bdat_parsed, bdat_read, bdat_last, handle_data, data_started, data_read, data_answer,
  refuses_8bit,
}
use smtp_gateway.Session.{new_tx, reset_tx, reset_body_buf}
use smtp_gateway.Wire.{read_line, read_line_loop, read_slice, finish_line, trim_suffix, drop_prefix}
use smtp_gateway.Wire.Body.{read_dot_unstuffed, body_loop, body_step, unstuff}
use smtp_gateway.Command.{
  parse_bdat_args, bdat_fields, split_verb, parse_mail_from, mail_from_path, bracketed, add_params,
  parse_rcpt_to, rcpt_path, contains_control, contains_8bit, validate_helo_domain, get_param,
}
use smtp_gateway.Text.Space.{
  trim_space, trim_left, space_width, last_space_width, fields, fields_from,
}
use smtp_gateway.Text.Case.{to_upper, upper, equal_fold}
use smtp_gateway.Text.Search.{break_at, cut_byte}
use smtp_gateway.Base.{equal}
use smtp_gateway.Response.{string, format_int}
use smtp_gateway.Examples.{with_handler}
use smtp_gateway.Examples.S3.{
  s3_handler, store_data, compressed, upload, object_of, object_key, encode_hex, join, drop_slashes,
}
use smtp_gateway.Pipeline.{Reachable}
use smtp_gateway.Pipeline.Sequential.{settled, serve-Reachable}
use smtp_gateway.Examples.S3.{Object, Cloud}
use smtp_gateway.Examples.S3.Durable.{Honest, AllSafe, Reachable-AllSafe}
use smtp_gateway.Session.Safety.{session, serve-quiet}
use smtp_gateway.Wire.Chunk.{read_n_bytes, read_full}
use smtp_gateway.Text.Number.{parse_int, unsigned, digits}
use smtp_gateway.Tests.{accepting, gateway, client, lines, mail_lines}

abbrev stamp : ℕ → Bytes
stamp t = (b'0' + t) ∷ []

abbrev read_stamp : Bytes → Option ℕ
read_stamp (c ∷ []) = some (c - b'0')
read_stamp _ = none

-- A store in a list, a compression that does nothing, and a clock that stands still.
abbrev cloud : Cloud (List Object) ℕ
cloud = record {
  connect = λ w endpoint options. (true, w);
  bucket_exists = λ w bucket. (some true, w);
  now = λ w. (7, w);
  compress = λ w s. (some s, w);
  put_object = λ w o. (true, o ∷ w);
}

abbrev net : Env (List Object)
net = record {
  hello = λ w tx. (panicked, w);
  mail_from = λ w tx. (panicked, w);
  rcpt_to = λ w tx. (panicked, w);
  receive = λ w tx b. (panicked, w);
  write = λ w text. (true, w);
  handshake = λ w. (secured 772 [], w);
  store = λ w dir from to b. w;
  cancelled = λ w. (false, w);
  unicode_upper = λ s. s;
}

abbrev world : Env (List Object)
world =
    with_handler
      (s3_handler stamp read_stamp stamp (λ t. pos t) (λ s. s) cloud (codes "b") (codes "m")) net

abbrev after_mail : Session (List Object)
after_mail = serve world gateway 4 (start world gateway [] (client (lines mail_lines)))

open_test : after_mail.closed ≡ false
unfolding serve start round listen turn command_of process dispatch answer verb_of end_transaction
    adopt is_allowed_during_bdat handle_greeting greeting_answer greet write_lines extensions write
    call_hello call_mail_from call_rcpt_to call_data write_postcat handle_mail mail_parsed
    set_sender size_check handle_rcpt present rcpt_answer accept reject handle_data data_started
    data_read data_answer refuses_8bit new_tx reset_tx reset_body_buf read_line read_line_loop
    read_slice finish_line trim_suffix drop_prefix read_dot_unstuffed body_loop body_step unstuff
    split_verb parse_mail_from mail_from_path bracketed add_params parse_rcpt_to rcpt_path
    contains_control contains_8bit validate_helo_domain get_param trim_space trim_left space_width
    last_space_width fields fields_from to_upper upper equal_fold break_at cut_byte equal string
    format_int with_handler s3_handler store_data compressed upload object_of object_key encode_hex
    join drop_slashes
open_test = refl

stored_test : length after_mail.world ≡ 1
unfolding serve start round listen turn command_of process dispatch answer verb_of end_transaction
    adopt is_allowed_during_bdat handle_greeting greeting_answer greet write_lines extensions write
    call_hello call_mail_from call_rcpt_to call_data write_postcat handle_mail mail_parsed
    set_sender size_check handle_rcpt present rcpt_answer accept reject handle_data data_started
    data_read data_answer refuses_8bit new_tx reset_tx reset_body_buf read_line read_line_loop
    read_slice finish_line trim_suffix drop_prefix read_dot_unstuffed body_loop body_step unstuff
    split_verb parse_mail_from mail_from_path bracketed add_params parse_rcpt_to rcpt_path
    contains_control contains_8bit validate_helo_domain get_param trim_space trim_left space_width
    last_space_width fields fields_from to_upper upper equal_fold break_at cut_byte equal string
    format_int with_handler s3_handler store_data compressed upload object_of object_key encode_hex
    join drop_slashes
stored_test = refl

serve-Reachable_example :
    Reachable world gateway [] (client (lines mail_lines)) (settled world gateway after_mail)
serve-Reachable_example = serve-Reachable world gateway [] (client (lines mail_lines)) 4 open_test

honest : Honest cloud net (λ w. w)
honest = record {
  puts = λ w o h. refl;
  put_fails = λ w o h. inr refl;
  now_keeps = λ w. refl;
  compress_keeps = λ w s. refl;
  write_keeps = λ w text. refl;
  handshake_keeps = λ w. refl;
  store_keeps = λ w dir from to b. refl;
  cancelled_keeps = λ w. refl;
}

Reachable-AllSafe_example :
    AllSafe stamp read_stamp stamp
      (λ t. pos t)
      (λ s. s)
      cloud
      (codes "b")
      (codes "m")
      (λ w. w)
      (λ s. some s)
      after_mail.world
      after_mail.trace
Reachable-AllSafe_example =
    Reachable-AllSafe stamp read_stamp stamp (λ t. pos t) (λ s. s) cloud (codes "b") (codes "m")
      (λ w. w) (λ s. some s) net honest (λ w s packed h. sym h) (λ t. ground arith)
      (λ t. ground arith) gateway [] (client (lines mail_lines)) (settled world gateway after_mail)
      (serve-Reachable world gateway [] (client (lines mail_lines)) 4 open_test)

-- A transaction whose message comes in two chunks, of three bytes and of none.
abbrev chunk_lines : List Bytes
chunk_lines =
    codes "EHLO a"
    ∷ codes "MAIL FROM:<a@b>"
    ∷ codes "RCPT TO:<c@d>"
    ∷ codes "BDAT 3"
    ∷ codes "x"
    ∷ codes "BDAT 0 LAST"
    ∷ []

abbrev chunked : ℕ → Session Unit
chunked n = session accepting gateway n tt (client (lines chunk_lines))

-- Behind the first chunk its bytes are held, and behind the second the sequence is over.
chunked_test :
    ((chunked 4).in_bdat ≡ true)
    × ((chunked 4).conn.body_buf ≡ b'x' ∷ b'\r' ∷ b'\n' ∷ [])
    × ((chunked 5).in_bdat ≡ false)
unfolding serve start round listen turn command_of process dispatch answer verb_of end_transaction
    adopt is_allowed_during_bdat handle_greeting greeting_answer greet write_lines extensions write
    call_hello call_mail_from call_rcpt_to call_data write_postcat handle_mail mail_parsed
    set_sender size_check handle_rcpt present rcpt_answer accept reject handle_bdat bdat_parsed
    bdat_read bdat_last data_answer refuses_8bit new_tx reset_tx reset_body_buf read_line
    read_line_loop read_slice finish_line trim_suffix drop_prefix read_n_bytes read_full split_verb
    parse_mail_from mail_from_path bracketed add_params parse_rcpt_to rcpt_path parse_bdat_args
    bdat_fields contains_control contains_8bit validate_helo_domain get_param trim_space trim_left
    space_width last_space_width fields fields_from to_upper upper equal_fold break_at cut_byte
    equal string format_int parse_int unsigned digits
chunked_test = (refl, refl, refl)

serve-quiet_example : (chunked 5).conn.body_buf ≡ []
serve-quiet_example =
    serve-quiet accepting gateway 5 tt (client (lines chunk_lines)) (omega arith) refl
      chunked_test.2
