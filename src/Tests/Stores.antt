-- ===== src/Tests/Stores.antt =====
-- Instances of the theorems on stored messages.
use smtp_gateway.Base.{arith}
use smtp_gateway.Command.{contains_control}
use smtp_gateway.Command.Address.{IsPath}
use smtp_gateway.Base.{
  ◌==◌, if◌then◌else◌, ℕ, Option, none, ◌+◌, ◌-◌, ◌≡◌, refl, true, none, some, [], ◌∷◌, ◌++◌, Bytes,
  codes, arith,
}
use smtp_gateway.Postcat.{sanitize_addr, format_null_sender, format_envelope, parse}
use smtp_gateway.Postcat.Sanitize.{NoBreak, sanitize_addr-NoBreak}
use smtp_gateway.Postcat.RoundTrip.{parse-format_envelope}
use smtp_gateway.Postcat.Files.{Disk, write_message, write_part}
use smtp_gateway.Bench.{
  PostcatSession, mail, rcpt, reset, receive_data, store_file, header_lines, write_header,
  close_file, removed,
}
use smtp_gateway.Bench.Agreement.{receive_data-Outcome}
use smtp_gateway.Postcat.Files.Atomic.{Outcome, write_message-Outcome}

sanitize_addr-NoBreak_example : NoBreak (sanitize_addr (codes "a" ++ (b'\n' ∷ codes "R b")))
sanitize_addr-NoBreak_example = sanitize_addr-NoBreak (codes "a" ++ (b'\n' ∷ codes "R b"))

abbrev stamp : ℕ → Bytes
stamp t = (b'0' + t) ∷ []

abbrev read_stamp : Bytes → Option ℕ
read_stamp (c ∷ []) = some (c - b'0')
read_stamp _ = none

parse-format_envelope_example :
    parse stamp read_stamp
      (format_envelope stamp read_stamp [] (codes "c@d" ∷ codes "e@f" ∷ []) 7 (codes "x"))
    ≡ some (record {
      sender = codes "<>";
      recipients = codes "c@d" ∷ codes "e@f" ∷ [];
      time = some 7;
      raw_message = codes "x";
    })
unfolding sanitize_addr format_null_sender
parse-format_envelope_example =
    parse-format_envelope stamp read_stamp [] (codes "c@d" ∷ codes "e@f" ∷ []) 7 (codes "x")
      (ground arith) refl

-- A disk on which every write but the first fails half way.
abbrev failing : Disk ℕ
failing = record {
  create_temp = λ w. (true, w);
  write = λ w text. (if w == 0 then none else some 1, w + 1);
  sync = λ w. (true, w);
  close = λ w. (true, w);
  rename = λ w. (true, w);
  remove = λ w. (true, w);
}

write_message-Outcome_example :
    Outcome failing
      (format_envelope stamp read_stamp (codes "a@b") (codes "c@d" ∷ []) 7 (codes "x"))
      (record { world = 0; temp = none; target = none })
      (write_message stamp read_stamp failing
        (codes "a@b")
        (codes "c@d" ∷ [])
        7
        (codes "x")
        (record { world = 0; temp = none; target = none }))
write_message-Outcome_example =
    write_message-Outcome stamp read_stamp failing (codes "a@b") (codes "c@d" ∷ []) 7 (codes "x")
      (record { world = 0; temp = none; target = none }) refl

sender-IsPath_test : IsPath (codes "a@b")
unfolding contains_control
sender-IsPath_test = record { short = omega arith; clean = refl }

-- A disk on which nothing fails.
abbrev sound : Disk ℕ
sound = record {
  create_temp = λ w. (true, w);
  write = λ w text. (none, w + 1);
  sync = λ w. (true, w);
  close = λ w. (true, w);
  rename = λ w. (true, w);
  remove = λ w. (true, w);
}

abbrev benched : PostcatSession
benched = record { sender = []; recipients = codes "c@d" ∷ codes "e@f" ∷ []; body = [] }

receive_data-Outcome_example :
    Outcome sound
      (format_envelope stamp read_stamp [] (codes "c@d" ∷ codes "e@f" ∷ []) 7 (codes "x"))
      (record { world = 0; temp = none; target = none })
      (
        (receive_data sound stamp
            (some (codes "x"))
            7
            benched
            (record { world = 0; temp = none; target = none })).0,
        (receive_data sound stamp
            (some (codes "x"))
            7
            benched
            (record { world = 0; temp = none; target = none })).2,
      )
receive_data-Outcome_example =
    receive_data-Outcome stamp read_stamp sound benched 7 (codes "x")
      (record { world = 0; temp = none; target = none }) (λ w text. refl) tt
      ((refl, (refl, (refl, tt))), ((refl, (refl, (refl, tt))), tt)) refl

-- The run reports success, so that the file is there.
benched_test :
    receive_data sound stamp
      (some (codes "x"))
      7
      benched
      (record { world = 0; temp = none; target = none })
    ≡ (
      true,
      record { sender = []; recipients = codes "c@d" ∷ codes "e@f" ∷ []; body = codes "x" },
      record { world = 6; temp = none; target = some (codes "S <>\nR c@d\nR e@f\nT 7\n\nx") },
    )
unfolding receive_data store_file header_lines write_header write_part close_file removed
benched_test = refl

abbrev benched_empty : PostcatSession
benched_empty = record { sender = []; recipients = []; body = [] }

-- The commands of a transaction, and its end.
benched_commands_test :
    (rcpt (codes "e@f") (rcpt (codes "c@d") (mail [] benched_empty)) ≡ benched)
    × (reset benched ≡ benched_empty)
unfolding rcpt mail reset
benched_commands_test = (refl, refl)
