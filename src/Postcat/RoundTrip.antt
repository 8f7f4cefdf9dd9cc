-- ===== src/Postcat/RoundTrip.antt =====
-- `Parse` against `FormatEnvelope` of internal/postcat/postcat.go.
use smtp_gateway.Base.{
  suc, ◌+◌, ◌≡◌, refl, ap, sym, ◌∙◌, Option, some, List, [], ◌∷◌, ◌++◌, All, length, drop,
  take-append, arith, Bytes, codes, map, append_assoc, append-nil,
}
use smtp_gateway.Wire.{drop_prefix}
use smtp_gateway.Postcat.{
  Message, sanitize_addr, format_null_sender, find_blank_line, two_lf, split_lines,
  recipient_records, write_envelope, format_envelope, add_record, add_records, empty, parse,
}
use smtp_gateway.Postcat.Lines.{
  between_lf, IsLine, find-tight, split_lines-between_lf, tight-between_lf, between_lf-NoCr,
  trim_line,
}
use smtp_gateway.Postcat.Sanitize.{NoBreak, sanitize_addr-NoBreak}

module _ {T : Type 0} (format_time : T → Bytes) (parse_time : Bytes → Option T) where
  abbrev recipient_record : Bytes → Bytes
  recipient_record r = codes "R " ++ sanitize_addr r

  -- The records of an envelope, one line each.
  abbrev records : Bytes → List Bytes → T → List Bytes
  records mail_from accepted t =
      (codes "S " ++ sanitize_addr (format_null_sender mail_from))
      ∷ (map recipient_record accepted ++ (codes "T " ++ format_time t) ∷ [])

  recipients_lem :
      (l : Bytes) (rs : List Bytes) (last rest : Bytes)
      → l ++ (b'\n' ∷ (recipient_records format_time parse_time rs ++ (last ++ rest)))
        ≡ between_lf (l ∷ (map recipient_record rs ++ last ∷ [])) ++ rest
  unfolding recipient_records
  recipients_lem l [] last rest = sym (append_assoc l (b'\n' ∷ last) rest)
  recipients_lem l (r ∷ rs) last rest =
      let k : Bytes = recipient_record r in
      let tail : Bytes = recipient_records format_time parse_time rs ++ (last ++ rest) in
      ap (λ x. l ++ (b'\n' ∷ codes "R " ++ x))
        (append_assoc (sanitize_addr r) (b'\n' ∷ recipient_records format_time parse_time rs)
          (last ++ rest))
      ∙ ap (λ x. l ++ (b'\n' ∷ x)) (recipients_lem k rs last rest)
      ∙ sym (append_assoc l (b'\n' ∷ between_lf (k ∷ (map recipient_record rs ++ last ∷ []))) rest)

  write_envelope-records :
      (mail_from : Bytes) (accepted : List Bytes) (t : T)
      → write_envelope format_time parse_time mail_from accepted t
        ≡ between_lf (records mail_from accepted t) ++ two_lf
  unfolding write_envelope
  write_envelope-records mail_from accepted t =
      recipients_lem (codes "S " ++ sanitize_addr (format_null_sender mail_from)) accepted
        (codes "T " ++ format_time t) two_lf

  recipient-IsLine : (r : Bytes) → IsLine (recipient_record r)
  recipient-IsLine r = record { filled = refl; whole = (refl, (refl, sanitize_addr-NoBreak r)) }

  recipients-IsLine :
      (rs : List Bytes) (last : Bytes)
      → IsLine last
      → All IsLine (map recipient_record rs ++ last ∷ [])
  recipients-IsLine [] last h = (h, tt)
  recipients-IsLine (r ∷ rs) last h = (recipient-IsLine r, recipients-IsLine rs last h)

  records-IsLine :
      (mail_from : Bytes) (accepted : List Bytes) (t : T)
      → NoBreak (format_time t)
      → All IsLine (records mail_from accepted t)
  records-IsLine mail_from accepted t h = (
    record {
      filled = refl;
      whole = (refl, (refl, sanitize_addr-NoBreak (format_null_sender mail_from)));
    },
    recipients-IsLine accepted (codes "T " ++ format_time t)
        (record { filled = refl; whole = (refl, (refl, h)) }),
  )

  add_line :
      (m next : Message T) (l : Bytes) (ls : List Bytes)
      → NoBreak l
      → add_record format_time parse_time m l ≡ some next
      → add_records format_time parse_time m (l ∷ ls) ≡ add_records format_time parse_time next ls
  unfolding add_records
  add_line m next l ls h e = rw (trim_line l h, e, add_records)

  add_recipient :
      (m : Message T) (r : Bytes)
      → add_record format_time parse_time m (recipient_record r)
        ≡ some (record m { recipients = m.recipients ++ sanitize_addr r ∷ [] })
  unfolding add_record drop_prefix
  add_recipient m r = refl

  add_sender :
      (m : Message T) (s : Bytes)
      → add_record format_time parse_time m (codes "S " ++ s) ≡ some (record m { sender = s })
  unfolding add_record drop_prefix
  add_sender m s = refl

  add_time :
      (m : Message T) (t : T)
      → parse_time (format_time t) ≡ some t
      → add_record format_time parse_time m (codes "T " ++ format_time t)
        ≡ some (record m { time = some t })
  unfolding add_record drop_prefix
  add_time m t e = rw e

  add_recipients :
      (m : Message T) (rs : List Bytes) (t : T)
      → NoBreak (format_time t)
      → parse_time (format_time t) ≡ some t
      → add_records format_time parse_time m
          (map recipient_record rs ++ (codes "T " ++ format_time t) ∷ [])
        ≡ some (record m { recipients = m.recipients ++ map sanitize_addr rs; time = some t })
  add_recipients m [] t h e =
      add_line m (record m { time = some t }) (codes "T " ++ format_time t) [] (refl, (refl, h))
        (add_time m t e)
      ∙ unfold add_records in
        ap (λ rs. some (record m { recipients = rs; time = some t }))
          (sym (append-nil m.recipients))
  add_recipients m (r ∷ rs) t h e =
      let next : Message T = record m { recipients = m.recipients ++ sanitize_addr r ∷ [] } in
      add_line m next (recipient_record r)
        (map recipient_record rs ++ (codes "T " ++ format_time t) ∷ []) (recipient-IsLine r).whole
        (add_recipient m r)
      ∙ add_recipients next rs t h e
      ∙ ap (λ all. some (record m { recipients = all; time = some t }))
          (append_assoc m.recipients (sanitize_addr r ∷ []) (map sanitize_addr rs))

  add_all :
      (mail_from : Bytes) (accepted : List Bytes) (t : T)
      → NoBreak (format_time t)
      → parse_time (format_time t) ≡ some t
      → add_records format_time parse_time
          (empty format_time parse_time)
          (records mail_from accepted t)
        ≡ some (record {
          sender = sanitize_addr (format_null_sender mail_from);
          recipients = map sanitize_addr accepted;
          time = some t;
          raw_message = [];
        })
  add_all mail_from accepted t h e =
      let s : Bytes = sanitize_addr (format_null_sender mail_from) in
      let m : Message T = empty format_time parse_time in
      add_line m (record m { sender = s }) (codes "S " ++ s)
        (map recipient_record accepted ++ (codes "T " ++ format_time t) ∷ [])
        (refl, (refl, sanitize_addr-NoBreak (format_null_sender mail_from))) (add_sender m s)
      ∙ add_recipients (record m { sender = s }) accepted t h e

  envelope_parts :
      (mail_from : Bytes) (accepted : List Bytes) (t : T) (body : Bytes)
      → format_envelope format_time parse_time mail_from accepted t body
        ≡ between_lf (records mail_from accepted t) ++ (two_lf ++ body)
  unfolding format_envelope
  envelope_parts mail_from accepted t body =
      ap (λ e. e ++ body) (write_envelope-records mail_from accepted t)
      ∙ append_assoc (between_lf (records mail_from accepted t)) two_lf body

  drop_behind : (e body : Bytes) → drop (suc (suc (length e))) (e ++ (two_lf ++ body)) ≡ body
  drop_behind [] body = refl
  drop_behind (c ∷ e) body = drop_behind e body

  drop-envelope : (e body : Bytes) → drop (length e + 2) (e ++ (two_lf ++ body)) ≡ body
  drop-envelope e body =
      let two : length e + 2 ≡ suc (suc (length e)) = omega arith in
      ap (λ n. drop n (e ++ (two_lf ++ body))) two ∙ drop_behind e body

  parse_parts :
      (e body : Bytes) (ls : List Bytes) (m : Message T)
      → find_blank_line (e ++ (two_lf ++ body)) ≡ some (length e, 2)
      → split_lines e ≡ ls
      → add_records format_time parse_time (empty format_time parse_time) ls ≡ some m
      → parse format_time parse_time (e ++ (two_lf ++ body))
        ≡ some (record m { raw_message = body })
  unfolding parse
  parse_parts e body ls m f s a =
      rw (f, take-append e (two_lf ++ body), s, a, drop-envelope e body, parse)

  -- What is stored is read back, whatever bytes the addresses and the body hold: the sender and
  -- the recipients in order, sanitized, `<>` for an empty sender, the time and the body. The text
  -- of the time holds no line break and is parsed back.
  pub parse-format_envelope :
      (mail_from : Bytes) (accepted : List Bytes) (t : T) (body : Bytes)
      → NoBreak (format_time t)
      → parse_time (format_time t) ≡ some t
      → parse format_time parse_time
          (format_envelope format_time parse_time mail_from accepted t body)
        ≡ some (record {
          sender = sanitize_addr (format_null_sender mail_from);
          recipients = map sanitize_addr accepted;
          time = some t;
          raw_message = body;
        })
  parse-format_envelope mail_from accepted t body h e =
      let ls : List Bytes = records mail_from accepted t in
      let lines : All IsLine ls = records-IsLine mail_from accepted t h in
      let found =
        find-tight (between_lf ls) body (tight-between_lf _ _ lines) (between_lf-NoCr ls lines) in
      ap (parse format_time parse_time) (envelope_parts mail_from accepted t body)
      ∙ parse_parts (between_lf ls) body ls _ found (split_lines-between_lf _ _ lines)
          (add_all mail_from accepted t h e)
