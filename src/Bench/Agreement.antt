-- ===== src/Bench/Agreement.antt =====
-- The file of the benchmark's session against `Write` of internal/postcat/postcat.go.
use mathlib.Core.Path.{subst}
use smtp_gateway.Base.{
  ℕ, take, ap, sym, ◌∙◌, ◌≡◌, refl, Bool, true, false, Option, none, some, List, [], ◌∷◌, ◌++◌, map,
  joined, append_assoc, append-nil, arith, All, any, if◌then◌else◌, Bytes, codes,
}
use smtp_gateway.Postcat.{is_break, sanitize_addr, format_null_sender, format_envelope}
use smtp_gateway.Postcat.Sanitize.{NoBreak}
use smtp_gateway.Postcat.Files.{Disk, Folder, added, write_part, recipient_piece, pieces}
use smtp_gateway.Postcat.Files.Atomic.{Outcome, joined-pieces}
use smtp_gateway.Bench.{
  PostcatSession, sender_text, recipient_line, header_lines, write_header, close_file, behind_body,
  removed, store_file, receive_data,
}

NoBreak-any : (a : Bytes) → NoBreak a → any is_break a ≡ false
NoBreak-any [] h = refl
NoBreak-any (c ∷ a) h = ground (arith, NoBreak-any a h.1, h.0)

sanitize_addr-NoBreak_same : (a : Bytes) → NoBreak a → sanitize_addr a ≡ a
unfolding sanitize_addr
sanitize_addr-NoBreak_same a h = rw (NoBreak-any a h) refl

sender_text_lem : (a : Bytes) → NoBreak a → sanitize_addr (format_null_sender a) ≡ sender_text a
unfolding format_null_sender sanitize_addr
sender_text_lem a h = ground (arith, NoBreak-any a h)

joined-concat : (ps : List Bytes) (p : Bytes) → joined (ps ++ p ∷ []) ≡ joined ps ++ p
joined-concat [] p = append-nil p
joined-concat (q ∷ ps) p =
    ap (λ x. q ++ x) (joined-concat ps p) ∙ sym (append_assoc q (joined ps) p)

module _ {W : Type 0} (disk : Disk W)
    (full : (w : W) (text : Bytes) → (disk.write w text).0 ≡ none) where
  -- What the writes leave, if none fails.
  abbrev Written : Bytes → Folder W → Folder W → Type 0
  Written text f g = (g.target ≡ f.target) × (g.temp ≡ some text)

  write_part-Written :
      (old p : Bytes) (f : Folder W)
      → f.temp ≡ some old
      → ((write_part disk p f).0 ≡ true) × Written (old ++ p) f (write_part disk p f).1
  unfolding write_part
  write_part-Written old p f e =
      outcome (disk.write f.world p).0 (disk.write f.world p).1 (full f.world p)
    where
      outcome :
          (failed : Option ℕ) (w : W)
          → failed ≡ none
          → let r : Bool × Folder W = elim failed [
            | none ↦ (true, record f { world = w; temp = added disk f.temp p })
            | some n ↦ (false, record f { world = w; temp = added disk f.temp (take n p) })
          ] in
            (r.0 ≡ true) × Written (old ++ p) f r.1
      outcome none w h = (refl, (refl, rw e refl))
      outcome (some n) w h = absurd (ground arith)

  write_header-Written :
      (ps : List Bytes) (old : Bytes) (f : Folder W)
      → f.temp ≡ some old
      → Written (old ++ joined ps) f (write_header disk ps f)
  unfolding write_header
  write_header-Written [] old f e = (refl, e ∙ ap some (sym (append-nil old)))
  write_header-Written (p ∷ ps) old f e =
      let (ok, (same, text)) = write_part-Written old p f e in
      let (same', text') = write_header-Written ps (old ++ p) (write_part disk p f).1 text in
      (same' ∙ same, text' ∙ ap some (append_assoc old p (joined ps)))

  removed-Outcome :
      (text : Bytes) (f : Folder W) (c : Bool × Folder W)
      → (c.0 ≡ true → (c.1.target ≡ some text) × (c.1.temp ≡ none))
      → (c.0 ≡ false → c.1.target ≡ f.target)
      → Outcome disk text f (removed disk c)
  unfolding removed
  removed-Outcome text f (true, g) h k = let (held, none_left) = h refl in (held, ground arith)
  removed-Outcome text f (false, g) h k = (k refl, λ r. rw (r g.world) refl)

  close_file-kept :
      (g : Folder W) → (close_file disk g).0 ≡ false → (close_file disk g).1.target ≡ g.target
  unfolding close_file
  close_file-kept g e = ground arith

  close_file-moved :
      (g : Folder W)
      → (close_file disk g).0 ≡ true
      → ((close_file disk g).1.target ≡ g.temp) × ((close_file disk g).1.temp ≡ none)
  unfolding close_file
  close_file-moved g e = ground arith

  -- Behind the write of the body, with all of the text written.
  behind_body-Outcome :
      (text : Bytes) (f : Folder W) (c : Bool × Folder W)
      → c.0 ≡ true
      → Written text f c.1
      → Outcome disk text f (removed disk (behind_body disk c))
  behind_body-Outcome text f (true, g) ok (same, e) =
      removed-Outcome text f (close_file disk g)
        (λ k. (let (moved, gone) = close_file-moved g k in (moved ∙ e, gone)))
        (λ k. close_file-kept g k ∙ same)
  behind_body-Outcome text f (false, g) ok h = absurd (ground arith)

  module _ {T : Type 0} (format_time : T → Bytes) where
    store_file-Outcome :
        (from : Bytes) (to : List Bytes) (t : T) (body : Bytes) (f : Folder W)
        → f.temp ≡ none
        → Outcome disk
            (joined (header_lines format_time from to t) ++ body)
            f
            (store_file disk format_time from to t body f)
    unfolding store_file
    store_file-Outcome from to t body f e =
        outcome (disk.create_temp f.world).0 (disk.create_temp f.world).1
      where
        outcome :
            (ok : Bool) (w : W)
            → Outcome disk (joined (header_lines format_time from to t) ++ body) f (
                if ok
                then removed disk (
                    behind_body disk (
                      write_part disk body (
                        write_header disk
                          (header_lines format_time from to t)
                          (record f { world = w; temp = some [] }))))
                else (false, record f { world = w }))
        outcome true w =
            let ps = header_lines format_time from to t in
            let g : Folder W = record f { world = w; temp = some [] } in
            let (same, text) = write_header-Written ps [] g refl in
            let g' : Folder W = write_header disk ps g in
            let (ok, (same', text')) = write_part-Written (joined ps) body g' text in
            behind_body-Outcome (joined ps ++ body) f (write_part disk body g') ok
              (same' ∙ same, text')
        outcome false w = (refl, λ r. e)

module _ {T : Type 0} (format_time : T → Bytes) (parse_time : Bytes → Option T) where
  recipient_line_lem :
      (rs : List Bytes)
      → All NoBreak rs
      → map recipient_line rs ≡ map (recipient_piece format_time parse_time) rs
  recipient_line_lem [] h = refl
  recipient_line_lem (r ∷ rs) h =
      ap (λ x. (codes "R " ++ (x ++ b'\n' ∷ [])) ∷ map recipient_line rs)
        (sym (sanitize_addr-NoBreak_same r h.0))
      ∙ ap (λ x. recipient_piece format_time parse_time r ∷ x) (recipient_line_lem rs h.1)

  header_lines-pieces :
      (from : Bytes) (to : List Bytes) (t : T) (body : Bytes)
      → NoBreak from
      → All NoBreak to
      → header_lines format_time from to t ++ body ∷ []
        ≡ pieces format_time parse_time from to t body
  unfolding header_lines
  header_lines-pieces from to t body h k =
      let end : List Bytes = (codes "T " ++ (format_time t ++ b'\n' ∷ [])) ∷ (b'\n' ∷ []) ∷ [] in
      ap (λ x. (codes "S " ++ (x ++ b'\n' ∷ [])) ∷ ((map recipient_line to ++ end) ++ body ∷ []))
        (sym (sender_text_lem from h))
      ∙ ap (λ x. (codes "S " ++ (sanitize_addr (format_null_sender from) ++ b'\n' ∷ [])) ∷ x)
          (append_assoc (map recipient_line to) end (body ∷ [])
            ∙ ap (λ x. x ++ (end ++ body ∷ [])) (recipient_line_lem to k))

  -- The benchmark's session stores a message like `Write` of internal/postcat/postcat.go, for a
  -- sender and recipients without line breaks, on a disk whose writes do not fail and without a
  -- temporary file to begin with: if it reports success, the file at the path holds the text of
  -- `FormatEnvelope` and there is no temporary file; if it reports an error, as the file cannot be
  -- created, closed or renamed, the file at the path is as it was, and if the disk can remove
  -- files, no temporary file is left.
  pub receive_data-Outcome :
      {W : Type 0} (disk : Disk W) (s : PostcatSession) (t : T) (body : Bytes) (f : Folder W)
      → ((w : W) (text : Bytes) → (disk.write w text).0 ≡ none)
      → NoBreak s.sender
      → All NoBreak s.recipients
      → f.temp ≡ none
      → Outcome disk (format_envelope format_time parse_time s.sender s.recipients t body) f (
        (receive_data disk format_time (some body) t s f).0,
        (receive_data disk format_time (some body) t s f).2,
      )
  unfolding receive_data
  receive_data-Outcome disk s t body f full h k e =
      let r = store_file disk format_time s.sender s.recipients t body f in
      subst (λ text. Outcome disk text f (r.0, r.1))
        (sym (joined-concat (header_lines format_time s.sender s.recipients t) body)
          ∙ ap joined (header_lines-pieces s.sender s.recipients t body h k)
          ∙ joined-pieces format_time parse_time s.sender s.recipients t body)
        (store_file-Outcome disk full format_time s.sender s.recipients t body f e)
