-- ===== src/Postcat/Files/Atomic.antt =====
-- What `Write` of internal/postcat/postcat.go leaves on the disk.
use mathlib.Core.Path.{subst}
use smtp_gateway.Postcat.{
  sanitize_addr, format_null_sender, recipient_records, write_envelope, format_envelope,
}
use smtp_gateway.Base.{
  codes, map, joined, ap, sym, ◌∙◌, ℕ, ◌≡◌, refl, Bool, true, false, Option, none, some, List, [],
  ◌∷◌, ◌++◌, take, append_assoc, append-nil, arith, Bytes, if◌then◌else◌,
}
use smtp_gateway.Postcat.Files.{
  Disk, Folder, added, write_part, write_parts, clean_up, publish, finish, behind_parts, write_file,
  recipient_piece, pieces, write_message,
}

module _ {W : Type 0} (disk : Disk W) where
  -- What the writes leave: the file at the path as it was, and all of the text if none failed.
  abbrev Writes : Bytes → Folder W → Bool × Folder W → Type 0
  Writes text f (true, f') = (f'.target ≡ f.target) × (f'.temp ≡ some text)
  Writes text f (false, f') = f'.target ≡ f.target

  write_part-Writes :
      (old p : Bytes) (f : Folder W) → f.temp ≡ some old → Writes (old ++ p) f (write_part disk p f)
  unfolding write_part
  write_part-Writes old p f e = outcome (disk.write f.world p).0 (disk.write f.world p).1
    where
      outcome :
          (failed : Option ℕ) (w : W)
          → Writes (old ++ p) f (elim failed [
            | none ↦ (true, record f { world = w; temp = added disk f.temp p })
            | some n ↦ (false, record f { world = w; temp = added disk f.temp (take n p) })
          ])
      outcome none w = (refl, rw e)
      outcome (some n) w = refl

  then_Writes :
      (text : Bytes) (f : Folder W) (c rest : Bool × Folder W)
      → c.1.target ≡ f.target
      → (c.0 ≡ true → Writes text c.1 rest)
      → Writes text f (if c.0 then rest else (false, c.1))
  then_Writes text f (true, g) (true, g') e h = ((h refl).0 ∙ e, (h refl).1)
  then_Writes text f (true, g) (false, g') e h = h refl ∙ e
  then_Writes text f (false, g) rest e h = e

  target_of_Writes :
      (text : Bytes) (f : Folder W) (c : Bool × Folder W) → Writes text f c → c.1.target ≡ f.target
  target_of_Writes text f (true, g) h = h.0
  target_of_Writes text f (false, g) h = h

  temp_of_Writes :
      (text : Bytes) (f : Folder W) (c : Bool × Folder W)
      → Writes text f c
      → c.0 ≡ true
      → c.1.temp ≡ some text
  temp_of_Writes text f (true, g) h e = h.1
  temp_of_Writes text f (false, g) h e = absurd (ground arith)

  write_parts-Writes :
      (ps : List Bytes) (old : Bytes) (f : Folder W)
      → f.temp ≡ some old
      → Writes (old ++ joined ps) f (write_parts disk ps f)
  unfolding write_parts
  write_parts-Writes [] old f e = (refl, e ∙ ap some (sym (append-nil old)))
  write_parts-Writes (p ∷ ps) old f e =
      let c : Bool × Folder W = write_part disk p f in
      let h = write_part-Writes old p f e in
      then_Writes (old ++ (p ++ joined ps)) f c (write_parts disk ps c.1)
        (target_of_Writes (old ++ p) f c h)
        (λ k.
          subst (λ text. Writes text c.1 (write_parts disk ps c.1)) (append_assoc old p (joined ps))
            (write_parts-Writes ps (old ++ p) c.1 (temp_of_Writes (old ++ p) f c h k)))

  regard :
      (text : Bytes) (g f : Folder W)
      → g.target ≡ f.target
      → (c : Bool × Folder W) → Writes text g c
      → Writes text f c
  regard text g f e (true, h) w = (w.0 ∙ e, w.1)
  regard text g f e (false, h) w = w ∙ e

  -- What `Write` leaves.
  abbrev pub Outcome : Bytes → Folder W → Bool × Folder W → Type 0
  Outcome text f (true, f') = (f'.target ≡ some text) × (f'.temp ≡ none)
  Outcome text f (false, f') =
      (f'.target ≡ f.target) × (((w : W) → (disk.remove w).0 ≡ true) → f'.temp ≡ none)

  finish-Outcome :
      (text : Bytes) (f : Folder W) (c : Bool × Folder W)
      → (c.0 ≡ true → (c.1.target ≡ some text) × (c.1.temp ≡ none))
      → (c.0 ≡ false → c.1.target ≡ f.target)
      → Outcome text f (finish disk c)
  unfolding clean_up
  finish-Outcome text f (true, g) h k = h refl
  finish-Outcome text f (false, g) h k = (k refl, λ r. rw (r (disk.close g.world).1))

  publish-kept : (g : Folder W) → (publish disk g).0 ≡ false → (publish disk g).1.target ≡ g.target
  unfolding publish
  publish-kept g e = ground arith

  publish-moved :
      (g : Folder W)
      → (publish disk g).0 ≡ true
      → ((publish disk g).1.target ≡ g.temp) × ((publish disk g).1.temp ≡ none)
  unfolding publish
  publish-moved g e = ground arith

  written-Outcome :
      (text : Bytes) (f : Folder W) (c : Bool × Folder W)
      → Writes text f c
      → Outcome text f (finish disk (behind_parts disk c))
  written-Outcome text f (true, g) h =
      finish-Outcome text f (publish disk g)
        (λ k. (let (moved, gone) = publish-moved g k in (moved ∙ h.1, gone)))
        (λ k. publish-kept g k ∙ h.0)
  written-Outcome text f (false, g) h =
      finish-Outcome text f (false, g) (λ k. absurd (ground arith)) (λ k. h)

  write_file-Outcome :
      (parts : List Bytes) (f : Folder W)
      → f.temp ≡ none
      → Outcome (joined parts) f (write_file disk parts f)
  unfolding write_file
  write_file-Outcome parts f e = created (disk.create_temp f.world).0 (disk.create_temp f.world).1
    where
      created :
          (ok : Bool) (w : W)
          → Outcome (joined parts) f (
              if ok
              then finish disk (
                  behind_parts disk
                    (write_parts disk parts (record f { world = w; temp = some [] })))
              else (false, record f { world = w }))
      created true w =
          let g : Folder W = record f { world = w; temp = some [] } in
          written-Outcome (joined parts) f (write_parts disk parts g) (
            regard (joined parts) g f refl (write_parts disk parts g)
              (write_parts-Writes parts [] g refl))
      created false w = (refl, λ r. e)

module _ {T : Type 0} (format_time : T → Bytes) (parse_time : Bytes → Option T) where
  joined-recipients :
      (rs : List Bytes) (ps : List Bytes)
      → joined (map (recipient_piece format_time parse_time) rs ++ ps)
        ≡ recipient_records format_time parse_time rs ++ joined ps
  unfolding recipient_records
  joined-recipients [] ps = refl
  joined-recipients (r ∷ rs) ps =
      let more : Bytes = recipient_records format_time parse_time rs in
      let s : Bytes = sanitize_addr r in
      ap (λ x. recipient_piece format_time parse_time r ++ x) (joined-recipients rs ps)
      ∙ ap (λ x. codes "R " ++ x)
          (append_assoc s (b'\n' ∷ []) (more ++ joined ps)
            ∙ sym (append_assoc s (b'\n' ∷ more) (joined ps)))

  joined-end :
      (text body : Bytes)
      → joined ((codes "T " ++ (text ++ b'\n' ∷ [])) ∷ (b'\n' ∷ []) ∷ body ∷ [])
        ≡ (codes "T " ++ (text ++ (b'\n' ∷ b'\n' ∷ []))) ++ body
  joined-end text body =
      ap (λ x. codes "T " ++ x)
        (append_assoc text (b'\n' ∷ []) (b'\n' ∷ (body ++ []))
          ∙ ap (λ x. text ++ (b'\n' ∷ b'\n' ∷ x)) (append-nil body)
          ∙ sym (append_assoc text (b'\n' ∷ b'\n' ∷ []) body))

  -- `Write` writes what `FormatEnvelope` returns.
  pub joined-pieces :
      (mail_from : Bytes) (accepted : List Bytes) (t : T) (body : Bytes)
      → joined (pieces format_time parse_time mail_from accepted t body)
        ≡ format_envelope format_time parse_time mail_from accepted t body
  unfolding format_envelope write_envelope
  joined-pieces mail_from accepted t body =
      let s : Bytes = sanitize_addr (format_null_sender mail_from) in
      let rs : Bytes = recipient_records format_time parse_time accepted in
      let end : Bytes = codes "T " ++ (format_time t ++ (b'\n' ∷ b'\n' ∷ [])) in
      ap (λ x. codes "S " ++ ((s ++ b'\n' ∷ []) ++ x))
        (joined-recipients accepted _ ∙ ap (λ x. rs ++ x) (joined-end (format_time t) body))
      ∙ ap (λ x. codes "S " ++ x)
          (append_assoc s (b'\n' ∷ []) (rs ++ (end ++ body))
            ∙ ap (λ x. s ++ (b'\n' ∷ x)) (sym (append_assoc rs end body))
            ∙ sym (append_assoc s (b'\n' ∷ (rs ++ end)) body))

  module _ {W : Type 0} (disk : Disk W) where
    -- `Write` is atomic, whichever of its operations fail, and after however many bytes: if it
    -- reports success, the file at the path holds the text of `FormatEnvelope` and there is no
    -- temporary file; if it reports an error, the file at the path is as it was, and if the disk
    -- can remove files, no temporary file is left. Before, there is no temporary file.
    pub write_message-Outcome :
        (mail_from : Bytes) (accepted : List Bytes) (t : T) (body : Bytes) (f : Folder W)
        → f.temp ≡ none
        → Outcome disk
            (format_envelope format_time parse_time mail_from accepted t body)
            f
            (write_message format_time parse_time disk mail_from accepted t body f)
    unfolding write_message
    write_message-Outcome mail_from accepted t body f e =
        let ps : List Bytes = pieces format_time parse_time mail_from accepted t body in
        subst (λ text. Outcome disk text f (write_file disk ps f))
          (joined-pieces mail_from accepted t body) (write_file-Outcome disk ps f e)
