-- ===== src/Postcat/Files.antt =====
-- `Write` of internal/postcat/postcat.go as a sequence of file operations, each of which may fail.
pub mod Atomic
use mathlib.Core.Path.{subst}
use smtp_gateway.Postcat.{
  sanitize_addr, format_null_sender, recipient_records, write_envelope, format_envelope,
}
use smtp_gateway.Base.{
  codes, map, joined, ap, sym, ◌∙◌, ℕ, ◌≡◌, ◌⊎◌, inl, inr, refl, Bool, true, false, Option, none,
  some, List, [], ◌∷◌, ◌++◌, take, append_assoc, append-nil, arith, Bytes, if◌then◌else◌,
}

-- The disk: whether an operation succeeds, and for a write how many bytes are written if it fails.
pub record Disk (W : Type 0) : Type 0 where
  pub create_temp : W → Bool × W
  pub write : W → Bytes → Option ℕ × W
  pub sync : W → Bool × W
  pub close : W → Bool × W
  pub rename : W → Bool × W
  pub remove : W → Bool × W

-- The directory, as far as `Write` changes it: the temporary file and the file at the path, by what
-- they hold.
pub record Folder (W : Type 0) : Type 0 where
  pub world : W
  pub temp : Option Bytes
  pub target : Option Bytes

module _ {W : Type 0} (disk : Disk W) where
  abbrev pub added : Option Bytes → Bytes → Option Bytes
  added none text = none
  added (some old) text = some (old ++ text)

  -- One write to the temporary file: whether all was written.
  unfoldable pub write_part : Bytes → Folder W → Bool × Folder W
  write_part text f =
      let (failed, w) = disk.write f.world text in
      elim failed [
        | none ↦ (true, record f { world = w; temp = added f.temp text })
        | some n ↦ (false, record f { world = w; temp = added f.temp (take n text) })
      ]

  -- The writes of the records, and of the body.
  unfoldable pub write_parts : List Bytes → Folder W → Bool × Folder W
  write_parts [] f = (true, f)
  write_parts (p ∷ ps) f =
      let (ok, f') = write_part p f in
      let rest = write_parts ps f' in if ok then rest else (false, f')

  -- The deferred function: the temporary file is closed and removed, if the disk lets it.
  unfoldable pub clean_up : Folder W → Folder W
  clean_up f =
      let (closed, w) = disk.close f.world in
      let (removed, w') = disk.remove w in
      record f { world = w'; temp = if removed then none else f.temp }

  -- `Sync`, `Close` and `Rename`, each of which ends `Write` with an error if it fails.
  unfoldable pub publish : Folder W → Bool × Folder W
  publish f =
      let (synced, w) = disk.sync f.world in
      let (closed, w') = disk.close w in
      let (renamed, w'') = disk.rename w' in
      if synced
      then (if closed
          then (if renamed
              then (true, record f { world = w''; temp = none; target = f.temp })
              else (false, record f { world = w'' }))
          else (false, record f { world = w' }))
      else (false, record f { world = w })

  abbrev pub finish : Bool × Folder W → Bool × Folder W
  finish (true, f) = (true, f)
  finish (false, f) = (false, clean_up f)

  abbrev pub behind_parts : Bool × Folder W → Bool × Folder W
  behind_parts (true, f) = publish f
  behind_parts (false, f) = (false, f)

  -- `Write` of a text in so many writes: whether it reports success.
  unfoldable pub write_file : List Bytes → Folder W → Bool × Folder W
  write_file parts f =
      let (created, w) = disk.create_temp f.world in
      if created
      then finish (behind_parts (write_parts parts (record f { world = w; temp = some [] })))
      else (false, record f { world = w })

module _ {T : Type 0} (format_time : T → Bytes) (parse_time : Bytes → Option T) where
  abbrev pub recipient_piece : Bytes → Bytes
  recipient_piece r = codes "R " ++ (sanitize_addr r ++ b'\n' ∷ [])

  -- The writes of `writeEnvelope`, and that of the body.
  abbrev pub pieces : Bytes → List Bytes → T → Bytes → List Bytes
  pieces mail_from accepted t body =
      (codes "S " ++ (sanitize_addr (format_null_sender mail_from) ++ b'\n' ∷ []))
      ∷ (map recipient_piece accepted
          ++ (codes "T " ++ (format_time t ++ b'\n' ∷ [])) ∷ (b'\n' ∷ []) ∷ body ∷ [])

  module _ {W : Type 0} (disk : Disk W) where
    -- `Write` of a message that is accepted at the time `t`: whether it reports success.
    unfoldable pub write_message : Bytes → List Bytes → T → Bytes → Folder W → Bool × Folder W
    unfolding write_file
    write_message mail_from accepted t body f = write_file disk (pieces mail_from accepted t body) f
