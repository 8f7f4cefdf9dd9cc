-- ===== src/Bench.antt =====
-- bench-go-smtp/main.go: the session of the benchmark's server, which stores each message like `Write`
-- of internal/postcat/postcat.go. The SMTP library that calls it is not part of the repository.
pub mod Agreement
use smtp_gateway.Base.{
  Bool, true, false, ◌||◌, Option, none, some, List, [], ◌∷◌, ◌++◌, map, is_nil, if◌then◌else◌,
  Bytes, codes, equal,
}
use smtp_gateway.Postcat.Files.{Disk, Folder, write_part}

-- `postcatSession`, without the directory.
pub record PostcatSession : Type 0 where
  pub sender : Bytes
  pub recipients : List Bytes
  pub body : Bytes

unfoldable pub mail : Bytes → PostcatSession → PostcatSession
mail from s = record s { sender = from }

unfoldable pub rcpt : Bytes → PostcatSession → PostcatSession
rcpt to s = record s { recipients = s.recipients ++ to ∷ [] }

unfoldable pub reset : PostcatSession → PostcatSession
reset s = record s { sender = []; recipients = []; body = [] }

abbrev pub sender_text : Bytes → Bytes
sender_text a = if is_nil a || equal a (codes "<>") then codes "<>" else a

abbrev pub recipient_line : Bytes → Bytes
recipient_line r = codes "R " ++ (r ++ b'\n' ∷ [])

-- The texts that `Data` writes before the body.
unfoldable pub header_lines : {T : Type 0} → (T → Bytes) → Bytes → List Bytes → T → List Bytes
unfolding equal
header_lines format_time from to t =
    (codes "S " ++ (sender_text from ++ b'\n' ∷ []))
    ∷ (map recipient_line to ++ (codes "T " ++ (format_time t ++ b'\n' ∷ [])) ∷ (b'\n' ∷ []) ∷ [])

module _ {W : Type 0} (disk : Disk W) where
  -- The writes whose errors are ignored.
  unfoldable pub write_header : List Bytes → Folder W → Folder W
  unfolding write_part
  write_header [] f = f
  write_header (p ∷ ps) f = write_header ps (write_part disk p f).1

  -- `Close` and `Rename`.
  unfoldable pub close_file : Folder W → Bool × Folder W
  close_file f =
      let (closed, w) = disk.close f.world in
      let (renamed, w') = disk.rename w in
      if closed
      then (if renamed
          then (true, record f { world = w'; temp = none; target = f.temp })
          else (false, record f { world = w' }))
      else (false, record f { world = w })

  -- Behind the write of the body, which closes the file if it fails.
  abbrev pub behind_body : Bool × Folder W → Bool × Folder W
  behind_body (true, f) = close_file f
  behind_body (false, f) = (let (closed, w) = disk.close f.world in (false, record f { world = w }))

  -- The deferred `os.Remove`; behind a rename there is no such file any more.
  unfoldable pub removed : Bool × Folder W → Bool × Folder W
  removed (ok, f) =
      let (gone, w) = disk.remove f.world in
      (ok, record f { world = w; temp = if gone then none else f.temp })

  module _ {T : Type 0} (format_time : T → Bytes) where
    -- The file that `Data` writes: whether it reports success.
    unfoldable pub store_file : Bytes → List Bytes → T → Bytes → Folder W → Bool × Folder W
    unfolding write_header write_part close_file removed header_lines
    store_file from to t body f =
        let (created, w) = disk.create_temp f.world in
        if created
        then removed (
            behind_body (
              write_part disk body (
                write_header (header_lines format_time from to t)
                  (record f { world = w; temp = some [] }))))
        else (false, record f { world = w })

    -- `Data`, with what `io.ReadAll` gives.
    unfoldable pub receive_data :
        Option Bytes → T → PostcatSession → Folder W → Bool × PostcatSession × Folder W
    unfolding store_file
    receive_data none t s f = (false, s, f)
    receive_data (some b) t s f =
        let (ok, f') = store_file s.sender s.recipients t b f in (ok, record s { body = b }, f')
