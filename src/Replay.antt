-- ===== src/Replay.antt =====
-- cmd/postcat-replay/main.go: what `sendBody` and `formatSender` send to a server. `Dialogue` has the
-- rest of the tool.
pub mod Body
pub mod Sender
pub mod Dialogue
use smtp_gateway.Base.{
  ℕ, Bool, ◌&&◌, List, [], ◌∷◌, ◌++◌, is_nil, ◌==◌, if◌then◌else◌, Bytes, codes, equal,
}
use smtp_gateway.Postcat.{format_null_sender, split_lines}

-- `strings.ReplaceAll` of CR LF by LF: each CR in front of an LF goes.
unfoldable pub replace_crlf : Bytes → Bytes
replace_crlf [] = []
replace_crlf (c ∷ []) = c ∷ []
replace_crlf (c ∷ d ∷ s) =
    let rest = replace_crlf (d ∷ s) in if c == b'\r' && d == b'\n' then rest else c ∷ rest

-- An empty last line is dropped.
unfoldable pub drop_last_empty : List Bytes → List Bytes
drop_last_empty [] = []
drop_last_empty (l ∷ []) = if is_nil l then [] else l ∷ []
drop_last_empty (l ∷ m ∷ ls) = l ∷ drop_last_empty (m ∷ ls)

unfoldable pub body_lines : Bytes → List Bytes
unfolding replace_crlf drop_last_empty split_lines
body_lines body = drop_last_empty (split_lines (replace_crlf body))

-- One line, with the dot in front of a dot, and its ending.
unfoldable pub send_line : Bytes → Bytes
send_line [] = b'\r' ∷ b'\n' ∷ []
send_line (c ∷ l) = (if c == b'.' then b'.' ∷ c ∷ l else c ∷ l) ++ b'\r' ∷ b'\n' ∷ []

unfoldable pub send_lines : List Bytes → Bytes
unfolding send_line
send_lines [] = b'.' ∷ b'\r' ∷ b'\n' ∷ []
send_lines (l ∷ ls) = send_line l ++ send_lines ls

-- What `sendBody` writes, if no write fails.
unfoldable pub send_body : Bytes → Bytes
unfolding send_lines body_lines
send_body body = send_lines (body_lines body)

-- `formatSender`
unfoldable pub format_sender : Bytes → Bytes
unfolding format_null_sender equal
format_sender sender =
    let s = format_null_sender sender in
    if equal s (codes "<>") then codes "<>" else codes "<" ++ (s ++ codes ">")
