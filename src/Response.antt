-- ===== src/Response.antt =====
-- `Response` of gateway.go, and the responses that are named there.
use smtp_gateway.Base.{
  ℕ, zero, suc, ◌+◌, ◌≤◌, ◌<◌, arith, ◌/◌, ◌%◌, [], ◌∷◌, ◌++◌, ◌≡◌, refl, Bool, false, ◌==◌,
  if◌then◌else◌, Bytes, codes,
}
use smtp_gateway.Base.Int.{ℤ, pos, negsuc}

pub record Response : Type 0 where
  pub code : ℤ
  pub message : Bytes

-- The decimal digits of `n` before `out`. A digit is taken off each round, so `n` is fuel enough.
emit_digits : ℕ → ℕ → Bytes → Bytes
emit_digits zero n out = out
emit_digits (suc fuel) n out =
    let more = emit_digits fuel (n / 10) ((b'0' + n % 10) ∷ out) in if n == 0 then out else more

-- `%d`
unfoldable pub format_int : ℤ → Bytes
unfolding emit_digits
format_int (pos n) = if n == 0 then b'0' ∷ [] else emit_digits n n []
format_int (negsuc n) = b'-' ∷ emit_digits (suc n) (suc n) []

-- `String`
unfoldable pub string : Response → Bytes
unfolding format_int
string r = format_int r.code ++ (b' ' ∷ (r.message ++ b'\r' ∷ b'\n' ∷ []))

-- `MultiLine`
unfoldable pub multi_line : Response → Bytes
unfolding format_int
multi_line r = format_int r.code ++ (b'-' ∷ (r.message ++ b'\r' ∷ b'\n' ∷ []))

-- `Copy`
unfoldable pub copy : Response → Response
copy r = record { code = r.code; message = r.message }

abbrev pub is_ok : Response → Bool
is_ok r = elim r.code [ pos n ↦ n == 250 | negsuc n ↦ false ]

abbrev pub hello_ok : Response
hello_ok = record { code = pos 250; message = codes "OK" }

abbrev pub mail_ok : Response
mail_ok = record { code = pos 250; message = codes "2.1.0 OK" }

abbrev pub rcpt_ok : Response
rcpt_ok = record { code = pos 250; message = codes "2.1.5 OK" }

abbrev pub data_ok : Response
data_ok = record { code = pos 250; message = codes "2.0.0 OK" }

abbrev pub goodbye : Response
goodbye = record { code = pos 221; message = codes "2.0.0 Bye" }

abbrev pub start_mail : Response
start_mail = record { code = pos 354; message = codes "Go ahead" }

abbrev pub bad_seq : Response
bad_seq = record { code = pos 503; message = codes "5.5.1 Bad sequence of commands" }

abbrev pub sys_error : Response
sys_error = record { code = pos 451; message = codes "4.3.0 System error" }

abbrev pub vrfy_disabled : Response
vrfy_disabled = record { code = pos 252; message = codes "2.0.0 VRFY not supported" }

abbrev pub message_size : Response
message_size = record { code = pos 552; message = codes "5.3.4 Message size exceeds fixed limit" }

abbrev pub eight_bit : Response
eight_bit = record {
  code = pos 550;
  message = codes "5.6.3 Message contains 8-bit data but BODY=8BITMIME not specified";
}

string-data_ok : string data_ok ≡ codes "250 2.0.0 OK" ++ b'\r' ∷ b'\n' ∷ []
unfolding string
string-data_ok = refl

-- A code of three digits.
abbrev pub three : ℕ → Bytes
three n = (b'0' + n / 10 / 10 % 10) ∷ (b'0' + n / 10 % 10) ∷ (b'0' + n % 10) ∷ []

emit_digits-three :
    (k n : ℕ) → 100 ≤ n → n < 1000 → emit_digits (suc (suc (suc (suc k)))) n [] ≡ three n
unfolding emit_digits
emit_digits-three k n low high = ground arith

pub format_int-three : (n : ℕ) → 100 ≤ n → n < 1000 → format_int (pos n) ≡ three n
unfolding format_int
format_int-three zero low high = absurd (omega arith)
format_int-three (suc zero) low high = absurd (omega arith)
format_int-three (suc (suc zero)) low high = absurd (omega arith)
format_int-three (suc (suc (suc zero))) low high = absurd (omega arith)
format_int-three (suc (suc (suc (suc k)))) low high =
    ground (arith, emit_digits-three k (suc (suc (suc (suc k)))) low high)
