-- ===== src/Pinentry.antt =====
-- src/pinentry.rs: a password from the pinentry program. Texts are UTF-8 bytes; the lines that the
-- program prints, each with its end, are given in advance.
pub mod RoundTrip
mod Tests
use openfortivpn_rs.Common.{
  ℕ, ◌+◌, ◌-◌, ◌*◌, ◌/◌, ◌^◌, bit_and, ◌&&◌, ◌||◌, Bool, true, false, Option, none, some, List, [],
  ◌∷◌, ◌++◌, ltb, leb, ◌==◌, if◌then◌else◌,
}
use openfortivpn_rs.Common.Bytes.{Bytes, codes, equal}
use openfortivpn_rs.Common.Error.{Result, ok, err, ◌>>=◌, OpenfortivpnError, auth, text, str}
use openfortivpn_rs.Common.Text.{is_digit, is_utf8}
use openfortivpn_rs.Config.Parse.{trim, split_once}
use openfortivpn_rs.Strings.{strip_prefix}
use openfortivpn_rs.Http.Encode.{is_unreserved, hex}

unfoldable pub uri_escape : Bytes → Bytes
uri_escape [] = []
uri_escape (byte ∷ value) =
    let rest = uri_escape value in
    if is_unreserved byte
    then byte ∷ rest
    else b'%' ∷ hex (byte / 16) ∷ hex (bit_and byte 0x0f) ∷ rest

abbrev pub hex_value : ℕ → Option ℕ
hex_value byte =
    if is_digit byte
    then some (byte - b'0')
    else if leb b'a' byte && leb byte b'f'
    then some (byte - b'a' + 10)
    else if leb b'A' byte && leb byte b'F'
    then some (byte - b'A' + 10)
    else none

abbrev pair : Option ℕ → Option ℕ → Option ℕ
pair none low = none
pair (some high) none = none
pair (some high) (some low) = some (high * 16 + low)

abbrev pub decode_hex_pair : ℕ → ℕ → Option ℕ
decode_hex_pair high low = pair (hex_value high) (hex_value low)

abbrev pub decoded : Option ℕ → Bytes → Bytes → Bytes
decoded none rest others = rest
decoded (some byte) rest others = byte ∷ others

-- The loop. A `%` with fewer than two bytes behind it stands for itself.
unfoldable pub unescape_loop : Bytes → Bytes
unescape_loop [] = []
unescape_loop (a ∷ []) = a ∷ []
unescape_loop (a ∷ b ∷ []) = a ∷ unescape_loop (b ∷ [])
unescape_loop (a ∷ b ∷ c ∷ rest) =
    let plain = a ∷ unescape_loop (b ∷ c ∷ rest) in
    let doubled = b'%' ∷ unescape_loop (c ∷ rest) in
    let others = unescape_loop rest in
    if a == b'%'
    then (if b == b'%' then doubled else decoded (decode_hex_pair b c) plain others)
    else plain

unfoldable pub uri_unescape : Bytes → Result Bytes
uri_unescape value =
    let out = unescape_loop value in
    if is_utf8 out then ok out else err (auth (text "pinentry returned invalid UTF-8 data" ∷ []))

-- `trim_end_matches`, of `\r` and `\n`.
abbrev pub keep_unless_end : ℕ → Bytes → Bytes
keep_unless_end c [] = if c == 13 || c == 10 then [] else c ∷ []
keep_unless_end c (d ∷ rest) = c ∷ d ∷ rest

unfoldable pub trim_line_end : Bytes → Bytes
trim_line_end [] = []
trim_line_end (c ∷ cs) = keep_unless_end c (trim_line_end cs)

abbrev returned_error : Bytes → OpenfortivpnError
returned_error detail = auth (text "pinentry returned error: " ∷ str detail ∷ [])

abbrev error_detail : Option (Bytes × Bytes) → Bytes → Result Bytes
error_detail none value = ok value
error_detail (some (code, detail)) value = uri_unescape detail

abbrev as_failure : Result Bytes → Result (Option Bytes)
as_failure (err e) = err e
as_failure (ok detail) = err (returned_error detail)

-- The tests of the line's first word, in order; `none` goes on with the next.
abbrev given : Option Bytes → Result (Option Bytes) → Result (Option Bytes)
given none next = next
given (some value) next = uri_unescape value >>= λ answer. ok (some answer)

abbrev failed_with : Option Bytes → Result (Option Bytes) → Result (Option Bytes)
failed_with none next = next
failed_with (some value) next = as_failure (error_detail (split_once b' ' value) value)

abbrev status_error : Option Bytes → Result (Option Bytes) → Result (Option Bytes)
status_error none next = next
status_error (some value) next = err (returned_error (trim value))

unfoldable pub parse_response : Bytes → Result (Option Bytes)
parse_response line =
    if equal line (codes "OK")
    then ok none
    else given (strip_prefix line (codes "OK ")) (
        given (strip_prefix line (codes "D ")) (
          failed_with (strip_prefix line (codes "ERR ")) (
            status_error (strip_prefix line (codes "S ERROR"))
              (err (auth (text "pinentry protocol error: " ∷ str line ∷ []))))))

-- The lines to come, what was written, and whether the program was killed.
pub record Child : Type 0 where
  pub stdout : List Bytes
  pub stdin : List Bytes
  pub killed : Bool

abbrev after_line : Result (Option Bytes) → Child → Result (Option Bytes) × Child
after_line (ok answer) child = (ok answer, child)
after_line (err e) child = (err e, record child { killed = true })

-- A response; an error kills the program, as each caller does.
unfoldable pub read_pinentry_response : Child → Result (Option Bytes) × Child
read_pinentry_response child = elim (child.stdout) [
  | [] ↦ after_line (err (auth (text "short read from pinentry" ∷ []))) child
  | line ∷ lines ↦
      after_line (parse_response (trim_line_end line)) (record child { stdout = lines })
]

unfoldable pub exchange : Bytes → Child → Result (Option Bytes) × Child
exchange command child =
    read_pinentry_response (record child { stdin = child.stdin ++ command ∷ [] })

abbrev pub and_then :
    {A B : Type 0} → Result A × Child → (A → Child → Result B × Child) → Result B × Child
and_then (err e, child) next = (err e, child)
and_then (ok a, child) next = next a child

abbrev unwrap_or_default : Option Bytes → Bytes
unwrap_or_default none = []
unwrap_or_default (some value) = value

-- `wait_for_child`, with the status that the program ends with.
abbrev wait_for_child : Bool → Bytes → Child → Result Bytes × Child
wait_for_child true password child = (ok password, child)
wait_for_child false password child = (err (auth (text "pinentry exited with status" ∷ [])), child)

-- A program that started, and ends with success or not.
unfoldable pub read_password : Bytes → Bytes → Bool → Child → Result Bytes × Child
read_password hint prompt success child = and_then (read_pinentry_response child) λ _ child.
    and_then (exchange (codes "SETTITLE VPN Password" ++ 10 ∷ []) child) λ _ child.
      and_then (exchange (codes "SETDESC VPN Requires a Password" ++ 10 ∷ []) child) λ _ child.
        and_then (exchange (codes "SETKEYINFO " ++ (uri_escape hint ++ 10 ∷ [])) child) λ _ child.
          and_then (exchange (codes "SETPROMPT " ++ (uri_escape prompt ++ 10 ∷ [])) child)
            λ _ child.
              and_then (exchange (codes "GETPIN" ++ 10 ∷ []) child)
                λ answer child. wait_for_child success (unwrap_or_default answer) child
