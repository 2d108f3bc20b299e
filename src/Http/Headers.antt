-- ===== src/Http/Headers.antt =====
-- src/http.rs: the status line and the headers of a response.
use openfortivpn_rs.Common.{ℕ, ◌&&◌, not, Option, none, some, List, [], ◌∷◌, ◌==◌, if◌then◌else◌}
use openfortivpn_rs.Common.Bytes.{Bytes, codes}
use openfortivpn_rs.Common.Error.{
  Result, ok, err, ◌>>=◌, ◌>>◌, refuse_if, ok_or, OpenfortivpnError, http_protocol, text, str,
}
use openfortivpn_rs.Common.Text.{extend_first, parse_uint}
use openfortivpn_rs.Config.Settings.{Text}
use openfortivpn_rs.Config.Parse.{trim, split_once, starts_with}
use openfortivpn_rs.Http.{Headers}

-- `str::split`, by `\r\n`.
unfoldable pub split_crlf : Text → List Text
split_crlf [] = [] ∷ []
split_crlf (c ∷ []) = (c ∷ []) ∷ []
split_crlf (c ∷ d ∷ cs) =
    let apart = split_crlf cs in
    let rest = split_crlf (d ∷ cs) in if c == 13 && d == 10 then [] ∷ apart else extend_first c rest

abbrev malformed : Text → OpenfortivpnError
malformed line = http_protocol (text "malformed HTTP header: " ∷ str line ∷ [])

-- The loop over the lines, up to the first that is empty.
unfoldable pub parse_header_lines : List Text → Result Headers
parse_header_lines [] = ok []
parse_header_lines ([] ∷ lines) = ok []
parse_header_lines ((c ∷ cs) ∷ lines) = do
  (name, value) ← ok_or (split_once b':' (c ∷ cs)) (malformed (c ∷ cs))
  headers ← parse_header_lines lines
  ok ((trim name, trim value) ∷ headers)

-- `splitn(3, ' ')`: the version, the code and the reason.
abbrev reason_of : Option (Text × Text) → Text → Text × Text
reason_of none code = (code, [])
reason_of (some (code, reason)) rest = (code, reason)

abbrev status_parts : Option (Text × Text) → Text → Text × Option (Text × Text)
status_parts none line = (line, none)
status_parts (some (version, rest)) line = (version, some (reason_of (split_once b' ' rest) rest))

unfoldable pub parse_status_line : Text → Result (ℕ × Text)
parse_status_line line = do
  let parts = status_parts (split_once b' ' line) line
  refuse_if (not (starts_with (parts.0) (codes "HTTP/")))
      (http_protocol (text "status line does not start with HTTP/" ∷ []))
  (code, reason) ← ok_or (parts.1) (http_protocol (text "missing status code" ∷ []))
  status_code ← ok_or (parse_uint 65535 code) (http_protocol (text "invalid status code" ∷ []))
  ok (status_code, reason)

abbrev parse_lines : List Text → Result (ℕ × Text × Headers)
parse_lines [] = err (http_protocol (text "missing status line" ∷ []))
parse_lines (status_line ∷ lines) = do
  (status_code, reason) ← parse_status_line status_line
  headers ← parse_header_lines lines
  ok (status_code, reason, headers)

-- `from_utf8` reads the bytes, if they are UTF-8.
unfoldable pub parse_headers : (Bytes → Option Text) → Bytes → Result (ℕ × Text × Headers)
parse_headers from_utf8 raw_headers = do
  head ← ok_or (from_utf8 raw_headers) (http_protocol (text "headers are not valid UTF-8" ∷ []))
  parse_lines (split_crlf head)
