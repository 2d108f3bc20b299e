-- ===== src/Http/Receive.antt =====
-- src/http.rs: receiving a response.
use openfortivpn_rs.Common.{
  ℕ, ◌+◌, ◌-◌, ◌*◌, ◌^◌, ◌||◌, Bool, false, Option, none, some, List, [], ◌∷◌, ◌++◌, map, ltb,
  if◌then◌else◌, length, take, drop,
}
use openfortivpn_rs.Common.Bytes.{Bytes, codes, equal}
use openfortivpn_rs.Common.Error.{
  Result, ok, err, ◌>>=◌, ◌>>◌, refuse_if, OpenfortivpnError, http_protocol, permission_denied,
  text,
}
use openfortivpn_rs.Common.Text.{parse_uint}
use openfortivpn_rs.Config.Settings.{Text}
use openfortivpn_rs.Config.Parse.{trim, to_ascii_lowercase}
use openfortivpn_rs.Strings.{find, contains}
use openfortivpn_rs.Http.{HttpResponse, Headers, header_value}
use openfortivpn_rs.Http.Headers.{parse_headers}

abbrev pub Reader : Type 0
Reader = List (Result Bytes)

abbrev pub max_header_size : ℕ
max_header_size = 64 * 1024

abbrev pub header_terminator : Bytes
header_terminator = 13 ∷ 10 ∷ 13 ∷ 10 ∷ []

-- The first window of the haystack that is the needle.
abbrev pub find_bytes : Bytes → Bytes → Option ℕ
find_bytes haystack needle = find haystack needle

-- A read, and what is done with the bytes; no bytes mean that the connection is closed.
abbrev pub read_then {ℓ} :
    {A : Type ℓ} → OpenfortivpnError → Result Bytes → (Bytes → Result A) → Result A
read_then closed (err e) next = err e
read_then closed (ok []) next = err closed
read_then closed (ok (b ∷ bytes)) next = next (b ∷ bytes)

abbrev pub headers_closed : OpenfortivpnError
headers_closed = http_protocol (text "connection closed before HTTP headers were complete" ∷ [])

abbrev headers_too_large : OpenfortivpnError
headers_too_large = http_protocol (text "HTTP headers exceed maximum size" ∷ [])

abbrev pub Complete : Type 0
Complete = ℕ × Bytes × Reader

-- The end of the headers in the buffer, or `next`.
abbrev pub headers_end : Option ℕ → Bytes → Reader → Result Complete → Result Complete
headers_end (some header_end) buffer reader next = ok (header_end + 4, buffer, reader)
headers_end none buffer reader next =
    if ltb max_header_size (length buffer) then err headers_too_large else next

unfoldable pub read_until_headers_complete : Reader → Bytes → Result Complete
read_until_headers_complete [] buffer =
    headers_end (find_bytes buffer header_terminator) buffer [] (err headers_closed)
read_until_headers_complete (answer ∷ reader) buffer =
    headers_end (find_bytes buffer header_terminator) buffer (answer ∷ reader) (
      read_then headers_closed answer λ bytes. read_until_headers_complete reader (buffer ++ bytes))

abbrev pub body_closed : OpenfortivpnError
body_closed = http_protocol (text "connection closed before full HTTP body was received" ∷ [])

-- The loop up to `expected` bytes.
unfoldable pub read_body : Reader → Bytes → ℕ → Result Bytes
read_body [] body expected = if ltb (length body) expected then err body_closed else ok body
read_body (answer ∷ reader) body expected =
    if ltb (length body) expected
    then read_then body_closed answer (λ bytes. read_body reader (body ++ bytes) expected)
    else ok body

abbrev chunked_closed : OpenfortivpnError
chunked_closed = http_protocol (text "connection closed before chunked HTTP body ended" ∷ [])

unfoldable pub chunked_body_end : Bytes → Option ℕ
chunked_body_end body = elim (find_bytes body (13 ∷ 10 ∷ 48 ∷ 13 ∷ 10 ∷ [])) [
  | none ↦ none
  | some marker ↦
      let end = marker + 5 in
      if equal (take 2 (drop end body)) (13 ∷ 10 ∷ []) then some (end + 2) else some end
]

abbrev chunked_end : Option ℕ → Bytes → Result Bytes → Result Bytes
chunked_end (some end) body next = ok (take end body)
chunked_end none body next = next

unfoldable pub read_chunked : Reader → Bytes → Result Bytes
read_chunked [] body = chunked_end (chunked_body_end body) body (err chunked_closed)
read_chunked (answer ∷ reader) body =
    chunked_end (chunked_body_end body) body
      (read_then chunked_closed answer λ bytes. read_chunked reader (body ++ bytes))

abbrev is_chunked : Option Text → Bool
is_chunked none = false
is_chunked (some value) = contains (map to_ascii_lowercase value) (codes "chunked")

unfoldable pub contains_permission_denied_marker : Bytes → Bool
contains_permission_denied_marker body =
    contains body (codes "<!--sslvpnerrmsgkey=sslvpn_login_permission_denied-->")
    || (contains body (codes "permission_denied denied")
        || contains body (codes "Permission denied"))

-- The body, by the headers; `body` came with them.
unfoldable pub receive_body : Headers → Reader → Bytes → Result Bytes
receive_body headers reader body = elim (header_value headers (codes "Content-Length")) [
  | some content_length ↦ elim (parse_uint (2 ^ 64 - 1) (trim content_length)) [
    | none ↦ err (http_protocol (text "invalid Content-Length" ∷ []))
    | some expected ↦ read_body reader body expected >>= λ whole. ok (take expected whole)
  ]
  | none ↦
      if is_chunked (header_value headers (codes "Transfer-Encoding"))
      then read_chunked reader body
      else ok body
]

unfoldable pub http_receive : (Bytes → Option Text) → Reader → Result HttpResponse
http_receive from_utf8 reader = do
  (header_end, buffer, reader') ← read_until_headers_complete reader []
  (status_code, reason, headers) ← parse_headers from_utf8 (take header_end buffer)
  body ← receive_body headers reader' (drop header_end buffer)
  refuse_if (contains_permission_denied_marker body) permission_denied
  ok (record { status_code = status_code; reason = reason; headers = headers; body = body })
