-- ===== src/Http/Tests.antt =====
-- The theorems on src/http.rs at a concrete response and text.
use openfortivpn_rs.Common.{some, ◌++◌, ◌≡◌, List, [], ◌∷◌, All, map, arith, refl}
use openfortivpn_rs.Common.Bytes.{Bytes, codes, equal}
use openfortivpn_rs.Common.Error.{ok, ◌>>◌, refuse_if, permission_denied}
use openfortivpn_rs.Common.Text.{parse_uint, parse_digits}
use openfortivpn_rs.Config.Parse.{starts_with, split_once, trim_start, trim_end}
use openfortivpn_rs.Strings.{find}
use openfortivpn_rs.Http.{Headers, header_value}
use openfortivpn_rs.Http.Encode.{url_encode, url_decode, IsSafe, url_decode-url_encode}
use openfortivpn_rs.Http.Headers.{split_crlf, parse_header_lines, parse_status_line, parse_headers}
use openfortivpn_rs.Http.Receive.{
  header_terminator, contains_permission_denied_marker, http_receive,
}
use openfortivpn_rs.Http.Framing.{http_receive_pieces}

abbrev crlf : Bytes
crlf = 13 ∷ 10 ∷ []

abbrev head : Bytes
head = codes "HTTP/1.1 200 OK" ++ (crlf ++ (codes "content-length: 2" ++ (crlf ++ crlf)))

abbrev pieces : List Bytes
pieces =
    codes "HTTP/1.1 200 OK"
    ∷ crlf
    ∷ (codes "content-length: 2" ++ (13 ∷ []))
    ∷ (10 ∷ 13 ∷ 10 ∷ codes "o")
    ∷ codes "k!"
    ∷ []

abbrev headers : Headers
headers = (codes "content-length", codes "2") ∷ []

found_end : find (head ++ codes "ok!") header_terminator ≡ some 34
unfolding find starts_with
found_end = refl

parsed : parse_headers some head ≡ ok (200, codes "OK", headers)
unfolding parse_headers split_crlf parse_header_lines parse_status_line starts_with split_once
    parse_uint parse_digits trim_start trim_end
parsed = refl

length_value : header_value headers (codes "Content-Length") ≡ some (codes "2")
unfolding header_value equal
length_value = refl

length_read : parse_uint 18446744073709551615 (codes "2") ≡ some 2
unfolding parse_uint parse_digits
length_read = refl

http_receive_pieces_example : http_receive some (map ok pieces) ≡ (
    refuse_if (contains_permission_denied_marker (codes "ok")) permission_denied
    >> ok (record { status_code = 200; reason = codes "OK"; headers = headers; body = codes "ok" }))
http_receive_pieces_example =
    http_receive_pieces some pieces head (codes "ok!") 34 2 200 (codes "OK") (codes "2") headers
      (ground arith) refl found_end refl (omega arith) parsed length_value
      (unfold trim_start trim_end in length_read) (omega arith)

url_decode-url_encode_example :
    (url_decode (url_encode (codes "a b")) ≡ some (codes "a b"))
    × All IsSafe (url_encode (codes "a b"))
url_decode-url_encode_example = url_decode-url_encode (codes "a b") (ground arith)
