-- ===== src/Http.antt =====
-- src/http.rs: requests and responses. A reader is the list of what it answers to reads, and a reader
-- without a further answer is closed.
pub mod Cookies
pub mod Encode
pub mod Headers
pub mod Receive
pub mod Framing
mod Tests
use openfortivpn_rs.Common.{
  ℕ, zero, suc, ◌+◌, ◌/◌, Bool, true, false, ◌&&◌, ◌||◌, Option, none, some, List, [], ◌∷◌, ◌++◌,
  map, ltb, ◌==◌, if◌then◌else◌, length,
}
use openfortivpn_rs.Common.Bytes.{Bytes, codes, equal}
use openfortivpn_rs.Config.Settings.{Text}
use openfortivpn_rs.Config.Parse.{to_ascii_lowercase}
use openfortivpn_rs.Strings.{same_ignoring_case}
use openfortivpn_rs.NetPlan.{digit}

abbrev pub Headers : Type 0
Headers = List (Text × Text)

pub record HttpResponse : Type 0 where
  pub status_code : ℕ
  pub reason : Text
  pub headers : Headers
  pub body : Bytes

-- The first header of a name, whatever the case of its letters.
unfoldable pub header_value : Headers → Text → Option Text
header_value [] name = none
header_value ((key, value) ∷ headers) name =
    let rest = header_value headers name in if same_ignoring_case key name then some value else rest

-- All of them.
unfoldable pub header_values : Headers → Text → List Text
header_values [] name = []
header_values ((key, value) ∷ headers) name =
    let rest = header_values headers name in
    if same_ignoring_case key name then value ∷ rest else rest

abbrev pub header : HttpResponse → Text → Option Text
header response name = header_value (response.headers) name

abbrev pub unwrap_or : Option Text → Text → Text
unwrap_or none default = default
unwrap_or (some value) default = value

abbrev is_managed_request_header : Text → Bool
is_managed_request_header name =
    let lower = map to_ascii_lowercase name in
    equal lower (codes "user-agent")
    || (equal lower (codes "content-type")
        || (equal lower (codes "cookie") || equal lower (codes "content-length")))

abbrev crlf : Text
crlf = 13 ∷ 10 ∷ []

unfoldable pub other_headers : Headers → Text
other_headers [] = []
other_headers ((name, value) ∷ headers) =
    let rest = other_headers headers in
    if is_managed_request_header name
    then rest
    else name ++ (codes ": " ++ (value ++ (crlf ++ rest)))

-- A number in a formatted text, of at most 20 digits.
unfoldable pub decimal : ℕ → ℕ → Text
decimal zero n = []
decimal (suc fuel) n =
    let front = decimal fuel (n / 10) in if ltb n 10 then digit n ∷ [] else front ++ digit n ∷ []

unfoldable pub http_head : Text → Text → Text → Headers → ℕ → Text
http_head host method path headers body_len =
    let user_agent =
      unwrap_or (header_value headers (codes "User-Agent")) (codes "openfortivpn-rs") in
    let content_type =
      unwrap_or (header_value headers (codes "Content-Type"))
        (codes "application/x-www-form-urlencoded") in
    let cookie = unwrap_or (header_value headers (codes "Cookie")) [] in
    method
    ++ (codes " "
        ++ (path
            ++ (codes " HTTP/1.1"
                ++ (crlf
                    ++ (codes "Host: "
                        ++ (host
                            ++ (crlf
                                ++ (codes "User-Agent: "
                                    ++ (user_agent
                                        ++ (crlf
                                            ++ (codes "Accept: */*"
                                                ++ (crlf
                                                    ++ (codes "Accept-Encoding: identity"
                                                        ++ (crlf
                                                            ++ (codes "Pragma: no-cache"
                                                            ++ (crlf
                                                            ++ (codes
                                                            "Cache-Control: no-store, no-cache, must-revalidate"
                                                            ++ (crlf
                                                            ++ (codes
                                                            "If-Modified-Since: Sat, 1 Jan 2000 00:00:00 GMT"
                                                            ++ (crlf
                                                            ++ (codes "Content-Type: "
                                                            ++ (content_type
                                                            ++ (crlf
                                                            ++ (codes "Cookie: "
                                                            ++ (cookie
                                                            ++ (crlf
                                                            ++ (codes "Content-Length: "
                                                            ++ (decimal 20 body_len
                                                            ++ (crlf
                                                            ++ (other_headers headers
                                                            ++ crlf))))))))))))))))))))))))))))))

-- What is written; `as_bytes` is the text as UTF-8.
unfoldable pub http_send : (Text → Bytes) → Text → Text → Text → Headers → Bytes → Bytes
http_send as_bytes host method path headers body =
    as_bytes (http_head host method path headers (length body)) ++ body
