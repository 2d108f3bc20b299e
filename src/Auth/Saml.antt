-- ===== src/Auth/Saml.antt =====
-- src/auth/saml.rs: the local server that a browser brings the SAML session to. What the listener and
-- its connections answer is given; `from_utf8_lossy` is a parameter.
pub mod Sound
use openfortivpn_rs.Common.{
  ℕ, zero, suc, Bool, true, false, ◌&&◌, ◌||◌, not, Option, none, some, List, [], ◌∷◌, ◌++◌, ◌⊎◌,
  inl, inr, leb, ◌==◌, if◌then◌else◌, length, take,
}
use openfortivpn_rs.Common.Bytes.{Bytes, codes}
use openfortivpn_rs.Common.Error.{
  Result, ok, err, ◌>>=◌, ◌>>◌, ok_or, OpenfortivpnError, Piece, auth, network, text, num, str,
}
use openfortivpn_rs.Config.Settings.{Text, Config}
use openfortivpn_rs.Config.Parse.{all, byte_length}
use openfortivpn_rs.Strings.{strip_prefix, is_ascii_alphanumeric}
use openfortivpn_rs.Http.{unwrap_or, decimal}
use openfortivpn_rs.Http.Encode.{url_encode}

abbrev pub max_saml_session_id_length : ℕ
max_saml_session_id_length = 1024

pub data SamlRequestError : Type 0 where
  bad_method_or_path : SamlRequestError
  missing_id_terminator : SamlRequestError
  empty_id : SamlRequestError
  too_long : SamlRequestError
  invalid_character : SamlRequestError

-- `realm` is given as bytes.
abbrev realm_parameter : Text → Text
realm_parameter [] = []
realm_parameter (c ∷ cs) = codes "&realm=" ++ url_encode (c ∷ cs)

unfoldable pub authentication_url : (Text → Bytes) → Config → Text
authentication_url as_bytes config =
    codes "https://"
    ++ (config.gateway_host
        ++ (b':' ∷ decimal 20 config.gateway_port
            ++ (codes "/remote/saml/start?redirect=1"
                ++ realm_parameter (as_bytes (unwrap_or config.realm [])))))

abbrev pub ends_id : ℕ → Bool
ends_id c = c == 32 || (c == b'&' || (c == 13 || c == 10))

-- What stands in front of the first character that ends an id.
unfoldable pub id_before : Text → Option Text
id_before [] = none
id_before (c ∷ cs) =
    let rest = id_before cs in
    if ends_id c then some [] else elim rest [ none ↦ none | some id ↦ some (c ∷ id) ]

abbrev pub request_head : Text
request_head = codes "GET /?id="

abbrev pub is_id_character : ℕ → Bool
is_id_character ch = is_ascii_alphanumeric ch || ch == b'-'

unfoldable pub checked_id : Option Text → Text ⊎ SamlRequestError
checked_id none = inr missing_id_terminator
checked_id (some []) = inr empty_id
checked_id (some (c ∷ cs)) =
    if leb max_saml_session_id_length (byte_length (c ∷ cs))
    then inr too_long
    else if not (all is_id_character (c ∷ cs))
    then inr invalid_character
    else inl (c ∷ cs)

unfoldable pub parse_callback_request : Text → Text ⊎ SamlRequestError
parse_callback_request request = elim (strip_prefix request request_head) [
  | none ↦ inr bad_method_or_path
  | some rest ↦ checked_id (id_before rest)
]

-- Each line with its end.
abbrev crlf_lines : List Text → Text
crlf_lines [] = []
crlf_lines (line ∷ lines) = line ++ (13 ∷ 10 ∷ crlf_lines lines)

abbrev pub success_response_body : Text
success_response_body = crlf_lines (
    codes "SAML session id received from Fortinet server. VPN will be established...<br>"
    ∷ codes "You may close this browser tab now.<br>"
    ∷ codes "<script>"
    ∷ codes "window.setTimeout(() => { window.close(); }, 5000);"
    ∷ (codes "document.write("
        ++ (34
            ∷ (codes "<br>This window will close automatically in 5 seconds."
                ++ (34 ∷ codes ");"))))
    ∷ codes "</script>"
    ∷ [])

abbrev pub failure_message : Text
failure_message =
    codes "Invalid redirect response from Fortinet server. VPN could not be established."

-- What is written for a message in ASCII.
unfoldable pub status_response : Text → Bytes
status_response user_message =
    let body = crlf_lines (
      codes "<!DOCTYPE html>"
      ∷ codes "<html><body>"
      ∷ (user_message ++ codes "</body></html>")
      ∷ []) in
    crlf_lines (
      codes "HTTP/1.1 200 OK"
      ∷ codes "Content-Type: text/html"
      ∷ (codes "Content-Length: " ++ decimal 20 (length body))
      ∷ codes "Connection: close"
      ∷ []
      ∷ [])
    ++ body

-- The name of the error, as `{err:?}` prints it.
abbrev pub debug : SamlRequestError → Piece
debug bad_method_or_path = text "BadMethodOrPath"
debug missing_id_terminator = text "MissingIdTerminator"
debug empty_id = text "EmptyId"
debug too_long = text "TooLong"
debug invalid_character = text "InvalidCharacter"

-- What setting up a connection and reading from it comes to, and what writing to it comes to.
pub record TcpStream : Type 0 where
  pub read : Result Bytes
  pub write : Result (Unit {0})

-- What `accept` answers; a listener that would block tells whether the deadline has passed.
pub data Accept : Type 0 where
  accepted : TcpStream → Accept
  would_block : Bool → Accept
  failed : Text → Accept

abbrev pub retry_error : OpenfortivpnError
retry_error = auth (text "failed to retrieve SAML authentication token" ∷ [])

module _ (from_utf8_lossy : Bytes → Text) where
  -- The page for a request, and the result once it is sent.
  abbrev pub answered : Text ⊎ SamlRequestError → Text × Result Text
  answered (inl id) = (success_response_body, ok id)
  answered (inr e) =
      (failure_message, err (auth (text "invalid SAML callback request: " ∷ debug e ∷ [])))

  abbrev pub respond : Result (Unit {0}) → Text × Result Text → Result Text × Bytes
  respond write (message, result) = (write >> result, status_response message)

  abbrev pub processed : Result (Unit {0}) → Result Bytes → Result Text × Bytes
  processed write (err e) = (err e, [])
  processed write (ok request) =
      respond write (answered (parse_callback_request (from_utf8_lossy (take 1023 request))))

  -- The result, and what is written to the connection.
  unfoldable pub process_callback_stream : TcpStream → Result Text × Bytes
  process_callback_stream stream = processed stream.write stream.read

  -- `none` where the answers of the listener end before the loop does.
  unfoldable pub wait_for_session_id_on_listener : ℕ → List Accept → Option (Result Text)
  wait_for_session_id_on_listener zero accepts = some (err retry_error)
  wait_for_session_id_on_listener (suc tries) [] = none
  wait_for_session_id_on_listener (suc tries) (accepted stream ∷ accepts) =
      let next = wait_for_session_id_on_listener tries accepts in
      elim ((process_callback_stream stream).0) [ ok id ↦ some (ok id) | err e ↦ next ]
  wait_for_session_id_on_listener (suc tries) (would_block late ∷ accepts) =
      let next = wait_for_session_id_on_listener tries accepts in
      let again = wait_for_session_id_on_listener (suc tries) accepts in
      if late then next else again
  wait_for_session_id_on_listener (suc tries) (failed e ∷ accepts) =
      some (err (network (text "failed to accept SAML callback connection: " ∷ str e ∷ [])))

  -- `bound` is what setting up the listener comes to.
  unfoldable pub wait_for_session_id :
      Config → Result (Unit {0}) → List Accept → Option (Result Text)
  wait_for_session_id config bound accepts =
      elim (ok_or config.saml_port (auth (text "SAML callback port is not configured" ∷ []))
        >>= λ port. bound) [
          | err e ↦ some (err e)
          | ok done ↦ wait_for_session_id_on_listener 5 accepts
        ]
