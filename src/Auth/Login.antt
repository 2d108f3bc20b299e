-- ===== src/Auth/Login.antt =====
-- src/auth/login.rs: the login over one connection. What each request to the gateway comes to is given
-- in a list; a connection without a further answer is closed.
pub mod Pages
pub mod Bodies
pub mod Allows
pub mod Sound
use openfortivpn_rs.Common.{
  ℕ, Bool, true, false, ◌&&◌, ◌||◌, not, Option, none, some, List, [], ◌∷◌, ◌++◌, ltb, ◌==◌, ◌!=◌,
  if◌then◌else◌,
}
use openfortivpn_rs.Common.Bytes.{Bytes, codes}
use openfortivpn_rs.Common.Error.{
  Result, ok, err, ok_or, OpenfortivpnError, http_protocol, permission_denied, auth, text, str, num,
}
use openfortivpn_rs.Common.Text.{is_empty}
use openfortivpn_rs.Config.Settings.{Text, Config}
use openfortivpn_rs.Config.Parse.{all}
use openfortivpn_rs.Strings.{is_ascii_alphanumeric}
use openfortivpn_rs.NetPlan.{is_some}
use openfortivpn_rs.Http.{HttpResponse, Headers, unwrap_or, decimal}
use openfortivpn_rs.Http.Cookies.{svpn_cookie, cookie_header}
use openfortivpn_rs.Auth.Login.Pages.{
  get_value, action_url, portal_redirect, otp_challenge_form, validate_auth_response,
}
use openfortivpn_rs.Auth.Login.Bodies.{
  Env, body_text, encode, otp_value_with_purpose, initial_login_body, hostcheck_action_body,
  otp_login_body,
}

pub record AuthSession : Type 0 where
  pub cookie : Text
  pub portal_redirect : Option Text

-- The arguments of `do_http_request`.
pub record Request : Type 0 where
  pub host : Text
  pub method : Text
  pub path : Text
  pub headers : Headers
  pub body : Bytes

pub record Web : Type 0 where
  pub answers : List (Result HttpResponse)
  pub requests : List Request

abbrev pub Io : Type 0 → Type 0
Io A = Web → Result A × Web

abbrev pub and_then : {A B : Type 0} → Result A × Web → (A → Io B) → Result B × Web
and_then (ok value, web) rest = rest value web
and_then (err e, web) rest = (err e, web)

infixl 5 ◌>>=◌ ◌>>◌
abbrev pub ◌>>=◌ : {A B : Type 0} → Io A → (A → Io B) → Io B
◌>>=◌ first rest web = and_then (first web) rest

abbrev pub ◌>>◌ : {B : Type 0} → Io (Unit {0}) → Io B → Io B
first >> rest = first >>= λ done. rest

abbrev pub lift : {A : Type 0} → Result A → Io A
lift result web = (result, web)

abbrev first_answer : List (Result HttpResponse) → Result HttpResponse × List (Result HttpResponse)
first_answer [] =
    (err (http_protocol (text "connection closed before HTTP headers were complete" ∷ [])), [])
first_answer (answer ∷ answers) = (answer, answers)

-- A call of `do_http_request`, with the outcome that is given.
unfoldable pub ask : Text → Text → Text → Headers → Bytes → Io HttpResponse
ask host method path headers body web =
    let next = first_answer web.answers in
    (
      next.0,
      record {
        answers = next.1;
        requests =
            web.requests
            ++ record { host = host; method = method; path = path; headers = headers; body = body }
              ∷ [];
      },
    )

abbrev form_content_type : Text × Text
form_content_type = (codes "Content-Type", codes "application/x-www-form-urlencoded")

unfoldable pub ensure_status_ok_for_path : Text → HttpResponse → Result (Unit {0})
ensure_status_ok_for_path path response =
    if response.status_code == 200
    then ok tt
    else err (
        http_protocol (
          str path
          ∷ text ": unexpected HTTP status: "
          ∷ num response.status_code
          ∷ text " "
          ∷ str response.reason
          ∷ []))

unfoldable pub is_valid_saml_session_id : Text → Bool
is_valid_saml_session_id value =
    not (is_empty value) && all (λ c. is_ascii_alphanumeric c || c == b'-') value

unfoldable pub http_host : Config → Text
http_host config =
    if config.gateway_port == 443
    then config.gateway_host
    else config.gateway_host ++ (b':' ∷ decimal 20 config.gateway_port)

abbrev pub no_cookie : OpenfortivpnError
no_cookie = auth (text "gateway did not return SVPNCOOKIE" ∷ [])

module _ (env : Env) where
  unfoldable pub post_form : Config → Text → Text → Io HttpResponse
  post_form config path body =
      ask (http_host config) (codes "POST") path
        (form_content_type ∷ (codes "User-Agent", config.user_agent) ∷ []) (env.as_bytes body)

  unfoldable pub post_form_with_cookie : Config → Text → Text → Text → Io HttpResponse
  post_form_with_cookie config path body cookie =
      ask (http_host config) (codes "POST") path
        (form_content_type
          ∷ (codes "Cookie", cookie)
          ∷ (codes "User-Agent", config.user_agent)
          ∷ [])
        (env.as_bytes body)

  abbrev pub post_logincheck : Config → Text → Io HttpResponse
  post_logincheck config body = post_form config (codes "/remote/logincheck") body

  -- The form that the gateway asks for on the way.
  abbrev pub hostcheck_action : Config → Text → Option Text → Io (Unit {0})
  hostcheck_action config cookie none = lift (ok tt)
  hostcheck_action config cookie (some action_path) = do
    response ← post_form_with_cookie config action_path (hostcheck_action_body config) cookie
    lift (ensure_status_ok_for_path action_path response)

  unfoldable pub finish_authenticated_response : Config → HttpResponse → Io AuthSession
  finish_authenticated_response config response = do
    svpn ← lift (ok_or (svpn_cookie response) no_cookie)
    let cookie = unwrap_or (cookie_header response) svpn
    hostcheck_action config cookie (action_url (body_text env response))
    lift (
        ok (record { cookie = cookie; portal_redirect = portal_redirect (body_text env response) }))

  unfoldable pub try_otp_challenge : Config → HttpResponse → Io (Text × HttpResponse)
  try_otp_challenge config response = do
    body ← lift (
        ok_or (env.from_utf8 response.body)
          (auth (text "OTP challenge response is not valid UTF-8" ∷ [])))
    (path, form_body) ← lift (
        otp_challenge_form (encode env) (otp_value_with_purpose env config (codes "otp")) config
          body)
    answer ← post_form config path form_body
    lift (ok (path, answer))

  -- A response of a path that passes `validate_auth_response`.
  abbrev pub checked : Text → HttpResponse → Io (Text × HttpResponse)
  checked path response =
      lift (validate_auth_response (body_text env response)) >> lift (ok (path, response))

  -- The first request.
  unfoldable pub first_request : Config → Io (Text × HttpResponse)
  first_request config =
      if is_empty config.username && not (is_some config.password)
      then (do
        response ←
            ask (http_host config) (codes "GET") (codes "/remote/login")
              ((codes "User-Agent", config.user_agent) ∷ []) []
        checked (codes "/remote/login") response)
      else (do
        body ← lift (initial_login_body env config)
        response ← post_logincheck config body
        checked (codes "/remote/logincheck") response)

  -- The challenge that a status of 401 asks for.
  unfoldable pub challenge : Config → Text × HttpResponse → Io (Text × HttpResponse)
  challenge config (path, response) =
      if response.status_code == 401
      then (do (path', answer) ← try_otp_challenge config response; checked path' answer)
      else lift (ok (path, response))

  -- The second factor, if the response has a token.
  unfoldable pub second_factor : Config → HttpResponse → Option Text → Io AuthSession
  second_factor config response none = lift (err no_cookie)
  second_factor config response (some tokeninfo) = do
    body ← lift (otp_login_body env config (body_text env response) tokeninfo)
    answer ← post_logincheck config body
    lift (validate_auth_response (body_text env answer))
    lift (ensure_status_ok_for_path (codes "/remote/logincheck") answer)
    if is_some (svpn_cookie answer)
        then finish_authenticated_response config answer
        else lift (err no_cookie)

  unfoldable pub log_in : Config → Io AuthSession
  log_in config = do
    first ← first_request config
    (path, response) ← challenge config first
    lift (ensure_status_ok_for_path path response)
    if is_some (svpn_cookie response)
        then finish_authenticated_response config response
        else second_factor config response (get_value (body_text env response) (codes "tokeninfo="))

  abbrev pub authenticate_by : Config → Option Text → Io AuthSession
  authenticate_by config (some cookie) =
      lift (ok (record { cookie = cookie; portal_redirect = none }))
  authenticate_by config none = log_in config

  unfoldable pub authenticate : Config → Io AuthSession
  authenticate config = authenticate_by config config.cookie

  unfoldable pub authenticate_with_saml_session : Config → Text → Io AuthSession
  authenticate_with_saml_session config saml_session_id =
      if not (is_valid_saml_session_id saml_session_id)
      then lift (err (auth (text "invalid SAML session id" ∷ [])))
      else (do
        let path = codes "/remote/saml/auth_id?id=" ++ saml_session_id
        response ←
            ask (http_host config) (codes "GET") path ((codes "User-Agent", config.user_agent) ∷ [])
              []
        lift (ensure_status_ok_for_path path response)
        if is_some (svpn_cookie response)
            then finish_authenticated_response config response
            else lift (err (auth (text "SAML authentication did not return SVPNCOOKIE" ∷ []))))
