-- ===== src/Auth/Login/Bodies.antt =====
-- src/auth/login.rs: the bodies of the requests.
use openfortivpn_rs.Common.{◌&&◌, not, Option, none, some, [], ◌∷◌, ◌++◌, if◌then◌else◌}
use openfortivpn_rs.Common.Bytes.{Bytes, codes}
use openfortivpn_rs.Common.Error.{Result, ok, err, ◌>>=◌, auth, text}
use openfortivpn_rs.Config.Settings.{Text, Config}
use openfortivpn_rs.Config.Parse.{starts_with}
use openfortivpn_rs.NetPlan.{is_some}
use openfortivpn_rs.Http.{HttpResponse, unwrap_or}
use openfortivpn_rs.Http.Encode.{url_encode}
use openfortivpn_rs.Auth.Login.Pages.{get_value}

-- UTF-8 both ways, and the prompt for a secret with its purpose, by the user.
pub record Env : Type 0 where
  pub from_utf8 : Bytes → Option Text
  pub as_bytes : Text → Bytes
  pub read_secret : Config → Text → Text → Result Text

abbrev pub body_text : Env → HttpResponse → Text
body_text env response = unwrap_or (env.from_utf8 response.body) []

abbrev pub encode : Env → Text → Text
encode env value = url_encode (env.as_bytes value)

abbrev nonempty_token : Text → Result Text
nonempty_token [] = err (auth (text "No token specified" ∷ []))
nonempty_token (c ∷ cs) = ok (c ∷ cs)

abbrev given_or : Option Text → Result Text → Result Text
given_or none asked = asked
given_or (some []) asked = asked
given_or (some (c ∷ cs)) asked = ok (c ∷ cs)

unfoldable pub otp_value_with_purpose : Env → Config → Text → Text → Result Text
otp_value_with_purpose env config purpose prompt =
    given_or config.otp (env.read_secret config purpose prompt >>= nonempty_token)

unfoldable pub hostcheck_fields : Env → Config → Text
hostcheck_fields env config =
    if not (is_some config.hostcheck) && not (is_some config.check_virtual_desktop)
    then []
    else codes "&hostcheck="
      ++ (encode env (unwrap_or config.hostcheck [])
          ++ (codes "&check_virtual_desktop="
              ++ encode env (unwrap_or config.check_virtual_desktop [])))

abbrev login_fields : Env → Config → Option Text → Text
login_fields env config (some password) =
    codes "username="
    ++ (encode env config.username
        ++ (codes "&credential="
            ++ (encode env password
                ++ (codes "&realm="
                    ++ (encode env (unwrap_or config.realm []) ++ codes "&ajax=1")))))
login_fields env config none =
    codes "username="
    ++ (encode env config.username
        ++ (codes "&realm="
            ++ (encode env (unwrap_or config.realm [])
                ++ codes "&ajax=1&redir=%2Fremote%2Findex&just_logged_in=1")))

unfoldable pub initial_login_body : Env → Config → Result Text
initial_login_body env config =
    ok (login_fields env config config.password ++ hostcheck_fields env config)

unfoldable pub hostcheck_action_body : Config → Text
hostcheck_action_body config =
    codes "hostcheck="
    ++ (unwrap_or config.hostcheck []
        ++ (codes "&check_virtual_desktop=" ++ unwrap_or config.check_virtual_desktop []))

abbrev value_or_empty : Text → Text → Text
value_or_empty body key = unwrap_or (get_value body key) []

abbrev token_params : Env → Config → Text → Text → Result Text
token_params env config body tokeninfo =
    if not (is_some config.otp)
      && starts_with tokeninfo (codes "ftm_push")
      && not config.no_ftm_push
    then ok (codes "ftmpush=1")
    else (otp_value_with_purpose env config (codes "2fa")
          (codes "Two-factor authentication token: ")
        >>= λ otp. ok (
            codes "code="
            ++ (encode env otp
                ++ (codes "&code2=&magic=" ++ value_or_empty body (codes "magic=")))))

unfoldable pub otp_login_body : Env → Config → Text → Text → Result Text
otp_login_body env config body tokeninfo = token_params env config body tokeninfo >>= λ tokenparams.
    ok (
      codes "username="
      ++ (encode env config.username
          ++ (codes "&realm="
              ++ (encode env (unwrap_or config.realm [])
                  ++ (codes "&reqid="
                      ++ (value_or_empty body (codes "reqid=")
                          ++ (codes "&polid="
                              ++ (value_or_empty body (codes "polid=")
                                  ++ (codes "&grp="
                                      ++ (value_or_empty body (codes "grp=")
                                          ++ (codes "&portal="
                                              ++ (value_or_empty body (codes "portal=")
                                                  ++ (codes "&peer="
                                                      ++ (value_or_empty body (codes "peer=")
                                                          ++ (codes "&"
                                                            ++ tokenparams)))))))))))))))
