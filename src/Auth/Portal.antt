-- ===== src/Auth/Portal.antt =====
-- src/auth/portal.rs: the requests to the portal. What each comes to is given, as for the login.
pub mod Xml
pub mod Requests
use openfortivpn_rs.Common.{
  Bool, true, false, ◌&&◌, not, Option, none, some, List, [], ◌∷◌, ◌++◌, leb, ltb, if◌then◌else◌,
}
use openfortivpn_rs.Common.Bytes.{Bytes, codes}
use openfortivpn_rs.Common.Error.{Result, ok, err, ok_or, http_protocol, text, num, str}
use openfortivpn_rs.Config.Settings.{Text, Config}
use openfortivpn_rs.Config.Parse.{starts_with}
use openfortivpn_rs.Http.{HttpResponse, Headers}
use openfortivpn_rs.Proxy.RouteTable.{VpnConfigXml}
use openfortivpn_rs.Auth.Login.{Io, and_then, ◌>>=◌, ◌>>◌, lift, ask, http_host}
use openfortivpn_rs.Auth.Portal.Xml.{parse_vpn_config_xml}

abbrev is_redirect : Text → Bool
is_redirect path = starts_with path (codes "/") && not (starts_with path (codes "//"))

abbrev pub valid_redirect_path : Option Text → Option Text
valid_redirect_path none = none
valid_redirect_path (some path) = if is_redirect path then some path else none

unfoldable pub ensure_success : Text → HttpResponse → Result (Unit {0})
ensure_success path response =
    if leb 200 response.status_code && ltb response.status_code 300
    then ok tt
    else err (
        http_protocol (
          str path
          ∷ text ": unexpected HTTP status: "
          ∷ num response.status_code
          ∷ text " "
          ∷ str response.reason
          ∷ []))

abbrev pub cookie_headers : Config → Text → Headers
cookie_headers config cookie =
    (codes "Cookie", cookie) ∷ (codes "User-Agent", config.user_agent) ∷ []

-- A request that is to succeed.
unfoldable pub get_path : Config → Text → Text → Io HttpResponse
get_path config cookie path = do
  response ← ask (http_host config) (codes "GET") path (cookie_headers config cookie) []
  lift (ensure_success path response)
  lift (ok response)

abbrev pub index_path : Option Text → Text
index_path none = codes "/remote/index"
index_path (some path) = path

unfoldable pub request_vpn_allocation : Config → Text → Option Text → Io (Unit {0})
request_vpn_allocation config cookie portal_redirect = do
  first ← get_path config cookie (index_path (valid_redirect_path portal_redirect))
  second ← get_path config cookie (codes "/remote/fortisslvpn")
  lift (ok tt)

-- `from_utf8` is that of the standard library.
unfoldable pub get_vpn_config : (Bytes → Option Text) → Config → Text → Io VpnConfigXml
get_vpn_config from_utf8 config cookie = do
  response ← get_path config cookie (codes "/remote/fortisslvpn_xml")
  raw_xml ←
      lift
        (ok_or (from_utf8 response.body) (http_protocol (text "VPN config XML is not UTF-8" ∷ [])))
  lift (ok (parse_vpn_config_xml raw_xml))

unfoldable pub log_out : Config → Text → Io (Unit {0})
log_out config cookie = do response ← get_path config cookie (codes "/remote/logout"); lift (ok tt)
