-- ===== src/Auth/Portal/Requests.antt =====
-- The requests of src/auth/portal.rs.
use openfortivpn_rs.Common.{true, false, ◌&&◌, [], ◌∷◌, ◌++◌, ◌≡◌, leb, ltb}
use openfortivpn_rs.Common.Bytes.{codes}
use openfortivpn_rs.Common.Error.{ok}
use openfortivpn_rs.Config.Settings.{Text, Config}
use openfortivpn_rs.Config.Parse.{starts_with}
use openfortivpn_rs.Http.{HttpResponse}
use openfortivpn_rs.Auth.Login.{Request, Web, http_host}
use openfortivpn_rs.Auth.Portal.{cookie_headers}

-- A request for a path, with the cookie.
abbrev pub get : Config → Text → Text → Request
get config cookie path = record {
  host = http_host config;
  method = codes "GET";
  path = path;
  headers = cookie_headers config cookie;
  body = [];
}

abbrev pub Succeeds : HttpResponse → Type 0
Succeeds response = leb 200 response.status_code && ltb response.status_code 300 ≡ true

-- Of the gateway, not of another host.
abbrev pub IsLocal : Text → Type 0
IsLocal path = (starts_with path (codes "/") ≡ true) × (starts_with path (codes "//") ≡ false)

-- One request was made, and its answer taken.
abbrev Asked : Config → Text → Text → HttpResponse → Web → Web → Type 0
Asked config cookie path response web web' =
    (web.answers ≡ ok response ∷ web'.answers)
    × (web'.requests ≡ web.requests ++ get config cookie path ∷ [])
