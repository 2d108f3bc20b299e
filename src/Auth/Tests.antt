-- ===== src/Auth/Tests.antt =====
-- The theorems on src/auth/ at a concrete gateway and a concrete browser.
use openfortivpn_rs.Common.{Option, ℕ, false, List, none, some, [], ◌∷◌, ◌≡◌, refl, ◌⊎◌}
use openfortivpn_rs.Common.Bytes.{codes, equal}
use openfortivpn_rs.Common.Error.{Result, ok}
use openfortivpn_rs.Config.Settings.{Text, Config, default_config}
use openfortivpn_rs.Http.{HttpResponse, header_values}
use openfortivpn_rs.Http.Cookies.{
  find_map, filter_map, extract_svpn_cookie_from_header, extract_cookie_pair_from_set_cookie_header,
  valid_cookie_pair, cookie_prefix,
}
use openfortivpn_rs.Http.Encode.{url_encode}
use openfortivpn_rs.Strings.{ends_with, find, strip_prefix, join_with}
use openfortivpn_rs.Common.Text.{parse_uint, parse_digits}
use openfortivpn_rs.Config.Parse.{starts_with, split_once, trim_start, trim_end}
use openfortivpn_rs.Auth.Login.{
  AuthSession, Web, http_host, authenticate, log_in, first_request, post_form, ask, challenge,
  ensure_status_ok_for_path, finish_authenticated_response,
}
use openfortivpn_rs.Auth.Login.Bodies.{Env, initial_login_body, hostcheck_fields}
use openfortivpn_rs.Auth.Login.Pages.{
  get_value, take_until, validate_auth_response, action_loop, redirect_loop, first_redirect,
  find_ascii_case_insensitive,
}
use openfortivpn_rs.Auth.Login.Sound.{LetIn, authenticate_sound}
use openfortivpn_rs.Auth.Portal.Requests.{get}
use openfortivpn_rs.Auth.Portal.Xml.{
  parse_vpn_config_xml, parse_split_routes, addr_tags, routes_of, tag_attrs, attr_value, attr_loop,
  after_whitespace, element_body, start_tag, scan_loop, xml_values, xml_values_loop, xml_unescape,
  replace_from,
}
use openfortivpn_rs.Auth.Saml.{
  TcpStream, Accept, accepted, would_block, checked_id, id_before, parse_callback_request,
  process_callback_stream, wait_for_session_id_on_listener, wait_for_session_id,
}
use openfortivpn_rs.Auth.Saml.Sound.{Heard, wait_for_session_id-Heard}

abbrev env : Env
env = record { from_utf8 = some; as_bytes = λ t. t; read_secret = λ c p t. ok (codes "1") }

abbrev settings : Config
settings = record default_config { username = codes "u"; password = some (codes "p") }

abbrev answer : HttpResponse
answer = record {
  status_code = 200;
  reason = codes "OK";
  headers = (codes "Set-Cookie", codes "SVPNCOOKIE=x") ∷ [];
  body = codes "ret=1";
}

abbrev web : Web
web = record { answers = ok answer ∷ []; requests = [] }

abbrev left : Web
left = record {
  answers = [];
  requests =
      record {
        host = http_host settings;
        method = codes "POST";
        path = codes "/remote/logincheck";
        headers =
            (codes "Content-Type", codes "application/x-www-form-urlencoded")
            ∷ (codes "User-Agent", settings.user_agent)
            ∷ [];
        body = codes "username=u&credential=p&realm=&ajax=1";
      }
      ∷ [];
}

abbrev session : AuthSession
session = record { cookie = codes "SVPNCOOKIE=x"; portal_redirect = none }

ended : authenticate env settings web ≡ (ok session, left)
unfolding authenticate log_in first_request initial_login_body post_form ask challenge
    ensure_status_ok_for_path finish_authenticated_response hostcheck_fields url_encode get_value
    take_until validate_auth_response find starts_with find_map filter_map
    extract_svpn_cookie_from_header extract_cookie_pair_from_set_cookie_header valid_cookie_pair
    cookie_prefix header_values equal split_once parse_uint parse_digits trim_start trim_end
    action_loop redirect_loop first_redirect find_ascii_case_insensitive strip_prefix join_with
ended = refl

authenticate_sound_example :
    (settings.cookie ≡ some session.cookie) ⊎ LetIn env settings web session.cookie
authenticate_sound_example = authenticate_sound env settings web left session ended

abbrev with_port : Config
with_port = record default_config { saml_port = some 8020 }

abbrev stray : TcpStream
stray = record { read = ok (codes "GET /favicon.ico HTTP/1.1"); write = ok tt }

abbrev browser : TcpStream
browser = record { read = ok (codes "GET /?id=a-1 HTTP/1.1"); write = ok tt }

abbrev set_up : Result (Unit {0})
set_up = ok tt

abbrev accepts : List Accept
accepts = would_block false ∷ accepted stray ∷ accepted browser ∷ []

heard : wait_for_session_id (λ t. t) with_port set_up accepts ≡ some (ok (codes "a-1"))
unfolding wait_for_session_id wait_for_session_id_on_listener process_callback_stream
    parse_callback_request checked_id id_before strip_prefix
heard = refl

wait_for_session_id-Heard_example :
    (port : ℕ) × (with_port.saml_port ≡ some port)
    × (set_up ≡ ok tt)
    × Heard (λ t. t) accepts (codes "a-1")
wait_for_session_id-Heard_example =
    wait_for_session_id-Heard (λ t. t) with_port set_up accepts (codes "a-1") heard

abbrev no_content : HttpResponse
no_content = record { status_code = 204; reason = []; headers = []; body = [] }

abbrev portal : Web
portal = record { answers = ok no_content ∷ ok no_content ∷ []; requests = [] }

-- A redirect to another host.
abbrev elsewhere : Option Text
elsewhere = some (codes "//evil.example/")

abbrev allocated : Web
allocated = record {
  answers = [];
  requests =
      get default_config (codes "SVPNCOOKIE=x") (codes "/remote/index")
      ∷ get default_config (codes "SVPNCOOKIE=x") (codes "/remote/fortisslvpn")
      ∷ [];
}

abbrev document : Text
document =
    codes
      "<assigned-addr ipv4='10.0.0.2'/><dns ip='10.0.0.53'/><split-tunnel-info><addr ip='10.1.0.0' mask='255.255.0.0'/></split-tunnel-info>"

-- The configuration of a small document.
parsed : parse_vpn_config_xml document ≡ record {
  raw_xml = document;
  gateway = some (codes "10.0.0.2");
  assigned_ip = some (codes "10.0.0.2");
  dns_servers = codes "10.0.0.53" ∷ [];
  dns_suffix = none;
  split_routes =
      record {
        destination = codes "10.1.0.0";
        mask = codes "255.255.0.0";
        gateway = some (codes "10.0.0.2");
      }
      ∷ [];
}
unfolding parse_vpn_config_xml parse_split_routes addr_tags routes_of tag_attrs attr_value attr_loop
    after_whitespace element_body start_tag scan_loop xml_values xml_values_loop xml_unescape
    replace_from find starts_with strip_prefix ends_with trim_start trim_end take_until equal
parsed = refl
