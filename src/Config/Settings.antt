-- ===== src/Config/Settings.antt =====
-- src/config.rs and src/cli.rs: the settings of the program, their defaults, and what a command line gives.
-- Texts are lists of code points.
use openfortivpn_rs.Common.{ℕ, Bool, true, false, Option, none, List, []}
use openfortivpn_rs.Common.Bytes.{codes}
use openfortivpn_rs.Common.Ipv4.{Ipv4Addr}

-- A `String` or a `&str`: its characters.
abbrev pub Text : Type 0
Text = List ℕ

-- `std::net::SocketAddr`, an IPv4 address and a port or an IPv6 address, a port, a flow label and a scope.
pub data SocketAddr : Type 0 where
  v4 : Ipv4Addr → ℕ → SocketAddr
  v6 : List ℕ → ℕ → ℕ → ℕ → SocketAddr

abbrev pub default_gateway_port : ℕ
default_gateway_port = 443

abbrev pub sha256_digest_hex_len : ℕ
sha256_digest_hex_len = 64

abbrev pub default_log_verbosity : ℕ
default_log_verbosity = 3

abbrev pub max_log_verbosity : ℕ
max_log_verbosity = 6

pub data TlsVersion : Type 0 where
  tls10 tls11 tls12 tls13 : TlsVersion

pub record Config : Type 0 where
  pub gateway_host : Text
  pub gateway_port : ℕ
  pub username : Text
  pub password : Option Text
  pub cookie : Option Text
  pub cookie_on_stdin : Bool
  pub saml_port : Option ℕ
  pub saml_session_id : Option Text
  pub otp : Option Text
  pub otp_prompt : Option Text
  pub otp_delay : ℕ
  pub no_ftm_push : Bool
  pub pinentry : Option Text
  pub realm : Option Text
  pub iface_name : Option Text
  pub sni : Option Text
  pub set_routes : Bool
  pub set_dns : Bool
  pub half_internet_routes : Bool
  pub reconnect_delay : Option ℕ
  pub max_reconnects : ℕ
  pub use_syslog : Bool
  pub log_verbosity : ℕ
  pub use_resolvconf : Bool
  pub user_agent : Text
  pub hostcheck : Option Text
  pub check_virtual_desktop : Option Text
  pub pppd_use_peerdns : Bool
  pub pppd_log : Option Text
  pub pppd_plugin : Option Text
  pub pppd_ipparam : Option Text
  pub pppd_ifname : Option Text
  pub pppd_call : Option Text
  pub pppd_accept_remote : Bool
  pub ppp_system : Option Text
  pub ca_file : Option Text
  pub user_cert : Option Text
  pub user_key : Option Text
  pub pem_passphrase : Option Text
  pub insecure_ssl : Bool
  pub cipher_list : Option Text
  pub min_tls : Option TlsVersion
  pub seclevel_1 : Bool
  pub trusted_certs : List Text
  pub proxy : Option SocketAddr

-- `Config::default`
abbrev pub default_config : Config
default_config = record {
  gateway_host = [];
  gateway_port = default_gateway_port;
  username = [];
  password = none;
  cookie = none;
  cookie_on_stdin = false;
  saml_port = none;
  saml_session_id = none;
  otp = none;
  otp_prompt = none;
  otp_delay = 0;
  no_ftm_push = false;
  pinentry = none;
  realm = none;
  iface_name = none;
  sni = none;
  set_routes = true;
  set_dns = true;
  half_internet_routes = false;
  reconnect_delay = none;
  max_reconnects = 0;
  use_syslog = false;
  log_verbosity = default_log_verbosity;
  use_resolvconf = true;
  user_agent = codes "Mozilla/5.0 SV1";
  hostcheck = none;
  check_virtual_desktop = none;
  pppd_use_peerdns = false;
  pppd_log = none;
  pppd_plugin = none;
  pppd_ipparam = none;
  pppd_ifname = none;
  pppd_call = none;
  pppd_accept_remote = true;
  ppp_system = none;
  ca_file = none;
  user_cert = none;
  user_key = none;
  pem_passphrase = none;
  insecure_ssl = false;
  cipher_list = none;
  min_tls = none;
  seclevel_1 = false;
  trusted_certs = [];
  proxy = none;
}

-- What clap made of the arguments.
pub record Cli : Type 0 where
  pub gateway : Option Text
  pub version : Bool
  pub config : Option Text
  pub username : Option Text
  pub password : Option Text
  pub cookie : Option Text
  pub cookie_on_stdin : Bool
  pub saml_login : Option ℕ
  pub otp : Option Text
  pub otp_prompt : Option Text
  pub otp_delay : Option ℕ
  pub no_ftm_push : Bool
  pub pinentry : Option Text
  pub realm : Option Text
  pub ifname : Option Text
  pub sni : Option Text
  pub set_routes : Option Bool
  pub no_routes : Bool
  pub half_internet_routes : Option Bool
  pub set_dns : Option Bool
  pub no_dns : Bool
  pub ca_file : Option Text
  pub user_cert : Option Text
  pub user_key : Option Text
  pub pem_passphrase : Option Text
  pub use_syslog : Bool
  pub use_resolvconf : Option Bool
  pub user_agent : Option Text
  pub hostcheck : Option Text
  pub check_virtual_desktop : Option Text
  pub trusted_cert : List Text
  pub insecure_ssl : Bool
  pub cipher_list : Option Text
  pub min_tls : Option Text
  pub seclevel_1 : Bool
  pub reconnect_delay : Option ℕ
  pub persistent : Option ℕ
  pub max_reconnects : Option ℕ
  pub verbose : ℕ
  pub quiet : ℕ
  pub pppd_use_peerdns : Option Bool
  pub pppd_no_peerdns : Bool
  pub pppd_log : Option Text
  pub pppd_plugin : Option Text
  pub pppd_ifname : Option Text
  pub pppd_ipparam : Option Text
  pub pppd_call : Option Text
  pub pppd_accept_remote : Option Bool
  pub ppp_system : Option Text
  pub proxy : Option SocketAddr
