-- ===== src/Config/Tests.antt =====
-- The settings' theorems at a configuration file and a command line.
use openfortivpn_rs.Common.{false, Option, none, some, [], ◌≡◌, refl, arith}
use openfortivpn_rs.Common.Bytes.{codes, equal}
use openfortivpn_rs.Common.Error.{Result, ok, ◌>>=◌}
use openfortivpn_rs.Common.Text.{parse_uint, parse_digits}
use openfortivpn_rs.Config.Settings.{Text, SocketAddr, Config, Cli, default_config}
use openfortivpn_rs.Config.Parse.{
  lines, trim_start, trim_end, split_once, rsplit_once, starts_with, parse_bool, parse_port,
  parse_u32, parse_gateway, cli_log_verbosity,
}
use openfortivpn_rs.Config.Merge.{merge}
use openfortivpn_rs.Config.File.{
  find_key, apply_key, apply_pair, apply_line, apply_lines, parse_config_file,
}
use openfortivpn_rs.Config.CommandLine.{
  apply_gateway, apply_login, push_trusted_certs, apply_trusted, apply_min_tls, apply_tunnel,
  apply_cli, from_file, from_sources,
}
use openfortivpn_rs.Config.Valid.{IsValid}
use openfortivpn_rs.Config.Valid.Sources.{from_sources-IsValid, from_sources_layers}

-- One file for every path, and a reading of socket addresses that refuses all.
abbrev read_to_string : Text → Result Text
read_to_string path =
    ok (codes "# office\nport = 4443\n username=jo \r\nset-dns = 0\nmax-reconnects = 3\n")

abbrev parse_addr : Text → Option SocketAddr
parse_addr value = none

abbrev arguments : Cli
arguments = record {
  gateway = some (codes "vpn.example:8443");
  version = false;
  config = some (codes "vpn.conf");
  username = none;
  password = none;
  cookie = none;
  cookie_on_stdin = false;
  saml_login = none;
  otp = none;
  otp_prompt = none;
  otp_delay = some 5;
  no_ftm_push = false;
  pinentry = none;
  realm = none;
  ifname = none;
  sni = none;
  set_routes = none;
  no_routes = false;
  half_internet_routes = none;
  set_dns = none;
  no_dns = false;
  ca_file = none;
  user_cert = none;
  user_key = none;
  pem_passphrase = none;
  use_syslog = false;
  use_resolvconf = none;
  user_agent = none;
  hostcheck = none;
  check_virtual_desktop = none;
  trusted_cert = [];
  insecure_ssl = false;
  cipher_list = none;
  min_tls = none;
  seclevel_1 = false;
  reconnect_delay = none;
  persistent = none;
  max_reconnects = none;
  verbose = 9;
  quiet = 0;
  pppd_use_peerdns = none;
  pppd_no_peerdns = false;
  pppd_log = none;
  pppd_plugin = none;
  pppd_ifname = none;
  pppd_ipparam = none;
  pppd_call = none;
  pppd_accept_remote = none;
  ppp_system = none;
  proxy = none;
}

-- The command line's port wins over the file's.
abbrev settings : Config
settings = record default_config {
  gateway_host = codes "vpn.example";
  gateway_port = 8443;
  username = codes "jo";
  otp_delay = 5;
  set_dns = false;
  max_reconnects = 3;
  log_verbosity = 6;
}

loaded : from_sources read_to_string parse_addr arguments ≡ ok settings
unfolding from_sources from_file parse_config_file apply_lines apply_line apply_pair apply_key
    find_key equal lines trim_start trim_end split_once rsplit_once starts_with parse_bool
    parse_port parse_u32 parse_uint parse_digits parse_gateway cli_log_verbosity merge apply_gateway
    apply_login push_trusted_certs apply_trusted apply_min_tls apply_tunnel apply_cli
loaded = refl

from_sources-IsValid_example : IsValid settings
from_sources-IsValid_example =
    from_sources-IsValid read_to_string parse_addr arguments settings (omega arith) tt loaded

from_sources_layers_example :
    from_sources read_to_string parse_addr arguments
    ≡ (from_file read_to_string parse_addr (codes "vpn.conf") >>= λ cfg. apply_cli arguments cfg)
from_sources_layers_example =
    from_sources_layers read_to_string parse_addr arguments (codes "vpn.conf") refl
