-- ===== src/Config/CommandLine.antt =====
-- src/config.rs: the command line laid over the settings, and the settings of a run.
use openfortivpn_rs.Common.{true, false, Option, none, some, List, [], ◌∷◌, if◌then◌else◌}
use mathlib.Core.Option
use openfortivpn_rs.Common.Error.{Result, ok, ◌>>=◌}
use openfortivpn_rs.Config.Merge.{merge, merge_option}
use openfortivpn_rs.Config.File.{parse_config_file}
use openfortivpn_rs.Config.Parse.{
  cli_log_verbosity, parse_gateway, parse_tls_version, push_trusted_cert, svpn_cookie_with_prefix,
}
use openfortivpn_rs.Config.Settings.{Text, SocketAddr, Config, Cli, default_config}

-- `if let Some(value) = given { dst = value }`
abbrev pub or_keep : {A : Type 0} → A → Option A → A
or_keep dst none = dst
or_keep dst (some a) = a

-- `Option::or`
abbrev or_else : {A : Type 0} → Option A → Option A → Option A
or_else none b = b
or_else (some a) b = some a

unfoldable pub apply_gateway : Option Text → Config → Result Config
apply_gateway none self = ok self
apply_gateway (some gateway) self = parse_gateway gateway >>= λ p.
    ok (record self { gateway_host = p.0; gateway_port = or_keep (self.gateway_port) (p.1) })

-- The statements between the gateway and the trusted certificates.
unfoldable pub apply_login : Cli → Config → Config
apply_login cli self = record self {
  username = or_keep (self.username) (cli.username);
  password = merge_option (self.password) (cli.password);
  cookie = merge_option (self.cookie) (Option.map svpn_cookie_with_prefix (cli.cookie));
  cookie_on_stdin = if cli.cookie_on_stdin then true else self.cookie_on_stdin;
  saml_port = merge_option (self.saml_port) (cli.saml_login);
  otp = merge_option (self.otp) (cli.otp);
  otp_prompt = merge_option (self.otp_prompt) (cli.otp_prompt);
  otp_delay = or_keep (self.otp_delay) (cli.otp_delay);
  no_ftm_push = if cli.no_ftm_push then true else self.no_ftm_push;
  pinentry = merge_option (self.pinentry) (cli.pinentry);
  realm = merge_option (self.realm) (cli.realm);
  iface_name = merge_option (self.iface_name) (cli.ifname);
  sni = merge_option (self.sni) (cli.sni);
  set_routes = if cli.no_routes then false else or_keep (self.set_routes) (cli.set_routes);
  half_internet_routes = or_keep (self.half_internet_routes) (cli.half_internet_routes);
  set_dns = if cli.no_dns then false else or_keep (self.set_dns) (cli.set_dns);
  ca_file = merge_option (self.ca_file) (cli.ca_file);
  user_cert = merge_option (self.user_cert) (cli.user_cert);
  user_key = merge_option (self.user_key) (cli.user_key);
  pem_passphrase = merge_option (self.pem_passphrase) (cli.pem_passphrase);
  use_syslog = if cli.use_syslog then true else self.use_syslog;
  log_verbosity = cli_log_verbosity (cli.verbose) (cli.quiet);
  use_resolvconf = or_keep (self.use_resolvconf) (cli.use_resolvconf);
  user_agent = or_keep (self.user_agent) (cli.user_agent);
  hostcheck = merge_option (self.hostcheck) (cli.hostcheck);
  check_virtual_desktop = merge_option (self.check_virtual_desktop) (cli.check_virtual_desktop);
}

unfoldable pub push_trusted_certs : List Text → List Text → Result (List Text)
push_trusted_certs [] certs = ok certs
push_trusted_certs (digest ∷ digests) certs =
    push_trusted_cert certs digest >>= λ more. push_trusted_certs digests more

unfoldable pub apply_trusted : Cli → Config → Result Config
apply_trusted cli self = push_trusted_certs (cli.trusted_cert) (self.trusted_certs) >>= λ certs.
    ok (record self { trusted_certs = certs })

unfoldable pub apply_min_tls : Option Text → Config → Result Config
apply_min_tls none self = ok self
apply_min_tls (some value) self =
    parse_tls_version value >>= λ v. ok (record self { min_tls = some v })

-- The statements behind the trusted certificates, but for the TLS version.
unfoldable pub apply_tunnel : Cli → Config → Config
apply_tunnel cli self = record self {
  insecure_ssl = if cli.insecure_ssl then true else self.insecure_ssl;
  cipher_list = merge_option (self.cipher_list) (cli.cipher_list);
  seclevel_1 = if cli.seclevel_1 then true else self.seclevel_1;
  reconnect_delay =
      merge_option (self.reconnect_delay) (or_else (cli.reconnect_delay) (cli.persistent));
  max_reconnects = or_keep (self.max_reconnects) (cli.max_reconnects);
  pppd_use_peerdns =
      if cli.pppd_no_peerdns then false else or_keep (self.pppd_use_peerdns) (cli.pppd_use_peerdns);
  pppd_log = merge_option (self.pppd_log) (cli.pppd_log);
  pppd_plugin = merge_option (self.pppd_plugin) (cli.pppd_plugin);
  pppd_ifname = merge_option (self.pppd_ifname) (cli.pppd_ifname);
  pppd_ipparam = merge_option (self.pppd_ipparam) (cli.pppd_ipparam);
  pppd_call = merge_option (self.pppd_call) (cli.pppd_call);
  pppd_accept_remote = or_keep (self.pppd_accept_remote) (cli.pppd_accept_remote);
  ppp_system = merge_option (self.ppp_system) (cli.ppp_system);
  proxy = merge_option (self.proxy) (cli.proxy);
}

unfoldable pub apply_cli : Cli → Config → Result Config
apply_cli cli self = apply_gateway (cli.gateway) self >>= λ pointed.
    apply_trusted cli (apply_login cli pointed) >>= λ trusting.
    apply_min_tls (cli.min_tls) trusting >>= λ versioned. ok (apply_tunnel cli versioned)

-- `read_to_string` is `std::fs::read_to_string`.
module _ (read_to_string : Text → Result Text) (parse_addr : Text → Option SocketAddr) where
  unfoldable pub from_file : Text → Result Config
  from_file path = read_to_string path >>= λ contents. parse_config_file parse_addr contents

  abbrev pub with_file : Option Text → Config → Result Config
  with_file none cfg = ok cfg
  with_file (some path) cfg = from_file path >>= λ other. ok (merge cfg other)

  unfoldable pub from_sources : Cli → Result Config
  from_sources cli = with_file (cli.config) default_config >>= λ cfg. apply_cli cli cfg
