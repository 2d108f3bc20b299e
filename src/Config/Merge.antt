-- ===== src/Config/Merge.antt =====
-- src/config.rs: `merge`, which lays the settings of a configuration file over others.
pub mod Default
use openfortivpn_rs.Common.{
  ℕ, Bool, true, false, ◌||◌, Option, none, some, List, ◌++◌, ◌!=◌, not, if◌then◌else◌,
}
use openfortivpn_rs.Common.Bytes.{equal}
use openfortivpn_rs.Common.Text.{is_empty}
use openfortivpn_rs.Config.Settings.{Config, default_config, default_gateway_port}

abbrev pub merge_option : {A : Type 0} → Option A → Option A → Option A
merge_option dst none = dst
merge_option dst (some a) = some a

unfoldable pub merge : Config → Config → Config
merge self other = record {
  gateway_host =
      if not (is_empty (other.gateway_host)) then other.gateway_host else self.gateway_host;
  gateway_port =
      if other.gateway_port != default_gateway_port then other.gateway_port else self.gateway_port;
  username = if not (is_empty (other.username)) then other.username else self.username;
  password = merge_option (self.password) (other.password);
  cookie = merge_option (self.cookie) (other.cookie);
  cookie_on_stdin = self.cookie_on_stdin || other.cookie_on_stdin;
  saml_port = merge_option (self.saml_port) (other.saml_port);
  saml_session_id = merge_option (self.saml_session_id) (other.saml_session_id);
  otp = merge_option (self.otp) (other.otp);
  otp_prompt = merge_option (self.otp_prompt) (other.otp_prompt);
  otp_delay = if other.otp_delay != 0 then other.otp_delay else self.otp_delay;
  no_ftm_push = self.no_ftm_push || other.no_ftm_push;
  pinentry = merge_option (self.pinentry) (other.pinentry);
  realm = merge_option (self.realm) (other.realm);
  iface_name = merge_option (self.iface_name) (other.iface_name);
  sni = merge_option (self.sni) (other.sni);
  set_routes = other.set_routes;
  set_dns = other.set_dns;
  half_internet_routes = other.half_internet_routes;
  reconnect_delay = merge_option (self.reconnect_delay) (other.reconnect_delay);
  max_reconnects = if other.max_reconnects != 0 then other.max_reconnects else self.max_reconnects;
  use_syslog = self.use_syslog || other.use_syslog;
  log_verbosity = other.log_verbosity;
  use_resolvconf = other.use_resolvconf;
  user_agent =
      if not (equal (other.user_agent) (default_config.user_agent))
      then other.user_agent
      else self.user_agent;
  hostcheck = merge_option (self.hostcheck) (other.hostcheck);
  check_virtual_desktop = merge_option (self.check_virtual_desktop) (other.check_virtual_desktop);
  pppd_use_peerdns = other.pppd_use_peerdns;
  pppd_log = merge_option (self.pppd_log) (other.pppd_log);
  pppd_plugin = merge_option (self.pppd_plugin) (other.pppd_plugin);
  pppd_ipparam = merge_option (self.pppd_ipparam) (other.pppd_ipparam);
  pppd_ifname = merge_option (self.pppd_ifname) (other.pppd_ifname);
  pppd_call = merge_option (self.pppd_call) (other.pppd_call);
  pppd_accept_remote = other.pppd_accept_remote;
  ppp_system = merge_option (self.ppp_system) (other.ppp_system);
  ca_file = merge_option (self.ca_file) (other.ca_file);
  user_cert = merge_option (self.user_cert) (other.user_cert);
  user_key = merge_option (self.user_key) (other.user_key);
  pem_passphrase = merge_option (self.pem_passphrase) (other.pem_passphrase);
  insecure_ssl = self.insecure_ssl || other.insecure_ssl;
  cipher_list = merge_option (self.cipher_list) (other.cipher_list);
  min_tls = merge_option (self.min_tls) (other.min_tls);
  seclevel_1 = self.seclevel_1 || other.seclevel_1;
  trusted_certs = self.trusted_certs ++ other.trusted_certs;
  proxy = merge_option (self.proxy) (other.proxy);
}
