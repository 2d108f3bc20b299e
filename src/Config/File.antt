-- ===== src/Config/File.antt =====
-- src/config.rs: the lines of a configuration file.
use openfortivpn_rs.Common.{◌||◌, Option, none, some, List, [], ◌∷◌, if◌then◌else◌}
use openfortivpn_rs.Common.Bytes.{codes, equal}
use openfortivpn_rs.Common.Error.{Result, ok, err, ◌>>=◌, unknown_config_key}
use openfortivpn_rs.Common.Text.{is_empty}
use openfortivpn_rs.Config.Parse.{
  lines, split_once, trim, starts_with, parse_bool, parse_port, parse_u32, parse_tls_version,
  parse_socket_addr, push_trusted_cert,
}
use openfortivpn_rs.Config.Settings.{Text, SocketAddr, Config, default_config}

-- The arms of the match in `apply_pair`.
pub data Key : Type 0 where
  host_key port_key username_key password_key otp_key otp_prompt_key otp_delay_key ignored_key
        no_ftm_push_key pinentry_key realm_key ifname_key sni_key set_routes_key
        half_internet_routes_key reconnect_delay_key max_reconnects_key set_dns_key
        pppd_use_peerdns_key pppd_log_key pppd_plugin_key pppd_ipparam_key pppd_ifname_key
        pppd_call_key pppd_accept_remote_key ppp_system_key use_syslog_key use_resolvconf_key
        trusted_cert_key ca_file_key user_cert_key saml_login_key user_key_key pem_passphrase_key
        insecure_ssl_key cipher_list_key min_tls_key seclevel_1_key user_agent_key hostcheck_key
        check_virtual_desktop_key proxy_key :
      Key

-- The patterns of the arms, in their order.
abbrev pub keys : List (Text × Key)
keys =
    (codes "host", host_key)
    ∷ (codes "port", port_key)
    ∷ (codes "username", username_key)
    ∷ (codes "password", password_key)
    ∷ (codes "otp", otp_key)
    ∷ (codes "otp-prompt", otp_prompt_key)
    ∷ (codes "otp-delay", otp_delay_key)
    ∷ (codes "cookie", ignored_key)
    ∷ (codes "cookie-on-stdin", ignored_key)
    ∷ (codes "no-ftm-push", no_ftm_push_key)
    ∷ (codes "pinentry", pinentry_key)
    ∷ (codes "realm", realm_key)
    ∷ (codes "ifname", ifname_key)
    ∷ (codes "sni", sni_key)
    ∷ (codes "set-routes", set_routes_key)
    ∷ (codes "half-internet-routes", half_internet_routes_key)
    ∷ (codes "reconnect-delay", reconnect_delay_key)
    ∷ (codes "reconnect_delay", reconnect_delay_key)
    ∷ (codes "persistent", reconnect_delay_key)
    ∷ (codes "max_recoonects", max_reconnects_key)
    ∷ (codes "max_reconnects", max_reconnects_key)
    ∷ (codes "max-reconnects", max_reconnects_key)
    ∷ (codes "set-dns", set_dns_key)
    ∷ (codes "pppd-use-peerdns", pppd_use_peerdns_key)
    ∷ (codes "pppd-log", pppd_log_key)
    ∷ (codes "pppd-plugin", pppd_plugin_key)
    ∷ (codes "pppd-ipparam", pppd_ipparam_key)
    ∷ (codes "pppd-ifname", pppd_ifname_key)
    ∷ (codes "pppd-call", pppd_call_key)
    ∷ (codes "pppd-accept-remote", pppd_accept_remote_key)
    ∷ (codes "ppp-system", ppp_system_key)
    ∷ (codes "use-syslog", use_syslog_key)
    ∷ (codes "use-resolvconf", use_resolvconf_key)
    ∷ (codes "trusted-cert", trusted_cert_key)
    ∷ (codes "ca-file", ca_file_key)
    ∷ (codes "user-cert", user_cert_key)
    ∷ (codes "saml-login", saml_login_key)
    ∷ (codes "user-key", user_key_key)
    ∷ (codes "pem-passphrase", pem_passphrase_key)
    ∷ (codes "insecure-ssl", insecure_ssl_key)
    ∷ (codes "cipher-list", cipher_list_key)
    ∷ (codes "min-tls", min_tls_key)
    ∷ (codes "seclevel-1", seclevel_1_key)
    ∷ (codes "user-agent", user_agent_key)
    ∷ (codes "hostcheck", hostcheck_key)
    ∷ (codes "check-virtual-desktop", check_virtual_desktop_key)
    ∷ (codes "proxy", proxy_key)
    ∷ []

unfoldable pub find_key : List (Text × Key) → Text → Option Key
find_key [] key = none
find_key (entry ∷ rest) key =
    let behind = find_key rest key in if equal (entry.0) key then some (entry.1) else behind

-- `parse_addr` is `str::parse` into a `SocketAddr`.
module _ (parse_addr : Text → Option SocketAddr) where
  unfoldable pub apply_key : Key → Text → Text → Config → Result Config
  apply_key host_key key value self = ok (record self { gateway_host = value })
  apply_key port_key key value self =
      parse_port key value >>= λ v. ok (record self { gateway_port = v })
  apply_key username_key key value self = ok (record self { username = value })
  apply_key password_key key value self = ok (record self { password = some value })
  apply_key otp_key key value self = ok (record self { otp = some value })
  apply_key otp_prompt_key key value self = ok (record self { otp_prompt = some value })
  apply_key otp_delay_key key value self =
      parse_u32 key value >>= λ v. ok (record self { otp_delay = v })
  apply_key ignored_key key value self = ok self
  apply_key no_ftm_push_key key value self =
      parse_bool value >>= λ v. ok (record self { no_ftm_push = v })
  apply_key pinentry_key key value self = ok (record self { pinentry = some value })
  apply_key realm_key key value self = ok (record self { realm = some value })
  apply_key ifname_key key value self = ok (record self { iface_name = some value })
  apply_key sni_key key value self = ok (record self { sni = some value })
  apply_key set_routes_key key value self =
      parse_bool value >>= λ v. ok (record self { set_routes = v })
  apply_key half_internet_routes_key key value self =
      parse_bool value >>= λ v. ok (record self { half_internet_routes = v })
  apply_key reconnect_delay_key key value self =
      parse_u32 key value >>= λ v. ok (record self { reconnect_delay = some v })
  apply_key max_reconnects_key key value self =
      parse_u32 key value >>= λ v. ok (record self { max_reconnects = v })
  apply_key set_dns_key key value self = parse_bool value >>= λ v. ok (record self { set_dns = v })
  apply_key pppd_use_peerdns_key key value self =
      parse_bool value >>= λ v. ok (record self { pppd_use_peerdns = v })
  apply_key pppd_log_key key value self = ok (record self { pppd_log = some value })
  apply_key pppd_plugin_key key value self = ok (record self { pppd_plugin = some value })
  apply_key pppd_ipparam_key key value self = ok (record self { pppd_ipparam = some value })
  apply_key pppd_ifname_key key value self = ok (record self { pppd_ifname = some value })
  apply_key pppd_call_key key value self = ok (record self { pppd_call = some value })
  apply_key pppd_accept_remote_key key value self =
      parse_bool value >>= λ v. ok (record self { pppd_accept_remote = v })
  apply_key ppp_system_key key value self = ok (record self { ppp_system = some value })
  apply_key use_syslog_key key value self =
      parse_bool value >>= λ v. ok (record self { use_syslog = v })
  apply_key use_resolvconf_key key value self =
      parse_bool value >>= λ v. ok (record self { use_resolvconf = v })
  apply_key trusted_cert_key key value self =
      push_trusted_cert (self.trusted_certs) value >>= λ v. ok (record self { trusted_certs = v })
  apply_key ca_file_key key value self = ok (record self { ca_file = some value })
  apply_key user_cert_key key value self = ok (record self { user_cert = some value })
  apply_key saml_login_key key value self =
      parse_port key value >>= λ v. ok (record self { saml_port = some v })
  apply_key user_key_key key value self = ok (record self { user_key = some value })
  apply_key pem_passphrase_key key value self = ok (record self { pem_passphrase = some value })
  apply_key insecure_ssl_key key value self =
      parse_bool value >>= λ v. ok (record self { insecure_ssl = v })
  apply_key cipher_list_key key value self = ok (record self { cipher_list = some value })
  apply_key min_tls_key key value self =
      parse_tls_version value >>= λ v. ok (record self { min_tls = some v })
  apply_key seclevel_1_key key value self =
      parse_bool value >>= λ v. ok (record self { seclevel_1 = v })
  apply_key user_agent_key key value self = ok (record self { user_agent = value })
  apply_key hostcheck_key key value self = ok (record self { hostcheck = some value })
  apply_key check_virtual_desktop_key key value self =
      ok (record self { check_virtual_desktop = some value })
  apply_key proxy_key key value self = parse_socket_addr parse_addr (codes "proxy") value >>= λ v.
      ok (record self { proxy = some v })

  abbrev pub on_key : Option Key → Text → Text → Config → Result Config
  on_key none key value self = err (unknown_config_key key)
  on_key (some k) key value self = apply_key k key value self

  unfoldable pub apply_pair : Text → Text → Config → Result Config
  apply_pair key value self = on_key (find_key keys key) key value self

  abbrev pub on_pair : Option (Text × Text) → Config → Result Config
  on_pair none cfg = ok cfg
  on_pair (some (key, value)) cfg = apply_pair (trim key) (trim value) cfg

  unfoldable pub apply_line : Text → Config → Result Config
  apply_line raw_line cfg =
      let line = trim raw_line in
      if is_empty line || starts_with line (codes "#")
      then ok cfg
      else on_pair (split_once b'=' line) cfg

  unfoldable pub apply_lines : List Text → Config → Result Config
  apply_lines [] cfg = ok cfg
  apply_lines (raw_line ∷ rest) cfg = apply_line raw_line cfg >>= λ next. apply_lines rest next

  unfoldable pub parse_config_file : Text → Result Config
  parse_config_file contents = apply_lines (lines contents) default_config
