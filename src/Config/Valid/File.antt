-- ===== src/Config/Valid/File.antt =====
-- src/config.rs: the settings stay valid through a configuration file.
use openfortivpn_rs.Common.{
  Bool, true, false, Option, none, some, List, [], ◌∷◌, ◌||◌, if◌then◌else◌, ◌≡◌, subst,
}
use openfortivpn_rs.Common.Bytes.{codes}
use openfortivpn_rs.Common.Text.{is_empty}
use openfortivpn_rs.Common.Error.{Result, ok, err, ◌>>=◌, >>=-eq-ok}
use openfortivpn_rs.Config.Settings.{Text, SocketAddr, Config, default_config}
use openfortivpn_rs.Config.Parse.{
  lines, split_once, trim, starts_with, parse_bool, parse_port, parse_u32, parse_tls_version,
  parse_socket_addr, push_trusted_cert,
}
use openfortivpn_rs.Config.File.{
  Key, find_key, keys, apply_key, on_key, apply_pair, on_pair, apply_line, apply_lines,
  parse_config_file, host_key, port_key, username_key, password_key, otp_key, otp_prompt_key,
  otp_delay_key, ignored_key, no_ftm_push_key, pinentry_key, realm_key, ifname_key, sni_key,
  set_routes_key, half_internet_routes_key, reconnect_delay_key, max_reconnects_key, set_dns_key,
  pppd_use_peerdns_key, pppd_log_key, pppd_plugin_key, pppd_ipparam_key, pppd_ifname_key,
  pppd_call_key, pppd_accept_remote_key, ppp_system_key, use_syslog_key, use_resolvconf_key,
  trusted_cert_key, ca_file_key, user_cert_key, saml_login_key, user_key_key, pem_passphrase_key,
  insecure_ssl_key, cipher_list_key, min_tls_key, seclevel_1_key, user_agent_key, hostcheck_key,
  check_virtual_desktop_key, proxy_key,
}
use openfortivpn_rs.Config.Valid.{
  IsValid, default-IsValid, with_port, with_delay, with_reconnects, with_certs, parse_port_bounds,
  parse_u32_lt, push_trusted_cert-All,
}

pub ok_injective : {A : Type 0} (a b : A) → ok a ≡ ok b → a ≡ b
ok_injective a b e = cc

pub put : (set cfg : Config) → IsValid set → ok set ≡ ok cfg → IsValid cfg
put set cfg h e = subst IsValid (ok_injective set cfg e) h

pub bound :
    {A : Type 0} (m : Result A) (f : A → Config) (cfg : Config)
    → ((a : A) → m ≡ ok a → IsValid (f a))
    → (m >>= λ a. ok (f a)) ≡ ok cfg
    → IsValid cfg
bound m f cfg h e = let (a, r, p) = >>=-eq-ok m (λ a. ok (f a)) e in put (f a) cfg (h a r) p

-- No settings with an error are those of a file.
refused : {P : Type 0} {A : Type 0} (e : _) (a : A) → err e ≡ ok a → P
refused e a h = absurd cc

module _ (parse_addr : Text → Option SocketAddr) where
  apply_key-IsValid :
      (k : Key) (key value : Text) (self cfg : Config)
      → IsValid self
      → apply_key parse_addr k key value self ≡ ok cfg
      → IsValid cfg
  unfolding apply_key
  apply_key-IsValid host_key key value self cfg h e =
      put (record self { gateway_host = value }) cfg h e
  apply_key-IsValid port_key key value self cfg h e =
      bound (parse_port key value) (λ v. record self { gateway_port = v }) cfg
        (λ v r. with_port h v (parse_port_bounds key value v r)) e
  apply_key-IsValid username_key key value self cfg h e =
      put (record self { username = value }) cfg h e
  apply_key-IsValid password_key key value self cfg h e =
      put (record self { password = some value }) cfg h e
  apply_key-IsValid otp_key key value self cfg h e = put (record self { otp = some value }) cfg h e
  apply_key-IsValid otp_prompt_key key value self cfg h e =
      put (record self { otp_prompt = some value }) cfg h e
  apply_key-IsValid otp_delay_key key value self cfg h e =
      bound (parse_u32 key value) (λ v. record self { otp_delay = v }) cfg
        (λ v r. with_delay h v (parse_u32_lt key value v r)) e
  apply_key-IsValid ignored_key key value self cfg h e = put self cfg h e
  apply_key-IsValid no_ftm_push_key key value self cfg h e =
      bound (parse_bool value) (λ v. record self { no_ftm_push = v }) cfg (λ v r. h) e
  apply_key-IsValid pinentry_key key value self cfg h e =
      put (record self { pinentry = some value }) cfg h e
  apply_key-IsValid realm_key key value self cfg h e =
      put (record self { realm = some value }) cfg h e
  apply_key-IsValid ifname_key key value self cfg h e =
      put (record self { iface_name = some value }) cfg h e
  apply_key-IsValid sni_key key value self cfg h e = put (record self { sni = some value }) cfg h e
  apply_key-IsValid set_routes_key key value self cfg h e =
      bound (parse_bool value) (λ v. record self { set_routes = v }) cfg (λ v r. h) e
  apply_key-IsValid half_internet_routes_key key value self cfg h e =
      bound (parse_bool value) (λ v. record self { half_internet_routes = v }) cfg (λ v r. h) e
  apply_key-IsValid reconnect_delay_key key value self cfg h e =
      bound (parse_u32 key value) (λ v. record self { reconnect_delay = some v }) cfg (λ v r. h) e
  apply_key-IsValid max_reconnects_key key value self cfg h e =
      bound (parse_u32 key value) (λ v. record self { max_reconnects = v }) cfg
        (λ v r. with_reconnects h v (parse_u32_lt key value v r)) e
  apply_key-IsValid set_dns_key key value self cfg h e =
      bound (parse_bool value) (λ v. record self { set_dns = v }) cfg (λ v r. h) e
  apply_key-IsValid pppd_use_peerdns_key key value self cfg h e =
      bound (parse_bool value) (λ v. record self { pppd_use_peerdns = v }) cfg (λ v r. h) e
  apply_key-IsValid pppd_log_key key value self cfg h e =
      put (record self { pppd_log = some value }) cfg h e
  apply_key-IsValid pppd_plugin_key key value self cfg h e =
      put (record self { pppd_plugin = some value }) cfg h e
  apply_key-IsValid pppd_ipparam_key key value self cfg h e =
      put (record self { pppd_ipparam = some value }) cfg h e
  apply_key-IsValid pppd_ifname_key key value self cfg h e =
      put (record self { pppd_ifname = some value }) cfg h e
  apply_key-IsValid pppd_call_key key value self cfg h e =
      put (record self { pppd_call = some value }) cfg h e
  apply_key-IsValid pppd_accept_remote_key key value self cfg h e =
      bound (parse_bool value) (λ v. record self { pppd_accept_remote = v }) cfg (λ v r. h) e
  apply_key-IsValid ppp_system_key key value self cfg h e =
      put (record self { ppp_system = some value }) cfg h e
  apply_key-IsValid use_syslog_key key value self cfg h e =
      bound (parse_bool value) (λ v. record self { use_syslog = v }) cfg (λ v r. h) e
  apply_key-IsValid use_resolvconf_key key value self cfg h e =
      bound (parse_bool value) (λ v. record self { use_resolvconf = v }) cfg (λ v r. h) e
  apply_key-IsValid trusted_cert_key key value self cfg h e =
      bound (push_trusted_cert (self.trusted_certs) value) (λ v. record self { trusted_certs = v })
        cfg
        (λ v r.
          with_certs h v (push_trusted_cert-All (self.trusted_certs) value v (h.certs_digests) r))
        e
  apply_key-IsValid ca_file_key key value self cfg h e =
      put (record self { ca_file = some value }) cfg h e
  apply_key-IsValid user_cert_key key value self cfg h e =
      put (record self { user_cert = some value }) cfg h e
  apply_key-IsValid saml_login_key key value self cfg h e =
      bound (parse_port key value) (λ v. record self { saml_port = some v }) cfg (λ v r. h) e
  apply_key-IsValid user_key_key key value self cfg h e =
      put (record self { user_key = some value }) cfg h e
  apply_key-IsValid pem_passphrase_key key value self cfg h e =
      put (record self { pem_passphrase = some value }) cfg h e
  apply_key-IsValid insecure_ssl_key key value self cfg h e =
      bound (parse_bool value) (λ v. record self { insecure_ssl = v }) cfg (λ v r. h) e
  apply_key-IsValid cipher_list_key key value self cfg h e =
      put (record self { cipher_list = some value }) cfg h e
  apply_key-IsValid min_tls_key key value self cfg h e =
      bound (parse_tls_version value) (λ v. record self { min_tls = some v }) cfg (λ v r. h) e
  apply_key-IsValid seclevel_1_key key value self cfg h e =
      bound (parse_bool value) (λ v. record self { seclevel_1 = v }) cfg (λ v r. h) e
  apply_key-IsValid user_agent_key key value self cfg h e =
      put (record self { user_agent = value }) cfg h e
  apply_key-IsValid hostcheck_key key value self cfg h e =
      put (record self { hostcheck = some value }) cfg h e
  apply_key-IsValid check_virtual_desktop_key key value self cfg h e =
      put (record self { check_virtual_desktop = some value }) cfg h e
  apply_key-IsValid proxy_key key value self cfg h e =
      bound (parse_socket_addr parse_addr (codes "proxy") value)
        (λ v. record self { proxy = some v }) cfg (λ v r. h) e

  on_key-IsValid :
      (found' : Option Key) (key value : Text) (self cfg : Config)
      → IsValid self
      → on_key parse_addr found' key value self ≡ ok cfg
      → IsValid cfg
  on_key-IsValid none key value self cfg h e = refused _ cfg e
  on_key-IsValid (some k) key value self cfg h e = apply_key-IsValid k key value self cfg h e

  apply_pair-IsValid :
      (key value : Text) (self cfg : Config)
      → IsValid self
      → apply_pair parse_addr key value self ≡ ok cfg
      → IsValid cfg
  unfolding apply_pair
  apply_pair-IsValid key value self cfg h e =
      on_key-IsValid (find_key keys key) key value self cfg h e

  on_pair-IsValid :
      (pair : Option (Text × Text)) (self cfg : Config)
      → IsValid self
      → on_pair parse_addr pair self ≡ ok cfg
      → IsValid cfg
  on_pair-IsValid none self cfg h e = put self cfg h e
  on_pair-IsValid (some (key, value)) self cfg h e =
      apply_pair-IsValid (trim key) (trim value) self cfg h e

  tested :
      (skip : Bool) (pair : Option (Text × Text)) (self cfg : Config)
      → IsValid self
      → (if skip then ok self else on_pair parse_addr pair self) ≡ ok cfg
      → IsValid cfg
  tested true pair self cfg h e = put self cfg h e
  tested false pair self cfg h e = on_pair-IsValid pair self cfg h e

  apply_line-IsValid :
      (raw_line : Text) (self cfg : Config)
      → IsValid self
      → apply_line parse_addr raw_line self ≡ ok cfg
      → IsValid cfg
  unfolding apply_line
  apply_line-IsValid raw_line self cfg h e =
      let line = trim raw_line in
      tested (is_empty line || starts_with line (codes "#")) (split_once b'=' line) self cfg h e

  apply_lines-IsValid :
      (raw_lines : List Text) (self cfg : Config)
      → IsValid self
      → apply_lines parse_addr raw_lines self ≡ ok cfg
      → IsValid cfg
  unfolding apply_lines
  apply_lines-IsValid [] self cfg h e = put self cfg h e
  apply_lines-IsValid (raw_line ∷ rest) self cfg h e =
      let (next, a, b) =
        >>=-eq-ok (apply_line parse_addr raw_line self) (λ next. apply_lines parse_addr rest next)
          e in
      apply_lines-IsValid rest next cfg (apply_line-IsValid raw_line self next h a) b

  pub parse_config_file-IsValid :
      (contents : Text) (cfg : Config)
      → parse_config_file parse_addr contents ≡ ok cfg
      → IsValid cfg
  unfolding parse_config_file
  parse_config_file-IsValid contents cfg e =
      apply_lines-IsValid (lines contents) default_config cfg default-IsValid e
