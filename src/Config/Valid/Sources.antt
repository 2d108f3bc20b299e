-- ===== src/Config/Valid/Sources.antt =====
-- src/config.rs: the settings of a run are valid, from whatever sources.
use openfortivpn_rs.Common.{
  ℕ, ◌≤◌, ◌<◌, ◌^◌, ◌&&◌, not, Option, none, some, List, [], ◌∷◌, if◌then◌else◌, All, ◌≡◌, refl,
  sym, ap, subst, ◌∙◌, arith, Bool-cases, inl, inr,
}
use openfortivpn_rs.Common.Error.{Result, ok, err, ◌>>=◌, >>=-eq-ok}
use openfortivpn_rs.Common.Bytes.{codes}
use openfortivpn_rs.Common.Text.{is_digit, is_empty}
use openfortivpn_rs.Config.Settings.{
  Text, SocketAddr, Config, Cli, default_config, max_log_verbosity,
}
use openfortivpn_rs.Config.Parse.{
  cli_log_verbosity, all, parse_gateway, gateway_of, parse_port, push_trusted_cert,
  parse_tls_version, rsplit_once,
}
use openfortivpn_rs.Config.Merge.{merge}
use openfortivpn_rs.Config.Merge.Default.{merge-default}
use openfortivpn_rs.Config.File.{parse_config_file}
use openfortivpn_rs.Config.CommandLine.{
  or_keep, apply_gateway, apply_login, push_trusted_certs, apply_trusted, apply_min_tls,
  apply_tunnel, apply_cli, from_file, with_file, from_sources,
}
use openfortivpn_rs.Config.Valid.{
  IsValid, IsDigest, default-IsValid, with_port, with_verbosity, with_delay, with_reconnects,
  with_certs, parse_port_bounds, push_trusted_cert-All,
}
use openfortivpn_rs.Config.Valid.File.{ok_injective, put, bound, parse_config_file-IsValid}

-- The `u32` numbers of a command line.
abbrev pub IsWord : Option ℕ → Type 0
IsWord none = Unit
IsWord (some n) = n < 2 ^ 32

or_keep-lt : (n : ℕ) (o : Option ℕ) → n < 2 ^ 32 → IsWord o → or_keep n o < 2 ^ 32
or_keep-lt n none h k = h
or_keep-lt n (some m) h k = k

pub cli_log_verbosity-le : (verbose quiet : ℕ) → cli_log_verbosity verbose quiet ≤ max_log_verbosity
unfolding cli_log_verbosity
cli_log_verbosity-le verbose quiet = omega arith

second : (a b : Text × Option ℕ) → ok a ≡ ok b → a.1 ≡ b.1
second a b e = ap (λ (p : Text × Option ℕ). p.1) (ok_injective a b e)

-- What a gateway's port makes of the port before.
module _ (before : ℕ) (h : (1 ≤ before) × (before < 2 ^ 16)) where
  abbrev IsPort : Option ℕ → Type 0
  IsPort port = (1 ≤ or_keep before port) × (or_keep before port < 2 ^ 16)

  no-IsPort : (value : Text) (p : Text × Option ℕ) → ok (value, none) ≡ ok p → IsPort (p.1)
  no-IsPort value p e = subst IsPort (second (value, none) p e) h

  gateway_of-IsPort :
      (value : Text) (halves : Option (Text × Text)) (p : Text × Option ℕ)
      → gateway_of value halves ≡ ok p
      → IsPort (p.1)
  gateway_of-IsPort value none p e = no-IsPort value p e
  gateway_of-IsPort value (some (host, port)) p e =
      elim (Bool-cases (not (is_empty host) && not (is_empty port) && all is_digit port)) [
        | inl a ↦
            let split : (parse_port (codes "gateway") port >>= λ n. ok (host, some n)) ≡ ok p =
              sym (
                ap
                  (λ b.
                    if b
                    then (parse_port (codes "gateway") port >>= λ n. ok (host, some n))
                    else ok (value, none))
                  a)
              ∙ e in
            let (n, r, s) =
              >>=-eq-ok (parse_port (codes "gateway") port) (λ n. ok (host, some n)) split in
            subst IsPort (second (host, some n) p s) (parse_port_bounds (codes "gateway") port n r)
        | inr a ↦ no-IsPort value p (
            sym (
              ap
                (λ b.
                  if b
                  then (parse_port (codes "gateway") port >>= λ n. ok (host, some n))
                  else ok (value, none))
                a)
            ∙ e)
      ]

apply_gateway-IsValid :
    (gateway : Option Text) (self cfg : Config)
    → IsValid self
    → apply_gateway gateway self ≡ ok cfg
    → IsValid cfg
unfolding apply_gateway parse_gateway
apply_gateway-IsValid none self cfg h e = put self cfg h e
apply_gateway-IsValid (some value) self cfg h e =
    bound (gateway_of value (rsplit_once b':' value))
      (λ p. record self { gateway_host = p.0; gateway_port = or_keep (self.gateway_port) (p.1) })
      cfg
      (λ p r. with_port h (or_keep (self.gateway_port) (p.1)) (
        gateway_of-IsPort (self.gateway_port) (h.port_pos, h.port_word) value
          (rsplit_once b':' value) p r))
      e

push_trusted_certs-All :
    (digests certs more : List Text)
    → All IsDigest certs
    → push_trusted_certs digests certs ≡ ok more
    → All IsDigest more
unfolding push_trusted_certs
push_trusted_certs-All [] certs more h e = subst (All IsDigest) (cc e) h
push_trusted_certs-All (digest ∷ digests) certs more h e =
    let (next, a, b) =
      >>=-eq-ok (push_trusted_cert certs digest) (λ n. push_trusted_certs digests n) e in
    push_trusted_certs-All digests next more (push_trusted_cert-All certs digest next h a) b

apply_login-IsValid :
    (cli : Cli) (self : Config)
    → IsWord (cli.otp_delay)
    → IsValid self
    → IsValid (apply_login cli self)
unfolding apply_login
apply_login-IsValid cli self w h =
    with_verbosity
      (with_delay h (or_keep (self.otp_delay) (cli.otp_delay))
        (or_keep-lt (self.otp_delay) (cli.otp_delay) (h.delay_word) w))
      (cli_log_verbosity (cli.verbose) (cli.quiet)) (cli_log_verbosity-le (cli.verbose) (cli.quiet))

apply_trusted-IsValid :
    (cli : Cli) (self cfg : Config) → IsValid self → apply_trusted cli self ≡ ok cfg → IsValid cfg
unfolding apply_trusted
apply_trusted-IsValid cli self cfg h e =
    bound (push_trusted_certs (cli.trusted_cert) (self.trusted_certs))
      (λ certs. record self { trusted_certs = certs }) cfg
      (λ certs r.
        with_certs h certs (
          push_trusted_certs-All (cli.trusted_cert) (self.trusted_certs) certs (h.certs_digests) r))
      e

apply_min_tls-IsValid :
    (value : Option Text) (self cfg : Config)
    → IsValid self
    → apply_min_tls value self ≡ ok cfg
    → IsValid cfg
unfolding apply_min_tls
apply_min_tls-IsValid none self cfg h e = put self cfg h e
apply_min_tls-IsValid (some value) self cfg h e =
    bound (parse_tls_version value) (λ v. record self { min_tls = some v }) cfg (λ v r. h) e

apply_tunnel-IsValid :
    (cli : Cli) (self : Config)
    → IsWord (cli.max_reconnects)
    → IsValid self
    → IsValid (apply_tunnel cli self)
unfolding apply_tunnel
apply_tunnel-IsValid cli self w h =
    with_reconnects h (or_keep (self.max_reconnects) (cli.max_reconnects))
      (or_keep-lt (self.max_reconnects) (cli.max_reconnects) (h.reconnects_word) w)

-- A command line that is accepted leaves valid settings valid.
pub apply_cli-IsValid :
    (cli : Cli) (self cfg : Config)
    → IsWord (cli.otp_delay)
    → IsWord (cli.max_reconnects)
    → IsValid self
    → apply_cli cli self ≡ ok cfg
    → IsValid cfg
unfolding apply_cli
apply_cli-IsValid cli self cfg w w' h e =
    let (pointed, a, r) =
      >>=-eq-ok (apply_gateway (cli.gateway) self)
        (λ pointed. apply_trusted cli (apply_login cli pointed) >>= λ trusting.
          apply_min_tls (cli.min_tls) trusting >>= λ versioned. ok (apply_tunnel cli versioned))
        e in
    let (trusting, b, s) =
      >>=-eq-ok (apply_trusted cli (apply_login cli pointed))
        (λ trusting.
          apply_min_tls (cli.min_tls) trusting >>= λ versioned. ok (apply_tunnel cli versioned))
        r in
    let logged =
      apply_login-IsValid cli pointed w (apply_gateway-IsValid (cli.gateway) self pointed h a) in
    let trusted = apply_trusted-IsValid cli (apply_login cli pointed) trusting logged b in
    bound (apply_min_tls (cli.min_tls) trusting) (λ versioned. apply_tunnel cli versioned) cfg
      (λ versioned m.
        apply_tunnel-IsValid cli versioned w'
          (apply_min_tls-IsValid (cli.min_tls) trusting versioned trusted m))
      s

module _ (read_to_string : Text → Result Text) (parse_addr : Text → Option SocketAddr) where
  -- Settings over the defaults are those of the file alone.
  from_file-IsValid :
      (path : Text) (cfg : Config) → from_file read_to_string parse_addr path ≡ ok cfg → IsValid cfg
  unfolding from_file
  from_file-IsValid path cfg e =
      let (contents, a, r) =
        >>=-eq-ok (read_to_string path) (λ contents. parse_config_file parse_addr contents) e in
      parse_config_file-IsValid parse_addr contents cfg r

  with_file-IsValid :
      (path : Option Text) (cfg : Config)
      → with_file read_to_string parse_addr path default_config ≡ ok cfg
      → IsValid cfg
  with_file-IsValid none cfg e = put default_config cfg default-IsValid e
  with_file-IsValid (some path) cfg e =
      bound (from_file read_to_string parse_addr path) (λ other. merge default_config other) cfg
        (λ other r. subst IsValid (sym (merge-default other)) (from_file-IsValid path other r)) e

-- If the settings of a run come about at all, from any file system, any reading of socket addresses
-- and a command line whose numbers are 32-bit words, then the gateway's port is between 1 and
-- 65535, the log verbosity at most 6, the two stored counts are 32-bit words, and every trusted
-- certificate is 64 lower-case hexadecimal digits.
pub from_sources-IsValid :
    (read_to_string : Text → Result Text) (parse_addr : Text → Option SocketAddr) (cli : Cli)
    (cfg : Config)
    → IsWord (cli.otp_delay)
    → IsWord (cli.max_reconnects)
    → from_sources read_to_string parse_addr cli ≡ ok cfg
    → IsValid cfg
unfolding from_sources
from_sources-IsValid read_to_string parse_addr cli cfg w w' e =
    let (filed, a, r) =
      >>=-eq-ok (with_file read_to_string parse_addr (cli.config) default_config)
        (λ cfg. apply_cli cli cfg) e in
    apply_cli-IsValid cli filed cfg w w'
      (with_file-IsValid read_to_string parse_addr (cli.config) filed a) r

ok_congruent :
    {A B : Type 0} (m : Result A) (f g : A → B)
    → ((a : A) → f a ≡ g a)
    → (m >>= λ a. ok (f a)) ≡ (m >>= λ a. ok (g a))
ok_congruent (ok a) f g h = ap ok (h a)
ok_congruent (err e) f g h = refl

right_unit : {A : Type 0} (m : Result A) → (m >>= λ a. ok a) ≡ m
right_unit (ok a) = refl
right_unit (err e) = refl

-- With a configuration file, the settings are the command line laid over exactly what the file
-- says: merging the file into the defaults changes nothing of it.
pub from_sources_layers :
    (read_to_string : Text → Result Text) (parse_addr : Text → Option SocketAddr) (cli : Cli)
    (path : Text)
    → cli.config ≡ some path
    → from_sources read_to_string parse_addr cli
      ≡ (from_file read_to_string parse_addr path >>= λ cfg. apply_cli cli cfg)
unfolding from_sources
from_sources_layers read_to_string parse_addr cli path e =
    ap (λ p. with_file read_to_string parse_addr p default_config >>= λ cfg. apply_cli cli cfg) e
    ∙ (ap (λ m. m >>= λ cfg. apply_cli cli cfg)
        (ok_congruent (from_file read_to_string parse_addr path)
            (λ other. merge default_config other) (λ other. other) merge-default
          ∙ right_unit (from_file read_to_string parse_addr path)))
