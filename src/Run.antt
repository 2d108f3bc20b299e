-- ===== src/Run.antt =====
-- src/main.rs: completing the configuration, and the loop that reconnects. What a run of the tunnel
-- comes to, and when a stop is seen, is a parameter.
pub mod Reconnects
mod Tests
use openfortivpn_rs.Common.{
  ℕ, zero, suc, ◌+◌, Bool, true, false, ◌&&◌, ◌||◌, not, Option, none, some, List, [], ◌∷◌, ltb,
  leb, ◌==◌, if◌then◌else◌,
}
use openfortivpn_rs.Common.Error.{Result, ok, err, ◌>>=◌, ◌>>◌, refuse_if, auth, text}
use openfortivpn_rs.Common.Ipv4.{Ipv4Addr, ◌==ip◌}
use openfortivpn_rs.Common.Text.{is_empty}
use openfortivpn_rs.Config.Settings.{Text, Config}
use openfortivpn_rs.Config.Parse.{svpn_cookie_with_prefix}
use openfortivpn_rs.NetPlan.{is_some}
use openfortivpn_rs.Proxy.RouteTable.{VpnConfigXml}

abbrev is_none : {A : Type 0} → Option A → Bool
is_none option = not (is_some option)

-- `read_secret`, for the password, asks the user.
unfoldable pub validate_and_complete_auth_config : (Config → Result Text) → Config → Result Config
validate_and_complete_auth_config read_secret config =
    if is_empty config.username
      && is_none config.cookie
      && is_none config.saml_port
      && is_none config.user_cert
    then err (auth (text "Specify a username." ∷ []))
    else if is_none config.password
        && not (is_empty config.username)
        && is_none config.cookie
        && is_none config.saml_port
    then (read_secret config >>= λ password. ok (record config { password = some password }))
    else ok config

-- `trim_matches`, of `\r` and `\n`.
abbrev is_end : ℕ → Bool
is_end c = c == 13 || c == 10

unfoldable pub trim_ends_start : Text → Text
trim_ends_start [] = []
trim_ends_start (c ∷ cs) = let rest = trim_ends_start cs in if is_end c then rest else c ∷ cs

abbrev keep_unless_end : ℕ → Text → Text
keep_unless_end c [] = if is_end c then [] else c ∷ []
keep_unless_end c (d ∷ rest) = c ∷ d ∷ rest

unfoldable pub trim_ends_end : Text → Text
trim_ends_end [] = []
trim_ends_end (c ∷ cs) = keep_unless_end c (trim_ends_end cs)

abbrev with_cookie : Text → Config → Result Config
with_cookie [] config =
    err (auth (text "--cookie-on-stdin was set but stdin did not contain a cookie" ∷ []))
with_cookie (c ∷ cs) config =
    ok (record config { cookie = some (svpn_cookie_with_prefix (c ∷ cs)) })

-- `stdin` is what reading all of it gives.
unfoldable pub apply_stdin_cookie : Result Text → Config → Result Config
apply_stdin_cookie stdin config =
    if not config.cookie_on_stdin || is_some config.cookie
    then ok config
    else (stdin >>= λ input. with_cookie (trim_ends_end (trim_ends_start input)) config)

-- A run of the tunnel or of the proxy: its result, whether a stop was requested when it ended, and
-- whether one is seen at the start of each second of the wait behind it.
pub record Attempt : Type 0 where
  pub result : Result (Unit {0})
  pub stop_requested : Bool
  pub stop_in_wait : ℕ → Bool

-- Whether a stop is seen in the first `seconds` seconds of the wait.
unfoldable pub stops_waiting : ℕ → (ℕ → Bool) → Bool
stops_waiting zero stop = false
stops_waiting (suc seconds) stop = stops_waiting seconds stop || stop seconds

abbrev unwrap_or_default : Option ℕ → ℕ
unwrap_or_default none = 0
unwrap_or_default (some n) = n

-- Whether the loop ends with the attempt after so many reconnects.
unfoldable pub ends_with : Config → Attempt → ℕ → Bool
ends_with config attempt reconnect_attempts =
    attempt.stop_requested
    || (config.max_reconnects == 0
        || (leb config.max_reconnects reconnect_attempts
            || stops_waiting (unwrap_or_default config.reconnect_delay) attempt.stop_in_wait))

-- The loop, on fuel: the result, and the number of reconnects before the attempt that it is of.
-- `none` is a loop that goes on.
unfoldable pub reconnect_loop : ℕ → (ℕ → Attempt) → Config → ℕ → Option (Result (Unit {0}) × ℕ)
reconnect_loop zero runs config reconnect_attempts = none
reconnect_loop (suc fuel) runs config reconnect_attempts =
    let rest = reconnect_loop fuel runs config (reconnect_attempts + 1) in
    let attempt = runs reconnect_attempts in
    if ends_with config attempt reconnect_attempts
    then some (attempt.result, reconnect_attempts)
    else rest

unfoldable pub run_with_persistence : (ℕ → Attempt) → Config → Option (Result (Unit {0}) × ℕ)
run_with_persistence runs config = reconnect_loop (suc config.max_reconnects) runs config 0

-- `vpn_config.assigned_ip` or else the gateway, read as an address.
abbrev or_else : Option Text → Option Text → Option Text
or_else none second = second
or_else (some first) second = some first

unfoldable pub vpn_config_interface_addr : (Text → Option Ipv4Addr) → VpnConfigXml → Option Ipv4Addr
vpn_config_interface_addr parse vpn_config =
    elim (or_else vpn_config.assigned_ip vpn_config.gateway) [
      | none ↦ none
      | some addr ↦ parse addr
    ]

-- The callback of the forwarding loop in `run_tunnel`: whether an observed address starts the set-up of
-- the network, given whether that was started before.
abbrev is_expected : Option Ipv4Addr → Ipv4Addr → Bool
is_expected none addr = true
is_expected (some expected) addr = addr ==ip expected

unfoldable pub starts_network :
    Config → VpnConfigXml → (Text → Option Ipv4Addr) → Bool → Ipv4Addr → Bool
starts_network config vpn_config parse started addr =
    (config.set_routes || config.set_dns)
    && not started
    && is_expected (vpn_config_interface_addr parse vpn_config) addr
