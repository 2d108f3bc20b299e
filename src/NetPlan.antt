-- ===== src/NetPlan.antt =====
-- src/net_plan.rs: the actions that set up routes and DNS.
pub mod Masks
mod Tests
use openfortivpn_rs.Common.{
  ℕ, zero, suc, ◌+◌, ◌/◌, ◌%◌, ◌^◌, bit_and, ◌!=◌, ◌&&◌, ◌||◌, not, Bool, true, false, Option, none,
  some, List, [], ◌∷◌, ◌++◌, ltb, ◌==◌, if◌then◌else◌, length,
}
use openfortivpn_rs.Common.Bytes.{codes}
use openfortivpn_rs.Common.Ipv4.{Ipv4Addr}
use openfortivpn_rs.Common.Text.{is_empty, parse_uint, split}
use openfortivpn_rs.Config.Settings.{Text, Config}
use openfortivpn_rs.Proxy.RouteTable.{Ipv4Route, VpnConfigXml}

pub data Platform : Type 0 where
  linux mac_os : Platform

pub data NetworkAction : Type 0 where
  drop_wrong_tunnel_route : Platform → Ipv4Addr → Text → NetworkAction
  protect_tunnel_route : Platform → Ipv4Addr → NetworkAction
  run_command : Text → List Text → NetworkAction
  replace_default_route : Platform → Text → NetworkAction
  configure_dns : Platform → Text → List Text → Option Text → NetworkAction

pub record NetworkPlan : Type 0 where
  pub actions : List NetworkAction

-- The loop over the bits of an octet, from bit `bits - 1` down: the prefix and `saw_zero`.
unfoldable pub mask_bits_loop : ℕ → ℕ → ℕ → Bool → Option (ℕ × Bool)
mask_bits_loop zero octet prefix saw_zero = some (prefix, saw_zero)
mask_bits_loop (suc bit) octet prefix saw_zero =
    let is_one = bit_and octet (2 ^ bit) != 0 in
    let counted = mask_bits_loop bit octet ((prefix + 1) % 2 ^ 8) saw_zero in
    let passed = mask_bits_loop bit octet prefix true in
    if is_one then (if saw_zero then none else counted) else passed

-- The loop over the octets: the prefix.
unfoldable pub mask_loop : List Text → ℕ → Bool → Option ℕ
mask_loop [] prefix saw_zero = some prefix
mask_loop (part ∷ parts) prefix saw_zero = elim (parse_uint 255 part) [
  | none ↦ none
  | some octet ↦ elim (mask_bits_loop 8 octet prefix saw_zero) [
    | none ↦ none
    | some counted ↦ mask_loop parts (counted.0) (counted.1)
  ]
]

abbrev pub if_four : List Text → Option ℕ → Option ℕ
if_four parts none = none
if_four parts (some prefix) = if length parts == 4 then some prefix else none

unfoldable pub ipv4_mask_to_prefix : Text → Option ℕ
ipv4_mask_to_prefix mask = if_four (split b'.' mask) (mask_loop (split b'.' mask) 0 false)

-- A `u8` in a formatted text.
abbrev pub digit : ℕ → ℕ
digit n = b'0' + n % 10

abbrev pub format_u8 : ℕ → Text
format_u8 n =
    if ltb n 10
    then digit n ∷ []
    else if ltb n 100
    then digit (n / 10) ∷ digit n ∷ []
    else digit (n / 100) ∷ digit (n / 10) ∷ digit n ∷ []

-- The text behind the `/`.
abbrev mask_text : Option ℕ → Text → Text
mask_text (some prefix) mask = format_u8 prefix
mask_text none mask = mask

abbrev via : Option Text → List Text
via none = []
via (some gateway) = codes "via" ∷ gateway ∷ []

abbrev gateway_or_interface : Option Text → Text → List Text
gateway_or_interface (some gateway) interface = gateway ∷ []
gateway_or_interface none interface = codes "-interface" ∷ interface ∷ []

unfoldable pub route_action_from_parts : Text → Text → Option Text → Platform → Text → NetworkAction
route_action_from_parts destination mask gateway linux interface =
    let target = destination ++ (b'/' ∷ mask_text (ipv4_mask_to_prefix mask) mask) in
    run_command (codes "ip") (
      (codes "route" ∷ codes "add" ∷ target ∷ [])
      ++ (via gateway ++ (codes "dev" ∷ interface ∷ [])))
route_action_from_parts destination mask gateway mac_os interface =
    run_command (codes "/sbin/route") (
      (codes "add" ∷ codes "-net" ∷ destination ∷ codes "-netmask" ∷ mask ∷ [])
      ++ gateway_or_interface gateway interface)

unfoldable pub route_action : Ipv4Route → Platform → Text → Option NetworkAction
route_action route platform interface = elim (route.gateway) [
  | none ↦ none
  | some gateway ↦
      some (route_action_from_parts route.destination route.mask (some gateway) platform interface)
]

-- `filter_map` and `collect`
unfoldable pub split_actions : List Ipv4Route → Platform → Text → List NetworkAction
split_actions [] platform interface = []
split_actions (route ∷ routes) platform interface = elim (route_action route platform interface) [
  | none ↦ split_actions routes platform interface
  | some action ↦ action ∷ split_actions routes platform interface
]

unfoldable pub plan_routes :
    List Ipv4Route → Bool → Option Text → Platform → Text → List NetworkAction
plan_routes split_routes half_internet_routes gateway platform interface =
    if not (is_empty split_routes)
    then split_actions split_routes platform interface
    else if half_internet_routes
    then route_action_from_parts (codes "0.0.0.0") (codes "128.0.0.0") none platform interface
      ∷ route_action_from_parts (codes "128.0.0.0") (codes "128.0.0.0") none platform interface
      ∷ []
    else replace_default_route platform interface ∷ []

abbrev pub protect : Option Ipv4Addr → Platform → Text → List NetworkAction
protect none platform interface = []
protect (some endpoint) platform interface =
    drop_wrong_tunnel_route platform endpoint interface
    ∷ protect_tunnel_route platform endpoint
    ∷ []

abbrev pub is_some : {A : Type 0} → Option A → Bool
is_some none = false
is_some (some a) = true

unfoldable pub plan_network_actions :
    Config → VpnConfigXml → Platform → Text → Option Ipv4Addr → NetworkPlan
plan_network_actions config vpn_config platform interface tunnel_endpoint =
    let routes : List NetworkAction =
      if config.set_routes
      then protect tunnel_endpoint platform interface
        ++ plan_routes (vpn_config.split_routes) (config.half_internet_routes) (vpn_config.gateway)
            platform interface
      else [] in
    let dns : List NetworkAction =
      if config.set_dns
        && (not (is_empty (vpn_config.dns_servers)) || is_some (vpn_config.dns_suffix))
      then configure_dns platform interface (vpn_config.dns_servers) (vpn_config.dns_suffix) ∷ []
      else [] in
    record { actions = routes ++ dns }
