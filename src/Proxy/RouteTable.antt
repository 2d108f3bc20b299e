-- ===== src/Proxy/RouteTable.antt =====
-- src/proxy/route_table.rs: the networks that the proxy may route to. `parse_ip` is `str::parse`
-- into an `Ipv4Addr`.
pub mod Default
use openfortivpn_rs.Common.{
  ℕ, zero, suc, ◌+◌, ◌-◌, ◌*◌, ◌%◌, ◌^◌, min, bit_and, Bool, true, false, ◌||◌, not, Option, none,
  some, List, [], ◌∷◌, ◌++◌, length, ◌==◌, ◌!=◌, if◌then◌else◌,
}
use openfortivpn_rs.Common.Ipv4
use openfortivpn_rs.Common.Ipv4.{Ipv4Addr, to_u32, from_u32}
use openfortivpn_rs.Common.Text.{is_empty, parse_uint, split}
use openfortivpn_rs.Config.Settings.{Text, Config}

-- `Ipv4Route` and `VpnConfigXml` of src/auth/portal.rs.
pub record Ipv4Route : Type 0 where
  pub destination : Text
  pub mask : Text
  pub gateway : Option Text

pub record VpnConfigXml : Type 0 where
  pub raw_xml : Text
  pub gateway : Option Text
  pub assigned_ip : Option Text
  pub dns_servers : List Text
  pub dns_suffix : Option Text
  pub split_routes : List Ipv4Route

pub record Ipv4Net : Type 0 where
  pub network : Ipv4Addr
  pub prefix : ℕ

pub record ProxyRouteTable : Type 0 where
  pub routes : List Ipv4Net

-- `u32::MAX << (32 - prefix)`
unfoldable pub prefix_mask : ℕ → ℕ
prefix_mask prefix = if prefix == 0 then 0 else (2 ^ 32 - 1) * 2 ^ (32 - prefix) % 2 ^ 32

unfoldable pub new_net : Ipv4Addr → ℕ → Ipv4Net
new_net network prefix =
    let clamped = min prefix 32 in
    record { network = from_u32 (bit_and (to_u32 network) (prefix_mask clamped)); prefix = clamped }

unfoldable pub net_contains : Ipv4Net → Ipv4Addr → Bool
net_contains net addr = bit_and (to_u32 addr) (prefix_mask net.prefix) == to_u32 net.network

-- The loop over the bits of an octet, from bit `bits - 1` down: the prefix and `saw_zero`.
unfoldable pub bits_loop : ℕ → ℕ → ℕ → Bool → Option (ℕ × Bool)
bits_loop zero octet prefix saw_zero = some (prefix, saw_zero)
bits_loop (suc bit) octet prefix saw_zero =
    let is_one = bit_and octet (2 ^ bit) != 0 in
    let counted = bits_loop bit octet ((prefix + 1) % 2 ^ 8) saw_zero in
    let passed = bits_loop bit octet prefix true in
    if is_one then (if saw_zero then none else counted) else passed

-- The loop over the octets, of which `octets` came before: an `i32`, here by its residue.
unfoldable pub octets_loop : List Text → ℕ → Bool → ℕ → Option (ℕ × ℕ)
octets_loop [] prefix saw_zero octets = some (prefix, octets)
octets_loop (part ∷ parts) prefix saw_zero octets = elim (parse_uint 255 part) [
  | none ↦ none
  | some octet ↦ elim (bits_loop 8 octet prefix saw_zero) [
    | none ↦ none
    | some counted ↦ octets_loop parts (counted.0) (counted.1) ((octets + 1) % 2 ^ 32)
  ]
]

abbrev pub whole_mask : Option (ℕ × ℕ) → Option ℕ
whole_mask none = none
whole_mask (some (prefix, octets)) = if octets == 4 then some prefix else none

unfoldable pub ipv4_mask_to_prefix : Text → Option ℕ
ipv4_mask_to_prefix mask = whole_mask (octets_loop (split b'.' mask) 0 false 0)

unfoldable pub routes_contain : List Ipv4Net → Ipv4Addr → Bool
routes_contain [] destination = false
routes_contain (route ∷ routes) destination =
    net_contains route destination || routes_contain routes destination

unfoldable pub can_route : ProxyRouteTable → Ipv4Addr → Bool
can_route table destination = routes_contain table.routes destination

module _ (parse_ip : Text → Option Ipv4Addr) where
  unfoldable pub from_addr_and_mask : Text → Text → Option Ipv4Net
  from_addr_and_mask addr mask = elim (parse_ip addr) [
    | none ↦ none
    | some network ↦ elim (ipv4_mask_to_prefix mask) [
      | none ↦ none
      | some prefix ↦ some (new_net network prefix)
    ]
  ]

  unfoldable pub split_nets : List Ipv4Route → List Ipv4Net
  split_nets [] = []
  split_nets (route ∷ routes) = elim (from_addr_and_mask route.destination route.mask) [
    | none ↦ split_nets routes
    | some net ↦ net ∷ split_nets routes
  ]

  unfoldable pub from_config : Config → VpnConfigXml → ProxyRouteTable
  from_config config vpn_config =
      if not (config.set_routes)
      then record { routes = [] }
      else if not (is_empty (vpn_config.split_routes))
      then record { routes = split_nets (vpn_config.split_routes) }
      else if config.half_internet_routes
      then record { routes = new_net (Ipv4.new 0 0 0 0) 1 ∷ new_net (Ipv4.new 128 0 0 0) 1 ∷ [] }
      else record { routes = new_net (Ipv4.new 0 0 0 0) 0 ∷ [] }
