-- ===== src/NetPlan/Tests.antt =====
-- The two readings of a netmask at a text, and a run of the default route.
use openfortivpn_rs.Common.{◌<◌, ◌^◌, ◌↔◌, length, some, arith, true, Option, none, [], ◌≡◌, refl}
use openfortivpn_rs.Common.Bytes.{codes}
use openfortivpn_rs.Common.Ipv4
use openfortivpn_rs.Common.Ipv4.{Ipv4Addr}
use openfortivpn_rs.Config.Settings.{Text, default_config}
use openfortivpn_rs.NetPlan
use openfortivpn_rs.NetPlan.Masks.{ipv4_mask_to_prefix-IsMask}
use openfortivpn_rs.NetPlan.Masks.Runs.{IsMask}
use openfortivpn_rs.Common.Text.{split, parse_uint, parse_digits}
use openfortivpn_rs.Proxy.RouteTable
use openfortivpn_rs.Proxy.RouteTable.{octets_loop, bits_loop, VpnConfigXml, can_route, from_config}
use openfortivpn_rs.Proxy.RouteTable.Default.{can_route-from_config}

-- A /18.
abbrev mask : Text
mask = codes "255.255.192.0"

few_parts : length (split b'.' mask) < 2 ^ 32
unfolding split
few_parts = omega arith

ipv4_mask_to_prefix-IsMask_example :
    ((NetPlan.ipv4_mask_to_prefix mask ≡ some 18) ↔ IsMask mask 18)
    × ((RouteTable.ipv4_mask_to_prefix mask ≡ some 18) ↔ IsMask mask 18)
ipv4_mask_to_prefix-IsMask_example = ipv4_mask_to_prefix-IsMask mask 18 few_parts

-- It is read.
is_read : RouteTable.ipv4_mask_to_prefix mask ≡ some 18
unfolding RouteTable.ipv4_mask_to_prefix octets_loop bits_loop split parse_uint parse_digits
is_read = refl

abbrev no_routes : VpnConfigXml
no_routes = record {
  raw_xml = [];
  gateway = none;
  assigned_ip = none;
  dns_servers = [];
  dns_suffix = none;
  split_routes = [];
}

abbrev parse_ip : Text → Option Ipv4Addr
parse_ip value = none

can_route-from_config_example :
    can_route (from_config parse_ip default_config no_routes) (Ipv4.new 8 8 8 8) ≡ true
can_route-from_config_example =
    can_route-from_config parse_ip default_config no_routes (Ipv4.new 8 8 8 8) refl refl
