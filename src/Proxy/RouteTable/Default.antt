-- ===== src/Proxy/RouteTable/Default.antt =====
-- What the route table of src/proxy/route_table.rs lets through.
use openfortivpn_rs.Common.{
  ℕ, min, bit_and, Bool-cases, inl, inr, true, false, [], ◌==◌, ==_refl, ◌≡◌, refl, ap, ◌∙◌, Option,
}
use openfortivpn_rs.Common.Bits.{bit_and-zero}
use openfortivpn_rs.Common.Ipv4.{Ipv4Addr, to_u32, from_u32, to_u32-from_u32}
use openfortivpn_rs.Common.Ipv4
use openfortivpn_rs.Config.Settings.{Text, Config}
use openfortivpn_rs.Proxy.RouteTable.{
  VpnConfigXml, prefix_mask, new_net, net_contains, routes_contain, can_route, from_config,
}

-- A network contains the address that it was made of, for every prefix.
pub net_contains-new_net :
    (network : Ipv4Addr) (prefix : ℕ) → net_contains (new_net network prefix) network ≡ true
unfolding net_contains new_net
net_contains-new_net network prefix =
    let kept = bit_and (to_u32 network) (prefix_mask (min prefix 32)) in
    ap (λ n. kept == n) (to_u32-from_u32 kept) ∙ ==_refl kept

zero_net : (destination : Ipv4Addr) → net_contains (new_net (Ipv4.new 0 0 0 0) 0) destination ≡ true
unfolding net_contains new_net prefix_mask
zero_net destination = rw (bit_and-zero (to_u32 destination)) refl

-- Without split routes and half-internet routes the table routes every destination if routes are to
-- be set, and no destination if they are not, whatever the texts of the configuration read as.
pub can_route-from_config :
    (parse_ip : Text → Option Ipv4Addr) (config : Config) (vpn_config : VpnConfigXml)
    (destination : Ipv4Addr)
    → config.half_internet_routes ≡ false
    → vpn_config.split_routes ≡ []
    → can_route (from_config parse_ip config vpn_config) destination ≡ config.set_routes
unfolding can_route from_config routes_contain
can_route-from_config parse_ip config vpn_config destination half none_split =
    elim (Bool-cases (config.set_routes)) [
      | inl on ↦ rw (on, none_split, half, zero_net destination) refl
      | inr off ↦ rw off refl
    ]
