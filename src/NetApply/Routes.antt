-- ===== src/NetApply/Routes.antt =====
-- The routes of src/net_plan.rs can be taken back by src/net_apply.rs.
use openfortivpn_rs.Common.{
  Bool, true, false, not, ◌&&◌, ◌||◌, Option, none, some, List, [], ◌∷◌, ◌++◌, ◌≡◌, refl, All,
  if◌then◌else◌,
}
use openfortivpn_rs.Common.Bytes.{codes, equal}
use openfortivpn_rs.Strings.{ends_with}
use openfortivpn_rs.Common.Ipv4.{Ipv4Addr}
use openfortivpn_rs.Common.Text.{is_empty}
use openfortivpn_rs.Config.Settings.{Text, Config}
use openfortivpn_rs.Proxy.RouteTable.{Ipv4Route, VpnConfigXml}
use openfortivpn_rs.NetPlan.{
  Platform, linux, mac_os, NetworkAction, drop_wrong_tunnel_route, protect_tunnel_route,
  run_command, replace_default_route, configure_dns, route_action_from_parts, route_action,
  split_actions, plan_routes, protect, is_some, plan_network_actions,
}
use openfortivpn_rs.NetApply.Parse.{rollback_args_for_command}

-- The arguments of the command that takes a route away, from those that add it.
unfoldable pub removal : Platform → List Text → List Text
removal linux (noun ∷ add ∷ rest) = noun ∷ codes "del" ∷ rest
removal mac_os (add ∷ rest) = codes "delete" ∷ rest
removal linux [] = []
removal linux (noun ∷ []) = noun ∷ []
removal mac_os [] = []

-- A command of the plan has a command that takes it back.
unfoldable pub IsUndone : Platform → NetworkAction → Type 0
IsUndone platform (run_command program args) =
    rollback_args_for_command program args ≡ some (removal platform args)
IsUndone platform (drop_wrong_tunnel_route _ endpoint interface) = Unit
IsUndone platform (protect_tunnel_route _ endpoint) = Unit
IsUndone platform (replace_default_route _ interface) = Unit
IsUndone platform (configure_dns _ interface servers search_domain) = Unit

from_parts-IsUndone :
    (destination mask : Text) (gateway : Option Text) (platform : Platform) (interface : Text)
    → IsUndone platform (route_action_from_parts destination mask gateway platform interface)
unfolding route_action_from_parts IsUndone removal rollback_args_for_command equal ends_with
from_parts-IsUndone destination mask gateway linux interface = refl
from_parts-IsUndone destination mask gateway mac_os interface = refl

All-append :
    (platform : Platform) (xs ys : List NetworkAction)
    → All (IsUndone platform) xs
    → All (IsUndone platform) ys
    → All (IsUndone platform) (xs ++ ys)
All-append platform [] ys a b = b
All-append platform (x ∷ xs) ys a b = (a.0, All-append platform xs ys a.1 b)

chosen :
    (platform : Platform) (test : Bool) (xs ys : List NetworkAction)
    → All (IsUndone platform) xs
    → All (IsUndone platform) ys
    → All (IsUndone platform) (if test then xs else ys)
chosen platform true xs ys a b = a
chosen platform false xs ys a b = b

split_actions-IsUndone :
    (routes : List Ipv4Route) (platform : Platform) (interface : Text)
    → All (IsUndone platform) (split_actions routes platform interface)
unfolding split_actions route_action
split_actions-IsUndone [] platform interface = tt
split_actions-IsUndone (route ∷ routes) platform interface =
    let rest = split_actions-IsUndone routes platform interface in go route.gateway rest
  where
    go :
        (gateway : Option Text)
        → All (IsUndone platform) (split_actions routes platform interface)
        → All
            (IsUndone platform)
            (elim (elim gateway as (λ g. Option NetworkAction) [
              | none ↦ none
              | some g ↦
                  some (
                    route_action_from_parts route.destination route.mask
                      (some g)
                      platform
                      interface)
            ])
              as (λ g. List NetworkAction) [
                | none ↦ split_actions routes platform interface
                | some action ↦ action ∷ split_actions routes platform interface
              ])
    go none rest = rest
    go (some g) rest =
        (from_parts-IsUndone route.destination route.mask (some g) platform interface, rest)

-- Every command in a plan has a command that takes it back when it is rolled back: the same command,
-- with the word that adds a route replaced by the one that takes it away.
pub plan_network_actions-IsUndone :
    (config : Config) (vpn_config : VpnConfigXml) (platform : Platform) (interface : Text)
    (tunnel_endpoint : Option Ipv4Addr)
    → All
        (IsUndone platform)
        (plan_network_actions config vpn_config platform interface tunnel_endpoint).actions
unfolding plan_network_actions plan_routes IsUndone
plan_network_actions-IsUndone config vpn_config platform interface tunnel_endpoint =
    All-append platform _ _
      (chosen platform config.set_routes _ []
        (All-append platform (protect tunnel_endpoint platform interface) _
          (protected tunnel_endpoint)
          (chosen platform (not (is_empty vpn_config.split_routes)) _ _
            (split_actions-IsUndone vpn_config.split_routes platform interface)
            (chosen platform config.half_internet_routes _ _ half (tt, tt))))
        tt)
      (chosen platform
        (config.set_dns && (not (is_empty vpn_config.dns_servers) || is_some vpn_config.dns_suffix))
        (configure_dns platform interface vpn_config.dns_servers vpn_config.dns_suffix ∷ []) []
        (tt, tt) tt)
  where
    half : All (IsUndone platform) (
        route_action_from_parts (codes "0.0.0.0") (codes "128.0.0.0") none platform interface
        ∷ route_action_from_parts (codes "128.0.0.0") (codes "128.0.0.0") none platform interface
        ∷ [])
    half = (
      from_parts-IsUndone (codes "0.0.0.0") (codes "128.0.0.0") none platform interface,
      (from_parts-IsUndone (codes "128.0.0.0") (codes "128.0.0.0") none platform interface, tt),
    )

    protected :
        (endpoint : Option Ipv4Addr) → All (IsUndone platform) (protect endpoint platform interface)
    protected none = tt
    protected (some endpoint) = (tt, (tt, tt))
