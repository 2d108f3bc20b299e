-- ===== src/NetApply/Actions.antt =====
-- src/net_apply.rs: the actions on routes and on the name servers.
use openfortivpn_rs.Common.{
  Bool, false, ◌||◌, not, Option, none, some, List, [], ◌∷◌, ◌++◌, if◌then◌else◌,
}
use openfortivpn_rs.Common.Bytes.{codes, equal}
use openfortivpn_rs.Common.Error.{Result, ok, err, OpenfortivpnError, network, text, str}
use openfortivpn_rs.Common.Ipv4.{Ipv4Addr}
use openfortivpn_rs.Common.Text.{is_empty}
use openfortivpn_rs.Config.Settings.{Text}
use openfortivpn_rs.NetPlan.{Platform, linux, mac_os}
use openfortivpn_rs.NetApply.Parse.{
  macos_route_value, parse_linux_route_get_for_host_route, parse_macos_route_get_for_host_route,
  parse_linux_default_route, parse_macos_default_route,
}
use openfortivpn_rs.NetApply.Commands.{
  to_string, output_of, run_command, run_command_ignore_existing_route,
}
use openfortivpn_rs.NetApply.{
  AppliedNetworkAction, protected_tunnel_route, default_route, Call, System, Io, ◌>>=◌, ◌>>◌,
  return, or_else, logged,
}

abbrev is_value : Option Text → Text → Bool
is_value none expected = false
is_value (some value) expected = equal value expected

-- The commands of a protected route, with the program.
abbrev RouteCommands : Type 0
RouteCommands = Option (Text × List Text × List Text)

abbrev with_rollback : Text → List Text → Option (List Text) → RouteCommands
with_rollback program rollback none = none
with_rollback program rollback (some args) = some (program, args, rollback)

abbrev with_program : Text → Option (List Text) → Option (Text × List Text)
with_program program none = none
with_program program (some args) = some (program, args)

module _ (sys : System) where
  unfoldable pub drop_wrong_linux_tunnel_route : Ipv4Addr → Text → Io (Unit {0})
  drop_wrong_linux_tunnel_route endpoint interface = do
    let destination = to_string endpoint ++ codes "/32"
    output ←
        output_of sys (codes "ip")
          (codes "route" ∷ codes "show" ∷ destination ∷ codes "dev" ∷ interface ∷ [])
    if not (output.success) || is_empty output.stdout
        then return tt
        else run_command sys (codes "ip")
            (codes "route" ∷ codes "del" ∷ destination ∷ codes "dev" ∷ interface ∷ [])

  unfoldable pub drop_wrong_macos_tunnel_route : Ipv4Addr → Text → Io (Unit {0})
  drop_wrong_macos_tunnel_route endpoint interface = do
    output ←
        output_of sys (codes "/sbin/route") (codes "-n" ∷ codes "get" ∷ to_string endpoint ∷ [])
    if not (output.success)
        then return tt
        else if not (is_value (macos_route_value output.stdout (codes "interface:")) interface)
        then return tt
        else run_command sys (codes "/sbin/route")
            (codes "delete" ∷ codes "-host" ∷ to_string endpoint ∷ [])

  unfoldable pub drop_wrong_tunnel_route : Platform → Ipv4Addr → Text → Io (Unit {0})
  drop_wrong_tunnel_route linux endpoint interface =
      logged (drop_wrong_linux_tunnel_route endpoint interface)
  drop_wrong_tunnel_route mac_os endpoint interface =
      logged (drop_wrong_macos_tunnel_route endpoint interface)

  unfoldable pub build_protect_tunnel_route_commands : Platform → Ipv4Addr → Io RouteCommands
  build_protect_tunnel_route_commands linux endpoint = do
    output ← output_of sys (codes "ip") (codes "route" ∷ codes "get" ∷ to_string endpoint ∷ [])
    if not (output.success)
        then return none
        else return (
            with_rollback (codes "ip")
              (codes "route" ∷ codes "del" ∷ (to_string endpoint ++ codes "/32") ∷ [])
              (parse_linux_route_get_for_host_route output.stdout (to_string endpoint)))
  build_protect_tunnel_route_commands mac_os endpoint = do
    output ←
        output_of sys (codes "/sbin/route") (codes "-n" ∷ codes "get" ∷ to_string endpoint ∷ [])
    if not (output.success)
        then return none
        else return (
            with_rollback (codes "/sbin/route")
              (codes "delete" ∷ codes "-host" ∷ to_string endpoint ∷ [])
              (parse_macos_route_get_for_host_route output.stdout (to_string endpoint)))

  abbrev protect_by : RouteCommands → List AppliedNetworkAction → Io (List AppliedNetworkAction)
  protect_by none applied = return applied
  protect_by (some (program, args, rollback_args)) applied = do
    added ← run_command_ignore_existing_route sys program args
    if added
        then return (applied ++ protected_tunnel_route program rollback_args ∷ [])
        else return applied

  -- An error leaves `applied` as it was, here and below.
  unfoldable pub protect_tunnel_route :
      Platform → Ipv4Addr → List AppliedNetworkAction → Io (List AppliedNetworkAction)
  protect_tunnel_route platform endpoint applied = do
    commands ← build_protect_tunnel_route_commands platform endpoint
    protect_by commands applied

  unfoldable pub capture_default_route : Platform → Io (Option (Text × List Text))
  capture_default_route linux = do
    output ← output_of sys (codes "ip") (codes "route" ∷ codes "show" ∷ codes "default" ∷ [])
    if not (output.success)
        then return none
        else return (with_program (codes "ip") (parse_linux_default_route output.stdout))
  capture_default_route mac_os = do
    output ← output_of sys (codes "/sbin/route") (codes "-n" ∷ codes "get" ∷ codes "default" ∷ [])
    if not (output.success)
        then return none
        else return (with_program (codes "/sbin/route") (parse_macos_default_route output.stdout))

  unfoldable pub delete_default_route : Platform → Text → Io (Unit {0})
  delete_default_route linux interface = logged (
      or_else
        (run_command sys (codes "ip")
          (codes "route" ∷ codes "del" ∷ codes "default" ∷ codes "dev" ∷ interface ∷ []))
        (run_command sys (codes "ip") (codes "route" ∷ codes "del" ∷ codes "default" ∷ [])))
  delete_default_route mac_os interface = logged (
      or_else
        (run_command sys (codes "/sbin/route")
          (codes "delete" ∷ codes "default" ∷ codes "-interface" ∷ interface ∷ []))
        (run_command sys (codes "/sbin/route") (codes "delete" ∷ codes "default" ∷ [])))

  unfoldable pub add_default_route : Platform → Text → Io (Unit {0})
  add_default_route linux interface =
      run_command sys (codes "ip")
        (codes "route" ∷ codes "add" ∷ codes "default" ∷ codes "dev" ∷ interface ∷ [])
  add_default_route mac_os interface =
      run_command sys (codes "/sbin/route")
        (codes "add" ∷ codes "default" ∷ codes "-interface" ∷ interface ∷ [])

  abbrev pub restore_route : Option (Text × List Text) → Io (Unit {0})
  restore_route none = return tt
  restore_route (some (program, args)) = run_command sys program args

  unfoldable pub rollback_default_route :
      Platform → Text → Option (Text × List Text) → Io (Unit {0})
  rollback_default_route platform interface restore =
      delete_default_route platform interface >> restore_route restore

  -- The previous route is put back when the new one is refused.
  abbrev restored : OpenfortivpnError → Result (Unit {0}) → OpenfortivpnError
  restored e (ok done) = e
  restored e (err restore_err) = network (
      str (sys.display e)
      ∷ text "; failed to restore previous default route: "
      ∷ str (sys.display restore_err)
      ∷ [])

  abbrev after_add :
      Platform
      → Text
      → Option (Text × List Text)
      → List AppliedNetworkAction
      → Result (Unit {0}) × List Call
      → Result (List AppliedNetworkAction) × List Call
  after_add platform interface restore applied (ok done, calls) =
      (ok (applied ++ default_route platform interface restore ∷ []), calls)
  after_add platform interface restore applied (err e, calls) =
      let tried = restore_route restore calls in (err (restored e (tried.0)), tried.1)

  unfoldable pub apply_default_route :
      Platform → Text → List AppliedNetworkAction → Io (List AppliedNetworkAction)
  apply_default_route platform interface applied = do
    restore ← capture_default_route platform
    delete_default_route platform interface
    λ calls.
        after_add platform interface restore applied (add_default_route platform interface calls)
