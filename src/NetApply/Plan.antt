-- ===== src/NetApply/Plan.antt =====
-- src/net_apply.rs: a whole plan, and taking it back.
use openfortivpn_rs.Common.{Option, none, some, List, [], ◌∷◌, ◌++◌}
use mathlib.Core.List.{reverse}
use openfortivpn_rs.Common.Bytes.{Bytes, codes}
use openfortivpn_rs.Common.Error.{Result, ok, err, OpenfortivpnError, network, text, str}
use openfortivpn_rs.Config.Settings.{Text}
use openfortivpn_rs.NetPlan.{
  NetworkAction, drop_wrong_tunnel_route, protect_tunnel_route, replace_default_route,
  configure_dns, NetworkPlan,
}
use openfortivpn_rs.NetPlan
use openfortivpn_rs.NetApply.Parse.{rollback_args_for_command}
use openfortivpn_rs.NetApply.Dns.{remove_added_dns_lines, build_macos_scutil_remove_script}
use openfortivpn_rs.NetApply.Commands.{read_conf, write_conf, run_command, run_command_with_stdin}
use openfortivpn_rs.NetApply.Actions.{rollback_default_route, apply_default_route}
use openfortivpn_rs.NetApply.Actions
use openfortivpn_rs.NetApply.Servers.{apply_dns}
use openfortivpn_rs.NetApply.{
  ApplyOptions, AppliedNetworkAction, protected_tunnel_route, command, default_route, resolvconf,
  mac_os_scutil_dns, resolv_conf_file, Call, System, Io,
}

-- What undoing one action comes to: the `?` on reading the file leaves the whole rollback.
pub data Undone : Type 0 where
  result : Result (Unit {0}) → Undone
  leaves : OpenfortivpnError → Undone

-- What the `match` on an action of the plan comes to: the `?` on a command leaves the function.
pub data Carried : Type 0 where
  carried : Result (List AppliedNetworkAction) → Carried
  returned : OpenfortivpnError → Carried

abbrev pub first_error : Option OpenfortivpnError → Result (Unit {0}) → Option OpenfortivpnError
first_error (some e) undone = some e
first_error none (ok done) = none
first_error none (err e) = some e

abbrev ended : Option OpenfortivpnError → Result (Unit {0})
ended none = ok tt
ended (some e) = err e

module _ (sys : System) where
  abbrev as_undone : Result (Unit {0}) × List Call → Undone × List Call
  as_undone (r, calls) = (result r, calls)

  abbrev remove_lines : List Text → Result Bytes × List Call → Undone × List Call
  remove_lines added_lines (err e, calls) = (leaves e, calls)
  remove_lines added_lines (ok current, calls) = as_undone (
      write_conf sys
        (sys.as_bytes (remove_added_dns_lines (sys.from_utf8_lossy current) added_lines)) calls)

  unfoldable pub undo : AppliedNetworkAction → List Call → Undone × List Call
  undo (protected_tunnel_route program rollback_args) calls =
      as_undone (run_command sys program rollback_args calls)
  undo (command program rollback_args) calls =
      as_undone (run_command sys program rollback_args calls)
  undo (default_route platform interface restore) calls =
      as_undone (rollback_default_route sys platform interface restore calls)
  undo (resolvconf program interface) calls =
      as_undone
        (run_command sys program (codes "-d" ∷ (interface ++ codes ".openfortivpn") ∷ []) calls)
  undo (mac_os_scutil_dns program key) calls =
      as_undone (run_command_with_stdin sys program [] (build_macos_scutil_remove_script key) calls)
  undo (resolv_conf_file added_lines) calls = remove_lines added_lines (read_conf sys calls)

  abbrev pub undone_then :
      Option OpenfortivpnError
      → Undone × List Call
      → (Option OpenfortivpnError → Io (Unit {0}))
      → Result (Unit {0}) × List Call
  undone_then earlier (result r, calls) next = next (first_error earlier r) calls
  undone_then earlier (leaves e, calls) next = (err e, calls)

  -- The loop, the action that `pop` takes first in front.
  unfoldable pub rollback_loop :
      List AppliedNetworkAction → Option OpenfortivpnError → Io (Unit {0})
  rollback_loop [] earlier calls = (ended earlier, calls)
  rollback_loop (action ∷ actions) earlier calls =
      undone_then earlier (undo action calls) (rollback_loop actions)

  unfoldable pub rollback : List AppliedNetworkAction → Io (Unit {0})
  rollback applied = rollback_loop (reverse applied) none

  abbrev pub keep_rollback :
      Text → Option (List Text) → List AppliedNetworkAction → List AppliedNetworkAction
  keep_rollback program none applied = applied
  keep_rollback program (some rollback_args) applied = applied ++ command program rollback_args ∷ []

  abbrev pub command_run :
      Text
      → List Text
      → List AppliedNetworkAction
      → Result (Unit {0}) × List Call
      → Carried × List Call
  command_run program args applied (err e, calls) = (returned e, calls)
  command_run program args applied (ok done, calls) =
      (carried (ok (keep_rollback program (rollback_args_for_command program args) applied)), calls)

  abbrev pub as_carried : Result (List AppliedNetworkAction) × List Call → Carried × List Call
  as_carried (r, calls) = (carried r, calls)

  -- The `match` on one action.
  unfoldable pub carry :
      NetworkAction → ApplyOptions → List AppliedNetworkAction → List Call → Carried × List Call
  carry (drop_wrong_tunnel_route platform endpoint interface) options applied calls = (
    carried (ok applied),
    (Actions.drop_wrong_tunnel_route sys platform endpoint interface calls).1,
  )
  carry (protect_tunnel_route platform endpoint) options applied calls =
      as_carried (Actions.protect_tunnel_route sys platform endpoint applied calls)
  carry (NetPlan.run_command program args) options applied calls =
      command_run program args applied (run_command sys program args calls)
  carry (replace_default_route platform interface) options applied calls =
      as_carried (apply_default_route sys platform interface applied calls)
  carry (configure_dns platform interface servers search_domain) options applied calls =
      as_carried (apply_dns sys platform interface servers search_domain options applied calls)

  abbrev pub rolled_back :
      OpenfortivpnError
      → Result (Unit {0}) × List Call
      → Result (List AppliedNetworkAction) × List Call
  rolled_back e (ok done, calls) = (err e, calls)
  rolled_back e (err rollback_err, calls) = (
    err (
        network (
          str (sys.display e)
          ∷ text "; rollback also failed: "
          ∷ str (sys.display rollback_err)
          ∷ [])),
    calls,
  )

  -- What the loop does after an action; `applied` is what it left in place before.
  abbrev pub carried_then :
      List AppliedNetworkAction
      → Carried × List Call
      → (List AppliedNetworkAction → Io (List AppliedNetworkAction))
      → Result (List AppliedNetworkAction) × List Call
  carried_then applied (returned e, calls) next = (err e, calls)
  carried_then applied (carried (err e), calls) next = rolled_back e (rollback applied calls)
  carried_then applied (carried (ok applied'), calls) next = next applied' calls

  unfoldable pub apply_loop :
      List NetworkAction → ApplyOptions → List AppliedNetworkAction → Io (List AppliedNetworkAction)
  apply_loop [] options applied calls = (ok applied, calls)
  apply_loop (action ∷ actions) options applied calls =
      carried_then applied (carry action options applied calls) (apply_loop actions options)

  unfoldable pub apply_network_plan : NetworkPlan → ApplyOptions → Io (List AppliedNetworkAction)
  apply_network_plan plan options = apply_loop (plan.actions) options []
