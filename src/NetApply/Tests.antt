-- ===== src/NetApply/Tests.antt =====
-- The theorems on src/net_apply.rs at concrete actions, and a system that carries them out.
use mathlib.Core.List.{reverse}
use openfortivpn_rs.Common.{
  true, false, if◌then◌else◌, none, some, List, [], ◌∷◌, ◌++◌, ◌≡◌, refl, All, arith,
}
use openfortivpn_rs.Common.Bytes.{Bytes, codes, equal}
use openfortivpn_rs.Common.Error.{ok, err}
use openfortivpn_rs.Common.Ipv4
use openfortivpn_rs.Config.Settings.{Text, default_config}
use openfortivpn_rs.Proxy.RouteTable.{VpnConfigXml}
use openfortivpn_rs.NetPlan.{linux, run_command, plan_network_actions}
use openfortivpn_rs.NetApply.Dns.{prepend_dns_lines_to_resolv_conf, remove_added_dns_lines}
use openfortivpn_rs.NetApply.Lines.{unlines, remove_added_dns_lines-prepend}
use openfortivpn_rs.NetApply.Plan.{rollback, carry, apply_loop, apply_network_plan}
use openfortivpn_rs.NetApply.Undo.{UndoesAll, rollback-UndoesAll}
use openfortivpn_rs.NetApply.Refusals.{apply_network_plan-ComesTo}
use openfortivpn_rs.NetApply.Commands
use openfortivpn_rs.NetApply.Commands.{command_error}
use openfortivpn_rs.NetApply.Parse.{rollback_args_for_command}
use openfortivpn_rs.Strings.{contains, join_with}
use openfortivpn_rs.Config.Parse.{starts_with}
use openfortivpn_rs.NetApply.Routes.{IsUndone, plan_network_actions-IsUndone}
use openfortivpn_rs.NetApply.{
  run, ApplyOptions, AppliedNetworkAction, command, default_route, resolv_conf_file, Call, System,
  Output,
}

abbrev done : Output
done = record { success = true; status = []; stdout = []; stderr = [] }

abbrev sys : System
sys = record {
  output = λ calls program args. ok done;
  output_with_stdin = λ calls program args stdin. ok done;
  read_file = λ calls. ok (codes "nameserver 10.0.0.1");
  write_file = λ calls contents. ok tt;
  exists = λ calls path. true;
  find_program_in_path = λ calls program. none;
  from_utf8_lossy = λ bytes. bytes;
  as_bytes = λ text. text;
  display = λ e. [];
}

readable : (calls : List Call) → (contents : Bytes) × (sys.read_file calls ≡ ok contents)
readable calls = (codes "nameserver 10.0.0.1", refl)

abbrev applied : List AppliedNetworkAction
applied =
    command (codes "ip") (codes "route" ∷ codes "del" ∷ codes "10.0.0.0/8" ∷ [])
    ∷ default_route linux (codes "ppp0") none
    ∷ resolv_conf_file (codes "nameserver 10.0.0.1" ∷ [])
    ∷ []

rollback-UndoesAll_example :
    (made : List Call) × ((rollback sys applied []).1 ≡ [] ++ made)
    × UndoesAll sys (reverse applied) made
rollback-UndoesAll_example = rollback-UndoesAll sys applied [] readable

abbrev denied : Output
denied = record { success = false; status = codes "2"; stdout = []; stderr = [] }

-- A system on which commands with the word `bad` fail.
abbrev strict : System
strict = record sys {
  output = λ calls program args.
      ok (if contains (join_with (codes " ") args) (codes "bad") then denied else done);
}

abbrev good : List Text
good = codes "route" ∷ codes "add" ∷ codes "10.0.0.0/8" ∷ []

abbrev bad : List Text
bad = codes "route" ∷ codes "add" ∷ codes "bad" ∷ []

abbrev options : ApplyOptions
options = record { use_resolvconf = true }

abbrev kept : List AppliedNetworkAction
kept = command (codes "ip") (codes "route" ∷ codes "del" ∷ codes "10.0.0.0/8" ∷ []) ∷ []

first_succeeds :
    apply_network_plan strict (record { actions = run_command (codes "ip") good ∷ [] }) options []
    ≡ (ok kept, run (codes "ip") good ∷ [])
unfolding apply_network_plan apply_loop carry Commands.run_command rollback_args_for_command
    contains join_with starts_with equal
first_succeeds = refl

-- The second of three commands fails: the first stays in place, and the third is not run.
apply_network_plan-ComesTo_example :
    apply_network_plan strict
      (record {
        actions =
            run_command (codes "ip") good
            ∷ run_command (codes "ip") bad
            ∷ run_command (codes "ip") good
            ∷ [];
      })
      options
      []
    ≡ (
      err (command_error (codes "ip") bad denied),
      run (codes "ip") good ∷ run (codes "ip") bad ∷ [],
    )
unfolding Commands.run_command contains join_with starts_with
apply_network_plan-ComesTo_example =
    apply_network_plan-ComesTo strict (run_command (codes "ip") good ∷ [])
      (run_command (codes "ip") good ∷ []) (run_command (codes "ip") bad) options kept
      (run (codes "ip") good ∷ []) readable first_succeeds

abbrev vpn : VpnConfigXml
vpn = record {
  raw_xml = [];
  gateway = some (codes "10.0.0.1");
  assigned_ip = none;
  dns_servers = [];
  dns_suffix = none;
  split_routes =
      record {
        destination = codes "10.0.0.0";
        mask = codes "255.0.0.0";
        gateway = some (codes "10.0.0.1");
      }
      ∷ [];
}

plan_network_actions-IsUndone_example :
    All
      (IsUndone linux)
      (plan_network_actions default_config vpn linux
        (codes "ppp0")
        (some (Ipv4.new 192 0 2 1))).actions
plan_network_actions-IsUndone_example =
    plan_network_actions-IsUndone default_config vpn linux (codes "ppp0")
      (some (Ipv4.new 192 0 2 1))

remove_added_dns_lines-prepend_example :
    remove_added_dns_lines
      (prepend_dns_lines_to_resolv_conf
        (λ t. t)
        (unlines (codes "a" ∷ codes "b" ∷ []))
        (codes "b" ∷ []))
      (codes "b" ∷ [])
    ≡ unlines (codes "a" ∷ codes "b" ∷ [])
remove_added_dns_lines-prepend_example =
    remove_added_dns_lines-prepend (λ t. t) (λ b. b) (codes "a" ∷ codes "b" ∷ []) (codes "b" ∷ [])
      (λ t. refl) (λ line rest. refl) (ground arith) (ground arith)
