-- ===== src/NetApply/Commands.antt =====
-- src/net_apply.rs: running the commands.
use openfortivpn_rs.Common.{Bool, true, false, List, [], ◌∷◌, ◌++◌, map, if◌then◌else◌}
use openfortivpn_rs.Common.Bytes.{Bytes, codes}
use openfortivpn_rs.Common.Error.{OpenfortivpnError, network, text, str}
use openfortivpn_rs.Common.Ipv4.{Ipv4Addr, octets}
use openfortivpn_rs.Config.Settings.{Text}
use openfortivpn_rs.Config.Parse.{trim}
use openfortivpn_rs.Strings.{join_with}
use openfortivpn_rs.NetPlan.{format_u8}
use openfortivpn_rs.NetApply.Parse.{command_output_mentions_existing_route}
use openfortivpn_rs.NetApply.{
  run, run_with_stdin, read_resolv_conf, write_resolv_conf, Output, System, Io, ◌>>=◌, return, fail,
}

-- `Ipv4Addr::to_string`
unfoldable pub to_string : Ipv4Addr → Text
to_string ip = join_with (codes ".") (map format_u8 (octets ip))

abbrev first_full : Text → Text → Text → Text
first_full (c ∷ cs) stdout status = c ∷ cs
first_full [] (c ∷ cs) status = c ∷ cs
first_full [] [] status = status

unfoldable pub command_error : Text → List Text → Output → OpenfortivpnError
command_error program args output = network (
    text "command failed: "
    ∷ str program
    ∷ text " "
    ∷ str (join_with (codes " ") args)
    ∷ text ": "
    ∷ str (first_full (trim output.stderr) (trim output.stdout) output.status)
    ∷ [])

-- The end of `run_command`: what an output means.
abbrev pub checked : Text → List Text → Output → Io (Unit {0})
checked program args output =
    if output.success then return tt else fail (command_error program args output)

module _ (sys : System) where
  -- `Command::output`
  abbrev pub output_of : Text → List Text → Io Output
  output_of program args calls = (sys.output calls program args, calls ++ run program args ∷ [])

  abbrev output_of_stdin : Text → List Text → Text → Io Output
  output_of_stdin program args stdin calls = (
    sys.output_with_stdin calls program args stdin,
    calls ++ run_with_stdin program args stdin ∷ [],
  )

  abbrev pub read_conf : Io Bytes
  read_conf calls = (sys.read_file calls, calls ++ read_resolv_conf ∷ [])

  abbrev pub write_conf : Bytes → Io (Unit {0})
  write_conf contents calls =
      (sys.write_file calls contents, calls ++ write_resolv_conf contents ∷ [])

  unfoldable pub run_command : Text → List Text → Io (Unit {0})
  run_command program args = do output ← output_of program args; checked program args output

  unfoldable pub run_command_with_stdin : Text → List Text → Text → Io (Unit {0})
  run_command_with_stdin program args stdin = do
    output ← output_of_stdin program args stdin
    checked program args output

  unfoldable pub run_command_ignore_existing_route : Text → List Text → Io Bool
  run_command_ignore_existing_route program args = do
    output ← output_of program args
    if output.success
        then return true
        else if command_output_mentions_existing_route output.stdout output.stderr
        then return false
        else fail (command_error program args output)
