-- ===== src/NetApply/Servers.antt =====
-- src/net_apply.rs: the name servers.
use openfortivpn_rs.Common.{
  Bool, true, false, ◌&&◌, not, Option, none, some, List, [], ◌∷◌, ◌++◌, if◌then◌else◌,
}
use openfortivpn_rs.Common.Bytes.{codes}
use openfortivpn_rs.Common.Error.{Result, ok, err}
use openfortivpn_rs.Common.Text.{is_empty}
use openfortivpn_rs.Config.Settings.{Text}
use openfortivpn_rs.Strings.{contains}
use openfortivpn_rs.NetPlan.{Platform, linux, mac_os, is_some}
use openfortivpn_rs.NetApply.Dns.{
  build_resolvconf_body, dns_lines_to_add, prepend_dns_lines_to_resolv_conf, macos_scutil_dns_key,
  build_macos_scutil_dns_script,
}
use openfortivpn_rs.NetApply.Commands.{read_conf, write_conf, run_command_with_stdin}
use openfortivpn_rs.NetApply.{
  ApplyOptions, AppliedNetworkAction, resolvconf, mac_os_scutil_dns, resolv_conf_file, Call, System,
  Io, ◌>>=◌, ◌>>◌, return,
}

abbrev resolvconf_candidates : List Text
resolvconf_candidates =
    codes "/sbin/resolvconf" ∷ codes "/usr/sbin/resolvconf" ∷ codes "resolvconf" ∷ []

abbrev scutil_candidates : List Text
scutil_candidates = codes "/usr/sbin/scutil" ∷ codes "/usr/bin/scutil" ∷ codes "scutil" ∷ []

module _ (sys : System) where
  -- The place of one candidate.
  abbrev located : Text → List Call → Option Text
  located candidate calls =
      if contains candidate (codes "/")
      then (if sys.exists calls candidate then some candidate else none)
      else sys.find_program_in_path calls candidate

  unfoldable pub find_program_from_candidates : List Text → List Call → Option Text
  find_program_from_candidates [] calls = none
  find_program_from_candidates (candidate ∷ candidates) calls = elim (located candidate calls) [
    | some program ↦ some program
    | none ↦ find_program_from_candidates candidates calls
  ]

  -- Whether scutil took the script. Its failure is only logged.
  abbrev taken :
      Text
      → Text
      → List AppliedNetworkAction
      → Result (Unit {0}) × List Call
      → Result (Bool × List AppliedNetworkAction) × List Call
  taken program key applied (ok done, calls) =
      (ok (true, applied ++ mac_os_scutil_dns program key ∷ []), calls)
  taken program key applied (err e, calls) = (ok (false, applied), calls)

  unfoldable pub apply_macos_scutil_dns :
      Text
      → List Text
      → Option Text
      → List AppliedNetworkAction
      → Io (Bool × List AppliedNetworkAction)
  apply_macos_scutil_dns interface servers search_domain applied calls =
      elim (find_program_from_candidates scutil_candidates calls) [
        | none ↦ (ok (false, applied), calls)
        | some program ↦
            let key = macos_scutil_dns_key interface in
            let script = build_macos_scutil_dns_script key interface servers search_domain in
            taken program key applied (run_command_with_stdin sys program [] script calls)
      ]

  unfoldable pub apply_resolv_conf :
      List Text → Option Text → List AppliedNetworkAction → Io (List AppliedNetworkAction)
  apply_resolv_conf servers search_domain applied = do
    original_contents ← read_conf sys
    let added_lines = dns_lines_to_add (sys.from_utf8_lossy original_contents) servers search_domain
    if is_empty added_lines then return applied else (do
      write_conf sys (prepend_dns_lines_to_resolv_conf sys.as_bytes original_contents added_lines)
      return (applied ++ resolv_conf_file added_lines ∷ []))

  -- With resolvconf if it is wanted and found, else in the file itself.
  unfoldable pub apply_resolvconf :
      Text
      → List Text
      → Option Text
      → ApplyOptions
      → List AppliedNetworkAction
      → Io (List AppliedNetworkAction)
  apply_resolvconf interface servers search_domain options applied calls =
      let program : Option Text =
        if options.use_resolvconf
        then find_program_from_candidates resolvconf_candidates calls
        else none in
      elim program [
        | none ↦ apply_resolv_conf servers search_domain applied calls
        | some program ↦
            (do
              run_command_with_stdin sys program
                  (codes "-a" ∷ (interface ++ codes ".openfortivpn") ∷ [])
                  (build_resolvconf_body servers search_domain)
              return (applied ++ resolvconf program interface ∷ []))
              calls
      ]

  abbrev by_scutil :
      Platform
      → Text
      → List Text
      → Option Text
      → List AppliedNetworkAction
      → Io (Bool × List AppliedNetworkAction)
  by_scutil linux interface servers search_domain applied = return (false, applied)
  by_scutil mac_os interface servers search_domain applied =
      apply_macos_scutil_dns interface servers search_domain applied

  unfoldable pub apply_dns :
      Platform
      → Text
      → List Text
      → Option Text
      → ApplyOptions
      → List AppliedNetworkAction
      → Io (List AppliedNetworkAction)
  apply_dns platform interface servers search_domain options applied =
      if is_empty servers && not (is_some search_domain) then return applied else (do
        (done, applied') ← by_scutil platform interface servers search_domain applied
        if done
            then return applied'
            else apply_resolvconf interface servers search_domain options applied')
