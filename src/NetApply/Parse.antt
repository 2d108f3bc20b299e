-- ===== src/NetApply/Parse.antt =====
-- src/net_apply.rs: readings of what the commands print, and the arguments that undo a command.
use openfortivpn_rs.Common.{
  Bool, ◌&&◌, ◌||◌, Option, none, some, List, [], ◌∷◌, ◌++◌, map, if◌then◌else◌,
}
use openfortivpn_rs.Common.Bytes.{equal, codes}
use openfortivpn_rs.Common.Text.{is_empty}
use openfortivpn_rs.Config.Settings.{Text}
use openfortivpn_rs.Config.Parse.{trim, lines, starts_with, to_ascii_lowercase}
use openfortivpn_rs.Strings.{contains, strip_prefix, ends_with, split_whitespace}

unfoldable pub token_after : List Text → Text → Option Text
token_after [] needle = none
token_after (token ∷ []) needle = none
token_after (token ∷ next ∷ tokens) needle =
    let rest = token_after (next ∷ tokens) needle in if equal token needle then some next else rest

unfoldable pub value_of_lines : List Text → Text → Option Text
value_of_lines [] key = none
value_of_lines (line ∷ rest) key = elim (strip_prefix (trim line) key) [
  | some value ↦ some (trim value)
  | none ↦ value_of_lines rest key
]

abbrev pub macos_route_value : Text → Text → Option Text
macos_route_value output key = value_of_lines (lines output) key

-- `output.lines().next()`, trimmed.
abbrev first_line : List Text → Option Text
first_line [] = none
first_line (line ∷ rest) = some (trim line)

abbrev via : Option Text → List Text
via none = []
via (some gateway) = codes "via" ∷ gateway ∷ []

abbrev linux_host_route : Text → Text → Option (List Text)
linux_host_route line endpoint =
    if is_empty line || contains line (codes " dev ppp")
    then none
    else elim (token_after (split_whitespace line) (codes "dev")) [
      | none ↦ none
      | some dev ↦ some (
          (codes "route" ∷ codes "add" ∷ (endpoint ++ codes "/32") ∷ [])
          ++ (via (token_after (split_whitespace line) (codes "via")) ++ (codes "dev" ∷ dev ∷ [])))
    ]

unfoldable pub parse_linux_route_get_for_host_route : Text → Text → Option (List Text)
parse_linux_route_get_for_host_route output endpoint = elim (first_line (lines output)) [
  | none ↦ none
  | some line ↦ linux_host_route line endpoint
]

abbrev gateway_or_interface : Option Text → Text → List Text
gateway_or_interface (some (c ∷ cs)) interface = (c ∷ cs) ∷ []
gateway_or_interface (some []) interface = codes "-interface" ∷ interface ∷ []
gateway_or_interface none interface = codes "-interface" ∷ interface ∷ []

unfoldable pub parse_macos_route_get_for_host_route : Text → Text → Option (List Text)
parse_macos_route_get_for_host_route output endpoint =
    elim (macos_route_value output (codes "interface:")) [
      | none ↦ none
      | some interface ↦
          if starts_with interface (codes "ppp")
          then none
          else some (
              (codes "add" ∷ codes "-host" ∷ endpoint ∷ [])
              ++ gateway_or_interface (macos_route_value output (codes "gateway:")) interface)
    ]

unfoldable pub parse_linux_default_route : Text → Option (List Text)
parse_linux_default_route output = elim (first_line (lines output)) [
  | none ↦ none
  | some line ↦
      if is_empty line then none else some (codes "route" ∷ codes "add" ∷ split_whitespace line)
]

unfoldable pub parse_macos_default_route : Text → Option (List Text)
parse_macos_default_route output = elim (value_of_lines (lines output) (codes "gateway:")) [
  | none ↦ none
  | some gateway ↦
      if is_empty gateway then none else some (codes "add" ∷ codes "default" ∷ gateway ∷ [])
]

unfoldable pub command_output_mentions_existing_route : Text → Text → Bool
command_output_mentions_existing_route stdout stderr =
    let text = map to_ascii_lowercase stdout ++ map to_ascii_lowercase stderr in
    contains text (codes "file exists") || contains text (codes "route already exists")

-- The second condition, with the program's name.
abbrev rollback_of_route : Text → List Text → Option (List Text)
rollback_of_route program [] = none
rollback_of_route program (first ∷ rest) =
    if ends_with program (codes "route") && equal first (codes "add")
    then some (codes "delete" ∷ rest)
    else none

unfoldable pub rollback_args_for_command : Text → List Text → Option (List Text)
rollback_args_for_command program (first ∷ second ∷ third ∷ rest) =
    if equal program (codes "ip") && (equal first (codes "route") && equal second (codes "add"))
    then some (first ∷ codes "del" ∷ third ∷ rest)
    else rollback_of_route program (first ∷ second ∷ third ∷ rest)
rollback_args_for_command program (first ∷ second ∷ []) =
    rollback_of_route program (first ∷ second ∷ [])
rollback_args_for_command program (first ∷ []) = rollback_of_route program (first ∷ [])
rollback_args_for_command program [] = none
