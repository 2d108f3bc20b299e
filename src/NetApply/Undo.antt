-- ===== src/NetApply/Undo.antt =====
-- What the rollback of src/net_apply.rs does to the system.
use mathlib.Core.List.{reverse}
use openfortivpn_rs.Common.{
  true, false, Option, none, some, List, [], ◌∷◌, ◌++◌, append_assoc, append-nil, ◌≡◌, refl, sym,
  ap, ◌∙◌, ◌⊎◌, inl, inr, if◌then◌else◌,
}
use openfortivpn_rs.Common.Bytes.{Bytes, codes}
use openfortivpn_rs.Common.Error.{Result, ok, err, OpenfortivpnError}
use openfortivpn_rs.Config.Settings.{Text}
use openfortivpn_rs.NetPlan.{Platform, linux, mac_os}
use openfortivpn_rs.NetApply.Dns.{remove_added_dns_lines, build_macos_scutil_remove_script}
use openfortivpn_rs.NetApply.Commands.{command_error, checked, run_command, run_command_with_stdin}
use openfortivpn_rs.NetApply.Actions.{restore_route, rollback_default_route, delete_default_route}
use openfortivpn_rs.NetApply.Plan.{
  Undone, result, undo, rollback_loop, rollback, undone_then, first_error,
}
use openfortivpn_rs.NetApply.{
  AppliedNetworkAction, protected_tunnel_route, command, default_route, resolvconf,
  mac_os_scutil_dns, resolv_conf_file, Call, run, run_with_stdin, read_resolv_conf,
  write_resolv_conf, Output, System, Io, and_then, or_else_then, return, fail,
}

-- The commands that take a default route away: the second only if the first fails.
abbrev delete_on : Platform → Text → Call
delete_on linux interface =
    run (codes "ip") (codes "route" ∷ codes "del" ∷ codes "default" ∷ codes "dev" ∷ interface ∷ [])
delete_on mac_os interface =
    run (codes "/sbin/route")
      (codes "delete" ∷ codes "default" ∷ codes "-interface" ∷ interface ∷ [])

abbrev delete_any : Platform → Call
delete_any linux = run (codes "ip") (codes "route" ∷ codes "del" ∷ codes "default" ∷ [])
delete_any mac_os = run (codes "/sbin/route") (codes "delete" ∷ codes "default" ∷ [])

abbrev Deletes : Platform → Text → List Call → Type 0
Deletes platform interface calls =
    (calls ≡ delete_on platform interface ∷ [])
    ⊎ (calls ≡ delete_on platform interface ∷ delete_any platform ∷ [])

abbrev restores : Option (Text × List Text) → List Call
restores none = []
restores (some (program, args)) = run program args ∷ []

-- The calls that undo one action.
unfoldable pub Undoes : System → AppliedNetworkAction → List Call → Type 0
Undoes sys (protected_tunnel_route program rollback_args) calls =
    calls ≡ run program rollback_args ∷ []
Undoes sys (command program rollback_args) calls = calls ≡ run program rollback_args ∷ []
Undoes sys (default_route platform interface restore) calls =
    (deleted : List Call) × Deletes platform interface deleted
    × (calls ≡ deleted ++ restores restore)
Undoes sys (resolvconf program interface) calls =
    calls ≡ run program (codes "-d" ∷ (interface ++ codes ".openfortivpn") ∷ []) ∷ []
Undoes sys (mac_os_scutil_dns program key) calls =
    calls ≡ run_with_stdin program [] (build_macos_scutil_remove_script key) ∷ []
Undoes sys (resolv_conf_file added_lines) calls =
    (current : Bytes) × (calls
      ≡ read_resolv_conf
        ∷ write_resolv_conf
            (sys.as_bytes (remove_added_dns_lines (sys.from_utf8_lossy current) added_lines))
        ∷ [])

-- The calls that undo actions one after another.
unfoldable pub UndoesAll : System → List AppliedNetworkAction → List Call → Type 0
UndoesAll sys [] calls = calls ≡ []
UndoesAll sys (action ∷ actions) calls =
    (first rest : List Call) × (calls ≡ first ++ rest)
    × Undoes sys action first
    × UndoesAll sys actions rest

-- A step that makes no call of its own.
and_then_calls :
    {A B : Type 0} (r : Result A) (calls : List Call) (next : A → Io B)
    → ((a : A) → (next a calls).1 ≡ calls)
    → (and_then (r, calls) next).1 ≡ calls
and_then_calls (ok a) calls next h = h a
and_then_calls (err e) calls next h = refl

checked_calls :
    (program : Text) (args : List Text) (output : Output) (calls : List Call)
    → (checked program args output calls).1 ≡ calls
checked_calls program args output calls =
    elim (output.success)
      as (λ b.
        ((if b then return {A = Unit {0}} tt else fail (command_error program args output)) calls).1
        ≡ calls) [ true ↦ refl | false ↦ refl ]

module _ (sys : System) where
  ran :
      (program : Text) (args : List Text) (calls : List Call)
      → (run_command sys program args calls).1 ≡ calls ++ run program args ∷ []
  unfolding run_command
  ran program args calls =
      and_then_calls (sys.output calls program args) _ (checked program args)
        (λ output. checked_calls program args output (calls ++ run program args ∷ []))

  ran_with_stdin :
      (program : Text) (args : List Text) (stdin : Text) (calls : List Call)
      → (run_command_with_stdin sys program args stdin calls).1
        ≡ calls ++ run_with_stdin program args stdin ∷ []
  unfolding run_command_with_stdin
  ran_with_stdin program args stdin calls =
      and_then_calls (sys.output_with_stdin calls program args stdin) _ (checked program args)
        (λ output.
          checked_calls program args output (calls ++ run_with_stdin program args stdin ∷ []))

  restored :
      (restore : Option (Text × List Text)) (calls : List Call)
      → (restore_route sys restore calls).1 ≡ calls ++ restores restore
  restored none calls = sym (append-nil calls)
  restored (some (program, args)) calls = ran program args calls

  -- The first command, and the second if it is run.
  tried :
      (first second : Call) (calls : List Call) (r : Result (Unit {0}) × List Call)
      (next : Io (Unit {0}))
      → r.1 ≡ calls ++ first ∷ []
      → ((calls : List Call) → (next calls).1 ≡ calls ++ second ∷ [])
      → (made : List Call) × ((or_else_then r next).1 ≡ calls ++ made)
        × ((made ≡ first ∷ []) ⊎ (made ≡ first ∷ second ∷ []))
  tried first second calls (ok done, c) next a b = (first ∷ [], a, inl refl)
  tried first second calls (err e, c) next a b = (
    first ∷ second ∷ [],
    b c ∙ ap (λ t. t ++ second ∷ []) a ∙ append_assoc calls (first ∷ []) (second ∷ []),
    inr refl,
  )

  deleted :
      (platform : Platform) (interface : Text) (calls : List Call)
      → (made : List Call) × ((delete_default_route sys platform interface calls).1 ≡ calls ++ made)
        × Deletes platform interface made
  unfolding delete_default_route
  deleted linux interface calls =
      tried (delete_on linux interface) (delete_any linux) calls _ (run_command sys _ _)
        (ran _ _ calls) (ran _ _)
  deleted mac_os interface calls =
      tried (delete_on mac_os interface) (delete_any mac_os) calls _ (run_command sys _ _)
        (ran _ _ calls) (ran _ _)

  rolled_back :
      (platform : Platform) (interface : Text) (restore : Option (Text × List Text))
      (calls : List Call)
      → (rollback_default_route sys platform interface restore calls).1
        ≡ (restore_route sys restore (delete_default_route sys platform interface calls).1).1
  unfolding rollback_default_route delete_default_route
  rolled_back linux interface restore calls = refl
  rolled_back mac_os interface restore calls = refl

  IsReadable : Type 0
  IsReadable = (calls : List Call) → (contents : Bytes) × (sys.read_file calls ≡ ok contents)

  -- One action is undone by its calls, whether they succeed or not.
  Made : AppliedNetworkAction → List Call → Undone × List Call → Type 0
  Made action calls after =
      (r : Result (Unit {0})) × (made : List Call) × (after ≡ (result r, calls ++ made))
      × Undoes sys action made

  undo-Made :
      IsReadable
      → (action : AppliedNetworkAction) (calls : List Call)
      → Made action calls (undo sys action calls)
  unfolding undo Undoes Made IsReadable
  undo-Made read (protected_tunnel_route program rollback_args) calls = (
    _,
    _,
    ap (λ t. (result (run_command sys program rollback_args calls).0, t))
        (ran program rollback_args calls),
    refl,
  )
  undo-Made read (command program rollback_args) calls = (
    _,
    _,
    ap (λ t. (result (run_command sys program rollback_args calls).0, t))
        (ran program rollback_args calls),
    refl,
  )
  undo-Made read (default_route platform interface restore) calls =
      let (gone, e, deletes) = deleted platform interface calls in
      (
        (rollback_default_route sys platform interface restore calls).0,
        gone ++ restores restore,
        ap (λ t. (result (rollback_default_route sys platform interface restore calls).0, t))
            (rolled_back platform interface restore calls
              ∙ restored restore (delete_default_route sys platform interface calls).1
              ∙ ap (λ t. t ++ restores restore) e
              ∙ append_assoc calls gone (restores restore)),
        (gone, deletes, refl),
      )
  undo-Made read (resolvconf program interface) calls =
      let args = codes "-d" ∷ (interface ++ codes ".openfortivpn") ∷ [] in
      (
        _,
        _,
        ap (λ t. (result (run_command sys program args calls).0, t)) (ran program args calls),
        refl,
      )
  undo-Made read (mac_os_scutil_dns program key) calls =
      let script = build_macos_scutil_remove_script key in
      (
        _,
        _,
        ap (λ t. (result (run_command_with_stdin sys program [] script calls).0, t))
            (ran_with_stdin program [] script calls),
        refl,
      )
  undo-Made read (resolv_conf_file added_lines) calls =
      let (contents, e) = read calls in
      let written =
        sys.as_bytes (remove_added_dns_lines (sys.from_utf8_lossy contents) added_lines) in
      let c = calls ++ read_resolv_conf ∷ [] in
      (
        sys.write_file c written,
        read_resolv_conf ∷ write_resolv_conf written ∷ [],
        rw (undo, e)
            (ap (λ t. (result (sys.write_file c written), t))
              (append_assoc calls (read_resolv_conf ∷ []) (write_resolv_conf written ∷ []))),
        (contents, refl),
      )

  rollback_loop-UndoesAll :
      IsReadable
      → (actions : List AppliedNetworkAction) (earlier : Option OpenfortivpnError)
        (calls : List Call)
      → (made : List Call) × ((rollback_loop sys actions earlier calls).1 ≡ calls ++ made)
        × UndoesAll sys actions made
  unfolding rollback_loop UndoesAll Made
  rollback_loop-UndoesAll read [] earlier calls = ([], sym (append-nil calls), refl)
  rollback_loop-UndoesAll read (action ∷ actions) earlier calls =
      let (r, first, e, undoes) = undo-Made read action calls in
      let (rest, e', others) =
        rollback_loop-UndoesAll read actions (first_error earlier r) (calls ++ first) in
      (
        first ++ rest,
        ap (λ t. (undone_then sys earlier t (rollback_loop sys actions)).1) e
            ∙ e'
            ∙ append_assoc calls first rest,
        (first, rest, refl, undoes, others),
      )

-- If the resolver file can be read whenever it is read, a rollback undoes every applied action, each
-- once, the last applied first, whatever fails on the way: the calls it makes are those of the
-- actions, one after another.
pub rollback-UndoesAll :
    (sys : System) (applied : List AppliedNetworkAction) (calls : List Call)
    → ((earlier : List Call) → (contents : Bytes) × (sys.read_file earlier ≡ ok contents))
    → (made : List Call) × ((rollback sys applied calls).1 ≡ calls ++ made)
      × UndoesAll sys (reverse applied) made
unfolding rollback
rollback-UndoesAll sys applied calls read =
    rollback_loop-UndoesAll sys (unfold IsReadable in read) (reverse applied) none calls
