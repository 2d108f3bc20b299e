-- ===== src/NetApply/Refusals.antt =====
-- What is left of a plan when an action of it fails, in src/net_apply.rs.
use mathlib.Core.List.{reverse}
use openfortivpn_rs.Common.{Option, none, some, List, [], ◌∷◌, ◌++◌, ◌≡◌, refl, sym, ap, ◌∙◌, subst}
use openfortivpn_rs.Common.Bytes.{Bytes}
use openfortivpn_rs.Common.Error.{Result, ok, err, OpenfortivpnError}
use openfortivpn_rs.Config.Settings.{Text}
use openfortivpn_rs.NetPlan.{
  NetworkAction, drop_wrong_tunnel_route, protect_tunnel_route, replace_default_route,
  configure_dns,
}
use openfortivpn_rs.NetPlan
use openfortivpn_rs.NetApply.Parse.{rollback_args_for_command}
use openfortivpn_rs.NetApply.Commands.{run_command}
use openfortivpn_rs.NetApply.Actions.{apply_default_route}
use openfortivpn_rs.NetApply.Actions
use openfortivpn_rs.NetApply.Servers.{apply_dns}
use openfortivpn_rs.NetApply.Plan.{
  Carried, carried, returned, carry, carried_then, command_run, keep_rollback, as_carried,
  rolled_back, rollback, apply_loop, apply_network_plan,
}
use openfortivpn_rs.NetApply.Undo.{UndoesAll, rollback-UndoesAll}
use openfortivpn_rs.NetApply.{ApplyOptions, AppliedNetworkAction, command, Call, System, Io}

module _ (sys : System) where
  rolled_back_fails :
      (e : OpenfortivpnError) (undone : Result (Unit {0}) × List Call)
      → (e' : OpenfortivpnError) × (rolled_back sys e undone ≡ (err e', undone.1))
  rolled_back_fails e (ok done, calls) = (e, refl)
  rolled_back_fails e (err e', calls) = (_, refl)

  prefix_step :
      (xs ys : List NetworkAction) (options : ApplyOptions)
      (applied applied' : List AppliedNetworkAction) (calls : List Call) (r : Carried × List Call)
      → carried_then sys applied r (apply_loop sys xs options) ≡ (ok applied', calls)
      → ((a : List AppliedNetworkAction) (c : List Call)
          → apply_loop sys xs options a c ≡ (ok applied', calls)
          → apply_loop sys (xs ++ ys) options a c ≡ apply_loop sys ys options applied' calls)
      → carried_then sys applied r (apply_loop sys (xs ++ ys) options)
        ≡ apply_loop sys ys options applied' calls
  prefix_step xs ys options applied applied' calls (returned e, c) h rest = absurd (cc h)
  prefix_step xs ys options applied applied' calls (carried (err e), c) h rest =
      let (e', fails) = rolled_back_fails e (rollback sys applied c) in absurd (cc (sym fails ∙ h))
  prefix_step xs ys options applied applied' calls (carried (ok a), c) h rest = rest a c h

  -- Actions that succeeded are behind.
  apply_loop-append :
      (xs ys : List NetworkAction) (options : ApplyOptions)
      (applied applied' : List AppliedNetworkAction) (c calls : List Call)
      → apply_loop sys xs options applied c ≡ (ok applied', calls)
      → apply_loop sys (xs ++ ys) options applied c ≡ apply_loop sys ys options applied' calls
  unfolding apply_loop
  apply_loop-append [] ys options applied applied' c calls h =
      let same : applied ≡ applied' = cc h in
      let at' : c ≡ calls = cc h in
      ap (λ a. apply_loop sys ys options a c) same ∙ ap (apply_loop sys ys options applied') at'
  apply_loop-append (x ∷ xs) ys options applied applied' c calls h =
      prefix_step xs ys options applied applied' calls (carry sys x options applied c) h
        (λ a c'. apply_loop-append xs ys options a applied' c' calls)

abbrev Outcome : Type 0
Outcome = Result (List AppliedNetworkAction) × List Call

-- What the plan comes to behind a command that came to the first outcome: a failing one ends it with its
-- own error and no call more.
abbrev pub AfterCommand :
    Outcome
    → (List AppliedNetworkAction → Io (List AppliedNetworkAction))
    → (List AppliedNetworkAction)
    → Result (Unit {0}) × List Call
    → Type 0
AfterCommand whole rest kept (err e, calls) = whole ≡ (err e, calls)
AfterCommand whole rest kept (ok done, calls) = whole ≡ rest kept calls

-- Behind another action: a failing one ends it with an error, and everything applied is undone.
abbrev pub AfterOther :
    System
    → Outcome
    → (List AppliedNetworkAction → Io (List AppliedNetworkAction))
    → List AppliedNetworkAction
    → Result (List AppliedNetworkAction) × List Call
    → Type 0
AfterOther sys whole rest applied (err e, calls) =
    (e' : OpenfortivpnError) × (made : List Call) × (whole ≡ (err e', calls ++ made))
    × UndoesAll sys (reverse applied) made
AfterOther sys whole rest applied (ok applied', calls) = whole ≡ rest applied' calls

-- What is in place after a command: with what takes it back, where that is known.
abbrev pub with_rollback :
    Text → Option (List Text) → List AppliedNetworkAction → List AppliedNetworkAction
with_rollback program none applied = applied
with_rollback program (some args) applied = applied ++ command program args ∷ []

-- What a plan comes to by the outcome of its next action, where `applied` is in place and `rest` carries
-- out the actions behind it.
abbrev pub ComesTo :
    System
    → ApplyOptions
    → List AppliedNetworkAction
    → List Call
    → (List AppliedNetworkAction → Io (List AppliedNetworkAction))
    → Outcome
    → NetworkAction
    → Type 0
ComesTo sys options applied calls rest whole (drop_wrong_tunnel_route platform endpoint interface) =
    whole ≡ rest applied (Actions.drop_wrong_tunnel_route sys platform endpoint interface calls).1
ComesTo sys options applied calls rest whole (protect_tunnel_route platform endpoint) =
    AfterOther sys whole rest applied
      (Actions.protect_tunnel_route sys platform endpoint applied calls)
ComesTo sys options applied calls rest whole (NetPlan.run_command program args) =
    AfterCommand whole rest (with_rollback program (rollback_args_for_command program args) applied)
      (run_command sys program args calls)
ComesTo sys options applied calls rest whole (replace_default_route platform interface) =
    AfterOther sys whole rest applied (apply_default_route sys platform interface applied calls)
ComesTo sys options applied calls rest whole (configure_dns platform interface servers domain) =
    AfterOther sys whole rest applied
      (apply_dns sys platform interface servers domain options applied calls)

module _ (sys : System) (rest : List AppliedNetworkAction → Io (List AppliedNetworkAction))
    (applied : List AppliedNetworkAction) where
  after_command :
      (program : Text) (args : List Text) (r : Result (Unit {0}) × List Call)
      → AfterCommand
          (carried_then sys applied (command_run sys program args applied r) rest)
          rest
          (with_rollback program (rollback_args_for_command program args) applied)
          r
  after_command program args (err e, calls) = refl
  after_command program args (ok done, calls) =
      ap (λ kept. rest kept calls) (kept (rollback_args_for_command program args))
    where
      kept :
          (back : Option (List Text))
          → keep_rollback sys program back applied ≡ with_rollback program back applied
      kept none = refl
      kept (some back) = refl

  after_other :
      (r : Result (List AppliedNetworkAction) × List Call)
      → ((earlier : List Call) → (contents : Bytes) × (sys.read_file earlier ≡ ok contents))
      → AfterOther sys (carried_then sys applied (as_carried sys r) rest) rest applied r
  after_other (ok applied', calls) read = refl
  after_other (err e, calls) read =
      let (made, e₁, undoes) = rollback-UndoesAll sys applied calls read in
      let (e', e₂) = rolled_back_fails sys e (rollback sys applied calls) in
      (e', made, e₂ ∙ ap (λ t. (err e', t)) e₁, undoes)

  comes_to :
      (action : NetworkAction) (options : ApplyOptions) (calls : List Call)
      → ((earlier : List Call) → (contents : Bytes) × (sys.read_file earlier ≡ ok contents))
      → ComesTo sys options applied calls rest
          (carried_then sys applied (carry sys action options applied calls) rest)
          action
  unfolding carry
  comes_to (drop_wrong_tunnel_route platform endpoint interface) options calls read = refl
  comes_to (protect_tunnel_route platform endpoint) options calls read =
      after_other (Actions.protect_tunnel_route sys platform endpoint applied calls) read
  comes_to (NetPlan.run_command program args) options calls read =
      after_command program args (run_command sys program args calls)
  comes_to (replace_default_route platform interface) options calls read =
      after_other (apply_default_route sys platform interface applied calls) read
  comes_to (configure_dns platform interface servers domain) options calls read =
      after_other (apply_dns sys platform interface servers domain options applied calls) read

-- A plan whose first actions succeeded and left `applied` in place, if the resolver file can be read
-- whenever it is read. If the next action is a command that fails, the plan fails with its error and
-- no call follows it: nothing that was applied is undone. If the next action is of another kind and
-- fails, the plan fails and everything applied is undone, the last applied first, with no call but
-- those. If it succeeds, the plan goes on with the actions behind it.
pub apply_network_plan-ComesTo :
    (sys : System) (before after : List NetworkAction) (action : NetworkAction)
    (options : ApplyOptions) (applied : List AppliedNetworkAction) (calls : List Call)
    → ((earlier : List Call) → (contents : Bytes) × (sys.read_file earlier ≡ ok contents))
    → apply_network_plan sys (record { actions = before }) options [] ≡ (ok applied, calls)
    → ComesTo sys options applied calls
        (apply_loop sys after options)
        (apply_network_plan sys (record { actions = before ++ action ∷ after }) options [])
        action
unfolding apply_network_plan
apply_network_plan-ComesTo sys before after action options applied calls read ran =
    subst (λ whole. ComesTo sys options applied calls (apply_loop sys after options) whole action)
      (sym (apply_loop-append sys before (action ∷ after) options [] applied [] calls ran))
      (unfold apply_loop in
        comes_to sys (apply_loop sys after options) applied action options calls read)
