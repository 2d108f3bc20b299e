-- ===== src/NetApply.antt =====
-- src/net_apply.rs: carrying out a plan, and taking it back. What the system answers to a command or
-- a file operation is a function of the calls made before it.
pub mod Parse
pub mod Dns
pub mod Commands
pub mod Actions
pub mod Servers
pub mod Plan
pub mod Lines
pub mod Undo
pub mod Routes
pub mod Refusals
mod Tests
use openfortivpn_rs.Common.{Bool, Option, List, [], ◌∷◌, ◌++◌}
use openfortivpn_rs.Common.Bytes.{Bytes}
use openfortivpn_rs.Common.Error.{Result, ok, err, OpenfortivpnError}
use openfortivpn_rs.Config.Settings.{Text}
use openfortivpn_rs.NetPlan.{Platform}

pub record ApplyOptions : Type 0 where
  pub use_resolvconf : Bool

pub data AppliedNetworkAction : Type 0 where
  protected_tunnel_route : Text → List Text → AppliedNetworkAction
  command : Text → List Text → AppliedNetworkAction
  default_route : Platform → Text → Option (Text × List Text) → AppliedNetworkAction
  resolvconf : Text → Text → AppliedNetworkAction
  mac_os_scutil_dns : Text → Text → AppliedNetworkAction
  resolv_conf_file : List Text → AppliedNetworkAction

-- What the program does to the system.
pub data Call : Type 0 where
  run : Text → List Text → Call
  run_with_stdin : Text → List Text → Text → Call
  read_resolv_conf : Call
  write_resolv_conf : Bytes → Call

-- `std::process::Output`, the texts read by `from_utf8_lossy`.
pub record Output : Type 0 where
  pub success : Bool
  pub status : Text
  pub stdout : Text
  pub stderr : Text

-- The operations of `std` that the module calls, and the texts of the errors. The calls made so far come first.
pub record System : Type 0 where
  pub output : List Call → Text → List Text → Result Output
  pub output_with_stdin : List Call → Text → List Text → Text → Result Output
  pub read_file : List Call → Result Bytes
  pub write_file : List Call → Bytes → Result (Unit {0})
  pub exists : List Call → Text → Bool
  pub find_program_in_path : List Call → Text → Option Text
  pub from_utf8_lossy : Bytes → Text
  pub as_bytes : Text → Bytes
  pub display : OpenfortivpnError → Text

-- A result with the calls made, in order.
abbrev pub Io {ℓ} : Type ℓ → Type ℓ
Io A = List Call → Result A × List Call

infixl 5 ◌>>=◌ ◌>>◌
abbrev pub and_then {ℓ κ} :
    {A : Type ℓ} {B : Type κ} → Result A × List Call → (A → Io B) → Result B × List Call
and_then (ok value, calls) rest = rest value calls
and_then (err e, calls) rest = (err e, calls)

-- `?`
abbrev pub ◌>>=◌ {ℓ κ} : {A : Type ℓ} {B : Type κ} → Io A → (A → Io B) → Io B
◌>>=◌ first rest calls = and_then (first calls) rest

abbrev pub ◌>>◌ {κ} : {B : Type κ} → Io (Unit {0}) → Io B → Io B
first >> rest = first >>= λ done. rest

abbrev pub return {ℓ} : {A : Type ℓ} → A → Io A
return value calls = (ok value, calls)

-- A `Result` that no call made.
abbrev pub lift {ℓ} : {A : Type ℓ} → Result A → Io A
lift result calls = (result, calls)

-- `or_else`, and a result that is only logged.
abbrev pub or_else_then :
    Result (Unit {0}) × List Call → Io (Unit {0}) → Result (Unit {0}) × List Call
or_else_then (ok done, calls) second = (ok done, calls)
or_else_then (err e, calls) second = second calls

abbrev pub or_else : Io (Unit {0}) → Io (Unit {0}) → Io (Unit {0})
or_else first second calls = or_else_then (first calls) second

abbrev pub logged : Io (Unit {0}) → Io (Unit {0})
logged first calls = (ok tt, (first calls).1)

abbrev pub fail {ℓ} : {A : Type ℓ} → OpenfortivpnError → Io A
fail e calls = (err e, calls)
