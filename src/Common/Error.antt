-- ===== src/Common/Error.antt =====
-- src/error.rs: the errors of the program, and `Result` with its `?` as a bind.
-- A formatted message is the list of its pieces.
use Prim.Native.String.{String}
use Prim.Native.Nat.{ℕ}
use mathlib.Core.Path.{◌≡◌, refl}
use mathlib.Core.Bool.{Bool, true, false}
use mathlib.Core.List.{List}
use mathlib.Core.Option.{Option, none, some}

pub data Piece : Type 0 where
  text : String → Piece
  num : ℕ → Piece
  str : List ℕ → Piece

abbrev pub Message : Type 0
Message = List Piece

-- The kinds of `std::io::Error` that the modelled readers return.
pub data IoError : Type 0 where
  unexpected_eof : IoError

pub data OpenfortivpnError : Type 0 where
  io : IoError → OpenfortivpnError
  tls_handshake : Message → OpenfortivpnError
  missing_peer_certificate : OpenfortivpnError
  certificate_verification : Message → OpenfortivpnError
  http_protocol : Message → OpenfortivpnError
  permission_denied : OpenfortivpnError
  auth : Message → OpenfortivpnError
  pppd : Message → OpenfortivpnError
  network : Message → OpenfortivpnError
  bad_boolean : List ℕ → OpenfortivpnError
  bad_integer : List ℕ → List ℕ → OpenfortivpnError
  bad_port : List ℕ → List ℕ → OpenfortivpnError
  bad_tls_version : List ℕ → OpenfortivpnError
  bad_certificate_digest : List ℕ → OpenfortivpnError
  unknown_config_key : List ℕ → OpenfortivpnError
  hdlc_buffer_too_small : OpenfortivpnError
  hdlc_no_frame_found : OpenfortivpnError
  hdlc_invalid_frame : OpenfortivpnError
  hdlc_bad_checksum : OpenfortivpnError

pub data Result {ℓ} (A : Type ℓ) : Type ℓ where
  ok : A → Result A
  err : OpenfortivpnError → Result A

-- `?`: an error returns at once.
infixl 5 ◌>>=◌
abbrev pub ◌>>=◌ {ℓ κ} : {A : Type ℓ} {B : Type κ} → Result A → (A → Result B) → Result B
err stopped >>= rest = err stopped
ok value >>= rest = rest value

-- A statement whose value is `()`.
infixl 5 ◌>>◌
abbrev pub ◌>>◌ {κ} : {B : Type κ} → Result (Unit {0}) → Result B → Result B
statement >> rest = statement >>= λ done. rest

-- `if bad { return Err(e) }`
abbrev pub refuse_if : Bool → OpenfortivpnError → Result (Unit {0})
refuse_if true e = err e
refuse_if false e = ok tt

abbrev pub ok_or {ℓ} : {A : Type ℓ} → Option A → OpenfortivpnError → Result A
ok_or none e = err e
ok_or (some a) e = ok a

-- A chain that succeeds: its first part did, and so did the rest on its value.
pub >>=-eq-ok {ℓ κ} :
    {A : Type ℓ} {B : Type κ} (first : Result A) (rest : A → Result B) {result : B}
    → first >>= rest ≡ ok result
    → (value : A) × (first ≡ ok value) × (rest value ≡ ok result)
>>=-eq-ok (err stopped) rest success = cc
>>=-eq-ok (ok value) rest success = (value, refl, success)
