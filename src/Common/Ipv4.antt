-- ===== src/Common/Ipv4.antt =====
-- `std::net::Ipv4Addr`: its octets, `u32::from` and `Ipv4Addr::from`.
use Prim.Native.Nat.{ℕ, ◌+◌, ◌*◌, ◌/◌, ◌%◌, ◌<◌, ◌^◌}
use mathlib.Core.Path.{◌≡◌}
use mathlib.Core.Bool.{Bool, ◌&&◌}
use mathlib.Core.List.{[], ◌∷◌}
use native.Mathlib.Omega.{arith}
use openfortivpn_rs.Common.Tests.{◌==◌}
use openfortivpn_rs.Common.Bytes.{Bytes, at}

pub record Ipv4Addr : Type 0 where
  pub o0 : ℕ
  pub o1 : ℕ
  pub o2 : ℕ
  pub o3 : ℕ

abbrev pub new : ℕ → ℕ → ℕ → ℕ → Ipv4Addr
new a b c d = record { o0 = a; o1 = b; o2 = c; o3 = d }

abbrev pub unspecified : Ipv4Addr
unspecified = new 0 0 0 0

abbrev pub octets : Ipv4Addr → Bytes
octets ip = ip.o0 ∷ ip.o1 ∷ ip.o2 ∷ ip.o3 ∷ []

-- Four octets read at an index.
abbrev pub read : Bytes → ℕ → Ipv4Addr
read p i = new (at p i) (at p (i + 1)) (at p (i + 2)) (at p (i + 3))

infix 50 ◌==ip◌
abbrev pub ◌==ip◌ : Ipv4Addr → Ipv4Addr → Bool
a ==ip b = a.o0 == b.o0 && a.o1 == b.o1 && a.o2 == b.o2 && a.o3 == b.o3

pub record IsIpv4 (ip : Ipv4Addr) : Type 0 where
  pub r0 : ip.o0 < 256
  pub r1 : ip.o1 < 256
  pub r2 : ip.o2 < 256
  pub r3 : ip.o3 < 256

abbrev pub to_u32 : Ipv4Addr → ℕ
to_u32 ip = ((ip.o0 * 256 + ip.o1) * 256 + ip.o2) * 256 + ip.o3

abbrev pub from_u32 : ℕ → Ipv4Addr
from_u32 n = new (n / 2 ^ 24) (n / 2 ^ 16 % 256) (n / 2 ^ 8 % 256) (n % 256)

pub to_u32-from_u32 : (n : ℕ) → to_u32 (from_u32 n) ≡ n
to_u32-from_u32 n = omega arith
