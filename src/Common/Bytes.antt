-- ===== src/Common/Bytes.antt =====
-- Bytes as numbers, slices of them, and the big-endian words of the wire formats.
use Prim.Native.Char.{code}
use Prim.Native.String.{String}
use Prim.Native.Nat.{ℕ, zero, suc, ◌+◌, ◌-◌, ◌*◌, ◌/◌, ◌%◌, ◌^◌, ◌<◌}
use mathlib.Core.Bool.{Bool, true, false, ◌&&◌}
use mathlib.Core.List.{List, [], ◌∷◌, ◌++◌}
use openfortivpn_rs.Common.Lists.{get_or, take, drop}
use openfortivpn_rs.Common.Tests.{◌==◌}

-- A `Vec<u8>`, a `&[u8]` or the UTF-8 text of a `String`.
abbrev pub Bytes : Type 0
Bytes = List ℕ

abbrev pub IsByte : ℕ → Type 0
IsByte b = b < 256

abbrev pub IsBytes : Bytes → Type 0
IsBytes [] = Unit
IsBytes (b ∷ bs) = IsByte b × IsBytes bs

-- The code points of a text: its bytes, if it is ASCII.
abbrev pub codes : String → Bytes
codes String.[] = []
codes (String.◌∷◌ c s) = code c ∷ codes s

-- `bytes[i]`; a read past the end, which the program would panic at, is 0 here. The program
-- tests the length before each read.
abbrev pub at : Bytes → ℕ → ℕ
at bytes i = get_or bytes i 0

-- `bytes[from..to]`
abbrev pub slice : ℕ → ℕ → Bytes → Bytes
slice from to bytes = take (to - from) (drop from bytes)

-- `as u16`
abbrev pub as_u16 : ℕ → ℕ
as_u16 n = n % 2 ^ 16

-- `u16::to_be_bytes`, `u32::to_be_bytes` and `u16::from_be_bytes`
abbrev pub be_u16 : ℕ → Bytes
be_u16 n = (n / 256) ∷ (n % 256) ∷ []

abbrev pub from_be_u16 : ℕ → ℕ → ℕ
from_be_u16 hi lo = hi * 256 + lo

unfoldable pub equal : Bytes → Bytes → Bool
equal [] [] = true
equal (x ∷ xs) (y ∷ ys) = x == y && equal xs ys
equal _ _ = false

pub IsBytes-append : (xs ys : Bytes) → IsBytes xs → IsBytes ys → IsBytes (xs ++ ys)
IsBytes-append [] ys h k = k
IsBytes-append (x ∷ xs) ys h k = (h.0, IsBytes-append xs ys h.1 k)

pub IsBytes-drop : (n : ℕ) (xs : Bytes) → IsBytes xs → IsBytes (drop n xs)
IsBytes-drop zero xs h = h
IsBytes-drop (suc n) [] h = h
IsBytes-drop (suc n) (x ∷ xs) h = IsBytes-drop n xs h.1

pub IsBytes-take : (n : ℕ) (xs : Bytes) → IsBytes xs → IsBytes (take n xs)
IsBytes-take zero xs h = tt
IsBytes-take (suc n) [] h = h
IsBytes-take (suc n) (x ∷ xs) h = (h.0, IsBytes-take n xs h.1)
