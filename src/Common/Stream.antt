-- ===== src/Common/Stream.antt =====
-- `std::io::Read` on a stream that ends: the bytes still to come. `read_exact` takes `n` bytes or
-- fails with `UnexpectedEof`. Writers are the bytes written so far, and take every write.
use Prim.Native.Nat.{ℕ, suc, ◌≤◌}
use mathlib.Core.Path.{◌≡◌, ap₂}
use mathlib.Core.List.{◌++◌}
use native.Mathlib.Omega.{arith}
use openfortivpn_rs.Common.Tests.{ltb, if◌then◌else◌, le→ltb}
use openfortivpn_rs.Common.Lists.{length, take, drop, length-append, take-length, drop-length}
use openfortivpn_rs.Common.Bytes.{Bytes}
use openfortivpn_rs.Common.Error.{Result, ok, err, io, unexpected_eof}

unfoldable pub read_exact : ℕ → Bytes → Result (Bytes × Bytes)
read_exact n reader =
    if ltb (length reader) n then err (io unexpected_eof) else ok (take n reader, drop n reader)

-- What was written is read back whole, and the rest is left.
pub read_exact-append :
    (n : ℕ) (xs rest : Bytes) → n ≡ length xs → read_exact n (xs ++ rest) ≡ ok (xs, rest)
unfolding read_exact
read_exact-append n xs rest e =
    rw (e, le→ltb (length (xs ++ rest)) (length xs) (omega (arith, length-append xs rest)))
      (ap₂ (λ a b. ok (a, b)) (take-length xs rest) (drop-length xs rest))

pub read_exact_short :
    (n : ℕ) (xs : Bytes) → suc (length xs) ≤ n → read_exact n xs ≡ err (io unexpected_eof)
unfolding read_exact
read_exact_short n xs h = ground arith
