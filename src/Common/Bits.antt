-- ===== src/Common/Bits.antt =====
-- Laws of `^`, `&` and the shifts at variables, from the digit recursion that the native
-- operations stand for.
use Prim.Native.Nat.{
  ℕ, zero, suc, ◌+◌, ◌-◌, ◌*◌, ◌/◌, ◌%◌, ◌^◌, ◌≤◌, ◌<◌, min, digits, bitwise, bit_and, bit_xor,
  bit_and-bitwise, bit_xor-bitwise, differ,
}
use mathlib.Core.Path.{◌≡◌, refl, ap, ap₂, ◌∙◌}
use mathlib.Core.Bool.{Bool, true, ◌&&◌}
use native.Mathlib.Nat.{pow-suc, one-le-pow, le_refl}
use native.Mathlib.Omega.{arith}

-- Over a small range, check every value by evaluation.
unfoldable pub all_below : ℕ → (ℕ → Bool) → Bool
all_below zero p = true
all_below (suc n) p = p n && all_below n p

pub all_below_sound :
    (bound : ℕ) (test : ℕ → Bool) (value : ℕ)
    → all_below bound test ≡ true
    → value < bound
    → test value ≡ true
unfolding all_below
all_below_sound zero test value checked inside = elim inside [ ]
all_below_sound (suc bound) test value checked inside =
    ground (arith, all_below_sound bound test value)

-- `digits` reads the binary digits of its first number on fuel: more fuel than that number changes nothing.
module _ (last : ℕ → ℕ) (digit : ℕ → ℕ → ℕ) where
  digits_more :
      (enough fuel x y : ℕ)
      → x ≤ enough
      → enough ≤ fuel
      → digits last digit fuel x y ≡ digits last digit enough x y
  digits_more zero zero x y h more = refl
  digits_more zero (suc fuel) zero y h more = refl
  digits_more zero (suc fuel) (suc x) y h more = elim h [ ]
  digits_more (suc enough) zero x y h more = elim more [ ]
  digits_more (suc enough) (suc fuel) zero y h more = refl
  digits_more (suc enough) (suc fuel) (suc x) y h more =
      ap (λ (t : ℕ). t * 2 + digit (suc x % 2) (y % 2))
        (digits_more enough fuel (suc x / 2) (y / 2) (omega arith) (omega arith))

  bitwise-suc :
      (x y : ℕ)
      → bitwise last digit (suc x) y
        ≡ bitwise last digit (suc x / 2) (y / 2) * 2 + digit (suc x % 2) (y % 2)
  bitwise-suc x y =
      ap (λ (t : ℕ). t * 2 + digit (suc x % 2) (y % 2))
        (digits_more (suc x / 2) x (suc x / 2) (y / 2) (le_refl _) (omega arith))

differ-lt-two : (a b : ℕ) → a < 2 → b < 2 → differ a b ≡ (a + b) % 2
differ-lt-two zero zero p q = refl
differ-lt-two zero (suc zero) p q = refl
differ-lt-two zero (suc (suc b)) p q = absurd (omega arith)
differ-lt-two (suc zero) zero p q = refl
differ-lt-two (suc zero) (suc zero) p q = refl
differ-lt-two (suc zero) (suc (suc b)) p q = absurd (omega arith)
differ-lt-two (suc (suc a)) b p q = absurd (omega arith)

pub bit_xor_step : (a b : ℕ) → bit_xor a b ≡ bit_xor (a / 2) (b / 2) * 2 + (a % 2 + b % 2) % 2
bit_xor_step zero b = simp bit_xor-bitwise (omega arith)
bit_xor_step (suc a) b = simp bit_xor-bitwise (
    bitwise-suc (λ y. y) differ a b
    ∙ ap (λ (d : ℕ). bitwise (λ y. y) differ (suc a / 2) (b / 2) * 2 + d)
        (differ-lt-two (suc a % 2) (b % 2) (omega arith) (omega arith)))

-- `&` at the lowest digit and at the others.
pub bit_and_step : (x y : ℕ) → bit_and x y ≡ bit_and (x / 2) (y / 2) * 2 + min (x % 2) (y % 2)
bit_and_step (suc x) y = simp bit_and-bitwise (bitwise-suc (λ last. 0) min x y)
bit_and_step zero y = simp bit_and-bitwise (omega arith)

-- By halving the number, as often as `times`.
halved-bit_and-zero : (times x : ℕ) → x ≤ times → bit_and x 0 ≡ 0
halved-bit_and-zero times zero few = refl
halved-bit_and-zero (suc times) (suc x) few =
    let half = halved-bit_and-zero times (suc x / 2) (omega arith) in
    omega (arith, half, bit_and_step (suc x) 0)
halved-bit_and-zero zero (suc x) few = elim few [ ]

pub bit_and-zero : (x : ℕ) → bit_and x 0 ≡ 0
bit_and-zero x = halved-bit_and-zero x x (le_refl _)

-- A mask of `k` low bits is the remainder by `2 ^ k`.
bit_and_fields : (k q r : ℕ) → r < 2 ^ k → bit_and (q * 2 ^ k + r) (2 ^ k - 1) ≡ r
bit_and_fields zero q r fits = rw bit_and-zero (omega arith)
bit_and_fields (suc k) q r fits = ground (
  arith,
  bit_and_step (q * 2 ^ suc k + r) (2 ^ suc k - 1),
  ap (λ (t : ℕ). q * t) (pow-suc 2 k),
  pow-suc 2 k,
  one-le-pow k 2,
  bit_and_fields k q (r / 2) (omega (arith, pow-suc 2 k)),
)

pub bit_and_mask : (k a : ℕ) → bit_and a (2 ^ k - 1) ≡ a % 2 ^ k
bit_and_mask k a = ground (arith, one-le-pow k 2, bit_and_fields k (a / 2 ^ k) (a % 2 ^ k))

pub bit_xor-lt : (k a b : ℕ) → a < 2 ^ k → b < 2 ^ k → bit_xor a b < 2 ^ k
bit_xor-lt zero zero zero p q = omega arith
bit_xor-lt zero (suc a) b p q = absurd (omega arith)
bit_xor-lt zero zero (suc b) p q = absurd (omega arith)
bit_xor-lt (suc k) a b p q = omega (
  arith,
  pow-suc 2 k,
  bit_xor_step a b,
  bit_xor-lt k (a / 2) (b / 2) (omega (arith, pow-suc 2 k)) (omega (arith, pow-suc 2 k)),
)

ones_half : (m : ℕ) → 0 < m → ((m * 2 - 1) / 2 ≡ m - 1) × ((m * 2 - 1) % 2 ≡ 1)
ones_half m h = omega arith

-- The complement of `k` bits.
pub bit_xor_ones : (k a : ℕ) → a < 2 ^ k → bit_xor a (2 ^ k - 1) ≡ 2 ^ k - 1 - a
bit_xor_ones zero zero p = refl
bit_xor_ones zero (suc a) p = absurd (omega arith)
bit_xor_ones (suc k) a p = rw (pow-suc 2 k) (
    omega (
      arith,
      pow-suc 2 k,
      one-le-pow k 2,
      bit_xor_step a (2 ^ k * 2 - 1),
      ap (λ (t : ℕ). bit_xor (a / 2) t) (ones_half (2 ^ k) (omega (arith, one-le-pow k 2))).0,
      bit_xor_ones k (a / 2) (omega (arith, pow-suc 2 k)),
    ))

xor_zero : (a b : ℕ) → a < 1 → b < 1 → bit_xor a b ≡ 0
xor_zero a b p q = omega (arith, bit_xor-lt 0 a b p q)

drop_zero : (q r : ℕ) → r < 1 → q * 1 + r ≡ q
drop_zero q r p = omega arith

double_field : (q r k : ℕ) → (q * 2 ^ suc k + r) / 2 ≡ q * 2 ^ k + r / 2
double_field q r k = omega (arith, ap (λ (t : ℕ). q * t) (pow-suc 2 k))

double_field_digit : (q r k : ℕ) → (q * 2 ^ suc k + r) % 2 ≡ r % 2
double_field_digit q r k = omega (arith, ap (λ (t : ℕ). q * t) (pow-suc 2 k))

-- `^` works on each field of bits by itself.
pub bit_xor_fields :
    (k q r q' r' : ℕ)
    → r < 2 ^ k
    → r' < 2 ^ k
    → bit_xor (q * 2 ^ k + r) (q' * 2 ^ k + r') ≡ bit_xor q q' * 2 ^ k + bit_xor r r'
bit_xor_fields zero q r q' r' p p' =
    omega (arith, xor_zero r r' p p', ap₂ bit_xor (drop_zero q r p) (drop_zero q' r' p'))
bit_xor_fields (suc k) q r q' r' p p' = omega (
  arith,
  pow-suc 2 k,
  ap (λ (t : ℕ). bit_xor q q' * t) (pow-suc 2 k),
  bit_xor_step (q * 2 ^ suc k + r) (q' * 2 ^ suc k + r'),
  bit_xor_step r r',
  double_field_digit q r k,
  double_field_digit q' r' k,
  ap₂ bit_xor (double_field q r k) (double_field q' r' k),
  bit_xor_fields k q (r / 2) q' (r' / 2) (omega (arith, pow-suc 2 k)) (omega (arith, pow-suc 2 k)),
)

-- `^` works on the bytes of a word one by one.
pub bit_xor_bytes :
    (a b : ℕ) → bit_xor a b ≡ bit_xor (a / 256) (b / 256) * 256 + bit_xor (a % 256) (b % 256)
bit_xor_bytes a b =
    ap₂ bit_xor (omega arith) (omega arith)
    ∙ bit_xor_fields 8 (a / 256) (a % 256) (b / 256) (b % 256) (omega arith) (omega arith)

pub bit_xor-byte-lt : (a b : ℕ) → a < 256 → b < 256 → bit_xor a b < 256
bit_xor-byte-lt a b p q = bit_xor-lt 8 a b p q
