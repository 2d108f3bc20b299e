-- ===== src/Http/Encode.antt =====
-- src/http.rs: `url_encode`, against the decoding of RFC 3986.
use openfortivpn_rs.Common.{
  ℕ, ◌+◌, ◌-◌, ◌*◌, ◌/◌, ◌<◌, ◌^◌, bit_and, ◌&&◌, ◌||◌, Bool, true, false, Option, none, some, [],
  ◌∷◌, ltb, leb, ◌==◌, if◌then◌else◌, ◌≡◌, refl, ap, ◌∙◌, arith, All, Bool-cases, inl, inr,
}
use openfortivpn_rs.Common.Bytes.{Bytes, IsBytes}
use openfortivpn_rs.Common.Bits.{bit_and_mask}
use openfortivpn_rs.Common.Text.{is_digit}
use openfortivpn_rs.Strings.{is_ascii_alphanumeric}
use openfortivpn_rs.Config.Settings.{Text}

abbrev pub is_unreserved : ℕ → Bool
is_unreserved c = is_ascii_alphanumeric c || (c == b'-' || (c == b'_' || (c == b'.' || c == b'~')))

-- A digit of the table `HEX`.
abbrev pub hex : ℕ → ℕ
hex n = if ltb n 10 then b'0' + n else b'A' + n - 10

unfoldable pub url_encode : Bytes → Text
url_encode [] = []
url_encode (byte ∷ input) =
    let rest = url_encode input in
    if is_unreserved byte
    then byte ∷ rest
    else b'%' ∷ hex (byte / 2 ^ 4) ∷ hex (bit_and byte 0x0f) ∷ rest

-- Percent-decoding as RFC 3986 has it, for upper-case digits.
abbrev pub unhex : ℕ → Option ℕ
unhex c =
    if is_digit c
    then some (c - b'0')
    else if leb b'A' c && leb c b'F'
    then some (c - b'A' + 10)
    else none

abbrev pub behind : ℕ → Option Bytes → Option Bytes
behind c none = none
behind c (some bytes) = some (c ∷ bytes)

abbrev pub triplet : Option ℕ → Option ℕ → Option Bytes → Option Bytes
triplet none low rest = none
triplet (some high) none rest = none
triplet (some high) (some low) rest = behind (high * 16 + low) rest

unfoldable pub url_decode : Text → Option Bytes
url_decode [] = some []
url_decode (c ∷ []) = if c == b'%' then none else some (c ∷ [])
url_decode (c ∷ d ∷ []) =
    let rest = url_decode (d ∷ []) in if c == b'%' then none else behind c rest
url_decode (c ∷ d ∷ e ∷ cs) =
    let escaped = url_decode cs in
    let rest = url_decode (d ∷ e ∷ cs) in
    if c == b'%' then triplet (unhex d) (unhex e) escaped else behind c rest

plain :
    (c : ℕ) (rest : Text) → (c == b'%') ≡ false → url_decode (c ∷ rest) ≡ behind c (url_decode rest)
unfolding url_decode
plain c [] h = rw h refl
plain c (d ∷ []) h = rw h refl
plain c (d ∷ e ∷ cs) h = rw h refl

unhex-hex : (n : ℕ) → n < 16 → unhex (hex n) ≡ some n
unhex-hex n h = ground arith

pub unreserved_plain : (c : ℕ) → is_unreserved c ≡ true → (c == b'%') ≡ false
unreserved_plain c h = ground arith

pub byte_halves :
    (b : ℕ)
    → b < 256
    → (b / 2 ^ 4 < 16) × (bit_and b 0x0f < 16) × (b / 2 ^ 4 * 16 + bit_and b 0x0f ≡ b)
byte_halves b h = let m = bit_and_mask 4 b in (omega arith, omega (arith, m), omega (arith, m))

-- What stands in a URL without escaping.
abbrev pub IsSafe : ℕ → Type 0
IsSafe c =
    (is_ascii_alphanumeric c
      || (c == b'-' || (c == b'.' || (c == b'_' || (c == b'~' || c == b'%')))))
    ≡ true

unreserved-IsSafe : (c : ℕ) → is_unreserved c ≡ true → IsSafe c
unreserved-IsSafe c h = ground arith

hex-IsSafe : (n : ℕ) → n < 16 → IsSafe (hex n)
hex-IsSafe n h = ground arith

escaped :
    (high low : ℕ) (cs : Text) (b : ℕ) (rest : Bytes)
    → unhex high ≡ some (b / 2 ^ 4)
    → unhex low ≡ some (bit_and b 0x0f)
    → b / 2 ^ 4 * 16 + bit_and b 0x0f ≡ b
    → url_decode cs ≡ some rest
    → url_decode (b'%' ∷ high ∷ low ∷ cs) ≡ some (b ∷ rest)
unfolding url_decode
escaped high low cs b rest h l e d = rw (h, l, d, e) refl

-- Bytes that are encoded decode to themselves by RFC 3986, and the encoded text has only letters,
-- digits and `-._~%`.
pub url_decode-url_encode :
    (input : Bytes)
    → IsBytes input
    → (url_decode (url_encode input) ≡ some input) × All IsSafe (url_encode input)
unfolding url_encode
url_decode-url_encode [] h = (unfold url_decode in refl, tt)
url_decode-url_encode (byte ∷ input) h =
    let (decoded, safe) = url_decode-url_encode input h.1 in
    elim (Bool-cases (is_unreserved byte)) [
      | inl e ↦ rw e (
        plain byte (url_encode input) (unreserved_plain byte e) ∙ ap (behind byte) decoded,
        (unreserved-IsSafe byte e, safe),
      )
      | inr e ↦
          let (high, low, whole) = byte_halves byte h.0 in
          rw e (
            escaped (hex (byte / 2 ^ 4)) (hex (bit_and byte 0x0f)) (url_encode input) byte input
                (unhex-hex (byte / 2 ^ 4) high) (unhex-hex (bit_and byte 0x0f) low) whole decoded,
            (refl, (hex-IsSafe (byte / 2 ^ 4) high, (hex-IsSafe (bit_and byte 0x0f) low, safe))),
          )
    ]
