-- ===== src/Hdlc/Escape.antt =====
-- Escaping in src/hdlc.rs: the escaped text holds no flag, and the loop of `decode` reads it back.
use openfortivpn_rs.Hdlc.{
  in_sending_accm, in_receiving_accm, escaped, push_escaped, push_all_escaped, unescape,
}
use openfortivpn_rs.Common.{
  ℕ, ◌≤◌, bit_xor, Bool, true, false, not, ◌&&◌, [], ◌∷◌, ◌++◌, append_assoc, append-nil, ◌≡◌, refl,
  sym, ap, ◌∙◌, arith, ◌==◌, ◌!=◌, ==_iff, if◌then◌else◌, length,
}
use openfortivpn_rs.Common.Bits.{all_below, all_below_sound}
use openfortivpn_rs.Common.Bytes.{Bytes, IsByte, IsBytes}

abbrev pub NoFlag : Bytes → Type 0
NoFlag [] = Unit
NoFlag (b ∷ bs) = (b == 0x7e ≡ false) × NoFlag bs

pub NoFlag-append : (xs ys : Bytes) → NoFlag xs → NoFlag ys → NoFlag (xs ++ ys)
NoFlag-append [] ys h k = k
NoFlag-append (x ∷ xs) ys h k = (h.0, NoFlag-append xs ys h.1 k)

-- What the pushes of a packet append to the frame.
unfoldable pub escaped_all : Bytes → Bytes
unfolding escaped
escaped_all [] = []
escaped_all (byte ∷ packet) = escaped byte ++ escaped_all packet

pub push_all_escaped-append :
    (frame packet : Bytes) → push_all_escaped frame packet ≡ frame ++ escaped_all packet
unfolding push_all_escaped push_escaped escaped_all
push_all_escaped-append frame [] = sym (append-nil frame)
push_all_escaped-append frame (byte ∷ packet) =
    push_all_escaped-append (frame ++ escaped byte) packet ∙ append_assoc frame _ _

pub escaped_all-append : (xs ys : Bytes) → escaped_all (xs ++ ys) ≡ escaped_all xs ++ escaped_all ys
unfolding escaped_all
escaped_all-append [] ys = refl
escaped_all-append (x ∷ xs) ys =
    ap (λ t. escaped x ++ t) (escaped_all-append xs ys) ∙ sym (append_assoc (escaped x) _ _)

-- What holds of every byte, by the two cases of `in_sending_accm`.
abbrev is_transparent : ℕ → Bool
is_transparent b =
    let e = bit_xor b 0x20 in
    if in_sending_accm b
    then e != 0x7d && e != 0x7e && bit_xor e 0x20 == b
    else b != 0x7d && b != 0x7e && not (in_receiving_accm b)

is_transparent_table : all_below 256 is_transparent ≡ true
unfolding all_below in_sending_accm in_receiving_accm
is_transparent_table = refl

transparent : (b : ℕ) → IsByte b → is_transparent b ≡ true
transparent b h = all_below_sound 256 is_transparent b is_transparent_table h

escaped-NoFlag : (b : ℕ) → IsByte b → NoFlag (escaped b)
unfolding escaped
escaped-NoFlag b h = ground (arith, transparent b h)

pub escaped_all-NoFlag : (packet : Bytes) → IsBytes packet → NoFlag (escaped_all packet)
unfolding escaped_all
escaped_all-NoFlag [] h = tt
escaped_all-NoFlag (b ∷ packet) h =
    NoFlag-append (escaped b) _ (escaped-NoFlag b h.0) (escaped_all-NoFlag packet h.1)

unescape-escaped :
    (out : Bytes) (b : ℕ) (rest : Bytes)
    → IsByte b
    → unescape false out (escaped b ++ rest) ≡ unescape false (out ++ b ∷ []) rest
unfolding unescape escaped
unescape-escaped out b rest h =
    ground (arith, transparent b h, ==_iff (bit_xor (bit_xor b 0x20) 0x20) b)

-- The loop of `decode` undoes the escaping.
pub unescape-escaped_all :
    (out packet rest : Bytes)
    → IsBytes packet
    → unescape false out (escaped_all packet ++ rest) ≡ unescape false (out ++ packet) rest
unfolding escaped_all
unescape-escaped_all out [] rest h = ap (λ t. unescape false t rest) (sym (append-nil out))
unescape-escaped_all out (b ∷ packet) rest h =
    ap (unescape false out) (append_assoc (escaped b) _ rest)
    ∙ unescape-escaped out b _ h.0
    ∙ unescape-escaped_all (out ++ b ∷ []) packet rest h.1
    ∙ ap (λ t. unescape false t rest) (append_assoc out (b ∷ []) packet)

pub length-escaped_all : (packet : Bytes) → length packet ≤ length (escaped_all packet)
unfolding escaped_all escaped
length-escaped_all [] = omega arith
length-escaped_all (b ∷ packet) = ground (arith, length-escaped_all packet)
