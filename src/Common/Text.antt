-- ===== src/Common/Text.antt =====
-- The functions of `str` that the program calls, on the bytes or the code points of a text.
use Prim.Native.Nat.{ℕ, ◌+◌, ◌-◌, ◌*◌}
use mathlib.Core.Bool.{Bool, true, false, ◌&&◌, ◌||◌}
use mathlib.Core.List.{List, [], ◌∷◌}
use mathlib.Core.Option.{Option, none, some}
use openfortivpn_rs.Common.Tests.{ltb, leb, ◌==◌, if◌then◌else◌}
use openfortivpn_rs.Common.Bytes.{Bytes}

abbrev pub extend_first : ℕ → List Bytes → List Bytes
extend_first b [] = (b ∷ []) ∷ []
extend_first b (part ∷ parts) = (b ∷ part) ∷ parts

-- `str::split`, by one separator: always at least one part.
unfoldable pub split : ℕ → Bytes → List Bytes
split sep [] = [] ∷ []
split sep (b ∷ bs) = if b == sep then [] ∷ split sep bs else extend_first b (split sep bs)

abbrev keep_unless : ℕ → ℕ → Bytes → Bytes
keep_unless sep b [] = if b == sep then [] else b ∷ []
keep_unless sep b (c ∷ rest) = b ∷ c ∷ rest

-- `str::trim_end_matches`, for one character.
unfoldable pub trim_end_matches : ℕ → Bytes → Bytes
trim_end_matches sep [] = []
trim_end_matches sep (b ∷ bs) = keep_unless sep b (trim_end_matches sep bs)

-- `str::is_empty`, `Vec::is_empty`
abbrev pub is_empty {ℓ} : {A : Type ℓ} → List A → Bool
is_empty [] = true
is_empty (x ∷ xs) = false

abbrev pub is_digit : ℕ → Bool
is_digit c = leb b'0' c && leb c b'9'

unfoldable pub parse_digits : ℕ → ℕ → Bytes → Option ℕ
parse_digits max acc [] = some acc
parse_digits max acc (c ∷ cs) =
    let value = acc * 10 + (c - b'0') in
    let rest = parse_digits max value cs in if is_digit c && leb value max then rest else none

-- `str::parse` into an unsigned integer of at most `max`: an optional `+`, then one digit or more.
unfoldable pub parse_uint : ℕ → Bytes → Option ℕ
parse_uint max [] = none
parse_uint max (c ∷ []) = parse_digits max 0 (c ∷ [])
parse_uint max (c ∷ d ∷ cs) =
    if c == b'+' then parse_digits max 0 (d ∷ cs) else parse_digits max 0 (c ∷ d ∷ cs)

abbrev is_tail : ℕ → Bool
is_tail c = leb 0x80 c && leb c 0xbf

abbrev between : ℕ → ℕ → ℕ → Bool
between lo hi c = leb lo c && leb c hi

-- The second byte that may follow a first byte of three or four.
abbrev second_of_three : ℕ → ℕ → Bool
second_of_three a b =
    (a == 0xe0 && between 0xa0 0xbf b)
    || (a == 0xed && between 0x80 0x9f b)
    || ((between 0xe1 0xec a || between 0xee 0xef a) && is_tail b)

abbrev second_of_four : ℕ → ℕ → Bool
second_of_four a b =
    (a == 0xf0 && between 0x90 0xbf b)
    || (between 0xf1 0xf3 a && is_tail b)
    || (a == 0xf4 && between 0x80 0x8f b)

-- Whether `from_utf8` accepts the bytes.
unfoldable pub is_utf8 : Bytes → Bool
is_utf8 [] = true
is_utf8 (a ∷ []) = ltb a 0x80
is_utf8 (a ∷ b ∷ []) = (ltb a 0x80 && is_utf8 (b ∷ [])) || (between 0xc2 0xdf a && is_tail b)
is_utf8 (a ∷ b ∷ c ∷ []) =
    (ltb a 0x80 && is_utf8 (b ∷ c ∷ []))
    || (between 0xc2 0xdf a && is_tail b && is_utf8 (c ∷ []))
    || (second_of_three a b && is_tail c)
is_utf8 (a ∷ b ∷ c ∷ d ∷ rest) =
    let one = is_utf8 (b ∷ c ∷ d ∷ rest) in
    let two = is_utf8 (c ∷ d ∷ rest) in
    let three = is_utf8 (d ∷ rest) in
    let four = is_utf8 rest in
    if ltb a 0x80
    then one
    else if between 0xc2 0xdf a && is_tail b
    then two
    else if second_of_three a b && is_tail c
    then three
    else if second_of_four a b && is_tail c && is_tail d
    then four
    else false
