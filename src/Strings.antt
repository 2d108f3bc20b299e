-- ===== src/Strings.antt =====
-- Functions of `str` that src/net_apply.rs, src/http.rs and src/auth/ call, on the code points of a text.
use openfortivpn_rs.Common.{
  ℕ, ◌+◌, Bool, ◌&&◌, ◌||◌, Option, none, some, List, [], ◌∷◌, ◌++◌, map, leb, ◌==◌, if◌then◌else◌,
}
use openfortivpn_rs.Common.Bytes.{equal}
use openfortivpn_rs.Common.Text.{extend_first, is_empty, is_digit}
use openfortivpn_rs.Config.Settings.{Text}
use openfortivpn_rs.Config.Parse.{is_whitespace, starts_with, to_ascii_lowercase}

-- `str::contains`, for a text.
unfoldable pub contains : Text → Text → Bool
contains [] needle = is_empty needle
contains (c ∷ cs) needle = starts_with (c ∷ cs) needle || contains cs needle

-- `str::find`, for a text: the place of the first occurrence.
unfoldable pub find : Text → Text → Option ℕ
find [] needle = if is_empty needle then some 0 else none
find (c ∷ cs) needle =
    let rest = find cs needle in
    if starts_with (c ∷ cs) needle
    then some 0
    else elim rest [ none ↦ none | some i ↦ some (i + 1) ]

unfoldable pub strip_prefix : Text → Text → Option Text
strip_prefix value [] = some value
strip_prefix [] (p ∷ ps) = none
strip_prefix (c ∷ cs) (p ∷ ps) = let rest = strip_prefix cs ps in if c == p then rest else none

unfoldable pub ends_with : Text → Text → Bool
ends_with [] needle = is_empty needle
ends_with (c ∷ cs) needle = equal (c ∷ cs) needle || ends_with cs needle

abbrev non_empty : List Text → List Text
non_empty [] = []
non_empty ([] ∷ rest) = rest
non_empty ((c ∷ cs) ∷ rest) = (c ∷ cs) ∷ rest

-- The part under way stands first, and may be empty.
unfoldable pub whitespace_parts : Text → List Text
whitespace_parts [] = [] ∷ []
whitespace_parts (c ∷ cs) =
    let rest = whitespace_parts cs in
    if is_whitespace c then [] ∷ non_empty rest else extend_first c rest

-- `str::split_whitespace`
abbrev pub split_whitespace : Text → List Text
split_whitespace value = non_empty (whitespace_parts value)

-- `str::replace`, of one character by a text.
unfoldable pub replace_char : ℕ → Text → Text → Text
replace_char from to [] = []
replace_char from to (c ∷ cs) =
    let rest = replace_char from to cs in if c == from then to ++ rest else c ∷ rest

-- `slice::join`
unfoldable pub join_with : Text → List Text → Text
join_with sep [] = []
join_with sep (part ∷ []) = part
join_with sep (part ∷ next ∷ parts) = part ++ (sep ++ join_with sep (next ∷ parts))

-- `eq_ignore_ascii_case`
abbrev pub same_ignoring_case : Text → Text → Bool
same_ignoring_case a b = equal (map to_ascii_lowercase a) (map to_ascii_lowercase b)

abbrev pub is_ascii_alphanumeric : ℕ → Bool
is_ascii_alphanumeric c = is_digit c || (leb b'a' c && leb c b'z') || (leb b'A' c && leb c b'Z')
