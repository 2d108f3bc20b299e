-- ===== src/Http/Cookies.antt =====
-- src/http.rs: the cookies of a response.
use openfortivpn_rs.Common.{
  ℕ, Bool, true, false, ◌&&◌, ◌||◌, Option, none, some, List, [], ◌∷◌, ltb, ◌==◌, if◌then◌else◌,
  drop,
}
use openfortivpn_rs.Common.Bytes.{codes}
use openfortivpn_rs.Common.Text.{split}
use openfortivpn_rs.Config.Settings.{Text, sha256_digest_hex_len}
use openfortivpn_rs.Config.Parse.{trim, split_once, byte_length, all, is_ascii_hexdigit}
use openfortivpn_rs.Strings.{find, join_with}
use openfortivpn_rs.Http.{HttpResponse, header_values}

abbrev pub cookie_size : ℕ
cookie_size = 4096

abbrev full_pair : Option (Text × Text) → Bool
full_pair none = false
full_pair (some ([], value)) = false
full_pair (some (n ∷ ns, [])) = false
full_pair (some (n ∷ ns, v ∷ vs)) = true

unfoldable pub valid_cookie_pair : Text → Option Text
valid_cookie_pair cookie =
    if full_pair (split_once b'=' cookie)
    then (if ltb cookie_size (byte_length cookie) then none else some cookie)
    else none

-- Up to the first `\r`, `\n` or `;`.
unfoldable pub cookie_prefix : Text → Text
cookie_prefix [] = []
cookie_prefix (c ∷ cs) =
    let rest = cookie_prefix cs in if c == 13 || (c == 10 || c == b';') then [] else c ∷ rest

unfoldable pub extract_svpn_cookie_from_header : Text → Option Text
extract_svpn_cookie_from_header line = elim (find line (codes "SVPNCOOKIE=")) [
  | none ↦ none
  | some start ↦ valid_cookie_pair (cookie_prefix (drop start line))
]

abbrev before : Option (Text × Text) → Text → Text
before none line = line
before (some (cookie, rest)) line = cookie

unfoldable pub extract_cookie_pair_from_set_cookie_header : Text → Option Text
extract_cookie_pair_from_set_cookie_header line =
    valid_cookie_pair (trim (before (split_once b';' line) line))

abbrev pair_name : Option (Text × Text) → Option Text
pair_name none = none
pair_name (some ([], value)) = none
pair_name (some (n ∷ ns, [])) = none
pair_name (some (n ∷ ns, v ∷ vs)) = some (n ∷ ns)

unfoldable pub cookie_name_from_set_cookie_header : Text → Option Text
cookie_name_from_set_cookie_header line =
    pair_name (split_once b'=' (trim (before (split_once b';' line) line)))

unfoldable pub filter_map : (Text → Option Text) → List Text → List Text
filter_map f [] = []
filter_map f (line ∷ rest) = elim (f line) [
  | none ↦ filter_map f rest
  | some value ↦ value ∷ filter_map f rest
]

abbrev pub cookie_names_from_cookie_header : Text → List Text
cookie_names_from_cookie_header line =
    filter_map (λ cookie. pair_name (split_once b'=' (trim cookie))) (split b';' line)

unfoldable pub find_map : (Text → Option Text) → List Text → Option Text
find_map f [] = none
find_map f (line ∷ rest) = elim (f line) [ none ↦ find_map f rest | some value ↦ some value ]

abbrev pub svpn_cookie : HttpResponse → Option Text
svpn_cookie response =
    find_map extract_svpn_cookie_from_header (header_values (response.headers) (codes "Set-Cookie"))

abbrev joined : List Text → Option Text
joined [] = none
joined (cookie ∷ cookies) = some (join_with (codes "; ") (cookie ∷ cookies))

abbrev pub cookie_header : HttpResponse → Option Text
cookie_header response = joined (
    filter_map extract_cookie_pair_from_set_cookie_header
      (header_values (response.headers) (codes "Set-Cookie")))

abbrev pub set_cookie_names : HttpResponse → List Text
set_cookie_names response =
    filter_map cookie_name_from_set_cookie_header
      (header_values (response.headers) (codes "Set-Cookie"))

abbrev pub is_sha256_hex_digest : Text → Bool
is_sha256_hex_digest value =
    byte_length value == sha256_digest_hex_len && all is_ascii_hexdigit value
