-- ===== src/Config/Parse.antt =====
-- src/config.rs: the readings of a value, and the pieces of `str` they use on characters.
use openfortivpn_rs.Common.{
  ℕ, ◌+◌, ◌-◌, min, Bool, true, false, ◌&&◌, ◌||◌, not, Option, none, some, List, [], ◌∷◌, ◌++◌,
  map, ltb, leb, ◌==◌, ◌!=◌, if◌then◌else◌,
}
use openfortivpn_rs.Common.Bytes.{codes, equal}
use openfortivpn_rs.Common.Error.{
  Result, ok, err, ◌>>=◌, ◌>>◌, refuse_if, ok_or, bad_boolean, bad_integer, bad_port,
  bad_tls_version, bad_certificate_digest, network, text, str,
}
use openfortivpn_rs.Common.Text.{extend_first, is_digit, is_empty, parse_uint}
use openfortivpn_rs.Config.Settings.{
  Text, SocketAddr, TlsVersion, tls10, tls11, tls12, tls13, default_log_verbosity,
  max_log_verbosity, sha256_digest_hex_len,
}

-- `char::is_whitespace`
abbrev pub is_whitespace : ℕ → Bool
is_whitespace c =
    (leb 9 c && leb c 13)
    || c == 32
    || c == 0x85
    || c == 0xa0
    || c == 0x1680
    || (leb 0x2000 c && leb c 0x200a)
    || c == 0x2028
    || c == 0x2029
    || c == 0x202f
    || c == 0x205f
    || c == 0x3000

unfoldable pub trim_start : Text → Text
trim_start [] = []
trim_start (c ∷ cs) = let rest = trim_start cs in if is_whitespace c then rest else c ∷ cs

abbrev keep_unless_space : ℕ → Text → Text
keep_unless_space c [] = if is_whitespace c then [] else c ∷ []
keep_unless_space c (d ∷ rest) = c ∷ d ∷ rest

unfoldable pub trim_end : Text → Text
trim_end [] = []
trim_end (c ∷ cs) = keep_unless_space c (trim_end cs)

abbrev pub trim : Text → Text
trim value = trim_end (trim_start value)

-- `str::lines`: a `\r` is taken off only before the `\n` that ends its line.
unfoldable pub lines : Text → List Text
lines [] = []
lines (c ∷ []) = if c == 10 then [] ∷ [] else (c ∷ []) ∷ []
lines (c ∷ d ∷ cs) =
    let rest = lines (d ∷ cs) in
    if c == 10 then [] ∷ rest else if c == 13 && d == 10 then rest else extend_first c rest

-- `str::split_once` and `str::rsplit_once`, by one character.
unfoldable pub split_once : ℕ → Text → Option (Text × Text)
split_once sep [] = none
split_once sep (c ∷ cs) =
    let rest = split_once sep cs in
    if c == sep then some ([], cs) else elim rest [ some p ↦ some (c ∷ p.0, p.1) | none ↦ none ]

unfoldable pub rsplit_once : ℕ → Text → Option (Text × Text)
rsplit_once sep [] = none
rsplit_once sep (c ∷ cs) = elim (rsplit_once sep cs) [
  | some p ↦ some (c ∷ p.0, p.1)
  | none ↦ if c == sep then some ([], cs) else none
]

-- `str::starts_with`, for a text.
unfoldable pub starts_with : Text → Text → Bool
starts_with value [] = true
starts_with [] (p ∷ ps) = false
starts_with (c ∷ cs) (p ∷ ps) = c == p && starts_with cs ps

abbrev pub all : (ℕ → Bool) → Text → Bool
all test [] = true
all test (c ∷ cs) = test c && all test cs

-- `str::len`, of the UTF-8 form.
abbrev len_utf8 : ℕ → ℕ
len_utf8 c = if ltb c 0x80 then 1 else if ltb c 0x800 then 2 else if ltb c 0x10000 then 3 else 4

abbrev pub byte_length : Text → ℕ
byte_length [] = 0
byte_length (c ∷ cs) = len_utf8 c + byte_length cs

abbrev pub is_ascii_hexdigit : ℕ → Bool
is_ascii_hexdigit c = is_digit c || (leb b'a' c && leb c b'f') || (leb b'A' c && leb c b'F')

abbrev pub to_ascii_lowercase : ℕ → ℕ
to_ascii_lowercase c = if leb b'A' c && leb c b'Z' then c + 32 else c

-- `eq_ignore_ascii_case`, against a text of lower-case letters.
abbrev pub eq_ignore_ascii_case : Text → Text → Bool
eq_ignore_ascii_case value lower = equal (map to_ascii_lowercase value) lower

unfoldable pub push_trusted_cert : List Text → Text → Result (List Text)
push_trusted_cert trusted_certs digest =
    if byte_length digest != sha256_digest_hex_len || not (all is_ascii_hexdigit digest)
    then err (bad_certificate_digest digest)
    else ok (trusted_certs ++ map to_ascii_lowercase digest ∷ [])

unfoldable pub svpn_cookie_with_prefix : Text → Text
svpn_cookie_with_prefix value =
    if starts_with value (codes "SVPNCOOKIE=") then value else codes "SVPNCOOKIE=" ++ value

-- The sum is at most 3 + 255, which an `i16` holds; the `-` that stops at 0 is the lower clamp.
unfoldable pub cli_log_verbosity : ℕ → ℕ → ℕ
cli_log_verbosity verbose quiet = min (default_log_verbosity + verbose - quiet) max_log_verbosity

abbrev bool_of_number : Text → Option ℕ → Result Bool
bool_of_number value (some n) =
    if n == 0 then ok false else if n == 1 then ok true else err (bad_boolean value)
bool_of_number value none = err (bad_boolean value)

unfoldable pub parse_bool : Text → Result Bool
parse_bool value =
    if is_empty value
    then ok false
    else if eq_ignore_ascii_case value (codes "true")
    then ok true
    else if eq_ignore_ascii_case value (codes "false")
    then ok false
    else bool_of_number value (parse_uint 255 value)

-- The reading of a socket address is the caller's parameter.
unfoldable pub parse_socket_addr : (Text → Option SocketAddr) → Text → Text → Result SocketAddr
parse_socket_addr parse key value =
    ok_or (parse value)
      (network (text "bad socket address for " ∷ str key ∷ text ": " ∷ str value ∷ []))

unfoldable pub parse_port : Text → Text → Result ℕ
parse_port key value = do
  port ← ok_or (parse_uint 65535 value) (bad_port key value)
  refuse_if (port == 0) (bad_port key value)
  ok port

unfoldable pub parse_u32 : Text → Text → Result ℕ
parse_u32 key value = ok_or (parse_uint 4294967295 value) (bad_integer key value)

unfoldable pub parse_tls_version : Text → Result TlsVersion
parse_tls_version value =
    if equal value (codes "1.0")
    then ok tls10
    else if equal value (codes "1.1")
    then ok tls11
    else if equal value (codes "1.2")
    then ok tls12
    else if equal value (codes "1.3")
    then ok tls13
    else err (bad_tls_version value)

-- A gateway that was split at its last `:`, where what follows may be a port.
abbrev pub gateway_of : Text → Option (Text × Text) → Result (Text × Option ℕ)
gateway_of value none = ok (value, none)
gateway_of value (some (host, port)) =
    if not (is_empty host) && not (is_empty port) && all is_digit port
    then (parse_port (codes "gateway") port >>= λ p. ok (host, some p))
    else ok (value, none)

unfoldable pub parse_gateway : Text → Result (Text × Option ℕ)
parse_gateway value = gateway_of value (rsplit_once b':' value)
