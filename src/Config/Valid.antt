-- ===== src/Config/Valid.antt =====
-- src/config.rs: what holds of the settings of every run, whatever the file and the command line say.
pub mod File
pub mod Sources
use openfortivpn_rs.Common.{
  ℕ, zero, suc, ◌+◌, ◌-◌, ◌*◌, ◌≤◌, ◌<◌, ◌^◌, min, Bool, true, false, ◌&&◌, ◌||◌, not, Option, none,
  some, List, [], ◌∷◌, ◌++◌, map, ltb, leb, ltb→le, lt→ltb, ◌∙◌, ◌==◌, ◌!=◌, if◌then◌else◌, length,
  All, ◌≡◌, refl, sym, ap, subst, Bool-cases, inl, inr, arith,
}
use openfortivpn_rs.Common.Error.{
  Result, ok, err, ◌>>=◌, ◌>>◌, refuse_if, ok_or, >>=-eq-ok, OpenfortivpnError,
  bad_certificate_digest,
}
use openfortivpn_rs.Common.Text.{is_digit, parse_digits, parse_uint}
use openfortivpn_rs.Config.Parse.{
  all, byte_length, is_ascii_hexdigit, to_ascii_lowercase, parse_port, parse_u32, push_trusted_cert,
}
use openfortivpn_rs.Config.Settings.{Text, Config, default_config, max_log_verbosity}

-- A SHA-256 digest in lower-case hexadecimal: 64 characters.
abbrev pub IsLowerHex : ℕ → Type 0
IsLowerHex c = is_digit c || (leb b'a' c && leb c b'f') ≡ true

abbrev pub IsDigest : Text → Type 0
IsDigest digest = (length digest ≡ 64) × All IsLowerHex digest

-- The fields that a settings record must keep within their types and their meaning.
pub record IsValidOf (port verbosity delay reconnects : ℕ) (certs : List Text) : Type 0 where
  pub port_pos : 1 ≤ port
  pub port_word : port < 2 ^ 16
  pub verbosity_max : verbosity ≤ max_log_verbosity
  pub delay_word : delay < 2 ^ 32
  pub reconnects_word : reconnects < 2 ^ 32
  pub certs_digests : All IsDigest certs

abbrev pub IsValid : Config → Type 0
IsValid cfg =
    IsValidOf (cfg.gateway_port) (cfg.log_verbosity) (cfg.otp_delay) (cfg.max_reconnects)
      (cfg.trusted_certs)

-- The bounds of a parsed number.
parse_digits-le :
    (max acc : ℕ) (cs : Text) (n : ℕ) → acc ≤ max → parse_digits max acc cs ≡ some n → n ≤ max
unfolding parse_digits
parse_digits-le max acc [] n h e = ground arith
parse_digits-le max acc (c ∷ cs) n h e =
    let ih = parse_digits-le max (acc * 10 + (c - b'0')) cs n in ground arith

parse_uint-le : (max : ℕ) (cs : Text) (n : ℕ) → parse_uint max cs ≡ some n → n ≤ max
unfolding parse_uint
parse_uint-le max [] n e = ground arith
parse_uint-le max (c ∷ []) n e = parse_digits-le max 0 (c ∷ []) n (omega arith) e
parse_uint-le max (c ∷ d ∷ cs) n e =
    let a = parse_digits-le max 0 (d ∷ cs) n (omega arith) in
    let b = parse_digits-le max 0 (c ∷ d ∷ cs) n (omega arith) in ground arith

pub parse_port_bounds :
    (key value : Text) (n : ℕ) → parse_port key value ≡ ok n → (1 ≤ n) × (n < 2 ^ 16)
unfolding parse_port
parse_port_bounds key value n e = let bound = parse_uint-le 65535 value n in ground arith

pub parse_u32_lt : (key value : Text) (n : ℕ) → parse_u32 key value ≡ ok n → n < 2 ^ 32
unfolding parse_u32
parse_u32_lt key value n e = let bound = parse_uint-le 4294967295 value n in ground arith

-- A digest that is accepted is stored in lower case.
lower_hex : (c : ℕ) → is_ascii_hexdigit c ≡ true → IsLowerHex (to_ascii_lowercase c)
lower_hex c h = ground arith

ascii : (c : ℕ) → is_ascii_hexdigit c ≡ true → c < 0x80
ascii c h = ground arith

and_left : (a b : Bool) → a && b ≡ true → a ≡ true
and_left true b h = refl
and_left false b h = h

and_right : (a b : Bool) → a && b ≡ true → b ≡ true
and_right true b h = h
and_right false b h = cc

lowered :
    (digest : Text)
    → all is_ascii_hexdigit digest ≡ true
    → All IsLowerHex (map to_ascii_lowercase digest)
lowered [] h = tt
lowered (c ∷ cs) h =
    let first = and_left (is_ascii_hexdigit c) (all is_ascii_hexdigit cs) h in
    let others = and_right (is_ascii_hexdigit c) (all is_ascii_hexdigit cs) h in
    (lower_hex c first, lowered cs others)

-- One byte each.
byte_length-hex :
    (digest : Text)
    → all is_ascii_hexdigit digest ≡ true
    → length (map to_ascii_lowercase digest) ≡ byte_length digest
byte_length-hex [] h = refl
byte_length-hex (c ∷ cs) h =
    let first = and_left (is_ascii_hexdigit c) (all is_ascii_hexdigit cs) h in
    let others = and_right (is_ascii_hexdigit c) (all is_ascii_hexdigit cs) h in
    rw (lt→ltb c 0x80 (ascii c first)) (omega (arith, byte_length-hex cs others))

All-append : {A : Type 0} (P : A → Type 0) (xs ys : List A) → All P xs → All P ys → All P (xs ++ ys)
All-append P [] ys h k = k
All-append P (x ∷ xs) ys h k = (h.0, All-append P xs ys (h.1) k)

pushed :
    (certs : List Text) (digest : Text)
    → All IsDigest certs
    → byte_length digest ≡ 64
    → all is_ascii_hexdigit digest ≡ true
    → All IsDigest (certs ++ map to_ascii_lowercase digest ∷ [])
pushed certs digest h e k =
    All-append IsDigest certs (map to_ascii_lowercase digest ∷ []) h
      ((byte_length-hex digest k ∙ e, lowered digest k), tt)

pub push_trusted_cert-accepts :
    (certs : List Text) (digest : Text) (more : List Text)
    → push_trusted_cert certs digest ≡ ok more
    → (byte_length digest ≡ 64)
      × (all is_ascii_hexdigit digest ≡ true)
      × (certs ++ map to_ascii_lowercase digest ∷ [] ≡ more)
unfolding push_trusted_cert
push_trusted_cert-accepts certs digest more e = elim (Bool-cases (byte_length digest == 64)) [
  | inl a ↦ elim (Bool-cases (all is_ascii_hexdigit digest)) [
    | inl b ↦ (ground arith, b, cc (e, a, b))
    | inr b ↦ absurd (cc (e, a, b))
  ]
  | inr a ↦ absurd (cc (e, a))
]

pub push_trusted_cert-All :
    (certs : List Text) (digest : Text) (more : List Text)
    → All IsDigest certs
    → push_trusted_cert certs digest ≡ ok more
    → All IsDigest more
push_trusted_cert-All certs digest more h e =
    let accepted = push_trusted_cert-accepts certs digest more e in
    subst (All IsDigest) (accepted.2) (pushed certs digest h (accepted.0) (accepted.1))

pub default-IsValid : IsValid default_config
default-IsValid = record {
  port_pos = omega arith;
  port_word = omega arith;
  verbosity_max = omega arith;
  delay_word = omega arith;
  reconnects_word = omega arith;
  certs_digests = tt;
}

-- One field replaced.
module _ {p v d r : ℕ} {c : List Text} where
  pub with_port : IsValidOf p v d r c → (q : ℕ) → (1 ≤ q) × (q < 2 ^ 16) → IsValidOf q v d r c
  with_port h q k = record {
    port_pos = k.0;
    port_word = k.1;
    verbosity_max = h.verbosity_max;
    delay_word = h.delay_word;
    reconnects_word = h.reconnects_word;
    certs_digests = h.certs_digests;
  }

  pub with_verbosity : IsValidOf p v d r c → (q : ℕ) → q ≤ max_log_verbosity → IsValidOf p q d r c
  with_verbosity h q k = record {
    port_pos = h.port_pos;
    port_word = h.port_word;
    verbosity_max = k;
    delay_word = h.delay_word;
    reconnects_word = h.reconnects_word;
    certs_digests = h.certs_digests;
  }

  pub with_delay : IsValidOf p v d r c → (q : ℕ) → q < 2 ^ 32 → IsValidOf p v q r c
  with_delay h q k = record {
    port_pos = h.port_pos;
    port_word = h.port_word;
    verbosity_max = h.verbosity_max;
    delay_word = k;
    reconnects_word = h.reconnects_word;
    certs_digests = h.certs_digests;
  }

  pub with_reconnects : IsValidOf p v d r c → (q : ℕ) → q < 2 ^ 32 → IsValidOf p v d q c
  with_reconnects h q k = record {
    port_pos = h.port_pos;
    port_word = h.port_word;
    verbosity_max = h.verbosity_max;
    delay_word = h.delay_word;
    reconnects_word = k;
    certs_digests = h.certs_digests;
  }

  pub with_certs : IsValidOf p v d r c → (q : List Text) → All IsDigest q → IsValidOf p v d r q
  with_certs h q k = record {
    port_pos = h.port_pos;
    port_word = h.port_word;
    verbosity_max = h.verbosity_max;
    delay_word = h.delay_word;
    reconnects_word = h.reconnects_word;
    certs_digests = k;
  }
