-- ===== src/Pinentry/RoundTrip.antt =====
-- A password through src/pinentry.rs.
use openfortivpn_rs.Common.{
  ℕ, ◌/◌, ◌<◌, bit_and, ◌==◌, true, false, Bool-cases, inl, inr, Option, none, some, List, [], ◌∷◌,
  ◌++◌, ◌≡◌, refl, ap, ◌∙◌, arith, All, ◌≢◌, take,
}
use openfortivpn_rs.Common.Bytes.{Bytes, IsBytes, codes, equal}
use openfortivpn_rs.Common.Error.{ok}
use openfortivpn_rs.Common.Text.{is_utf8}
use openfortivpn_rs.Http.Encode.{is_unreserved, hex, byte_halves, unreserved_plain}
use openfortivpn_rs.Strings.{strip_prefix}
use openfortivpn_rs.Pinentry.{
  keep_unless_end, uri_escape, hex_value, decode_hex_pair, unescape_loop, uri_unescape,
  parse_response, trim_line_end, read_pinentry_response, exchange, read_password,
}

hex_value-hex : (n : ℕ) → n < 16 → hex_value (hex n) ≡ some n
hex_value-hex n h = ground arith

hex_not_percent : (n : ℕ) → n < 16 → (hex n == b'%') ≡ false
hex_not_percent n h = ground arith

plain :
    (c : ℕ) (rest : Bytes) → (c == b'%') ≡ false → unescape_loop (c ∷ rest) ≡ c ∷ unescape_loop rest
unfolding unescape_loop
plain c [] h = refl
plain c (d ∷ []) h = refl
plain c (d ∷ e ∷ cs) h = rw h refl

escaped :
    (high low b : ℕ) (rest : Bytes)
    → (high == b'%') ≡ false
    → decode_hex_pair high low ≡ some b
    → unescape_loop (b'%' ∷ high ∷ low ∷ rest) ≡ b ∷ unescape_loop rest
unfolding unescape_loop
escaped high low b rest h d = rw (h, d) refl

pub unescape_loop-uri_escape :
    (value : Bytes) → IsBytes value → unescape_loop (uri_escape value) ≡ value
unfolding uri_escape
unescape_loop-uri_escape [] h = unfold unescape_loop in refl
unescape_loop-uri_escape (byte ∷ value) h =
    let rest = ap (byte ∷◌) (unescape_loop-uri_escape value h.1) in
    elim (Bool-cases (is_unreserved byte)) [
      | inl e ↦ rw e (plain byte (uri_escape value) (unreserved_plain byte e) ∙ rest)
      | inr e ↦
          let (high, low, whole) = byte_halves byte h.0 in
          rw e (
            escaped (hex (byte / 16)) (hex (bit_and byte 0x0f)) byte (uri_escape value)
              (hex_not_percent (byte / 16) high)
              (rw (hex_value-hex (byte / 16) high, hex_value-hex (bit_and byte 0x0f) low)
                (ap some whole))
            ∙ rest)
    ]

-- A text that is escaped is unescaped to itself.
pub uri_unescape-uri_escape :
    (value : Bytes)
    → IsBytes value
    → is_utf8 value ≡ true
    → uri_unescape (uri_escape value) ≡ ok value
unfolding uri_unescape
uri_unescape-uri_escape value h u = let same = unescape_loop-uri_escape value h in rw (same, u) refl

-- No byte that ends a line.
abbrev NoEnd : Bytes → Type 0
NoEnd = All (λ c. (c ≢ 13) × (c ≢ 10))

trim_line_end_line : (xs : Bytes) → NoEnd xs → trim_line_end (xs ++ 10 ∷ []) ≡ xs
unfolding trim_line_end
trim_line_end_line [] h = refl
trim_line_end_line (c ∷ cs) h =
    rw (trim_line_end, trim_line_end_line cs h.1) (kept c cs h.0.0 h.0.1)
  where
    kept : (c : ℕ) (cs : Bytes) → c ≢ 13 → c ≢ 10 → keep_unless_end c cs ≡ c ∷ cs
    kept c [] a b = ground arith
    kept c (d ∷ cs) a b = refl

unreserved_inside : (c : ℕ) → is_unreserved c ≡ true → (c ≢ 13) × (c ≢ 10)
unreserved_inside c h = (λ e. absurd (ground (arith, e, h)), λ e. absurd (ground (arith, e, h)))

hex_inside : (n : ℕ) → n < 16 → (hex n ≢ 13) × (hex n ≢ 10)
hex_inside n h = (ground arith, ground arith)

uri_escape-NoEnd : (value : Bytes) → IsBytes value → NoEnd (uri_escape value)
unfolding uri_escape
uri_escape-NoEnd [] h = tt
uri_escape-NoEnd (byte ∷ value) h =
    let rest = uri_escape-NoEnd value h.1 in
    elim (Bool-cases (is_unreserved byte)) [
      | inl e ↦ rw e (unreserved_inside byte e, rest)
      | inr e ↦
          let (high, low, _) = byte_halves byte h.0 in
          rw e (
            (omega arith, omega arith),
            (hex_inside (byte / 16) high, (hex_inside (bit_and byte 0x0f) low, rest)),
          )
    ]

parse_data :
    (value answer : Bytes)
    → uri_unescape value ≡ ok answer
    → parse_response (codes "D " ++ value) ≡ ok (some answer)
unfolding parse_response equal strip_prefix
parse_data value answer h = rw h refl

-- One line that the program prints.
responds :
    (line : Bytes) (lines stdin : List Bytes) (body : Bytes) (answer : Option Bytes)
    → trim_line_end line ≡ body
    → parse_response body ≡ ok answer
    → read_pinentry_response (record { stdout = line ∷ lines; stdin = stdin; killed = false })
      ≡ (ok answer, record { stdout = lines; stdin = stdin; killed = false })
unfolding read_pinentry_response
responds line lines stdin body answer t p = rw (read_pinentry_response, t, p) refl

abbrev pub ok_line : Bytes
ok_line = codes "OK" ++ 10 ∷ []

responds_ok :
    (lines stdin : List Bytes)
    → read_pinentry_response (record { stdout = ok_line ∷ lines; stdin = stdin; killed = false })
      ≡ (ok none, record { stdout = lines; stdin = stdin; killed = false })
responds_ok lines stdin =
    responds ok_line lines stdin (codes "OK") none (trim_line_end_line (codes "OK") (ground arith))
      (unfold parse_response equal in refl)

abbrev pub commands : Bytes → Bytes → List Bytes
commands hint prompt =
    (codes "SETTITLE VPN Password" ++ 10 ∷ [])
    ∷ (codes "SETDESC VPN Requires a Password" ++ 10 ∷ [])
    ∷ (codes "SETKEYINFO " ++ (uri_escape hint ++ 10 ∷ []))
    ∷ (codes "SETPROMPT " ++ (uri_escape prompt ++ 10 ∷ []))
    ∷ (codes "GETPIN" ++ 10 ∷ [])
    ∷ []

-- A pinentry program that accepts each command and answers the last with the escaped password makes
-- the password the result, whatever bytes it has, after exactly the five commands; the program is not
-- killed.
pub read_password-uri_escape :
    (hint prompt password : Bytes)
    → IsBytes password
    → is_utf8 password ≡ true
    → let answer = codes "D " ++ (uri_escape password ++ 10 ∷ []) in
      read_password hint prompt true (record {
        stdout = ok_line ∷ ok_line ∷ ok_line ∷ ok_line ∷ ok_line ∷ answer ∷ [];
        stdin = [];
        killed = false;
      })
      ≡ (ok password, record { stdout = []; stdin = commands hint prompt; killed = false })
unfolding read_password exchange
read_password-uri_escape hint prompt password h u =
    let data_line =
      trim_line_end_line (codes "D " ++ uri_escape password)
        ((omega arith, omega arith), ((omega arith, omega arith), uri_escape-NoEnd password h)) in
    let parsed = parse_data (uri_escape password) password (uri_unescape-uri_escape password h u) in
    let answer = codes "D " ++ (uri_escape password ++ 10 ∷ []) in
    let sent = commands hint prompt in
    rw
      (
        responds_ok (ok_line ∷ ok_line ∷ ok_line ∷ ok_line ∷ answer ∷ []) [],
        responds_ok (ok_line ∷ ok_line ∷ ok_line ∷ answer ∷ []) (take 1 sent),
        responds_ok (ok_line ∷ ok_line ∷ answer ∷ []) (take 2 sent),
        responds_ok (ok_line ∷ answer ∷ []) (take 3 sent),
        responds_ok (answer ∷ []) (take 4 sent),
        responds answer [] sent _ (some password) data_line parsed,
      )
      refl
