-- ===== src/Tunnel/PppEngine/Parse/Options.antt =====
-- The options loop of src/tunnel/ppp_engine.rs against a list of options, and against the copy of the
-- loop in src/tunnel/packet.rs.
use openfortivpn_rs.Common.{
  ℕ, zero, suc, ◌+◌, ◌≤◌, ◌<◌, ◌&&◌, List, [], ◌∷◌, ◌++◌, append_assoc, Option, none, some, ◌≡◌,
  ◌≢◌, arith, ◌==◌, if◌then◌else◌, length, length-append, get_or-append, get_or-prefix, ◌∙◌, sym,
  ap, ap₂,
}
use openfortivpn_rs.Common.Bytes.{Bytes, at}
use openfortivpn_rs.Common.Ipv4.{Ipv4Addr, read}
use openfortivpn_rs.Tunnel.PppEngine.Parse.{options_loop, parse_ipcp_ip_address}

pub record IpcpOption : Type 0 where
  pub kind : ℕ
  pub body : Bytes

unfoldable pub encode_options : List IpcpOption → Bytes
encode_options [] = []
encode_options (o ∷ os) = o.kind ∷ (length o.body + 2) ∷ (o.body ++ encode_options os)

-- The first option that holds an address.
unfoldable pub first_address : List IpcpOption → Option Ipv4Addr
first_address [] = none
first_address (o ∷ os) =
    if o.kind == 3 && length o.body == 4 then some (read o.body 0) else first_address os

-- One round, from what the loop reads.
option_step :
    (fuel offset kind len : ℕ) (options : Bytes)
    → at options offset ≡ kind
    → at options (offset + 1) ≡ len
    → 2 ≤ len
    → offset + len ≤ length options
    → options_loop (suc fuel) options offset ≡ (
        if kind == 3 && len == 6
        then some (some (read options (offset + 2)))
        else options_loop fuel options (offset + len))
unfolding options_loop
option_step fuel offset kind len options a b two fits = rw (a, b) (ground arith)

read-append :
    (before body rest : Bytes) (k l : ℕ)
    → length body ≡ 4
    → read (before ++ (k ∷ l ∷ (body ++ rest))) (length before + 2) ≡ read body 0
read-append before body rest k l four = cc (
  byte 0 (length before + 2) (omega arith) (omega arith),
  byte 1 (length before + 2 + 1) (omega arith) (omega arith),
  byte 2 (length before + 2 + 2) (omega arith) (omega arith),
  byte 3 (length before + 2 + 3) (omega arith) (omega arith),
)
  where
    byte :
        (j i : ℕ)
        → i ≡ length before + suc (suc j)
        → j < length body
        → at (before ++ (k ∷ l ∷ (body ++ rest))) i ≡ at body j
    byte j i e h =
        ap (at (before ++ (k ∷ l ∷ (body ++ rest)))) e
        ∙ get_or-append 0 before (k ∷ l ∷ (body ++ rest)) (suc (suc j))
        ∙ get_or-prefix 0 body rest j h

abbrev behind : Bytes → IpcpOption → Bytes → Bytes
behind before o rest = before ++ (o.kind ∷ (length o.body + 2) ∷ (o.body ++ rest))

-- The loop at the start of an option that stands whole behind `before`.
option_round :
    (fuel : ℕ) (before : Bytes) (o : IpcpOption) (rest : Bytes)
    → options_loop (suc fuel) (behind before o rest) (length before) ≡ (
        if o.kind == 3 && length o.body == 4
        then some (some (read o.body 0))
        else options_loop fuel (behind before o rest) (length before + (length o.body + 2)))
option_round fuel before o rest =
    option_step fuel (length before) o.kind (length o.body + 2) (behind before o rest)
      (ap (at (behind before o rest)) (omega arith)
        ∙ get_or-append 0 before (o.kind ∷ (length o.body + 2) ∷ (o.body ++ rest)) 0)
      (get_or-append 0 before (o.kind ∷ (length o.body + 2) ∷ (o.body ++ rest)) 1) (omega arith)
      (omega (
        arith,
        length-append before (o.kind ∷ (length o.body + 2) ∷ (o.body ++ rest)),
        length-append o.body rest,
      ))
    ∙ ground (arith, read-append before o.body rest o.kind (length o.body + 2))

-- Less than two bytes left end the loop.
options_loop_end :
    (fuel offset : ℕ) (options : Bytes)
    → length options < offset + 2
    → options_loop (suc fuel) options offset ≡ some none
unfolding options_loop
options_loop_end fuel offset options h = ground arith

-- The rest of the options, from the end of the first.
next_option :
    (fuel : ℕ) (before : Bytes) (o : IpcpOption) (rest : Bytes)
    → let before' = before ++ (o.kind ∷ (length o.body + 2) ∷ o.body) in
      options_loop fuel (behind before o rest) (length before + (length o.body + 2))
      ≡ options_loop fuel (before' ++ rest) (length before')
next_option fuel before o rest =
    ap₂ (options_loop fuel) (sym (append_assoc before _ rest))
      (omega (arith, length-append before (o.kind ∷ (length o.body + 2) ∷ o.body)))

options_loop-encode_options :
    (os : List IpcpOption) (fuel : ℕ) (before : Bytes)
    → length (encode_options os) < fuel
    → options_loop fuel (before ++ encode_options os) (length before) ≡ some (first_address os)
unfolding encode_options first_address
options_loop-encode_options os zero before h = elim h [ ]
options_loop-encode_options [] (suc fuel) before h =
    options_loop_end fuel (length before) (before ++ []) (omega (arith, length-append before []))
options_loop-encode_options (o ∷ os) (suc fuel) before h =
    option_round fuel before o (encode_options os)
    ∙ ground (
      arith,
      next_option fuel before o (encode_options os),
      options_loop-encode_options os fuel (before ++ (o.kind ∷ (length o.body + 2) ∷ o.body))
          (omega (arith, length-append o.body (encode_options os))),
    )

-- Every list of options is read back: the parser returns the address of the first option of kind 3 with
-- four bytes, and nothing if there is none.
pub parse-encode_options :
    (os : List IpcpOption) → parse_ipcp_ip_address (encode_options os) ≡ first_address os
unfolding parse_ipcp_ip_address
parse-encode_options os = rw (
  options_loop-encode_options os (suc (length (encode_options os))) [] (omega arith),
  parse_ipcp_ip_address,
)

-- Enough fuel for a search from `offset` is one more than the bytes behind it, whatever they hold.
pub options_loop_total :
    (fuel offset : ℕ) (options : Bytes)
    → offset ≤ length options
    → length options < fuel + offset
    → options_loop fuel options offset ≢ none
unfolding options_loop
options_loop_total zero offset options p h = absurd (omega arith)
options_loop_total (suc fuel) offset options p h =
    ground (arith, options_loop_total fuel (offset + at options (offset + 1)) options)
