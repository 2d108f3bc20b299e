-- ===== src/Proxy/Socks5/Refusals.antt =====
-- What src/proxy/socks5.rs refuses, and how.
use openfortivpn_rs.Common.{
  ℕ, true, false, not, [], ◌∷◌, ◌++◌, length, ◌==◌, if◌then◌else◌, ◌≡◌, ◌≢◌, ◌⊎◌, inl, inr, refl,
  sym, ap, ap₂, ◌∙◌, arith,
}
use openfortivpn_rs.Common.Bytes.{Bytes}
use openfortivpn_rs.Common.Error.{Result, err, Message, network, text, num}
use openfortivpn_rs.Proxy.Socks5.{
  version, command_connect, atyp_ipv4, atyp_ipv6, reply_command_not_supported,
  reply_address_type_not_supported, SocksConnectRequest, Conn, Io, ◌>>>◌, return, refuse, next,
  contains, write_error, read_ipv4_connect, read_domain_connect, read_ipv6_connect, by_atyp,
  read_connect_command, read_connect_request,
}
use openfortivpn_rs.Proxy.Socks5.Requests.{
  conn, taken, methods_accepted, other_command, on_header, command_read,
}

abbrev refused_ipv6 : Unit {0} → Io SocksConnectRequest
refused_ipv6 discarded = write_error reply_address_type_not_supported >>> λ written.
    refuse (text "SOCKS5 IPv6 requests are not supported in IPv4-only proxy mode" ∷ [])

-- The reply of a refusal with its code.
abbrev failure_reply : ℕ → Bytes
failure_reply code = version ∷ code ∷ 0 ∷ atyp_ipv4 ∷ 0 ∷ 0 ∷ 0 ∷ 0 ∷ 0 ∷ 0 ∷ []

apart : (m n : ℕ) → m ≢ n → (m == n) ≡ false
apart m n h = ground (arith, h)

abbrev replied : Bytes → Bytes → Message → ℕ → Result SocksConnectRequest × Conn
replied rest writer message code =
    (err (network message), conn rest (writer ++ 5 ∷ code ∷ 0 ∷ 1 ∷ 0 ∷ 0 ∷ 0 ∷ 0 ∷ 0 ∷ 0 ∷ []))

command_refused :
    (command reserved atyp : ℕ) (rest writer : Bytes)
    → command == command_connect ≡ false
    → read_connect_command (conn ((version ∷ command ∷ reserved ∷ atyp ∷ []) ++ rest) writer) ≡ (
      err (network (text "unsupported SOCKS5 command " ∷ num command ∷ [])),
      conn rest (writer ++ failure_reply reply_command_not_supported),
    )
unfolding read_connect_command write_error
command_refused command reserved atyp rest writer h =
    taken 4 (version ∷ command ∷ reserved ∷ atyp ∷ []) rest writer on_header refl
    ∙ ap (λ b. (if not b then other_command command else by_atyp atyp) (conn rest writer)) h

ipv6_refused :
    (reserved : ℕ) (address rest writer : Bytes)
    → length address ≡ 18
    → read_connect_command
        (conn ((version ∷ command_connect ∷ reserved ∷ atyp_ipv6 ∷ []) ++ (address ++ rest)) writer)
      ≡ (
        err (network (text "SOCKS5 IPv6 requests are not supported in IPv4-only proxy mode" ∷ [])),
        conn rest (writer ++ failure_reply reply_address_type_not_supported),
      )
unfolding by_atyp read_ipv6_connect write_error
ipv6_refused reserved address rest writer h =
    command_read reserved atyp_ipv6 (address ++ rest) writer
    ∙ ap (λ r. next r refused_ipv6) (taken 18 address rest writer (λ bytes. return tt) (sym h))

abbrev other_atyp : ℕ → Io SocksConnectRequest
other_atyp atyp = write_error reply_address_type_not_supported >>> λ written.
    refuse (text "unsupported SOCKS5 address type " ∷ num atyp ∷ [])

atyp_refused :
    (reserved atyp : ℕ) (rest writer : Bytes)
    → atyp ≢ 1
    → atyp ≢ 3
    → atyp ≢ 4
    → read_connect_command
        (conn ((version ∷ command_connect ∷ reserved ∷ atyp ∷ []) ++ rest) writer)
      ≡ (
        err (network (text "unsupported SOCKS5 address type " ∷ num atyp ∷ [])),
        conn rest (writer ++ failure_reply reply_address_type_not_supported),
      )
unfolding by_atyp write_error
atyp_refused reserved atyp rest writer h k l =
    command_read reserved atyp rest writer
    ∙ ap (λ b. (if b then read_ipv4_connect else later) (conn rest writer)) (apart atyp 1 h)
    ∙ ap (λ b. (if b then read_domain_connect else last) (conn rest writer)) (apart atyp 3 k)
    ∙ ap (λ b. (if b then read_ipv6_connect else other_atyp atyp) (conn rest writer))
        (apart atyp 4 l)
  where
    last : Io SocksConnectRequest
    last = if atyp == 4 then read_ipv6_connect else other_atyp atyp

    later : Io SocksConnectRequest
    later = if atyp == 3 then read_domain_connect else last

-- What the server refuses behind a header with the version: the command, the address type, what is read of
-- the address, and the code of the reply, as RFC 1928 numbers them.
abbrev pub IsRefused : ℕ → ℕ → Bytes → ℕ → Type 0
IsRefused command atyp address code =
    ((command ≢ 1) × (address ≡ []) × (code ≡ 7))
    ⊎ (((command ≡ 1) × (atyp ≡ 4) × (length address ≡ 18) × (code ≡ 8))
        ⊎ ((command ≡ 1) × (atyp ≢ 1) × (atyp ≢ 3) × (atyp ≢ 4) × (address ≡ []) × (code ≡ 8)))

-- What a refused request comes to.
abbrev IsAnswered : ℕ → Bytes → Bytes → Result SocksConnectRequest × Conn → Type 0
IsAnswered code rest writer outcome =
    (message : Message) × (outcome ≡ (
      err (network message),
      conn rest (writer ++ 5 ∷ code ∷ 0 ∷ 1 ∷ 0 ∷ 0 ∷ 0 ∷ 0 ∷ 0 ∷ 0 ∷ []),
    ))

command-IsAnswered :
    (command reserved atyp code : ℕ) (address rest writer : Bytes)
    → IsRefused command atyp address code
    → IsAnswered code rest writer
        (read_connect_command (conn (5 ∷ command ∷ reserved ∷ atyp ∷ (address ++ rest)) writer))
command-IsAnswered command reserved atyp code address rest writer (inl (h, none, seven)) = (
  _,
  ap (λ a. read_connect_command (conn (5 ∷ command ∷ reserved ∷ atyp ∷ (a ++ rest)) writer)) none
      ∙ command_refused command reserved atyp rest writer (apart command 1 h)
      ∙ ap (replied rest writer _) (sym seven),
)
command-IsAnswered command reserved atyp code address rest writer
      (inr (inl (one, four, long, eight))) =
    (
      _,
      ap₂ (λ c t. read_connect_command (conn (5 ∷ c ∷ reserved ∷ t ∷ (address ++ rest)) writer)) one
            four
          ∙ ipv6_refused reserved address rest writer long
          ∙ ap (replied rest writer _) (sym eight),
    )
command-IsAnswered command reserved atyp code address rest writer
      (inr (inr (one, h, k, l, none, eight))) =
    (
      _,
      ap₂ (λ c a. read_connect_command (conn (5 ∷ c ∷ reserved ∷ atyp ∷ (a ++ rest)) writer)) one
            none
          ∙ atyp_refused reserved atyp rest writer h k l
          ∙ ap (replied rest writer _) (sym eight),
    )

-- A client that offers the method without authentication and then asks for something else than CONNECT to
-- an IPv4 address or a domain: the request is an error, and behind the choice of the method the client is
-- sent one reply, with code 7 for another command and code 8 for another address type. Of an IPv6 address
-- the 18 bytes with its port are read, of another one nothing, and nothing behind the request is consumed.
pub read_connect_request_refused :
    (methods : Bytes) (command reserved atyp code : ℕ) (address rest writer : Bytes)
    → contains 0 methods ≡ true
    → IsRefused command atyp address code
    → (message : Message) × (read_connect_request (
          conn
            ((5 ∷ length methods ∷ methods) ++ (5 ∷ command ∷ reserved ∷ atyp ∷ (address ++ rest)))
            writer)
        ≡ (
          err (network message),
          conn rest ((writer ++ 5 ∷ 0 ∷ []) ++ 5 ∷ code ∷ 0 ∷ 1 ∷ 0 ∷ 0 ∷ 0 ∷ 0 ∷ 0 ∷ 0 ∷ []),
        ))
unfolding read_connect_request
read_connect_request_refused methods command reserved atyp code address rest writer h refused =
    let request = 5 ∷ command ∷ reserved ∷ atyp ∷ (address ++ rest) in
    let (message, e) =
      command-IsAnswered command reserved atyp code address rest (writer ++ 5 ∷ 0 ∷ []) refused in
    (
      message,
      ap (λ r. next r (λ negotiated. read_connect_command))
            (methods_accepted methods request writer h)
          ∙ e,
    )
