-- ===== src/Proxy/Socks5.antt =====
-- src/proxy/socks5.rs: the server's side of a SOCKS5 handshake without authentication, for CONNECT
-- to an IPv4 address or a domain.
pub mod Requests
pub mod Refusals
use openfortivpn_rs.Common.{
  ℕ, ◌+◌, ◌/◌, ◌%◌, Bool, true, false, ◌||◌, Option, none, some, List, [], ◌∷◌, ◌++◌, ◌==◌, ◌!=◌,
  if◌then◌else◌, length,
}
use openfortivpn_rs.Common.Bytes.{Bytes, at, be_u16, from_be_u16}
use openfortivpn_rs.Common.Error.{
  Result, ok, err, ◌>>=◌, OpenfortivpnError, Message, network, text, num,
}
use openfortivpn_rs.Common.Ipv4.{Ipv4Addr, octets, read}
use openfortivpn_rs.Common.Stream.{read_exact}
use openfortivpn_rs.Common.Text.{is_utf8}

abbrev pub version : ℕ
version = 0x05

abbrev pub method_no_auth : ℕ
method_no_auth = 0x00

abbrev pub method_no_acceptable : ℕ
method_no_acceptable = 0xff

abbrev pub command_connect : ℕ
command_connect = 0x01

abbrev pub atyp_ipv4 : ℕ
atyp_ipv4 = 0x01

abbrev pub atyp_domain : ℕ
atyp_domain = 0x03

abbrev pub atyp_ipv6 : ℕ
atyp_ipv6 = 0x04

abbrev reply_succeeded : ℕ
reply_succeeded = 0x00

abbrev pub reply_command_not_supported : ℕ
reply_command_not_supported = 0x07

abbrev pub reply_address_type_not_supported : ℕ
reply_address_type_not_supported = 0x08

pub data SocksTarget : Type 0 where
  ipv4 : Ipv4Addr → SocksTarget
  domain : Bytes → SocksTarget

pub record SocksConnectRequest : Type 0 where
  pub target : SocksTarget
  pub port : ℕ

-- The two ends of the client's connection: what it still sends, and what was written to it.
pub record Conn : Type 0 where
  pub reader : Bytes
  pub writer : Bytes

-- Code that reads and writes: its result, and the connection it leaves. What was written before an
-- error stays written.
abbrev pub Io : Type 0 → Type 0
Io A = Conn → Result A × Conn

abbrev pub next : {A B : Type 0} → Result A × Conn → (A → Io B) → Result B × Conn
next (ok a, left) f = f a left
next (err e, left) f = (err e, left)

infixl 5 ◌>>>◌
abbrev pub ◌>>>◌ : {A B : Type 0} → Io A → (A → Io B) → Io B
(m >>> f) conn = next (m conn) f

abbrev pub return : {A : Type 0} → A → Io A
return a conn = (ok a, conn)

abbrev pub refuse : {A : Type 0} → Message → Io A
refuse message conn = (err (network message), conn)

-- A reader that has too little left may have been read to its end.
abbrev pub took : Result (Bytes × Bytes) → Bytes → Result Bytes × Conn
took (ok (bytes, rest)) writer = (ok bytes, record { reader = rest; writer = writer })
took (err e) writer = (err e, record { reader = []; writer = writer })

abbrev pub take_exact : ℕ → Io Bytes
take_exact n conn = took (read_exact n (conn.reader)) (conn.writer)

abbrev pub write_all : Bytes → Io (Unit {0})
write_all bytes conn = (ok tt, record { reader = conn.reader; writer = conn.writer ++ bytes })

unfoldable pub contains : ℕ → Bytes → Bool
contains x [] = false
contains x (b ∷ bs) = b == x || contains x bs

unfoldable pub write_success : Ipv4Addr → ℕ → Io (Unit {0})
write_success bound port =
    write_all ((version ∷ reply_succeeded ∷ 0x00 ∷ atyp_ipv4 ∷ []) ++ (octets bound ++ be_u16 port))

unfoldable pub write_error : ℕ → Io (Unit {0})
write_error reply = write_all (version ∷ reply ∷ 0x00 ∷ atyp_ipv4 ∷ 0 ∷ 0 ∷ 0 ∷ 0 ∷ 0 ∷ 0 ∷ [])

abbrev pub write_failure : ℕ → Io (Unit {0})
write_failure reply = write_error reply

abbrev pub discard_bytes : ℕ → Io (Unit {0})
discard_bytes len = take_exact len >>> λ bytes. return tt

unfoldable pub negotiate_no_auth : Io (Unit {0})
negotiate_no_auth = take_exact 2 >>> λ header.
    if at header 0 != version
    then refuse (text "unsupported SOCKS version " ∷ num (at header 0) ∷ [])
    else take_exact (at header 1) >>> λ methods.
        if contains method_no_auth methods
        then write_all (version ∷ method_no_auth ∷ [])
        else write_all (version ∷ method_no_acceptable ∷ []) >>> λ written.
            refuse (text "SOCKS5 client did not offer no-auth method" ∷ [])

unfoldable pub read_ipv4_connect : Io SocksConnectRequest
read_ipv4_connect = take_exact 6 >>> λ tail.
    return (record { target = ipv4 (read tail 0); port = from_be_u16 (at tail 4) (at tail 5) })

unfoldable pub read_domain_connect : Io SocksConnectRequest
read_domain_connect = take_exact 1 >>> λ len. take_exact (at len 0) >>> λ name.
    take_exact 2 >>> λ port.
    if is_utf8 name
    then return (record { target = domain name; port = from_be_u16 (at port 0) (at port 1) })
    else refuse (text "SOCKS5 domain target is not valid UTF-8" ∷ [])

unfoldable pub read_ipv6_connect : Io SocksConnectRequest
read_ipv6_connect = discard_bytes 18 >>> λ discarded.
    write_error reply_address_type_not_supported >>> λ written.
    refuse (text "SOCKS5 IPv6 requests are not supported in IPv4-only proxy mode" ∷ [])

-- The match on the address type.
unfoldable pub by_atyp : ℕ → Io SocksConnectRequest
by_atyp atyp =
    if atyp == atyp_ipv4
    then read_ipv4_connect
    else if atyp == atyp_domain
    then read_domain_connect
    else if atyp == atyp_ipv6
    then read_ipv6_connect
    else write_error reply_address_type_not_supported >>> λ written.
        refuse (text "unsupported SOCKS5 address type " ∷ num atyp ∷ [])

unfoldable pub read_connect_command : Io SocksConnectRequest
read_connect_command = take_exact 4 >>> λ header.
    if at header 0 != version
    then refuse (text "unsupported SOCKS request version " ∷ num (at header 0) ∷ [])
    else if at header 1 != command_connect
    then (write_error reply_command_not_supported >>> λ written.
        refuse (text "unsupported SOCKS5 command " ∷ num (at header 1) ∷ []))
    else by_atyp (at header 3)

unfoldable pub read_connect_request : Io SocksConnectRequest
read_connect_request = negotiate_no_auth >>> λ negotiated. read_connect_command
