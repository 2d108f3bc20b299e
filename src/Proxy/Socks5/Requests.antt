-- ===== src/Proxy/Socks5/Requests.antt =====
-- What a client sends to src/proxy/socks5.rs, and what it is answered.
use openfortivpn_rs.Common.{
  ℕ, ◌+◌, ◌*◌, ◌/◌, ◌%◌, true, false, [], ◌∷◌, ◌++◌, append_assoc, length, ◌!=◌, if◌then◌else◌, ◌≡◌,
  refl, ap, ◌∙◌, arith,
}
use openfortivpn_rs.Common.Bytes.{Bytes, be_u16, from_be_u16, at}
use openfortivpn_rs.Common.Error.{ok, err, network, text, num}
use openfortivpn_rs.Common.Ipv4.{Ipv4Addr, octets, read}
use openfortivpn_rs.Common.Stream.{read_exact-append}
use openfortivpn_rs.Common.Text.{is_utf8}
use openfortivpn_rs.Proxy.Socks5.{
  version, method_no_auth, method_no_acceptable, command_connect, atyp_ipv4, atyp_domain,
  reply_command_not_supported, SocksTarget, ipv4, domain, SocksConnectRequest, Conn, Io, ◌>>>◌,
  return, refuse, next, took, take_exact, contains, write_all, write_error, negotiate_no_auth,
  read_ipv4_connect, read_domain_connect, by_atyp, read_connect_command, read_connect_request,
}

abbrev pub conn : Bytes → Bytes → Conn
conn reader writer = record { reader = reader; writer = writer }

-- The greeting with its methods, and the request with its address.
abbrev pub greeting : Bytes → Bytes
greeting methods = version ∷ length methods ∷ methods

abbrev pub encode_target : SocksTarget → Bytes
encode_target (ipv4 ip) = atyp_ipv4 ∷ octets ip
encode_target (domain name) = atyp_domain ∷ length name ∷ name

abbrev pub encode_request : SocksConnectRequest → Bytes
encode_request request =
    version ∷ command_connect ∷ 0 ∷ (encode_target (request.target) ++ be_u16 (request.port))

-- A domain that is text, as every `String` is.
abbrev pub IsTarget : SocksTarget → Type 0
IsTarget (ipv4 ip) = Unit
IsTarget (domain name) = is_utf8 name ≡ true

-- A whole piece read.
pub taken :
    {A : Type 0} (n : ℕ) (xs rest writer : Bytes) (k : Bytes → Io A)
    → n ≡ length xs
    → (take_exact n >>> k) (conn (xs ++ rest) writer) ≡ k xs (conn rest writer)
taken n xs rest writer k e = ap (λ r. next (took r writer) k) (read_exact-append n xs rest e)

word : (n : ℕ) → n / 256 * 256 + n % 256 ≡ n
word n = omega arith

abbrev yes : Io (Unit {0})
yes = write_all (version ∷ method_no_auth ∷ [])

abbrev no : Io (Unit {0})
no = write_all (version ∷ method_no_acceptable ∷ []) >>> λ written.
    refuse (text "SOCKS5 client did not offer no-auth method" ∷ [])

abbrev on_methods : Bytes → Io (Unit {0})
on_methods methods = if contains method_no_auth methods then yes else no

pub methods_accepted :
    (methods rest writer : Bytes)
    → contains method_no_auth methods ≡ true
    → negotiate_no_auth (conn (greeting methods ++ rest) writer)
      ≡ (ok tt, conn rest (writer ++ (version ∷ method_no_auth ∷ [])))
unfolding negotiate_no_auth
methods_accepted methods rest writer h =
    taken 2 (version ∷ length methods ∷ []) (methods ++ rest) writer
      (λ header.
        if at header 0 != version
        then refuse (text "unsupported SOCKS version " ∷ num (at header 0) ∷ [])
        else take_exact (at header 1) >>> on_methods)
      refl
    ∙ taken (length methods) methods rest writer on_methods refl
    ∙ ap (λ b. (if b then yes else no) (conn rest writer)) h

pub methods_refused :
    (methods rest writer : Bytes)
    → contains method_no_auth methods ≡ false
    → negotiate_no_auth (conn (greeting methods ++ rest) writer) ≡ (
      err (network (text "SOCKS5 client did not offer no-auth method" ∷ [])),
      conn rest (writer ++ (version ∷ method_no_acceptable ∷ [])),
    )
unfolding negotiate_no_auth
methods_refused methods rest writer h =
    taken 2 (version ∷ length methods ∷ []) (methods ++ rest) writer
      (λ header.
        if at header 0 != version
        then refuse (text "unsupported SOCKS version " ∷ num (at header 0) ∷ [])
        else take_exact (at header 1) >>> on_methods)
      refl
    ∙ taken (length methods) methods rest writer on_methods refl
    ∙ ap (λ b. (if b then yes else no) (conn rest writer)) h

abbrev on_name : Bytes → Bytes → Io SocksConnectRequest
on_name name port =
    if is_utf8 name
    then return (record { target = domain name; port = from_be_u16 (at port 0) (at port 1) })
    else refuse (text "SOCKS5 domain target is not valid UTF-8" ∷ [])

ipv4_read :
    (ip : Ipv4Addr) (port : ℕ) (rest writer : Bytes)
    → read_ipv4_connect (conn ((octets ip ++ be_u16 port) ++ rest) writer)
      ≡ (ok (record { target = ipv4 ip; port = port }), conn rest writer)
unfolding read_ipv4_connect
ipv4_read ip port rest writer =
    taken 6 (octets ip ++ be_u16 port) rest writer
      (λ tail.
        return (record { target = ipv4 (read tail 0); port = from_be_u16 (at tail 4) (at tail 5) }))
      refl
    ∙ ap (λ p. (ok (record { target = ipv4 ip; port = p }), conn rest writer)) (word port)

domain_read :
    (name : Bytes) (port : ℕ) (rest writer : Bytes)
    → is_utf8 name ≡ true
    → read_domain_connect (conn (length name ∷ (name ++ (be_u16 port ++ rest))) writer)
      ≡ (ok (record { target = domain name; port = port }), conn rest writer)
unfolding read_domain_connect
domain_read name port rest writer h =
    taken 1 (length name ∷ []) (name ++ (be_u16 port ++ rest)) writer
      (λ len. take_exact (at len 0) >>> λ n. take_exact 2 >>> on_name n) refl
    ∙ taken (length name) name (be_u16 port ++ rest) writer (λ n. take_exact 2 >>> on_name n) refl
    ∙ taken 2 (be_u16 port) rest writer (on_name name) refl
    ∙ ap
        (λ b.
          (if b
              then return
                  (record { target = domain name; port = from_be_u16 (port / 256) (port % 256) })
              else refuse (text "SOCKS5 domain target is not valid UTF-8" ∷ []))
            (conn rest writer))
        h
    ∙ ap (λ p. (ok (record { target = domain name; port = p }), conn rest writer)) (word port)

abbrev pub other_command : ℕ → Io SocksConnectRequest
other_command command = write_error reply_command_not_supported >>> λ written.
    refuse (text "unsupported SOCKS5 command " ∷ num command ∷ [])

abbrev pub on_header : Bytes → Io SocksConnectRequest
on_header header =
    if at header 0 != version
    then refuse (text "unsupported SOCKS request version " ∷ num (at header 0) ∷ [])
    else if at header 1 != command_connect
    then other_command (at header 1)
    else by_atyp (at header 3)

-- A header with the version and the command CONNECT leads on to its address type.
pub command_read :
    (reserved atyp : ℕ) (rest writer : Bytes)
    → read_connect_command
        (conn ((version ∷ command_connect ∷ reserved ∷ atyp ∷ []) ++ rest) writer)
      ≡ by_atyp atyp (conn rest writer)
unfolding read_connect_command
command_read reserved atyp rest writer =
    taken 4 (version ∷ command_connect ∷ reserved ∷ atyp ∷ []) rest writer on_header refl

target_read :
    (target : SocksTarget) (port : ℕ) (rest writer : Bytes)
    → IsTarget target
    → read_connect_command
        (conn (encode_request (record { target = target; port = port }) ++ rest) writer)
      ≡ (ok (record { target = target; port = port }), conn rest writer)
unfolding by_atyp
target_read (ipv4 ip) port rest writer h =
    command_read 0 atyp_ipv4 ((octets ip ++ be_u16 port) ++ rest) writer
    ∙ ipv4_read ip port rest writer
target_read (domain name) port rest writer h =
    ap
      (λ bytes.
        read_connect_command
          (conn (version ∷ command_connect ∷ 0 ∷ atyp_domain ∷ length name ∷ bytes) writer))
      (append_assoc name (be_u16 port) rest)
    ∙ command_read 0 atyp_domain (length name ∷ (name ++ (be_u16 port ++ rest))) writer
    ∙ domain_read name port rest writer h

-- A client that offers the method without authentication, sends its request, and anything behind
-- it: the request is read back, for an IPv4 address and for a domain that is UTF-8, with any port;
-- nothing behind it is consumed, and the client was sent the choice of that method and nothing
-- else.
pub read_connect_request-encode_request :
    (methods rest writer : Bytes) (request : SocksConnectRequest)
    → contains method_no_auth methods ≡ true
    → IsTarget (request.target)
    → read_connect_request (conn (greeting methods ++ (encode_request request ++ rest)) writer)
      ≡ (ok request, conn rest (writer ++ (version ∷ method_no_auth ∷ [])))
unfolding read_connect_request
read_connect_request-encode_request methods rest writer request h k =
    ap (λ r. next r (λ negotiated. read_connect_command))
      (methods_accepted methods (encode_request request ++ rest) writer h)
    ∙ target_read (request.target) (request.port) rest (writer ++ (version ∷ method_no_auth ∷ [])) k
