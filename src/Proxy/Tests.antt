-- ===== src/Proxy/Tests.antt =====
-- The proxy's theorems at concrete messages.
use openfortivpn_rs.Common.{
  ℕ, ◌≢◌, true, inl, ◌≤◌, ◌<◌, List, [], ◌∷◌, ◌++◌, ◌≡◌, refl, arith, length,
}
use openfortivpn_rs.Common.Bytes.{Bytes, be_u16, codes}
use openfortivpn_rs.Common.Error.{ok, err, Message, network}
use openfortivpn_rs.Proxy.Dns.{skip_name, skip_loop, skip_step, parse_tcp_response}
use openfortivpn_rs.Proxy.Dns.Names.{skip_name_bounds}
use openfortivpn_rs.Proxy.Dns.Answers.{Answer, addresses}
use openfortivpn_rs.Proxy.Dns.Response.{response_message, parse_tcp_response-response_message}
use openfortivpn_rs.Proxy.Socks5.{domain, SocksConnectRequest, contains, read_connect_request}
use openfortivpn_rs.Common.Text.{is_utf8}
use openfortivpn_rs.Proxy.Socks5.Refusals.{read_connect_request_refused}
use openfortivpn_rs.Proxy.Socks5.Requests.{
  conn, greeting, encode_request, read_connect_request-encode_request,
}

abbrev labels : List Bytes
labels = codes "corp" ∷ codes "example" ∷ []

-- A CNAME record and the address behind it.
abbrev answers : List Answer
answers =
    record { rr_type = 5; class = 1; ttl_high = 0; ttl_low = 60; rdata = 0xc0 ∷ 0x0c ∷ [] }
    ∷ record { rr_type = 1; class = 1; ttl_high = 0; ttl_low = 60; rdata = 10 ∷ 0 ∷ 0 ∷ 7 ∷ [] }
    ∷ []

abbrev message : Bytes
message = response_message 0x1234 0x8180 labels answers []

parse_tcp_response-response_message_example :
    parse_tcp_response (be_u16 (length message) ++ (message ++ [])) 0x1234 ≡ ok (addresses answers)
parse_tcp_response-response_message_example =
    parse_tcp_response-response_message 0x1234 0x8180 labels answers [] [] refl refl (ground arith)
      (omega arith)

skipped : skip_name (4 ∷ 99 ∷ 111 ∷ 114 ∷ 112 ∷ 0 ∷ []) 0 ≡ ok 6
unfolding skip_name skip_loop skip_step
skipped = refl

skip_name_bounds_example : (0 < 6) × (6 ≤ 6)
skip_name_bounds_example = skip_name_bounds (4 ∷ 99 ∷ 111 ∷ 114 ∷ 112 ∷ 0 ∷ []) 0 6 skipped

abbrev request : SocksConnectRequest
request = record { target = domain (codes "corp.example"); port = 443 }

read_connect_request-encode_request_example :
    read_connect_request
      (conn (greeting (2 ∷ 0 ∷ []) ++ (encode_request request ++ (0x16 ∷ []))) [])
    ≡ (ok request, conn (0x16 ∷ []) (5 ∷ 0 ∷ []))
unfolding contains is_utf8
read_connect_request-encode_request_example =
    read_connect_request-encode_request (2 ∷ 0 ∷ []) (0x16 ∷ []) [] request refl refl

offered : contains 0 (2 ∷ 0 ∷ []) ≡ true
unfolding contains
offered = refl

abbrev bind : ℕ
bind = 2

bind_command : bind ≢ 1
bind_command h = absurd (omega (arith, h))

-- BIND of port 80 on 10.0.0.0.
read_connect_request_refused_example :
    (message : Message) × (read_connect_request
        (conn ((5 ∷ 2 ∷ 2 ∷ 0 ∷ []) ++ (5 ∷ 2 ∷ 0 ∷ 1 ∷ ([] ++ 10 ∷ 0 ∷ 0 ∷ 0 ∷ 0 ∷ 80 ∷ []))) [])
      ≡ (
        err (network message),
        conn
            (10 ∷ 0 ∷ 0 ∷ 0 ∷ 0 ∷ 80 ∷ [])
            (([] ++ 5 ∷ 0 ∷ []) ++ 5 ∷ 7 ∷ 0 ∷ 1 ∷ 0 ∷ 0 ∷ 0 ∷ 0 ∷ 0 ∷ 0 ∷ []),
      ))
read_connect_request_refused_example =
    read_connect_request_refused (2 ∷ 0 ∷ []) 2 0 1 7 [] (10 ∷ 0 ∷ 0 ∷ 0 ∷ 0 ∷ 80 ∷ []) [] offered
      (inl (bind_command, refl, refl))
