-- ===== src/Tunnel/PppEngine/Handshake.antt =====
-- How the link of src/tunnel/ppp_engine.rs opens and closes.
use openfortivpn_rs.Common.{
  ℕ, ◌+◌, ◌-◌, ◌≤◌, false, List, [], ◌∷◌, ◌++◌, none, some, ◌≡◌, refl, arith, length, drop,
  take-all, ◌∙◌,
}
use openfortivpn_rs.Common.Bytes.{Bytes}
use openfortivpn_rs.Common.Error.{Result, ok, ◌>>=◌}
use openfortivpn_rs.Common.Ipv4.{Ipv4Addr, ◌==ip◌, unspecified, octets}
use openfortivpn_rs.Tunnel.Packet.{PppPacket}
use openfortivpn_rs.Tunnel.PppEngine.{
  PppEvent, up, opened, PppEngine, new_engine, take_identifier, control_packet, queue_control,
  send_lcp_configure_request, send_ipcp_configure_request, start, lcp_acknowledged, protocol_lcp,
  protocol_ipcp,
}
use openfortivpn_rs.Tunnel.PppEngine.Parse.{
  parse_control_packet, parse_ipcp_ip_address, ppp_protocol, options_loop,
}
use openfortivpn_rs.Tunnel.PppEngine.Handle.{
  lcp_dispatch, handle_lcp, ipcp_acknowledged, ipcp_dispatch, handle_ipcp, by_protocol,
  handle_incoming,
}

-- The parser reads back every control packet of up to 65535 bytes.
pub parse-control_packet :
    (protocol code identifier : ℕ) (payload : Bytes)
    → length payload ≤ 65531
    → parse_control_packet (drop 2 (control_packet protocol code identifier payload).data')
      ≡ ok (record { code = code; identifier = identifier; options = payload })
unfolding parse_control_packet control_packet
parse-control_packet protocol code identifier payload fits =
    ground (arith, take-all (4 + length payload - 4) payload (omega arith))

pub ppp_protocol-control_packet :
    (protocol code identifier : ℕ) (payload : Bytes)
    → ppp_protocol (control_packet protocol code identifier payload).data' ≡ ok protocol
unfolding ppp_protocol control_packet
ppp_protocol-control_packet protocol code identifier payload = ground arith

-- An option with an address of four bytes is read back.
pub parse_ipcp_ip_address-octets :
    (ip : Ipv4Addr) → parse_ipcp_ip_address (3 ∷ 6 ∷ octets ip) ≡ some ip
unfolding parse_ipcp_ip_address options_loop
parse_ipcp_ip_address-octets ip = refl

-- A packet of up to 65531 bytes of options reaches the handler of its protocol whole.
pub handle_incoming-lcp :
    (code identifier : ℕ) (options : Bytes) (engine : PppEngine)
    → length options ≤ 65531
    → (payload : Bytes) × (handle_incoming
          (control_packet protocol_lcp code identifier options)
          engine
        ≡ ok (
            lcp_dispatch
              (record { code = code; identifier = identifier; options = options })
              payload
              engine))
unfolding handle_incoming by_protocol handle_lcp
handle_incoming-lcp code identifier options engine fits = (
  drop 2 (control_packet protocol_lcp code identifier options).data',
  rw (
    ppp_protocol-control_packet protocol_lcp code identifier options,
    parse-control_packet protocol_lcp code identifier options fits,
  ),
)

pub handle_incoming-ipcp :
    (code identifier : ℕ) (options : Bytes) (engine : PppEngine)
    → length options ≤ 65531
    → (payload : Bytes) × (handle_incoming
          (control_packet protocol_ipcp code identifier options)
          engine
        ≡ ok (
            ipcp_dispatch
              (record { code = code; identifier = identifier; options = options })
              payload
              engine))
unfolding handle_incoming by_protocol handle_ipcp
handle_incoming-ipcp code identifier options engine fits = (
  drop 2 (control_packet protocol_ipcp code identifier options).data',
  rw (
    ppp_protocol-control_packet protocol_ipcp code identifier options,
    parse-control_packet protocol_ipcp code identifier options fits,
  ),
)

-- One packet after another; the events of all.
pub run : List PppPacket → PppEngine → Result (List PppEvent × PppEngine)
run [] engine = ok ([], engine)
run (packet ∷ packets) engine = do
  (events, engine') ← handle_incoming packet engine
  (more, last) ← run packets engine'
  ok (events ++ more, last)

-- The replies of a peer that assigns `ip` to the requests of a new engine.
abbrev pub replies : Bytes → Ipv4Addr → List PppPacket
replies lcp_options ip =
    control_packet protocol_lcp 2 1 lcp_options
    ∷ control_packet protocol_ipcp 3 2 (3 ∷ 6 ∷ octets ip)
    ∷ control_packet protocol_ipcp 2 3 (3 ∷ 6 ∷ octets ip)
    ∷ []

asked : PppEngine
asked = lcp_acknowledged (start new_engine)

assigned : Ipv4Addr → PppEngine
assigned ip = send_ipcp_configure_request (record asked { requested_ip = ip })

lcp_ack_step :
    (lcp_options : Bytes)
    → length lcp_options ≤ 65531
    → handle_incoming (control_packet protocol_lcp 2 1 lcp_options) (start new_engine)
      ≡ ok ([], asked)
unfolding lcp_dispatch start send_lcp_configure_request take_identifier queue_control asked
lcp_ack_step lcp_options fits = (handle_incoming-lcp 2 1 lcp_options (start new_engine) fits).1

nak_step :
    (ip : Ipv4Addr)
    → handle_incoming (control_packet protocol_ipcp 3 2 (3 ∷ 6 ∷ octets ip)) asked
      ≡ ok ([], assigned ip)
unfolding ipcp_dispatch parse_ipcp_ip_address options_loop start send_lcp_configure_request
    take_identifier queue_control asked assigned lcp_acknowledged send_ipcp_configure_request
nak_step ip = (handle_incoming-ipcp 3 2 (3 ∷ 6 ∷ octets ip) asked (omega arith)).1

ack_step :
    (ip : Ipv4Addr)
    → ip ==ip unspecified ≡ false
    → handle_incoming (control_packet protocol_ipcp 2 3 (3 ∷ 6 ∷ octets ip)) (assigned ip)
      ≡ ok (up ip none [] ∷ [], record (assigned ip) { local_ip = some ip; state = opened })
unfolding ipcp_dispatch ipcp_acknowledged parse_ipcp_ip_address options_loop start
    send_lcp_configure_request take_identifier queue_control asked assigned lcp_acknowledged
    send_ipcp_configure_request
ack_step ip real =
    (handle_incoming-ipcp 2 3 (3 ∷ 6 ∷ octets ip) (assigned ip) (omega arith)).1 ∙ rw real

-- A peer that acknowledges the LCP request, with options of up to 65531 bytes, answers the first IPCP
-- request by a Nak with an address other than 0.0.0.0, and acknowledges the second, opens the link:
-- the engine reports exactly one event, `Up` with that address.
pub run-replies :
    (lcp_options : Bytes) (ip : Ipv4Addr)
    → length lcp_options ≤ 65531
    → ip ==ip unspecified ≡ false
    → (last : PppEngine) × (run (replies lcp_options ip) (start new_engine)
        ≡ ok (up ip none [] ∷ [], last))
      × (last.state ≡ opened)
      × (last.local_ip ≡ some ip)
unfolding run
run-replies lcp_options ip fits real = (
  record (assigned ip) { local_ip = some ip; state = opened },
  rw (lcp_ack_step lcp_options fits, nak_step ip, ack_step ip real),
  refl,
  refl,
)
