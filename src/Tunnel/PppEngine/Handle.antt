-- ===== src/Tunnel/PppEngine/Handle.antt =====
-- The handlers of src/tunnel/ppp_engine.rs. The guard of a `match` arm is part of its test, so a
-- reply with an unexpected identifier falls through to the last arm.
use openfortivpn_rs.Common.{
  ℕ, ◌/◌, ◌^◌, not, ◌&&◌, ◌||◌, List, [], ◌∷◌, ◌++◌, Option, none, some, ◌==◌, ◌!=◌, if◌then◌else◌,
  length, drop,
}
use openfortivpn_rs.Common.Bytes.{Bytes, at, be_u16}
use openfortivpn_rs.Common.Error.{Result, ok, ◌>>=◌, ◌>>◌, refuse_if, pppd, text}
use openfortivpn_rs.Common.Ipv4.{Ipv4Addr, ◌==ip◌, unspecified}
use openfortivpn_rs.Tunnel.Packet.{PppPacket, new}
use openfortivpn_rs.Tunnel.PppEngine.{
  protocol_ipv4, protocol_lcp, protocol_ipcp, code_configure_request, code_configure_ack,
  code_configure_nak, code_configure_reject, code_terminate_request, code_terminate_ack,
  code_code_reject, code_protocol_reject, code_echo_request, code_echo_reply, PppEvent, up,
  ipv4_packet, down, opened, closed, PppEngine, queue_control, queue_protocol_reject,
  send_lcp_configure_request, send_ipcp_configure_request, is_expected, lcp_answer_request,
  lcp_acknowledged, echo_payload,
}
use openfortivpn_rs.Tunnel.PppEngine.Parse.{
  ControlPacket, parse_control_packet, parse_ipcp_ip_address, ppp_protocol,
}

-- `handle_lcp` behind the parser. `payload` is the unparsed text that a code reject returns.
unfoldable pub lcp_dispatch : ControlPacket → Bytes → PppEngine → List PppEvent × PppEngine
lcp_dispatch packet payload engine =
    let reply : ℕ → Bytes → PppEngine =
      λ code body. queue_control protocol_lcp code packet.identifier body engine in
    let expected = is_expected packet.identifier engine.lcp_identifier in
    if packet.code == code_configure_request
    then ([], lcp_answer_request (reply code_configure_ack packet.options))
    else if packet.code == code_configure_ack && expected
    then ([], lcp_acknowledged engine)
    else if (packet.code == code_configure_nak || packet.code == code_configure_reject) && expected
    then ([], send_lcp_configure_request engine)
    else if packet.code == code_echo_request
    then ([], reply code_echo_reply (echo_payload packet.options))
    else if packet.code == code_terminate_request
    then (down ∷ [], record (reply code_terminate_ack packet.options) { state = closed })
    else if packet.code == code_code_reject
        || packet.code == code_protocol_reject
        || packet.code == code_echo_reply
        || packet.code == code_terminate_ack
    then ([], engine)
    else ([], reply code_code_reject payload)

unfoldable pub handle_lcp : Bytes → PppEngine → Result (List PppEvent × PppEngine)
handle_lcp payload engine = do
  packet ← parse_control_packet payload
  ok (lcp_dispatch packet payload engine)

-- `unwrap_or`
abbrev pub or_requested : Option Ipv4Addr → Ipv4Addr → Ipv4Addr
or_requested none requested = requested
or_requested (some ip) requested = ip

unfoldable pub ipcp_acknowledged : Ipv4Addr → PppEngine → List PppEvent × PppEngine
ipcp_acknowledged acknowledged_ip engine =
    if not (acknowledged_ip ==ip unspecified)
    then (
      up acknowledged_ip engine.peer_ip [] ∷ [],
      record engine { local_ip = some acknowledged_ip; state = opened },
    )
    else ([], send_ipcp_configure_request engine)

unfoldable pub ipcp_dispatch : ControlPacket → Bytes → PppEngine → List PppEvent × PppEngine
ipcp_dispatch packet payload engine =
    let reply : ℕ → Bytes → PppEngine → PppEngine =
      λ code body. queue_control protocol_ipcp code packet.identifier body in
    let expected = is_expected packet.identifier engine.ipcp_identifier in
    let address = parse_ipcp_ip_address packet.options in
    if packet.code == code_configure_request
    then ([], reply code_configure_ack packet.options (record engine { peer_ip = address }))
    else if packet.code == code_configure_ack && expected
    then ipcp_acknowledged (or_requested address engine.requested_ip) engine
    else if packet.code == code_configure_nak && expected
    then (
      [],
      send_ipcp_configure_request
          (record engine { requested_ip = or_requested address engine.requested_ip }),
    )
    else if packet.code == code_configure_reject && expected
    then ([], send_ipcp_configure_request (record engine { requested_ip = unspecified }))
    else if packet.code == code_terminate_request
    then (down ∷ [], record (reply code_terminate_ack packet.options engine) { state = closed })
    else if packet.code == code_code_reject || packet.code == code_terminate_ack
    then ([], engine)
    else ([], reply code_code_reject payload engine)

unfoldable pub handle_ipcp : Bytes → PppEngine → Result (List PppEvent × PppEngine)
handle_ipcp payload engine = do
  packet ← parse_control_packet payload
  ok (ipcp_dispatch packet payload engine)

unfoldable pub by_protocol : ℕ → Bytes → PppEngine → Result (List PppEvent × PppEngine)
by_protocol protocol payload engine =
    if protocol == protocol_ipv4
    then ok (ipv4_packet payload ∷ [], engine)
    else if protocol == protocol_lcp
    then handle_lcp payload engine
    else if protocol == protocol_ipcp
    then handle_ipcp payload engine
    else ok ([], queue_protocol_reject protocol payload engine)

unfoldable pub handle_incoming : PppPacket → PppEngine → Result (List PppEvent × PppEngine)
handle_incoming packet engine = do
  protocol ← ppp_protocol packet.data'
  by_protocol protocol (drop 2 packet.data') engine

unfoldable pub next_outgoing : PppEngine → Option PppPacket × PppEngine
next_outgoing engine = elim engine.outgoing [
  | [] ↦ (none, engine)
  | packet ∷ rest ↦ (some packet, record engine { outgoing = rest })
]

unfoldable pub drain_outgoing : PppEngine → List PppPacket × PppEngine
drain_outgoing engine = (engine.outgoing, record engine { outgoing = [] })

unfoldable pub encode_ipv4_packet : Bytes → Result PppPacket
encode_ipv4_packet packet = do
  refuse_if (length packet == 0 || at packet 0 / 2 ^ 4 != 4)
      (pppd (text "proxy PPP engine can only send IPv4 packets" ∷ []))
  ok (new (be_u16 protocol_ipv4 ++ packet))
