-- ===== src/Tunnel/PppEngine.antt =====
-- src/tunnel/ppp_engine.rs: the PPP engine of proxy mode. A handler returns its result and the engine
-- after it; an error of a handler is one of its parsers', before it changes the engine.
pub mod Parse
pub mod Handle
pub mod Invariant
pub mod Handshake
pub mod Opens
pub mod Replies
use openfortivpn_rs.Common.{
  ℕ, zero, suc, ◌+◌, ◌-◌, ◌/◌, ◌%◌, ◌^◌, Bool, true, false, not, ◌&&◌, ◌||◌, List, [], ◌∷◌, ◌++◌,
  Option, none, some, ltb, leb, ◌==◌, ◌!=◌, if◌then◌else◌, length, drop,
}
use openfortivpn_rs.Common.Bytes.{Bytes, at, as_u16, be_u16, from_be_u16, slice}
use openfortivpn_rs.Common.Error.{
  Result, ok, err, ◌>>=◌, ◌>>◌, refuse_if, hdlc_invalid_frame, pppd, text,
}
use openfortivpn_rs.Common.Ipv4
use openfortivpn_rs.Common.Ipv4.{Ipv4Addr, ◌==ip◌, unspecified, octets, read}
use openfortivpn_rs.Tunnel.Packet.{PppPacket, new}

abbrev pub protocol_ipv4 : ℕ
protocol_ipv4 = 0x0021

abbrev pub protocol_lcp : ℕ
protocol_lcp = 0xc021

abbrev pub protocol_ipcp : ℕ
protocol_ipcp = 0x8021

abbrev pub code_configure_request : ℕ
code_configure_request = 1

abbrev pub code_configure_ack : ℕ
code_configure_ack = 2

abbrev pub code_configure_nak : ℕ
code_configure_nak = 3

abbrev pub code_configure_reject : ℕ
code_configure_reject = 4

abbrev pub code_terminate_request : ℕ
code_terminate_request = 5

abbrev pub code_terminate_ack : ℕ
code_terminate_ack = 6

abbrev pub code_code_reject : ℕ
code_code_reject = 7

abbrev pub code_protocol_reject : ℕ
code_protocol_reject = 8

abbrev pub code_echo_request : ℕ
code_echo_request = 9

abbrev pub code_echo_reply : ℕ
code_echo_reply = 10

abbrev pub lcp_option_mru : ℕ
lcp_option_mru = 1

abbrev pub lcp_default_mru : ℕ
lcp_default_mru = 1354

abbrev pub ipcp_option_ip_address : ℕ
ipcp_option_ip_address = 3

abbrev pub ppp_control_header_len : ℕ
ppp_control_header_len = 4

pub data PppEvent : Type 0 where
  up : Ipv4Addr → Option Ipv4Addr → List Ipv4Addr → PppEvent
  ipv4_packet : Bytes → PppEvent
  down : PppEvent

pub data LinkState : Type 0 where
  initial lcp_request_sent lcp_opened ipcp_request_sent opened closed : LinkState

pub record PppEngine : Type 0 where
  pub state : LinkState
  pub next_identifier : ℕ
  pub lcp_identifier : Option ℕ
  pub ipcp_identifier : Option ℕ
  pub requested_ip : Ipv4Addr
  pub local_ip : Option Ipv4Addr
  pub peer_ip : Option Ipv4Addr
  pub outgoing : List PppPacket

abbrev pub new_engine : PppEngine
new_engine = record {
  state = initial;
  next_identifier = 1;
  lcp_identifier = none;
  ipcp_identifier = none;
  requested_ip = unspecified;
  local_ip = none;
  peer_ip = none;
  outgoing = [];
}

-- The identifier, and the engine with the next one.
unfoldable pub take_identifier : PppEngine → ℕ × PppEngine
take_identifier engine =
    let next = (engine.next_identifier + 1) % 2 ^ 8 in
    (engine.next_identifier, record engine { next_identifier = if next == 0 then 1 else next })

unfoldable pub control_packet : ℕ → ℕ → ℕ → Bytes → PppPacket
control_packet protocol code identifier payload =
    let length' = as_u16 (ppp_control_header_len + length payload) in
    new (be_u16 protocol ++ (code ∷ identifier ∷ (be_u16 length' ++ payload)))

unfoldable pub queue_control : ℕ → ℕ → ℕ → Bytes → PppEngine → PppEngine
queue_control protocol code identifier payload engine = record engine {
  outgoing = engine.outgoing ++ control_packet protocol code identifier payload ∷ [];
}

unfoldable pub queue_protocol_reject : ℕ → Bytes → PppEngine → PppEngine
queue_protocol_reject protocol payload engine =
    let (identifier, engine') = take_identifier engine in
    let rejected = be_u16 protocol ++ payload in
    queue_control protocol_lcp code_protocol_reject identifier rejected engine'

unfoldable pub send_lcp_configure_request : PppEngine → PppEngine
send_lcp_configure_request engine =
    let (identifier, engine') = take_identifier engine in
    let options = lcp_option_mru ∷ 4 ∷ be_u16 lcp_default_mru in
    queue_control protocol_lcp code_configure_request identifier options
      (record engine' { lcp_identifier = some identifier })

unfoldable pub send_ipcp_configure_request : PppEngine → PppEngine
send_ipcp_configure_request engine =
    let (identifier, engine') = take_identifier engine in
    let options = ipcp_option_ip_address ∷ 6 ∷ octets engine'.requested_ip in
    queue_control protocol_ipcp code_configure_request identifier options
      (record engine' { ipcp_identifier = some identifier })

-- `Some(identifier) == expected`
abbrev pub is_expected : ℕ → Option ℕ → Bool
is_expected identifier none = false
is_expected identifier (some expected) = identifier == expected

abbrev pub is_initial : LinkState → Bool
is_initial initial = true
is_initial _ = false

abbrev pub awaits_lcp_ack : LinkState → Bool
awaits_lcp_ack initial = true
awaits_lcp_ack lcp_request_sent = true
awaits_lcp_ack _ = false

abbrev pub is_open : PppEngine → Bool
is_open engine = elim engine.state [ opened ↦ true | _ ↦ false ]

unfoldable pub start : PppEngine → PppEngine
start engine =
    if not (is_initial engine.state)
    then engine
    else record (send_lcp_configure_request engine) { state = lcp_request_sent }

-- `matches!(self.state, LinkState::Initial)` behind a configure request
unfoldable pub lcp_answer_request : PppEngine → PppEngine
lcp_answer_request engine =
    if is_initial engine.state
    then record (send_lcp_configure_request engine) { state = lcp_request_sent }
    else engine

unfoldable pub lcp_acknowledged : PppEngine → PppEngine
lcp_acknowledged engine =
    if awaits_lcp_ack engine.state
    then record (send_ipcp_configure_request (record engine { state = lcp_opened })) {
      state = ipcp_request_sent;
    }
    else engine

abbrev pub echo_payload : Bytes → Bytes
echo_payload options = 0 ∷ 0 ∷ 0 ∷ 0 ∷ (if ltb 4 (length options) then drop 4 options else [])
