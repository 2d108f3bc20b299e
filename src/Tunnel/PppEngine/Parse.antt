-- ===== src/Tunnel/PppEngine/Parse.antt =====
-- The parsers of src/tunnel/ppp_engine.rs.
pub mod Options
use openfortivpn_rs.Common.{
  ℕ, zero, suc, ◌+◌, ◌-◌, ◌/◌, ◌%◌, ◌^◌, Bool, true, false, not, ◌&&◌, ◌||◌, List, [], ◌∷◌, ◌++◌,
  Option, none, some, ltb, leb, ◌==◌, ◌!=◌, if◌then◌else◌, length, drop,
}
use openfortivpn_rs.Common.Bytes.{Bytes, at, as_u16, be_u16, from_be_u16, slice}
use openfortivpn_rs.Common.Error.{
  Result, ok, err, ◌>>=◌, ◌>>◌, refuse_if, hdlc_invalid_frame, pppd, text,
}
use openfortivpn_rs.Common.Ipv4
use openfortivpn_rs.Common.Ipv4.{Ipv4Addr, ◌==ip◌, unspecified, octets, read}
use openfortivpn_rs.Tunnel.Packet.{PppPacket, new}
use openfortivpn_rs.Tunnel.PppEngine.{ppp_control_header_len, ipcp_option_ip_address}

pub record ControlPacket : Type 0 where
  pub code : ℕ
  pub identifier : ℕ
  pub options : Bytes

unfoldable pub parse_control_packet : Bytes → Result ControlPacket
parse_control_packet payload = do
  refuse_if (ltb (length payload) ppp_control_header_len) hdlc_invalid_frame
  let length' = from_be_u16 (at payload 2) (at payload 3)
  refuse_if (ltb length' ppp_control_header_len || ltb (length payload) length') hdlc_invalid_frame
  ok (record {
    code = at payload 0;
    identifier = at payload 1;
    options = slice ppp_control_header_len length' payload;
  })

-- The `while` loop of `parse_ipcp_ip_address` at an offset. The outer `none` means that the fuel ran out.
unfoldable pub options_loop : ℕ → Bytes → ℕ → Option (Option Ipv4Addr)
options_loop zero options offset = none
options_loop (suc fuel) options offset =
    let option_type = at options offset in
    let option_len = at options (offset + 1) in
    let rest = options_loop fuel options (offset + option_len) in
    if leb (offset + 2) (length options)
    then (if ltb option_len 2 || ltb (length options) (offset + option_len)
        then some none
        else if option_type == ipcp_option_ip_address && option_len == 6
        then some (some (read options (offset + 2)))
        else rest)
    else some none

-- Every round moves at least two bytes on, so as much fuel as there are bytes is enough.
unfoldable pub parse_ipcp_ip_address : Bytes → Option Ipv4Addr
parse_ipcp_ip_address options = elim (options_loop (suc (length options)) options 0) [
  | none ↦ none
  | some r ↦ r
]

unfoldable pub ppp_protocol : Bytes → Result ℕ
ppp_protocol bytes = do
  refuse_if (ltb (length bytes) 2) hdlc_invalid_frame
  ok (from_be_u16 (at bytes 0) (at bytes 1))
