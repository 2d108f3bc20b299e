-- ===== src/Tunnel/Packet.antt =====
-- src/tunnel/packet.rs: the Fortinet header of a PPP packet on the TLS stream, and what the
-- client looks for in the packets of the IP control protocol.
pub mod Header
use openfortivpn_rs.Common.{
  ℕ, zero, suc, ◌+◌, ◌-◌, ◌/◌, ◌%◌, ◌^◌, Bool, true, false, ◌&&◌, ◌||◌, List, [], ◌∷◌, ◌++◌, Option,
  none, some, ltb, leb, ◌==◌, ◌!=◌, if◌then◌else◌, length, drop,
}
use openfortivpn_rs.Common.Bytes.{Bytes, at, as_u16, be_u16, from_be_u16}
use openfortivpn_rs.Common.Error.{Result, ok, err, ◌>>=◌, ◌>>◌, refuse_if, hdlc_invalid_frame}
use openfortivpn_rs.Common.Ipv4.{Ipv4Addr, read}

abbrev pub fortinet_magic : ℕ
fortinet_magic = 0x5050

abbrev pub header_len : ℕ
header_len = 6

pub record PppPacket : Type 0 where
  pub data' : Bytes

abbrev pub new : Bytes → PppPacket
new bytes = record { data' = bytes }

unfoldable pub encode_for_tls : PppPacket → Result Bytes
encode_for_tls packet = do
  refuse_if (ltb (65535 - header_len) (length packet.data')) hdlc_invalid_frame
  let total = as_u16 (header_len + length packet.data')
  let size = as_u16 (length packet.data')
  ok (be_u16 total ++ (be_u16 fortinet_magic ++ (be_u16 size ++ packet.data')))

unfoldable pub decode_from_tls_frame : Bytes → Result PppPacket
decode_from_tls_frame frame = do
  refuse_if (ltb (length frame) header_len) hdlc_invalid_frame
  let total = from_be_u16 (at frame 0) (at frame 1)
  let magic = from_be_u16 (at frame 2) (at frame 3)
  let size = from_be_u16 (at frame 4) (at frame 5)
  refuse_if (magic != fortinet_magic || ltb total (header_len + 1) || total - header_len != size)
      hdlc_invalid_frame
  refuse_if (length frame != total) hdlc_invalid_frame
  ok (new (drop header_len frame))

pub is_ip_plus_dns : PppPacket → Bool
is_ip_plus_dns packet =
    let p = packet.data' in
    leb 12 (length p) && at p 0 == 0x80 && at p 1 == 0x21 && at p 2 == 0x02 && at p 6 == 0x03

pub is_end_negotiation : PppPacket → Bool
is_end_negotiation packet =
    let p = packet.data' in
    (length p == 6
      && at p 0 == 0x80
      && at p 1 == 0x21
      && at p 2 == 0x01
      && at p 4 == 0x00
      && at p 5 == 0x04)
    || (leb 12 (length p) && at p 0 == 0x80 && at p 1 == 0x21 && at p 2 == 0x02)

-- The `while` loop of `ipcp_ipv4_address` at an offset. The outer `none` means that the fuel ran out.
unfoldable pub address_loop : ℕ → Bytes → ℕ → ℕ → Option (Option Ipv4Addr)
address_loop zero p end offset = none
address_loop (suc fuel) p end offset =
    let option_type = at p offset in
    let option_len = at p (offset + 1) in
    let rest = address_loop fuel p end (offset + option_len) in
    if leb (offset + 2) end
    then (if ltb option_len 2 || ltb end (offset + option_len)
        then some none
        else if option_type == 0x03 && option_len == 6
        then some (some (read p (offset + 2)))
        else rest)
    else some none

abbrev pub or_none : Option (Option Ipv4Addr) → Option Ipv4Addr
or_none none = none
or_none (some r) = r

unfoldable pub ipcp_ipv4_address : PppPacket → Option Ipv4Addr
ipcp_ipv4_address packet =
    let p = packet.data' in
    let length' = from_be_u16 (at p 4) (at p 5) in
    if ltb (length p) 10 || at p 0 != 0x80 || at p 1 != 0x21
    then none
    else if ltb length' 4 || ltb (length p) (2 + length')
    then none
    else or_none (address_loop (2 + length') p (2 + length') 6)
