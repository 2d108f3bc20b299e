-- ===== src/Tunnel/Io.antt =====
-- src/tunnel/io.rs: packets on the TLS stream, and the decoder of the pppd pseudo terminal.
pub mod Tls
pub mod Pty
use openfortivpn_rs.Common.{
  ℕ, zero, suc, ◌+◌, ◌-◌, ◌*◌, Option, none, some, List, [], ◌∷◌, ◌++◌, ltb, ◌==◌, if◌then◌else◌,
  length, take, drop,
}
use openfortivpn_rs.Common.Bytes.{Bytes, at, codes, equal, from_be_u16, slice}
use openfortivpn_rs.Common.Error.{
  Result, ok, err, ◌>>=◌, ◌>>◌, refuse_if, OpenfortivpnError, hdlc_invalid_frame,
  hdlc_no_frame_found, permission_denied, pppd, text,
}
use openfortivpn_rs.Common.Stream.{read_exact}
use openfortivpn_rs.Hdlc
use openfortivpn_rs.Hdlc.{HdlcCodec}
use openfortivpn_rs.Tunnel.Packet.{
  PppPacket, new, header_len, encode_for_tls, decode_from_tls_frame,
}

abbrev http_header_prefix : Bytes
http_header_prefix = codes "HTTP/1"

abbrev pub max_pty_buffer : ℕ
max_pty_buffer = 64 * 1024

unfoldable pub send_start_tunnel_request : Bytes → Bytes → Bytes
send_start_tunnel_request writer cookie =
    writer
    ++ (codes "GET /remote/sslvpn-tunnel HTTP/1.1\r\nHost: sslvpn\r\nCookie: "
        ++ (cookie ++ codes "\r\n\r\n"))

-- The packet, and the stream behind it.
unfoldable pub read_tls_packet : Bytes → Result (PppPacket × Bytes)
read_tls_packet reader = do
  (header, reader') ← read_exact header_len reader
  refuse_if (equal header http_header_prefix) permission_denied
  let total = from_be_u16 (at header 0) (at header 1)
  refuse_if (ltb total (header_len + 1)) hdlc_invalid_frame
  (body, reader'') ← read_exact (total - header_len) reader'
  packet ← decode_from_tls_frame (header ++ body)
  ok (packet, reader'')

unfoldable pub write_tls_packet : Bytes → PppPacket → Result Bytes
write_tls_packet writer packet = do frame ← encode_for_tls packet; ok (writer ++ frame)

unfoldable pub encode_packet_for_pty : HdlcCodec → PppPacket → Bytes × HdlcCodec
encode_packet_for_pty codec packet = Hdlc.encode codec packet.data'

pub record PppdPtyDecoder : Type 0 where
  pub buffer : Bytes

abbrev pub new_decoder : PppdPtyDecoder
new_decoder = record { buffer = [] }

-- A body of `loop` that ended by `break`, by an error, or that goes on.
pub data Round : Type 0 where
  stop : Round
  fail : OpenfortivpnError → Round
  found : PppPacket → ℕ → Round

-- `frame_end`, after the packet in `buffer[frame_start..frame_end]`
unfoldable pub decode_frame : Bytes → ℕ × ℕ → Round
decode_frame buffer (frame_len, frame_start) =
    let frame_end = frame_start + frame_len in
    elim (Hdlc.decode (slice frame_start frame_end buffer)) [
      | ok packet ↦ found (new packet) frame_end
      | err e ↦ fail e
    ]

unfoldable pub round : Bytes → ℕ → Round
round buffer consumed_until = elim (Hdlc.find_frame buffer consumed_until) [
  | ok bounds ↦ decode_frame buffer bounds
  | err hdlc_no_frame_found ↦ stop
  | err e ↦ fail e
]

-- The loop, on fuel: what it returns at the end are the packets and `consumed_until`, and no fuel is
-- an error of its own.
pub data Looped : Type 0 where
  out_of_fuel : Looped
  failed : OpenfortivpnError → Looped
  done : List PppPacket → ℕ → Looped

unfoldable pub push_loop : ℕ → Bytes → List PppPacket → ℕ → Looped
push_loop zero buffer packets consumed_until = out_of_fuel
push_loop (suc fuel) buffer packets consumed_until = elim (round buffer consumed_until) [
  | stop ↦ done packets consumed_until
  | fail e ↦ failed e
  | found packet frame_end ↦ push_loop fuel buffer (packets ++ packet ∷ []) frame_end
]

-- `if consumed_until > 0 { self.buffer.drain(..consumed_until); }`
unfoldable pub drained : Bytes → ℕ → Bytes
drained buffer consumed_until = if ltb 0 consumed_until then drop consumed_until buffer else buffer

-- What a call returns, and the decoder after it: an error leaves the bytes in the buffer. `none` is
-- a loop that ran out of fuel.
unfoldable pub finish : Bytes → Looped → Option (Result (List PppPacket) × PppdPtyDecoder)
finish buffer out_of_fuel = none
finish buffer (failed e) = some (err e, record { buffer = buffer })
finish buffer (done packets consumed_until) =
    some (ok packets, record { buffer = drained buffer consumed_until })

-- Every round but the last moves forward, so one more round than there are bytes is enough.
unfoldable pub push_bytes :
    PppdPtyDecoder → Bytes → Option (Result (List PppPacket) × PppdPtyDecoder)
push_bytes decoder bytes =
    let buffer = decoder.buffer ++ bytes in
    if ltb max_pty_buffer (length decoder.buffer + length bytes)
    then some (err (pppd (text "pppd pty buffer exceeded maximum size" ∷ [])), decoder)
    else finish buffer (push_loop (suc (length buffer)) buffer [] 0)

abbrev pub buffered_len : PppdPtyDecoder → ℕ
buffered_len decoder = length decoder.buffer
