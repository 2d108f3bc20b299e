-- ===== src/Tunnel/Packet/Header.antt =====
-- The header of src/tunnel/packet.rs is read back, and only such frames are accepted.
use openfortivpn_rs.Tunnel.Packet.{
  PppPacket, new, header_len, fortinet_magic, encode_for_tls, decode_from_tls_frame,
}
use openfortivpn_rs.Common.{◌+◌, ◌≤◌, ◌<◌, [], ◌∷◌, ◌++◌, ◌≡◌, arith, length}
use openfortivpn_rs.Common.Bytes.{Bytes, IsBytes, be_u16}
use openfortivpn_rs.Common.Error.{ok}

-- A packet with 1 to 65529 bytes of data is written as a frame six bytes longer, and read back from it.
pub decode-encode_for_tls :
    (bytes : Bytes)
    → 0 < length bytes
    → length bytes ≤ 65529
    → (frame : Bytes) × (encode_for_tls (new bytes) ≡ ok frame)
      × (length frame ≡ length bytes + header_len)
      × (decode_from_tls_frame frame ≡ ok (new bytes))
unfolding encode_for_tls decode_from_tls_frame
decode-encode_for_tls bytes ne fits = (
  be_u16 (6 + length bytes) ++ (be_u16 fortinet_magic ++ (be_u16 (length bytes) ++ bytes)),
  ground arith,
  omega arith,
  ground arith,
)

-- Every frame that is accepted is the one that its packet is written as.
pub encode-decode_from_tls_frame :
    (frame : Bytes) (packet : PppPacket)
    → IsBytes frame
    → decode_from_tls_frame frame ≡ ok packet
    → encode_for_tls packet ≡ ok frame
unfolding encode_for_tls decode_from_tls_frame
encode-decode_from_tls_frame [] packet h e = ground arith
encode-decode_from_tls_frame (a ∷ []) packet h e = ground arith
encode-decode_from_tls_frame (a ∷ b ∷ []) packet h e = ground arith
encode-decode_from_tls_frame (a ∷ b ∷ c ∷ []) packet h e = ground arith
encode-decode_from_tls_frame (a ∷ b ∷ c ∷ d ∷ []) packet h e = ground arith
encode-decode_from_tls_frame (a ∷ b ∷ c ∷ d ∷ x ∷ []) packet h e = ground arith
encode-decode_from_tls_frame (a ∷ b ∷ c ∷ d ∷ x ∷ y ∷ bytes) packet h e = ground arith
