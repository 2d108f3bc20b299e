-- ===== src/Tunnel/Io/Tls.antt =====
-- Packets written to the TLS stream by src/tunnel/io.rs are read back from it.
use openfortivpn_rs.Tunnel.Io.{read_tls_packet, write_tls_packet}
use openfortivpn_rs.Tunnel.Packet.{
  PppPacket, new, encode_for_tls, decode_from_tls_frame, fortinet_magic,
}
use openfortivpn_rs.Common.{
  ℕ, zero, suc, ◌+◌, ◌-◌, ◌≤◌, ◌<◌, List, [], ◌∷◌, ◌++◌, append_assoc, append-nil, ◌≡◌, refl, sym,
  ap, false, le→ltb, ◌∙◌, arith, length, All,
}
use openfortivpn_rs.Common.Bytes.{Bytes, be_u16, codes, equal, at, from_be_u16}
use openfortivpn_rs.Common.Error.{Result, ok, err, ◌>>=◌, permission_denied}
use openfortivpn_rs.Common.Stream.{read_exact, read_exact-append}

-- What the stream takes and gives back.
abbrev pub IsSendable : PppPacket → Type 0
IsSendable packet = (0 < length packet.data') × (length packet.data' ≤ 65529)

abbrev pub header : Bytes → Bytes
header bytes = be_u16 (6 + length bytes) ++ (be_u16 fortinet_magic ++ be_u16 (length bytes))

pub encode_as_header :
    (bytes : Bytes) → length bytes ≤ 65529 → encode_for_tls (new bytes) ≡ ok (header bytes ++ bytes)
unfolding encode_for_tls
encode_as_header bytes h = ground arith

pub decode_header :
    (bytes : Bytes)
    → 0 < length bytes
    → length bytes ≤ 65529
    → decode_from_tls_frame (header bytes ++ bytes) ≡ ok (new bytes)
unfolding decode_from_tls_frame
decode_header bytes ne fits = ground arith

header_not_http : (bytes : Bytes) → equal (header bytes) (codes "HTTP/1") ≡ false
unfolding equal
header_not_http bytes = ground arith

read_steps :
    (reader head reader' body reader'' : Bytes) (packet : PppPacket)
    → read_exact 6 reader ≡ ok (head, reader')
    → equal head (codes "HTTP/1") ≡ false
    → let total = from_be_u16 (at head 0) (at head 1) in
      7 ≤ total
      → read_exact (total - 6) reader' ≡ ok (body, reader'')
      → decode_from_tls_frame (head ++ body) ≡ ok packet
      → read_tls_packet reader ≡ ok (packet, reader'')
unfolding read_tls_packet
read_steps reader head reader' body reader'' packet a b c d e =
    rw (a, b, le→ltb (from_be_u16 (at head 0) (at head 1)) 7 c, d, e)

read_tls_packet-header :
    (bytes rest : Bytes)
    → 0 < length bytes
    → length bytes ≤ 65529
    → read_tls_packet ((header bytes ++ bytes) ++ rest) ≡ ok (new bytes, rest)
read_tls_packet-header bytes rest ne fits =
    read_steps _ (header bytes) (bytes ++ rest) bytes rest (new bytes)
      (read_exact-append 6 (header bytes) (bytes ++ rest) refl) (header_not_http bytes)
      (omega arith) (read_exact-append _ bytes rest (omega arith)) (decode_header bytes ne fits)

-- Packets written one after another.
unfoldable pub write_all : Bytes → List PppPacket → Result Bytes
write_all writer [] = ok writer
write_all writer (packet ∷ packets) = do
  writer' ← write_tls_packet writer packet
  write_all writer' packets

-- As many packets as are asked for, and the stream behind them.
pub read_all : ℕ → Bytes → Result (List PppPacket × Bytes)
read_all zero reader = ok ([], reader)
read_all (suc n) reader = do
  (packet, reader') ← read_tls_packet reader
  (packets, reader'') ← read_all n reader'
  ok (packet ∷ packets, reader'')

unfoldable pub stream_of : List PppPacket → Bytes
stream_of [] = []
stream_of (packet ∷ packets) = (header packet.data' ++ packet.data') ++ stream_of packets

pub write_all-stream_of :
    (writer : Bytes) (packets : List PppPacket)
    → All IsSendable packets
    → write_all writer packets ≡ ok (writer ++ stream_of packets)
unfolding write_all stream_of write_tls_packet
write_all-stream_of writer [] h = ap ok (sym (append-nil writer))
write_all-stream_of writer (packet ∷ packets) h = rw (encode_as_header packet.data' h.0.1) (
    write_all-stream_of (writer ++ (header packet.data' ++ packet.data')) packets h.1
    ∙ ap ok (append_assoc writer _ _))

read_all-stream_of :
    (packets : List PppPacket) (rest : Bytes)
    → All IsSendable packets
    → read_all (length packets) (stream_of packets ++ rest) ≡ ok (packets, rest)
unfolding read_all stream_of
read_all-stream_of [] rest h = refl
read_all-stream_of (packet ∷ packets) rest h = rw (
  append_assoc (header packet.data' ++ packet.data') (stream_of packets) rest,
  read_tls_packet-header packet.data' (stream_of packets ++ rest) h.0.0 h.0.1,
  read_all-stream_of packets rest h.1,
)

-- Packets of 1 to 65529 bytes written one after another to the stream are all written, and reading
-- as many packets gives them back in order and leaves exactly the bytes that follow.
pub read_all-write_all :
    (packets : List PppPacket) (rest : Bytes)
    → All IsSendable packets
    → (stream : Bytes) × (write_all [] packets ≡ ok stream)
      × (read_all (length packets) (stream ++ rest) ≡ ok (packets, rest))
read_all-write_all packets rest h =
    (stream_of packets, write_all-stream_of [] packets h, read_all-stream_of packets rest h)

-- A stream that begins with `HTTP/1` is a refusal by the gateway, whatever follows.
pub read_tls_packet_http :
    (rest : Bytes) → read_tls_packet (codes "HTTP/1" ++ rest) ≡ err permission_denied
unfolding read_tls_packet equal
read_tls_packet_http rest = rw (read_exact-append 6 (codes "HTTP/1") rest refl)
