-- ===== src/Tunnel/Forward.antt =====
-- src/tunnel/forward.rs: packets between the pppd pseudo terminal and the TLS stream. What the
-- operating system answers to reads, writes and polls is a list of answers, taken in order.
pub mod Stream
pub mod Packets
pub mod Queue
pub mod ToTls
pub mod ToPty
pub mod Whole
pub mod Loop
mod Tests
use openfortivpn_rs.Common.{
  ℕ, zero, suc, ◌+◌, ◌-◌, ◌%◌, ◌^◌, min, Bool, true, false, ◌&&◌, ◌||◌, Option, none, some, List,
  [], ◌∷◌, ◌++◌, ltb, ◌==◌, ◌!=◌, if◌then◌else◌, length, take, drop,
}
use openfortivpn_rs.Common.Bytes.{Bytes, at, codes, equal, from_be_u16}
use openfortivpn_rs.Common.Error.{
  Result, ok, err, OpenfortivpnError, hdlc_invalid_frame, permission_denied, pppd, text,
}
use openfortivpn_rs.Common.Ipv4.{Ipv4Addr, ◌==ip◌}
use openfortivpn_rs.Common.Text.{is_empty}
use openfortivpn_rs.Hdlc.{HdlcCodec}
use openfortivpn_rs.Hdlc
use openfortivpn_rs.Tunnel.Packet.{
  PppPacket, header_len, fortinet_magic, encode_for_tls, decode_from_tls_frame, ipcp_ipv4_address,
}
use openfortivpn_rs.Tunnel.Io.{
  PppdPtyDecoder, new_decoder, Round, stop, fail, found, push_bytes, encode_packet_for_pty,
}

pub record ForwardStats : Type 0 where
  pub pty_to_tls_packets : ℕ
  pub tls_to_pty_packets : ℕ
  pub last_ipcp_ipv4 : Option Ipv4Addr

abbrev pub no_stats : ForwardStats
no_stats = record { pty_to_tls_packets = 0; tls_to_pty_packets = 0; last_ipcp_ipv4 = none }

-- An answer to `read`: the bytes read, `WouldBlock`, or another error.
pub data ReadAnswer : Type 0 where
  got : Bytes → ReadAnswer
  would_block : ReadAnswer
  broken : OpenfortivpnError → ReadAnswer

-- An answer to `write`: how many bytes the writer has room for, `WouldBlock`, or another error.
pub data WriteAnswer : Type 0 where
  room : ℕ → WriteAnswer
  would_block : WriteAnswer
  broken : OpenfortivpnError → WriteAnswer

-- The chunks that wait, and how much of the first was written.
pub record WriteQueue : Type 0 where
  pub chunks : List Bytes
  pub offset : ℕ

abbrev pub new_queue : WriteQueue
new_queue = record { chunks = []; offset = 0 }

unfoldable pub push : Bytes → WriteQueue → WriteQueue
push bytes queue =
    if is_empty bytes then queue else record queue { chunks = queue.chunks ++ bytes ∷ [] }

-- The queue after `n` more bytes of `front` were written.
abbrev pub advanced : Bytes → List Bytes → ℕ → WriteQueue
advanced front rest offset =
    if offset == length front
    then record { chunks = rest; offset = 0 }
    else record { chunks = front ∷ rest; offset = offset }

abbrev pub pending_data : OpenfortivpnError
pending_data = pppd (text "writer returned zero while queue had pending data" ∷ [])

-- The loop over the chunks and the offset: the result, the queue, and the bytes written so far. A writer
-- without a further answer would block.
unfoldable pub write_loop :
    List WriteAnswer → List Bytes → ℕ → Bytes → Result (Unit {0}) × WriteQueue × Bytes
write_loop answers [] offset writer = (ok tt, record { chunks = []; offset = offset }, writer)
write_loop [] (front ∷ rest) offset writer =
    (ok tt, record { chunks = front ∷ rest; offset = offset }, writer)
write_loop (would_block ∷ answers) (front ∷ rest) offset writer =
    (ok tt, record { chunks = front ∷ rest; offset = offset }, writer)
write_loop (broken e ∷ answers) (front ∷ rest) offset writer =
    (err e, record { chunks = front ∷ rest; offset = offset }, writer)
write_loop (room r ∷ answers) (front ∷ rest) offset writer =
    let open' = drop offset front in
    let n = min r (length open') in
    let queue = advanced front rest (offset + n) in
    elim (n == 0) [
      | true ↦ (err pending_data, record { chunks = front ∷ rest; offset = offset }, writer)
      | false ↦ write_loop answers (queue.chunks) (queue.offset) (writer ++ take n open')
    ]

abbrev pub write_available :
    List WriteAnswer → WriteQueue → Bytes → Result (Unit {0}) × WriteQueue × Bytes
write_available answers queue writer = write_loop answers (queue.chunks) (queue.offset) writer

pub record TlsPacketStreamDecoder : Type 0 where
  pub buffer : Bytes

-- One round of the loop: `found` with the packet and how much of the buffer is drained.
unfoldable pub tls_round : Bytes → Round
tls_round buffer =
    let total = from_be_u16 (at buffer 0) (at buffer 1) in
    let magic = from_be_u16 (at buffer 2) (at buffer 3) in
    let size = from_be_u16 (at buffer 4) (at buffer 5) in
    if ltb (length buffer) header_len
    then stop
    else if equal (take header_len buffer) (codes "HTTP/1")
    then fail permission_denied
    else if magic != fortinet_magic || ltb total (header_len + 1) || total - header_len != size
    then fail hdlc_invalid_frame
    else if ltb (length buffer) total
    then stop
    else elim (decode_from_tls_frame (take total buffer)) [
      | ok packet ↦ found packet total
      | err e ↦ fail e
    ]

abbrev pub TlsPushed : Type 0
TlsPushed = Option (Result (List PppPacket) × TlsPacketStreamDecoder)

-- What the loop does after a round, where `loop` is the rest of it.
abbrev pub tls_next :
    (Bytes → List PppPacket → TlsPushed) → Bytes → List PppPacket → Round → TlsPushed
tls_next loop buffer packets stop = some (ok packets, record { buffer = buffer })
tls_next loop buffer packets (fail e) = some (err e, record { buffer = buffer })
tls_next loop buffer packets (found packet total) =
    loop (drop total buffer) (packets ++ packet ∷ [])

-- The loop, on fuel; `none` is a loop that ran out of it. An error drops the packets and keeps the buffer.
unfoldable pub tls_loop : ℕ → Bytes → List PppPacket → TlsPushed
tls_loop zero buffer packets = none
tls_loop (suc fuel) buffer packets = tls_next (tls_loop fuel) buffer packets (tls_round buffer)

-- Every round but the last drains a byte at least.
unfoldable pub tls_push_bytes : TlsPacketStreamDecoder → Bytes → TlsPushed
tls_push_bytes decoder bytes =
    let buffer = decoder.buffer ++ bytes in tls_loop (suc (length buffer)) buffer []

-- The locals of `forward_with_callbacks`, with the bytes written to each side and the addresses that the callback was given.
pub record Forward : Type 0 where
  pub pty_decoder : PppdPtyDecoder
  pub hdlc_encoder : HdlcCodec
  pub tls_decoder : TlsPacketStreamDecoder
  pub tls_out : WriteQueue
  pub pty_out : WriteQueue
  pub stats : ForwardStats
  pub ipcp_ipv4_seen : List Ipv4Addr
  pub tls_written : Bytes
  pub pty_written : Bytes

abbrev pub new_forward : Forward
new_forward = record {
  pty_decoder = new_decoder;
  hdlc_encoder = Hdlc.new;
  tls_decoder = record { buffer = [] };
  tls_out = new_queue;
  pty_out = new_queue;
  stats = no_stats;
  ipcp_ipv4_seen = [];
  tls_written = [];
  pty_written = [];
}

-- A step's result with the state it leaves; `none` as in the decoders.
abbrev pub Step : Type 0
Step = Option (Result (Unit {0}) × Forward)

abbrev pub count : ℕ → ℕ
count n = (n + 1) % 2 ^ 64

-- The `for` over the packets of one read.
unfoldable pub queue_for_tls : List PppPacket → Forward → Result (Unit {0}) × Forward
queue_for_tls [] s = (ok tt, s)
queue_for_tls (packet ∷ packets) s = elim (encode_for_tls packet) [
  | err e ↦ (err e, s)
  | ok frame ↦ queue_for_tls packets (record s {
    tls_out = push frame (s.tls_out);
    stats = record (s.stats) { pty_to_tls_packets = count (s.stats.pty_to_tls_packets) };
  })
]

-- `step?; next`.
abbrev pub after : Step → (Forward → Step) → Step
after none next = none
after (some (err e, s)) next = some (err e, s)
after (some (ok _, s)) next = next s

-- What is done with the packets of one read, before the next.
abbrev pub read_from_pty :
    Option (Result (List PppPacket) × PppdPtyDecoder) → (Forward → Step) → Forward → Step
read_from_pty none next s = none
read_from_pty (some (err e, decoder)) next s = some (err e, record s { pty_decoder = decoder })
read_from_pty (some (ok packets, decoder)) next s =
    after (some (queue_for_tls packets (record s { pty_decoder = decoder }))) next

-- A read that got no bytes is the end of the file. Reads that are not answered would block.
unfoldable pub read_pty_into_tls_queue : List ReadAnswer → Forward → Step
read_pty_into_tls_queue [] s = some (ok tt, s)
read_pty_into_tls_queue (would_block ∷ answers) s = some (ok tt, s)
read_pty_into_tls_queue (broken e ∷ answers) s = some (err e, s)
read_pty_into_tls_queue (got [] ∷ answers) s = some (err (pppd (text "pppd pty closed" ∷ [])), s)
read_pty_into_tls_queue (got (b ∷ bytes) ∷ answers) s =
    read_from_pty (push_bytes (s.pty_decoder) (b ∷ bytes)) (read_pty_into_tls_queue answers) s

abbrev same_address : Option Ipv4Addr → Ipv4Addr → Bool
same_address none addr = false
same_address (some last) addr = last ==ip addr

-- `on_ipcp_ipv4`, for an address other than the last.
abbrev pub observed : Option Ipv4Addr → Forward → Forward
observed none s = s
observed (some addr) s = record s {
  ipcp_ipv4_seen =
      if same_address (s.stats.last_ipcp_ipv4) addr
      then s.ipcp_ipv4_seen
      else s.ipcp_ipv4_seen ++ addr ∷ [];
  stats = record (s.stats) { last_ipcp_ipv4 = some addr };
}

-- The body of the `for` over the packets of one read.
unfoldable pub queue_for_pty : List PppPacket → Forward → Forward
queue_for_pty [] s = s
queue_for_pty (packet ∷ packets) s =
    let s' = observed (ipcp_ipv4_address packet) s in
    let encoded = encode_packet_for_pty (s'.hdlc_encoder) packet in
    queue_for_pty packets (record s' {
      hdlc_encoder = encoded.1;
      pty_out = push (encoded.0) (s'.pty_out);
      stats = record (s'.stats) { tls_to_pty_packets = count (s'.stats.tls_to_pty_packets) };
    })

abbrev pub read_from_tls : TlsPushed → (Forward → Step) → Forward → Step
read_from_tls none next s = none
read_from_tls (some (err e, decoder)) next s = some (err e, record s { tls_decoder = decoder })
read_from_tls (some (ok packets, decoder)) next s =
    next (queue_for_pty packets (record s { tls_decoder = decoder }))

unfoldable pub read_tls_into_pty_queue : List ReadAnswer → Forward → Step
read_tls_into_pty_queue [] s = some (ok tt, s)
read_tls_into_pty_queue (would_block ∷ answers) s = some (ok tt, s)
read_tls_into_pty_queue (broken e ∷ answers) s = some (err e, s)
read_tls_into_pty_queue (got [] ∷ answers) s = some (err (pppd (text "TLS tunnel closed" ∷ [])), s)
read_tls_into_pty_queue (got (b ∷ bytes) ∷ answers) s =
    read_from_tls (tls_push_bytes (s.tls_decoder) (b ∷ bytes)) (read_tls_into_pty_queue answers) s
