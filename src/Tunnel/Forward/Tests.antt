-- ===== src/Tunnel/Forward/Tests.antt =====
-- The theorems on src/tunnel/forward.rs at concrete packets.
use openfortivpn_rs.Common.{
  ◌%◌, ◌^◌, true, false, none, some, List, [], ◌∷◌, ◌++◌, map, ◌≡◌, refl, arith,
}
use openfortivpn_rs.Common.Bytes.{Bytes}
use openfortivpn_rs.Common.Error.{ok}
use openfortivpn_rs.Hdlc
use openfortivpn_rs.Hdlc.RoundTrip.{encode_all}
use openfortivpn_rs.Tunnel.Tests.{first, second, chunks, encoded}
use openfortivpn_rs.Tunnel.Packet.{encode_for_tls}
use openfortivpn_rs.Tunnel.Io.{write_tls_packet}
use openfortivpn_rs.Tunnel.Io.Pty.Chunks.{join, payloads}
use openfortivpn_rs.Tunnel.Io.Tls.{write_all}
use openfortivpn_rs.Tunnel.Forward.{
  got, would_block, room, TlsPacketStreamDecoder, tls_push_bytes, WriteQueue, write_available,
  new_queue, Forward, new_forward, read_pty_into_tls_queue, read_tls_into_pty_queue,
}
use openfortivpn_rs.Tunnel.Forward.Stream.{
  InTurn, tls_push_bytes-append, Returned, tls_push_bytes-Returned,
}
use openfortivpn_rs.Tunnel.Forward.Queue.{
  IsWriteQueue, pending, write_available_keeps, write_available_empties,
}
use openfortivpn_rs.Tunnel.Forward.ToTls.{read_pty-encode_all}
use openfortivpn_rs.Tunnel.Forward.ToPty.{read_tls-write_all}
use openfortivpn_rs.Tunnel.Forward.Loop.{PollFlags, Turn, forward_with_callbacks}
use openfortivpn_rs.Tunnel.Forward.Loop.Whole.{AllWhole, forward_with_callbacks-AllWhole}

read_pty-encode_all_example :
    (s : Forward) × (read_pty_into_tls_queue (map got chunks) new_forward ≡ some (ok tt, s))
    × IsWriteQueue s.tls_out
    × (write_all [] (first ∷ second ∷ []) ≡ ok (pending s.tls_out))
    × (s.stats.pty_to_tls_packets % 2 ^ 64 ≡ 2 % 2 ^ 64)
read_pty-encode_all_example =
    read_pty-encode_all first (second ∷ []) chunks (ground arith) (ground arith) encoded
      (omega arith)

-- The same packets in the gateway's framing, cut inside a header.
abbrev pieces : List Bytes
pieces =
    (0x00 ∷ 0x0a ∷ 0x50 ∷ [])
    ∷ (0x50 ∷ 0x00 ∷ 0x04 ∷ 0x00 ∷ 0x21 ∷ 0x7e ∷ 0x01 ∷ 0x00 ∷ [])
    ∷ (0x09 ∷ 0x50 ∷ 0x50 ∷ 0x00 ∷ 0x03 ∷ 0xc0 ∷ 0x21 ∷ 0x7d ∷ [])
    ∷ []

written : write_all [] (first ∷ second ∷ []) ≡ ok (join pieces)
unfolding write_all write_tls_packet encode_for_tls
written = refl

read_tls-write_all_example :
    (s : Forward) × (read_tls_into_pty_queue (map got pieces) new_forward ≡ some (ok tt, s))
    × IsWriteQueue s.pty_out
    × (pending s.pty_out ≡ encode_all Hdlc.new (payloads (first ∷ second ∷ [])))
    × (s.stats.tls_to_pty_packets % 2 ^ 64 ≡ 2 % 2 ^ 64)
read_tls-write_all_example =
    read_tls-write_all (first ∷ second ∷ []) pieces (ground arith) (ground arith) written

abbrev holding : TlsPacketStreamDecoder
holding = record { buffer = 0x00 ∷ 0x07 ∷ 0x50 ∷ [] }

tls_push_bytes-append_example :
    InTurn
      (0x01 ∷ 0x05 ∷ [])
      (tls_push_bytes holding ((0x50 ∷ 0x00 ∷ []) ++ (0x01 ∷ 0x05 ∷ [])))
      (tls_push_bytes holding (0x50 ∷ 0x00 ∷ []))
tls_push_bytes-append_example = tls_push_bytes-append holding (0x50 ∷ 0x00 ∷ []) (0x01 ∷ 0x05 ∷ [])

tls_push_bytes-Returned_example : Returned (tls_push_bytes holding (0x50 ∷ 0x00 ∷ 0x01 ∷ 0x05 ∷ []))
tls_push_bytes-Returned_example = tls_push_bytes-Returned holding (0x50 ∷ 0x00 ∷ 0x01 ∷ 0x05 ∷ [])

-- One byte of the first chunk is written.
abbrev waiting : WriteQueue
waiting = record { chunks = (1 ∷ 2 ∷ 3 ∷ []) ∷ (4 ∷ []) ∷ []; offset = 1 }

write_available_keeps_example :
    let after = write_available (room 1 ∷ would_block ∷ []) waiting (1 ∷ []) in
    IsWriteQueue after.1 × (after.2 ++ pending after.1 ≡ 1 ∷ 2 ∷ 3 ∷ 4 ∷ [])
write_available_keeps_example =
    write_available_keeps (room 1 ∷ would_block ∷ []) waiting (1 ∷ []) (ground arith)

write_available_empties_example :
    write_available (room 1 ∷ room 4 ∷ room 1 ∷ []) waiting (1 ∷ [])
    ≡ (ok tt, new_queue, 1 ∷ 2 ∷ 3 ∷ 4 ∷ [])
write_available_empties_example =
    write_available_empties (room 1 ∷ room 4 ∷ room 1 ∷ []) waiting (1 ∷ []) (ground arith)
      (ground arith) (omega arith)

abbrev readable : PollFlags
readable = record {
  pollin = true;
  pollout = true;
  pollerr = false;
  pollhup = false;
  pollnval = false;
}

abbrev turn : Turn
turn = record {
  should_stop = false;
  poll_error = none;
  pty_events = readable;
  tls_events = readable;
  pty_reads = map got chunks;
  tls_reads = map got pieces;
  pty_writes = room 3 ∷ [];
  tls_writes = room 3 ∷ would_block ∷ [];
}

forward_with_callbacks-AllWhole_example :
    AllWhole (forward_with_callbacks (turn ∷ turn ∷ []) new_forward)
forward_with_callbacks-AllWhole_example = forward_with_callbacks-AllWhole (turn ∷ turn ∷ [])
