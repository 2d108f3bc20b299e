-- ===== src/Tunnel/Tests.antt =====
-- The tunnel's theorems at concrete packets.
use openfortivpn_rs.Common.{ℕ, ◌+◌, none, some, List, [], ◌∷◌, ◌++◌, ◌≡◌, ◌≢◌, refl, length, arith}
use openfortivpn_rs.Common.Bytes.{Bytes}
use openfortivpn_rs.Common.Error.{ok}
use openfortivpn_rs.Common.Ipv4.{Ipv4Addr, octets}
use openfortivpn_rs.Common.Ipv4
use openfortivpn_rs.Hdlc
use openfortivpn_rs.Hdlc.RoundTrip.{encode_all}
use openfortivpn_rs.Hdlc.Frames.{scan, hunting, inside}
use openfortivpn_rs.Tunnel.Packet.{
  PppPacket, new, header_len, encode_for_tls, decode_from_tls_frame,
}
use openfortivpn_rs.Tunnel.Packet.Header.{decode-encode_for_tls, encode-decode_from_tls_frame}
use openfortivpn_rs.Tunnel.Io.{PppdPtyDecoder, new_decoder, push_bytes}
use openfortivpn_rs.Tunnel.Io.Pty.{decode_all, Leaves, push_bytes-scan}
use openfortivpn_rs.Tunnel.Io.Pty.Chunks.{push_chunks, join, push_chunks-encode_all}
use openfortivpn_rs.Tunnel.Io.Tls.{write_all, read_all, read_all-write_all}
use openfortivpn_rs.Tunnel.PppEngine.{
  up, down, opened, closed, PppEngine, new_engine, control_packet, protocol_ipcp, protocol_lcp,
  start,
}
use openfortivpn_rs.Tunnel.PppEngine.Handle.{handle_incoming}
use openfortivpn_rs.Tunnel.PppEngine.Parse.{parse_ipcp_ip_address, options_loop}
use openfortivpn_rs.Tunnel.PppEngine.Parse.Options.{
  encode_options, first_address, parse-encode_options, options_loop_total,
}
use openfortivpn_rs.Tunnel.PppEngine.Invariant.{here, step, starts, IsValid, Reach-IsValid}
use openfortivpn_rs.Tunnel.PppEngine.Opens.{IsOpening, handle_incoming_opens, acknowledgement_opens}
use openfortivpn_rs.Tunnel.PppEngine.Handshake.{run, replies, run-replies}
use openfortivpn_rs.Tunnel.PppEngine.Replies.{
  configure_acknowledged, terminate_acknowledged, Answers,
}

abbrev address : Ipv4Addr
address = Ipv4.new 10 212 134 200

-- Two packets that hold a flag and an escape.
abbrev pub first : PppPacket
first = new (0x00 ∷ 0x21 ∷ 0x7e ∷ 0x01 ∷ [])

abbrev pub second : PppPacket
second = new (0xc0 ∷ 0x21 ∷ 0x7d ∷ [])

abbrev waiting : PppEngine
waiting = record new_engine { ipcp_identifier = some 3; state = closed }

abbrev ack : PppPacket
ack = control_packet protocol_ipcp 2 3 (3 ∷ 6 ∷ octets address)

-- Their stream, cut inside the first frame and behind its escape.
abbrev pub chunks : List Bytes
chunks =
    (0x7e ∷ 0xff ∷ 0x7d ∷ 0x23 ∷ 0x7d ∷ [])
    ∷ (0x20 ∷ 0x21 ∷ 0x7d ∷ 0x5e ∷ 0x7d ∷ 0x21 ∷ 0xd3 ∷ 0x35 ∷ 0x7e ∷ [])
    ∷ (0xff ∷ 0x7d ∷ 0x23 ∷ 0xc0 ∷ 0x21 ∷ 0x7d ∷ 0x5d ∷ 0xf3 ∷ 0x87 ∷ 0x7e ∷ [])
    ∷ []

pub encoded : join chunks ≡ encode_all Hdlc.new (first.data' ∷ second.data' ∷ [])
unfolding encode_all Hdlc.encode Hdlc.push_all_escaped Hdlc.push_escaped Hdlc.escaped
    Hdlc.in_sending_accm Hdlc.frame_checksum_16bit Hdlc.fcs_step
encoded = refl

push_chunks-encode_all_example :
    (last : PppdPtyDecoder) × (push_chunks new_decoder chunks
      ≡ some (ok (first ∷ second ∷ []), last))
    × (scan hunting last.buffer ≡ ([], inside []))
push_chunks-encode_all_example =
    push_chunks-encode_all first (second ∷ []) chunks (ground arith) encoded (omega arith)

-- The rest of a frame of which only the flag and one byte came before; the frame is not whole yet.
push_bytes-scan_example :
    (decoder' : PppdPtyDecoder) × (push_bytes (record { buffer = 0x7e ∷ 0xff ∷ [] }) (0x7d ∷ [])
      ≡ some (decode_all (scan (inside (0xff ∷ [])) (0x7d ∷ [])).0, decoder'))
    × Leaves
        (0x7e ∷ 0xff ∷ 0x7d ∷ [])
        (scan (inside (0xff ∷ [])) (0x7d ∷ [])).1
        (decode_all (scan (inside (0xff ∷ [])) (0x7d ∷ [])).0)
        decoder'
push_bytes-scan_example =
    push_bytes-scan (record { buffer = 0x7e ∷ 0xff ∷ [] }) (inside (0xff ∷ [])) (0x7d ∷ []) refl
      (omega arith)

Reach-IsValid_example : IsValid (start new_engine)
Reach-IsValid_example = Reach-IsValid (step here (starts new_engine))

handled :
    handle_incoming ack waiting
    ≡ ok (up address none [] ∷ [], record waiting { local_ip = some address; state = opened })
handled = acknowledgement_opens 3 address waiting refl refl

handle_incoming_opens_example :
    IsOpening ack
      (up address none [] ∷ [])
      waiting
      (record waiting { local_ip = some address; state = opened })
handle_incoming_opens_example =
    handle_incoming_opens ack waiting (record waiting { local_ip = some address; state = opened })
      (up address none [] ∷ []) refl handled refl

run-replies_example :
    (last : PppEngine) × (run (replies (1 ∷ 4 ∷ 5 ∷ 74 ∷ []) address) (start new_engine)
      ≡ ok (up address none [] ∷ [], last))
    × (last.state ≡ opened)
    × (last.local_ip ≡ some address)
run-replies_example = run-replies (1 ∷ 4 ∷ 5 ∷ 74 ∷ []) address (omega arith) refl

configure_acknowledged_example :
    Answers waiting []
      (control_packet protocol_lcp 2 7 (1 ∷ 4 ∷ 5 ∷ 74 ∷ []))
      (handle_incoming (control_packet protocol_lcp 1 7 (1 ∷ 4 ∷ 5 ∷ 74 ∷ [])) waiting)
    × Answers waiting []
        (control_packet protocol_ipcp 2 7 (1 ∷ 4 ∷ 5 ∷ 74 ∷ []))
        (handle_incoming (control_packet protocol_ipcp 1 7 (1 ∷ 4 ∷ 5 ∷ 74 ∷ [])) waiting)
configure_acknowledged_example =
    configure_acknowledged 7 (1 ∷ 4 ∷ 5 ∷ 74 ∷ []) waiting (omega arith)

terminate_acknowledged_example :
    ((after : PppEngine) × (handle_incoming (control_packet protocol_lcp 5 9 []) waiting
        ≡ ok (down ∷ [], after))
      × (after.state ≡ closed)
      × (after.outgoing ≡ control_packet protocol_lcp 6 9 [] ∷ []))
    × ((after : PppEngine) × (handle_incoming (control_packet protocol_ipcp 5 9 []) waiting
          ≡ ok (down ∷ [], after))
        × (after.state ≡ closed)
        × (after.outgoing ≡ control_packet protocol_ipcp 6 9 [] ∷ []))
terminate_acknowledged_example = terminate_acknowledged 9 [] waiting (omega arith)

read_all-write_all_example :
    (stream : Bytes) × (write_all [] (first ∷ second ∷ []) ≡ ok stream)
    × (read_all 2 (stream ++ (0x00 ∷ [])) ≡ ok (first ∷ second ∷ [], 0x00 ∷ []))
read_all-write_all_example =
    read_all-write_all (first ∷ second ∷ []) (0x00 ∷ [])
      ((omega arith, omega arith), ((omega arith, omega arith), tt))

decode-encode_for_tls_example :
    (frame : Bytes) × (encode_for_tls (new (1 ∷ 2 ∷ [])) ≡ ok frame)
    × (length frame ≡ length {A = ℕ} (1 ∷ 2 ∷ []) + header_len)
    × (decode_from_tls_frame frame ≡ ok (new (1 ∷ 2 ∷ [])))
decode-encode_for_tls_example = decode-encode_for_tls (1 ∷ 2 ∷ []) (omega arith) (omega arith)

abbrev frame : Bytes
frame = 0x00 ∷ 0x08 ∷ 0x50 ∷ 0x50 ∷ 0x00 ∷ 0x02 ∷ 0x01 ∷ 0x02 ∷ []

decoded : decode_from_tls_frame frame ≡ ok (new (1 ∷ 2 ∷ []))
unfolding decode_from_tls_frame
decoded = refl

encode-decode_from_tls_frame_example : encode_for_tls (new (1 ∷ 2 ∷ [])) ≡ ok frame
encode-decode_from_tls_frame_example =
    encode-decode_from_tls_frame frame (new (1 ∷ 2 ∷ [])) (ground arith) decoded

-- A compression option in front of the address.
parse-encode_options_example :
    parse_ipcp_ip_address (
      encode_options (
        record { kind = 2; body = 0x00 ∷ 0x2d ∷ [] }
        ∷ record { kind = 3; body = octets address }
        ∷ []))
    ≡ first_address (
        record { kind = 2; body = 0x00 ∷ 0x2d ∷ [] }
        ∷ record { kind = 3; body = octets address }
        ∷ [])
parse-encode_options_example =
    parse-encode_options (
      record { kind = 2; body = 0x00 ∷ 0x2d ∷ [] }
      ∷ record { kind = 3; body = octets address }
      ∷ [])

-- An option whose length is 0 ends the search.
options_loop_total_example : options_loop 4 (3 ∷ 0 ∷ 1 ∷ []) 0 ≢ none
options_loop_total_example = options_loop_total 4 0 (3 ∷ 0 ∷ 1 ∷ []) (omega arith) (omega arith)
