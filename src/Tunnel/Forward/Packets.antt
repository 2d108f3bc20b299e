-- ===== src/Tunnel/Forward/Packets.antt =====
-- Packets written to the TLS stream, read by the decoder of src/tunnel/forward.rs.
use openfortivpn_rs.Common.{
  ℕ, zero, suc, ◌+◌, ◌≤◌, ◌<◌, none, some, List, [], ◌∷◌, ◌++◌, append_assoc, append-nil, length,
  drop, length-append, take-all, drop-length, ◌≡◌, refl, sym, ap, ◌∙◌, arith, All, subst,
}
use openfortivpn_rs.Common.Bytes.{Bytes, equal}
use openfortivpn_rs.Common.Error.{ok, err}
use openfortivpn_rs.Tunnel.Packet.{PppPacket, new}
use openfortivpn_rs.Tunnel.Io.Tls.{
  IsSendable, header, decode_header, stream_of, write_all, write_all-stream_of,
}
use openfortivpn_rs.Tunnel.Io.{Round, stop, fail, found}
use openfortivpn_rs.Tunnel.Io.Pty.Chunks.{with_earlier_inv, and_then, join}
use openfortivpn_rs.Tunnel.Forward.{
  TlsPacketStreamDecoder, tls_round, TlsPushed, tls_next, tls_loop, tls_push_bytes,
}
use openfortivpn_rs.Tunnel.Forward.Stream.{
  Decides, tls_round-Decides, continue, tls_push_bytes-continue,
}

tls_round-header :
    (bytes : Bytes)
    → 0 < length bytes
    → length bytes ≤ 65529
    → tls_round (header bytes ++ bytes) ≡ found (new bytes) (6 + length bytes)
unfolding tls_round equal
tls_round-header bytes ne fits = ground (
  arith,
  decode_header bytes ne fits,
  take-all (6 + length bytes) (header bytes ++ bytes) (omega arith),
)

tls_round-header_rest :
    (bytes rest : Bytes)
    → 0 < length bytes
    → length bytes ≤ 65529
    → tls_round ((header bytes ++ bytes) ++ rest) ≡ found (new bytes) (6 + length bytes)
tls_round-header_rest bytes rest ne fits =
    let d : Decides (header bytes ++ bytes) rest (found (new bytes) (6 + length bytes)) =
      subst (Decides (header bytes ++ bytes) rest) (tls_round-header bytes ne fits)
        (tls_round-Decides (header bytes ++ bytes) rest) in
    d.0

drop-header :
    (bytes rest : Bytes) → drop (6 + length bytes) ((header bytes ++ bytes) ++ rest) ≡ rest
drop-header bytes rest =
    let counted : 6 + length bytes ≡ length (header bytes ++ bytes) = omega arith in
    ap (λ n. drop n ((header bytes ++ bytes) ++ rest)) counted
    ∙ drop-length (header bytes ++ bytes) rest

tls_loop-stream_of :
    (fuel : ℕ) (packets ps : List PppPacket)
    → All IsSendable packets
    → length (stream_of packets) < fuel
    → tls_loop fuel (stream_of packets) ps ≡ some (ok (ps ++ packets), record { buffer = [] })
unfolding tls_loop stream_of
tls_loop-stream_of zero packets ps h f = absurd (omega arith)
tls_loop-stream_of (suc fuel) [] ps h f =
    unfold tls_round in ap (λ t. some (ok t, record { buffer = [] })) (sym (append-nil ps))
tls_loop-stream_of (suc fuel) (packet ∷ packets) ps h f =
    let bytes = packet.data' in
    rw (tls_round-header_rest bytes (stream_of packets) h.0.0 h.0.1) (
      ap (λ t. tls_loop fuel t (ps ++ packet ∷ [])) (drop-header bytes (stream_of packets))
      ∙ tls_loop-stream_of fuel packets (ps ++ packet ∷ []) h.1
          (omega (arith, length-append (header bytes ++ bytes) (stream_of packets)))
      ∙ ap (λ t. some (ok t, record { buffer = [] })) (append_assoc ps (packet ∷ []) packets))

-- Calls of `push_bytes` with one piece after another, and all that they return.
unfoldable pub push_chunks : TlsPacketStreamDecoder → List Bytes → TlsPushed
push_chunks decoder [] = some (ok [], decoder)
push_chunks decoder (chunk ∷ chunks) =
    and_then (tls_push_bytes decoder chunk) (λ decoder'. push_chunks decoder' chunks)

-- A decoder that holds no whole packet.
abbrev IsSettled : TlsPacketStreamDecoder → Type 0
IsSettled decoder = tls_round decoder.buffer ≡ stop

abbrev LeavesSettled : TlsPushed → Type 0
LeavesSettled none = Unit
LeavesSettled (some (err e, decoder)) = Unit
LeavesSettled (some (ok packets, decoder)) = IsSettled decoder

tls_next-LeavesSettled :
    (f : ℕ) (buffer : Bytes) (packets : List PppPacket) (r : Round)
    → ((b : Bytes) (ps : List PppPacket) → LeavesSettled (tls_loop f b ps))
    → tls_round buffer ≡ r
    → LeavesSettled (tls_next (tls_loop f) buffer packets r)
tls_next-LeavesSettled f buffer packets stop h e = e
tls_next-LeavesSettled f buffer packets (fail x) h e = tt
tls_next-LeavesSettled f buffer packets (found packet total) h e =
    h (drop total buffer) (packets ++ packet ∷ [])

tls_loop-LeavesSettled :
    (f : ℕ) (buffer : Bytes) (packets : List PppPacket) → LeavesSettled (tls_loop f buffer packets)
unfolding tls_loop
tls_loop-LeavesSettled zero buffer packets = tt
tls_loop-LeavesSettled (suc f) buffer packets =
    tls_next-LeavesSettled f buffer packets (tls_round buffer) (tls_loop-LeavesSettled f) refl

push_settled :
    (decoder : TlsPacketStreamDecoder)
    → IsSettled decoder
    → tls_push_bytes decoder [] ≡ some (ok [], decoder)
unfolding tls_push_bytes tls_loop
push_settled decoder h =
    ap (λ t. tls_loop (suc (length t)) t []) (append-nil decoder.buffer) ∙ rw h refl

push_chunks_after :
    (chunks : List Bytes) (pushed : TlsPushed) (last : TlsPacketStreamDecoder)
    (packets : List PppPacket)
    → LeavesSettled pushed
    → ((decoder : TlsPacketStreamDecoder) (ps : List PppPacket)
        → IsSettled decoder
        → tls_push_bytes decoder (join chunks) ≡ some (ok ps, last)
        → push_chunks decoder chunks ≡ some (ok ps, last))
    → continue (join chunks) pushed ≡ some (ok packets, last)
    → and_then pushed (λ decoder. push_chunks decoder chunks) ≡ some (ok packets, last)
push_chunks_after chunks none last packets s h e = absurd (cc e)
push_chunks_after chunks (some (err x, decoder)) last packets s h e = absurd (cc e)
push_chunks_after chunks (some (ok ps, decoder)) last packets s h e =
    let (qs, pushed, parts) =
      with_earlier_inv ps packets last (tls_push_bytes decoder (join chunks)) e in
    rw (h decoder qs s pushed) (ap (λ t. some (ok t, last)) parts)

push_chunks-join :
    (chunks : List Bytes) (decoder last : TlsPacketStreamDecoder) (packets : List PppPacket)
    → IsSettled decoder
    → tls_push_bytes decoder (join chunks) ≡ some (ok packets, last)
    → push_chunks decoder chunks ≡ some (ok packets, last)
unfolding push_chunks
push_chunks-join [] decoder last packets s e = sym (push_settled decoder s) ∙ e
push_chunks-join (chunk ∷ chunks) decoder last packets s e =
    push_chunks_after chunks (tls_push_bytes decoder chunk) last packets
      (unfold tls_push_bytes in tls_loop-LeavesSettled _ _ [])
      (λ d ps. push_chunks-join chunks d last ps)
      (sym (tls_push_bytes-continue decoder chunk (join chunks)) ∙ e)

-- Packets of 1 to 65529 bytes written one after another to the stream, pushed to a new decoder in
-- pieces of any size, come out in order, each once and no other, and the decoder is left empty.
pub push_chunks-write_all :
    (packets : List PppPacket) (chunks : List Bytes)
    → All IsSendable packets
    → write_all [] packets ≡ ok (join chunks)
    → push_chunks (record { buffer = [] }) chunks ≡ some (ok packets, record { buffer = [] })
push_chunks-write_all packets chunks h e =
    let same : stream_of packets ≡ join chunks = cc (write_all-stream_of [] packets h, e) in
    push_chunks-join chunks (record { buffer = [] }) (record { buffer = [] }) packets
      (unfold tls_round in refl)
      (unfold tls_push_bytes in
        (ap (λ t. tls_loop (suc (length t)) t []) (sym same)
          ∙ tls_loop-stream_of (suc (length (stream_of packets))) packets [] h (omega arith)))
