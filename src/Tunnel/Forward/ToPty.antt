-- ===== src/Tunnel/Forward/ToPty.antt =====
-- The path of src/tunnel/forward.rs from the TLS stream to the pseudo terminal.
use openfortivpn_rs.Common.{
  ◌+◌, ◌%◌, ◌^◌, ℕ, Option, none, some, List, [], ◌∷◌, ◌++◌, append_assoc, append-nil, map, length,
  length-append, ◌≡◌, refl, sym, ap, ◌∙◌, subst, arith, All,
}
use openfortivpn_rs.Common.Bytes.{Bytes}
use openfortivpn_rs.Common.Ipv4.{Ipv4Addr}
use openfortivpn_rs.Common.Error.{ok}
use openfortivpn_rs.Hdlc
use openfortivpn_rs.Hdlc.{HdlcCodec}
use openfortivpn_rs.Hdlc.RoundTrip.{encode_all}
use openfortivpn_rs.Tunnel.Packet.{PppPacket, ipcp_ipv4_address}
use openfortivpn_rs.Tunnel.Io.{encode_packet_for_pty}
use openfortivpn_rs.Tunnel.Io.Pty.Chunks.{and_then_inv, join, payloads}
use openfortivpn_rs.Tunnel.Io.Tls.{IsSendable, write_all}
use openfortivpn_rs.Tunnel.Forward.{
  ReadAnswer, got, Forward, new_forward, queue_for_pty, read_tls_into_pty_queue, push, count,
  observed, TlsPacketStreamDecoder, tls_push_bytes,
}
use openfortivpn_rs.Tunnel.Forward.Packets.{push_chunks, push_chunks-write_all}
use openfortivpn_rs.Tunnel.Forward.Queue.{IsWriteQueue, pending, push_lem}
use openfortivpn_rs.Tunnel.Forward.ToTls.{IsChunk}

-- The packets wait behind the bytes that waited for pppd, whatever is encoded later, and are counted;
-- `decoder` is left.
record Queued (s : Forward) (packets : List PppPacket) (decoder : TlsPacketStreamDecoder)
    (s' : Forward) : Type 0 where
  waits : IsWriteQueue s'.pty_out
  stream :
      (more : List Bytes)
      → pending s'.pty_out ++ encode_all s'.hdlc_encoder more
        ≡ pending s.pty_out ++ encode_all s.hdlc_encoder (payloads packets ++ more)
  counted :
      s'.stats.tls_to_pty_packets % 2 ^ 64 ≡ (s.stats.tls_to_pty_packets + length packets) % 2 ^ 64
  decodes : s'.tls_decoder ≡ decoder

Queued-nil : (s : Forward) → IsWriteQueue s.pty_out → Queued s [] s.tls_decoder s
Queued-nil s q = record { waits = q; stream = λ more. refl; counted = omega arith; decodes = refl }

pub payloads-append : (ps qs : List PppPacket) → payloads (ps ++ qs) ≡ payloads ps ++ payloads qs
payloads-append [] qs = refl
payloads-append (p ∷ ps) qs = ap (p.data' ∷◌) (payloads-append ps qs)

Queued-then :
    (s s' s'' : Forward) (ps qs : List PppPacket) (d d' : TlsPacketStreamDecoder)
    → Queued s ps d s'
    → Queued s' qs d' s''
    → Queued s (ps ++ qs) d' s''
Queued-then s s' s'' ps qs d d' a b = record {
  waits = b.waits;
  stream = λ more.
      b.stream more
      ∙ a.stream (payloads qs ++ more)
      ∙ ap (λ t. pending s.pty_out ++ encode_all s.hdlc_encoder t)
          (sym (append_assoc (payloads ps) (payloads qs) more)
            ∙ ap (λ t. t ++ more) (sym (payloads-append ps qs)));
  counted = omega (arith, a.counted, b.counted, length-append ps qs);
  decodes = b.decodes;
}

-- The body of the `for`, behind the callback.
abbrev pub passed : PppPacket → Forward → Forward
passed packet s = record s {
  hdlc_encoder = (encode_packet_for_pty s.hdlc_encoder packet).1;
  pty_out = push (encode_packet_for_pty s.hdlc_encoder packet).0 s.pty_out;
  stats = record (s.stats) { tls_to_pty_packets = count (s.stats.tls_to_pty_packets) };
}

passed-Queued :
    (address : Option Ipv4Addr) (packet : PppPacket) (s : Forward)
    → IsWriteQueue s.pty_out
    → Queued s (packet ∷ []) s.tls_decoder (passed packet (observed address s))
passed-Queued none packet s q =
    let encoded = Hdlc.encode s.hdlc_encoder packet.data' in
    let (waits, behind) = push_lem encoded.0 s.pty_out q in
    record {
      waits = unfold encode_packet_for_pty in waits;
      stream = λ more.
          unfold encode_packet_for_pty encode_all in
          (ap (λ t. t ++ encode_all encoded.1 more) behind
            ∙ append_assoc (pending s.pty_out) encoded.0 (encode_all encoded.1 more));
      counted = omega arith;
      decodes = refl;
    }
passed-Queued (some address) packet s q =
    let encoded = Hdlc.encode s.hdlc_encoder packet.data' in
    let (waits, behind) = push_lem encoded.0 s.pty_out q in
    record {
      waits = unfold encode_packet_for_pty in waits;
      stream = λ more.
          unfold encode_packet_for_pty encode_all in
          (ap (λ t. t ++ encode_all encoded.1 more) behind
            ∙ append_assoc (pending s.pty_out) encoded.0 (encode_all encoded.1 more));
      counted = omega arith;
      decodes = refl;
    }

queue_for_pty-Queued :
    (packets : List PppPacket) (s : Forward)
    → IsWriteQueue s.pty_out
    → Queued s packets s.tls_decoder (queue_for_pty packets s)
unfolding queue_for_pty
queue_for_pty-Queued [] s q = Queued-nil s q
queue_for_pty-Queued (packet ∷ packets) s q =
    let one = passed-Queued (ipcp_ipv4_address packet) packet s q in
    let s' = passed packet (observed (ipcp_ipv4_address packet) s) in
    Queued-then s s' (queue_for_pty packets s') (packet ∷ []) packets _ _ one (
      subst (λ t. Queued s' packets t (queue_for_pty packets s')) one.decodes
        (queue_for_pty-Queued packets s' one.waits))

read_tls_step :
    (b : ℕ) (bytes : Bytes) (answers : List ReadAnswer) (s : Forward) (packets : List PppPacket)
    (decoder : TlsPacketStreamDecoder)
    → tls_push_bytes s.tls_decoder (b ∷ bytes) ≡ some (ok packets, decoder)
    → read_tls_into_pty_queue (got (b ∷ bytes) ∷ answers) s
      ≡ read_tls_into_pty_queue answers (queue_for_pty packets (record s { tls_decoder = decoder }))
unfolding read_tls_into_pty_queue
read_tls_step b bytes answers s packets decoder e = rw (read_tls_into_pty_queue, e) refl

read_tls-Queued :
    (chunks : List Bytes) (s : Forward) (last : TlsPacketStreamDecoder) (packets : List PppPacket)
    → All IsChunk chunks
    → IsWriteQueue s.pty_out
    → push_chunks s.tls_decoder chunks ≡ some (ok packets, last)
    → (s' : Forward) × (read_tls_into_pty_queue (map got chunks) s ≡ some (ok tt, s'))
      × Queued s packets last s'
read_tls-Queued [] s last packets c q e =
    let (a, b) : ([] ≡ packets) × (s.tls_decoder ≡ last) = unfold push_chunks in (cc e, cc e) in
    (
      s,
      unfold read_tls_into_pty_queue in refl,
      subst (λ t. Queued s t last s) a (subst (λ t. Queued s [] t s) b (Queued-nil s q)),
    )
read_tls-Queued ([] ∷ chunks) s last packets c q e = absurd (omega (arith, c.0))
read_tls-Queued ((b ∷ bytes) ∷ chunks) s last packets c q e =
    let (ps, qs, d, pushed, rest, parts) =
      and_then_inv packets last (tls_push_bytes s.tls_decoder (b ∷ bytes))
        (λ decoder. push_chunks decoder chunks) (unfold push_chunks in e) in
    let s₁ = queue_for_pty ps (record s { tls_decoder = d }) in
    let one = queue_for_pty-Queued ps (record s { tls_decoder = d }) q in
    let (s', read, two) =
      read_tls-Queued chunks s₁ last qs c.1 one.waits
        (ap (λ t. push_chunks t chunks) one.decodes ∙ rest) in
    (
      s',
      read_tls_step b bytes (map got chunks) s ps d pushed ∙ read,
      subst (λ t. Queued s t last s') parts
          (Queued-then s s₁ s' ps qs d last
            (record {
              waits = one.waits;
              stream = one.stream;
              counted = one.counted;
              decodes = one.decodes;
            })
            two),
    )

-- Packets of 1 to 65529 bytes that the gateway wrote to the stream, read from it in pieces of any size
-- that are not empty, are queued for pppd: the bytes that wait are those that encoding the packets
-- one after another with a new codec gives. The reads succeed and the packets are counted, modulo 2^64.
pub read_tls-write_all :
    (packets : List PppPacket) (chunks : List Bytes)
    → All IsSendable packets
    → All IsChunk chunks
    → write_all [] packets ≡ ok (join chunks)
    → (s : Forward) × (read_tls_into_pty_queue (map got chunks) new_forward ≡ some (ok tt, s))
      × IsWriteQueue s.pty_out
      × (pending s.pty_out ≡ encode_all Hdlc.new (payloads packets))
      × (s.stats.tls_to_pty_packets % 2 ^ 64 ≡ length packets % 2 ^ 64)
read_tls-write_all packets chunks h c e =
    let (s, read, queued) =
      read_tls-Queued chunks new_forward (record { buffer = [] }) packets c refl
        (push_chunks-write_all packets chunks h e) in
    let nothing : (codec : HdlcCodec) → encode_all codec [] ≡ [] =
      λ codec. unfold encode_all in refl in
    (
      s,
      read,
      queued.waits,
      sym (append-nil (pending s.pty_out))
          ∙ ap (pending s.pty_out ++◌) (sym (nothing s.hdlc_encoder))
          ∙ queued.stream []
          ∙ ap (encode_all Hdlc.new) (append-nil (payloads packets)),
      omega (arith, queued.counted),
    )
