-- ===== src/Tunnel/Forward/ToTls.antt =====
-- The path of src/tunnel/forward.rs from the pseudo terminal to the TLS stream.
use openfortivpn_rs.Common.{
  ◌+◌, ◌≤◌, ◌<◌, ◌%◌, ◌^◌, some, List, [], ◌∷◌, ◌++◌, append_assoc, append-nil, map, length,
  length-append, ◌≡◌, refl, sym, ap, ◌∙◌, subst, arith, All, ℕ,
}
use openfortivpn_rs.Common.Bytes.{Bytes}
use openfortivpn_rs.Common.Error.{ok}
use openfortivpn_rs.Hdlc
use openfortivpn_rs.Hdlc.RoundTrip.{encode_all}
use openfortivpn_rs.Tunnel.Packet.{PppPacket}
use openfortivpn_rs.Tunnel.Io.{PppdPtyDecoder, push_bytes, max_pty_buffer}
use openfortivpn_rs.Tunnel.Io.Pty.Chunks.{
  and_then_inv, push_chunks, join, IsPacket, payloads, push_chunks-encode_all,
}
use openfortivpn_rs.Tunnel.Io.Tls.{
  IsSendable, header, encode_as_header, stream_of, write_all, write_all-stream_of,
}
use openfortivpn_rs.Tunnel.Forward.{
  ReadAnswer, got, Forward, new_forward, queue_for_tls, read_pty_into_tls_queue, push, count,
}
use openfortivpn_rs.Tunnel.Forward.Queue.{IsWriteQueue, pending, push_lem}

-- The packets wait behind the bytes that waited for the gateway, and are counted; `decoder` is left.
record Queued (s : Forward) (packets : List PppPacket) (decoder : PppdPtyDecoder) (s' : Forward)
    : Type 0 where
  waits : IsWriteQueue s'.tls_out
  stream : pending s'.tls_out ≡ pending s.tls_out ++ stream_of packets
  counted :
      s'.stats.pty_to_tls_packets % 2 ^ 64 ≡ (s.stats.pty_to_tls_packets + length packets) % 2 ^ 64
  decodes : s'.pty_decoder ≡ decoder

Queued-nil : (s : Forward) → IsWriteQueue s.tls_out → Queued s [] s.pty_decoder s
Queued-nil s q = record {
  waits = q;
  stream = unfold stream_of in sym (append-nil (pending s.tls_out));
  counted = omega arith;
  decodes = refl;
}

stream_of-append : (ps qs : List PppPacket) → stream_of (ps ++ qs) ≡ stream_of ps ++ stream_of qs
unfolding stream_of
stream_of-append [] qs = refl
stream_of-append (packet ∷ ps) qs =
    ap ((header packet.data' ++ packet.data') ++◌) (stream_of-append ps qs)
    ∙ sym (append_assoc (header packet.data' ++ packet.data') (stream_of ps) (stream_of qs))

Queued-then :
    (s s' s'' : Forward) (ps qs : List PppPacket) (d d' : PppdPtyDecoder)
    → Queued s ps d s'
    → Queued s' qs d' s''
    → Queued s (ps ++ qs) d' s''
Queued-then s s' s'' ps qs d d' a b = record {
  waits = b.waits;
  stream =
      b.stream
      ∙ ap (λ t. t ++ stream_of qs) a.stream
      ∙ append_assoc (pending s.tls_out) (stream_of ps) (stream_of qs)
      ∙ ap (pending s.tls_out ++◌) (sym (stream_of-append ps qs));
  counted = omega (arith, a.counted, b.counted, length-append ps qs);
  decodes = b.decodes;
}

-- One packet.
abbrev sent : PppPacket → Forward → Forward
sent packet s = record s {
  tls_out = push (header packet.data' ++ packet.data') (s.tls_out);
  stats = record (s.stats) { pty_to_tls_packets = count (s.stats.pty_to_tls_packets) };
}

sent-Queued :
    (packet : PppPacket) (s : Forward)
    → IsWriteQueue s.tls_out
    → Queued s (packet ∷ []) s.pty_decoder (sent packet s)
unfolding stream_of
sent-Queued packet s q =
    let frame = header packet.data' ++ packet.data' in
    let (waits, behind) = push_lem frame s.tls_out q in
    record {
      waits = waits;
      stream = behind ∙ ap (pending s.tls_out ++◌) (sym (append-nil frame));
      counted = omega arith;
      decodes = refl;
    }

queue_for_tls-Queued :
    (packets : List PppPacket) (s : Forward)
    → All IsSendable packets
    → IsWriteQueue s.tls_out
    → (s' : Forward) × (queue_for_tls packets s ≡ (ok tt, s')) × Queued s packets s.pty_decoder s'
unfolding queue_for_tls
queue_for_tls-Queued [] s h q = (s, refl, Queued-nil s q)
queue_for_tls-Queued (packet ∷ packets) s h q =
    let one = sent-Queued packet s q in
    let (s', e, later) = queue_for_tls-Queued packets (sent packet s) h.1 one.waits in
    (
      s',
      rw (queue_for_tls, encode_as_header packet.data' h.0.1) e,
      Queued-then s (sent packet s) s' (packet ∷ []) packets _ _ one later,
    )

-- One read of bytes, and what the loop does then.
read_pty_step :
    (b : ℕ) (bytes : Bytes) (answers : List ReadAnswer) (s s' : Forward) (packets : List PppPacket)
    (decoder : PppdPtyDecoder)
    → push_bytes s.pty_decoder (b ∷ bytes) ≡ some (ok packets, decoder)
    → queue_for_tls packets (record s { pty_decoder = decoder }) ≡ (ok tt, s')
    → read_pty_into_tls_queue (got (b ∷ bytes) ∷ answers) s ≡ read_pty_into_tls_queue answers s'
unfolding read_pty_into_tls_queue
read_pty_step b bytes answers s s' packets decoder e q = rw (read_pty_into_tls_queue, e, q) refl

pub All_parts :
    (ps qs : List PppPacket) → All IsSendable (ps ++ qs) → All IsSendable ps × All IsSendable qs
All_parts [] qs h = (tt, h)
All_parts (p ∷ ps) qs h = let (a, b) = All_parts ps qs h.1 in ((h.0, a), b)

abbrev pub IsChunk : Bytes → Type 0
IsChunk chunk = 0 < length chunk

read_pty-Queued :
    (chunks : List Bytes) (s : Forward) (last : PppdPtyDecoder) (packets : List PppPacket)
    → All IsChunk chunks
    → All IsSendable packets
    → IsWriteQueue s.tls_out
    → push_chunks s.pty_decoder chunks ≡ some (ok packets, last)
    → (s' : Forward) × (read_pty_into_tls_queue (map got chunks) s ≡ some (ok tt, s'))
      × Queued s packets last s'
read_pty-Queued [] s last packets c h q e =
    let (a, b) : ([] ≡ packets) × (s.pty_decoder ≡ last) = unfold push_chunks in (cc e, cc e) in
    (
      s,
      unfold read_pty_into_tls_queue in refl,
      subst (λ t. Queued s t last s) a (subst (λ t. Queued s [] t s) b (Queued-nil s q)),
    )
read_pty-Queued ([] ∷ chunks) s last packets c h q e = absurd (omega (arith, c.0))
read_pty-Queued ((b ∷ bytes) ∷ chunks) s last packets c h q e =
    let (ps, qs, d, pushed, rest, parts) =
      and_then_inv packets last (push_bytes s.pty_decoder (b ∷ bytes))
        (λ decoder. push_chunks decoder chunks) (unfold push_chunks in e) in
    let (first, others) = All_parts ps qs (subst (All IsSendable) (sym parts) h) in
    let (s₁, queued, one) = queue_for_tls-Queued ps (record s { pty_decoder = d }) first q in
    let (s', read, two) =
      read_pty-Queued chunks s₁ last qs c.1 others one.waits
        (ap (λ t. push_chunks t chunks) one.decodes ∙ rest) in
    (
      s',
      read_pty_step b bytes (map got chunks) s s₁ ps d pushed queued ∙ read,
      subst (λ t. Queued s t last s') parts
          (Queued-then s s₁ s' ps qs d last
            (record {
              waits = one.waits;
              stream = one.stream;
              counted = one.counted;
              decodes = one.decodes;
            })
            two),
    )

-- What a frame on the pseudo terminal holds and the gateway takes.
abbrev pub IsForwarded : PppPacket → Type 0
IsForwarded packet = IsPacket packet × (length packet.data' ≤ 65529)

forwarded_parts :
    (packets : List PppPacket)
    → All IsForwarded packets
    → All IsPacket packets × All IsSendable packets
forwarded_parts [] h = (tt, tt)
forwarded_parts (p ∷ ps) ((packet, fits), rest) =
    let (a, b) = forwarded_parts ps rest in ((packet, a), ((packet.1, fits), b))

-- Packets of 1 to 65529 bytes that pppd's encoder wrote, read from the pseudo terminal in pieces of
-- any size that are not empty, of 65536 bytes in all at most, are queued for the gateway: the bytes that
-- wait are those that writing the packets to the stream gives, so each packet stands there once, in
-- order, in the gateway's framing. The reads succeed and the packets are counted, modulo 2^64.
pub read_pty-encode_all :
    (packet : PppPacket) (packets : List PppPacket) (chunks : List Bytes)
    → All IsForwarded (packet ∷ packets)
    → All IsChunk chunks
    → join chunks ≡ encode_all Hdlc.new (payloads (packet ∷ packets))
    → length (join chunks) ≤ max_pty_buffer
    → (s : Forward) × (read_pty_into_tls_queue (map got chunks) new_forward ≡ some (ok tt, s))
      × IsWriteQueue s.tls_out
      × (write_all [] (packet ∷ packets) ≡ ok (pending s.tls_out))
      × (s.stats.pty_to_tls_packets % 2 ^ 64 ≡ length (packet ∷ packets) % 2 ^ 64)
read_pty-encode_all packet packets chunks h c e fits =
    let (are, sendable) = forwarded_parts (packet ∷ packets) h in
    let (last, pushed, _) = push_chunks-encode_all packet packets chunks are e fits in
    let (s, read, queued) =
      read_pty-Queued chunks new_forward last (packet ∷ packets) c sendable refl pushed in
    (
      s,
      read,
      queued.waits,
      write_all-stream_of [] (packet ∷ packets) sendable ∙ ap ok (sym queued.stream),
      omega (arith, queued.counted),
    )
