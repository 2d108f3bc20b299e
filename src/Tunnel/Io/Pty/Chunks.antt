-- ===== src/Tunnel/Io/Pty/Chunks.antt =====
-- The decoder of src/tunnel/io.rs on a stream that arrives in pieces.
use openfortivpn_rs.Hdlc
use openfortivpn_rs.Hdlc.Frames.{Mode, hunting, inside, scan, scan-append}
use openfortivpn_rs.Hdlc.RoundTrip.{frame_of, decode-frame_of, encode_all, scan-encode_all-new}
use openfortivpn_rs.Tunnel.Io.{PppdPtyDecoder, new_decoder, push_bytes, max_pty_buffer}
use openfortivpn_rs.Tunnel.Io.Pty.{decode_all, push_bytes-scan}
use openfortivpn_rs.Tunnel.Packet.{PppPacket}
use openfortivpn_rs.Common.{
  ◌+◌, ◌≤◌, ◌<◌, List, [], ◌∷◌, ◌++◌, map, ◌≡◌, refl, sym, ap, ◌∙◌, arith, Option, none, some,
  length, length-append, All,
}
use openfortivpn_rs.Common.Bytes.{Bytes, IsBytes}
use openfortivpn_rs.Common.Error.{Result, ok, err, ◌>>=◌, >>=-eq-ok}

-- What pushing bytes to a decoder of type `D` returns. `none` is a call that does not return.
abbrev pub Pushed : Type 0 → Type 0
Pushed D = Option (Result (List PppPacket) × D)

abbrev pub with_earlier : {D : Type 0} → List PppPacket → Pushed D → Pushed D
with_earlier packets none = none
with_earlier packets (some (ok more, last)) = some (ok (packets ++ more), last)
with_earlier packets (some (err e, last)) = some (err e, last)

-- What a call returned, and what `rest` returns from the decoder that it left.
abbrev pub and_then : {D : Type 0} → Pushed D → (D → Pushed D) → Pushed D
and_then none rest = none
and_then (some (ok packets, decoder)) rest = with_earlier packets (rest decoder)
and_then (some (err e, decoder)) rest = some (err e, decoder)

pub with_earlier_inv :
    {D : Type 0} (ps packets : List PppPacket) (last : D) (r : Pushed D)
    → with_earlier ps r ≡ some (ok packets, last)
    → (qs : List PppPacket) × (r ≡ some (ok qs, last)) × (ps ++ qs ≡ packets)
with_earlier_inv ps packets last none e = absurd (cc e)
with_earlier_inv ps packets last (some (err x, d)) e = absurd (cc e)
with_earlier_inv ps packets last (some (ok qs, d)) e = (qs, ap (λ t. some (ok qs, t)) (cc e), cc e)

pub and_then_inv :
    {D : Type 0} (packets : List PppPacket) (last : D) (r : Pushed D) (rest : D → Pushed D)
    → and_then r rest ≡ some (ok packets, last)
    → (ps qs : List PppPacket) × (decoder : D) × (r ≡ some (ok ps, decoder))
      × (rest decoder ≡ some (ok qs, last))
      × (ps ++ qs ≡ packets)
and_then_inv packets last none rest e = absurd (cc e)
and_then_inv packets last (some (err x, d)) rest e = absurd (cc e)
and_then_inv packets last (some (ok ps, d)) rest e =
    let (qs, a, b) = with_earlier_inv ps packets last (rest d) e in (ps, qs, d, refl, a, b)

-- Calls of `push_bytes` with one piece after another, and all that they return.
unfoldable pub push_chunks : PppdPtyDecoder → List Bytes → Pushed PppdPtyDecoder
push_chunks decoder [] = some (ok [], decoder)
push_chunks decoder (chunk ∷ chunks) =
    and_then (push_bytes decoder chunk) (λ decoder'. push_chunks decoder' chunks)

push_chunks_step :
    (decoder decoder' last : PppdPtyDecoder) (chunk : Bytes) (chunks : List Bytes)
    (ps qs : List PppPacket)
    → push_bytes decoder chunk ≡ some (ok ps, decoder')
    → push_chunks decoder' chunks ≡ some (ok qs, last)
    → push_chunks decoder (chunk ∷ chunks) ≡ some (ok (ps ++ qs), last)
unfolding push_chunks
push_chunks_step decoder decoder' last chunk chunks ps qs a b =
    rw (a, push_chunks) (ap (with_earlier ps) b)

abbrev pub join : List Bytes → Bytes
join [] = []
join (chunk ∷ chunks) = chunk ++ join chunks

decode_all-append :
    (xs ys : List Bytes)
    → decode_all (xs ++ ys) ≡ (decode_all xs >>= λ ps. decode_all ys >>= λ qs. ok (ps ++ qs))
unfolding decode_all
decode_all-append [] ys = ground arith
decode_all-append (x ∷ xs) ys = ground (arith, decode_all-append xs ys)

decode_all_nil : decode_all [] ≡ ok []
unfolding decode_all
decode_all_nil = refl

decode_all_parts :
    (xs ys : List Bytes) (packets : List PppPacket)
    → decode_all (xs ++ ys) ≡ ok packets
    → (ps qs : List PppPacket) × (decode_all xs ≡ ok ps)
      × (decode_all ys ≡ ok qs)
      × (ps ++ qs ≡ packets)
decode_all_parts xs ys packets h =
    let (ps, a, h') =
      >>=-eq-ok (decode_all xs) (λ ps. decode_all ys >>= λ qs. ok (ps ++ qs))
        (sym (decode_all-append xs ys) ∙ h) in
    let (qs, b, e) = >>=-eq-ok (decode_all ys) (λ qs. ok (ps ++ qs)) h' in (ps, qs, a, b, cc e)

-- A stream of frames that all decode gives their packets, in whatever pieces it arrives.
push_chunks-scan :
    (chunks : List Bytes) (decoder : PppdPtyDecoder) (mode : Mode) (packets : List PppPacket)
    → scan hunting decoder.buffer ≡ ([], mode)
    → length decoder.buffer + length (join chunks) ≤ max_pty_buffer
    → decode_all (scan mode (join chunks)).0 ≡ ok packets
    → (last : PppdPtyDecoder) × (push_chunks decoder chunks ≡ some (ok packets, last))
      × (scan hunting last.buffer ≡ ([], (scan mode (join chunks)).1))
unfolding push_chunks
push_chunks-scan [] decoder mode packets o f d =
    (decoder, ap (λ t. some (t, decoder)) (sym decode_all_nil ∙ d), o)
push_chunks-scan (chunk ∷ chunks) decoder mode packets o f d =
    let split = scan-append mode chunk (join chunks) in
    let mode' = (scan mode chunk).1 in
    let (ps, qs, a, b, e) =
      decode_all_parts (scan mode chunk).0 (scan mode' (join chunks)).0 packets
        (sym (ap (λ t. decode_all t.0) split) ∙ d) in
    let (decoder', pushed, leaves) =
      push_bytes-scan decoder mode chunk o (omega (arith, length-append chunk (join chunks))) in
    let kept : (scan hunting decoder'.buffer ≡ ([], mode'))
        × (length decoder'.buffer ≤ length (decoder.buffer ++ chunk)) =
      rw a at leaves in
    let (last, rest, o') =
      push_chunks-scan chunks decoder' mode' qs kept.0
        (omega
          (arith, kept.1, length-append decoder.buffer chunk, length-append chunk (join chunks)))
        b in
    (
      last,
      push_chunks_step decoder decoder' last chunk chunks ps qs
            (pushed ∙ ap (λ t. some (t, decoder')) a) rest
          ∙ ap (λ t. some (ok t, last)) e,
      o' ∙ ap (λ (t : List Bytes × Mode). ([], t.1)) (sym split),
    )

abbrev pub IsPacket : PppPacket → Type 0
IsPacket packet = IsBytes packet.data' × (0 < length packet.data')

abbrev pub payloads : List PppPacket → List Bytes
payloads = map (λ packet. packet.data')

decode_all-frame_of :
    (packets : List PppPacket)
    → All IsPacket packets
    → decode_all (map frame_of (payloads packets)) ≡ ok packets
unfolding decode_all
decode_all-frame_of [] h = refl
decode_all-frame_of (packet ∷ packets) h =
    rw (decode-frame_of packet.data' h.0.0 h.0.1, decode_all-frame_of packets h.1)

payloads-IsBytes :
    (packets : List PppPacket) → All IsPacket packets → All IsBytes (payloads packets)
payloads-IsBytes [] h = tt
payloads-IsBytes (packet ∷ packets) h = (h.0.0, payloads-IsBytes packets h.1)

-- Packets that are not empty, encoded one after another by a new codec and pushed to a new decoder in
-- pieces of any size, of 65536 bytes in all at most, come out in order, each once and no other, and
-- the decoder then stands inside an empty frame.
pub push_chunks-encode_all :
    (packet : PppPacket) (packets : List PppPacket) (chunks : List Bytes)
    → All IsPacket (packet ∷ packets)
    → join chunks ≡ encode_all Hdlc.new (payloads (packet ∷ packets))
    → length (join chunks) ≤ max_pty_buffer
    → (last : PppdPtyDecoder) × (push_chunks new_decoder chunks
        ≡ some (ok (packet ∷ packets), last))
      × (scan hunting last.buffer ≡ ([], inside []))
push_chunks-encode_all packet packets chunks h e fits =
    let read : scan hunting (join chunks)
        ≡ (map frame_of (payloads (packet ∷ packets)), inside []) =
      ap (scan hunting) e
      ∙ scan-encode_all-new packet.data' (payloads packets)
          (payloads-IsBytes (packet ∷ packets) h) in
    let (last, a, b) =
      push_chunks-scan chunks new_decoder hunting (packet ∷ packets) refl (omega arith)
        (ap (λ t. decode_all t.0) read ∙ decode_all-frame_of (packet ∷ packets) h) in
    (last, a, b ∙ ap (λ t. ([], t.1)) read)
