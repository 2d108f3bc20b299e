-- ===== src/Hdlc/RoundTrip.antt =====
-- `decode` of src/hdlc.rs undoes `encode`, and the frames of a stream of encoded packets are found again.
use openfortivpn_rs.Hdlc.{
  HdlcCodec, new, frame_checksum_16bit, address_control_checksum, good_final_fcs, escaped,
  push_escaped, push_all_escaped, unescape, has_address_control, encode, decode,
}
use openfortivpn_rs.Hdlc.Checksum.{
  frame_checksum_16bit-lt, frame_checksum_16bit-append, frame_checksum_16bit_residue,
}
use openfortivpn_rs.Hdlc.Escape.{
  NoFlag, escaped_all, push_all_escaped-append, escaped_all-append, escaped_all-NoFlag,
  unescape-escaped_all, length-escaped_all,
}
use openfortivpn_rs.Hdlc.Frames.{hunting, inside, scan, prepend, scan_body}
use openfortivpn_rs.Common.{
  ℕ, ◌+◌, ◌-◌, ◌/◌, ◌^◌, ◌≤◌, ◌<◌, bit_and, bit_xor, true, false, List, [], ◌∷◌, ◌++◌, append_assoc,
  append-nil, ◌≡◌, refl, sym, ap, ◌∙◌, arith, if◌then◌else◌, le→ltb, length, length-append, take,
  drop, take-length, map, All,
}
use openfortivpn_rs.Common.Bits.{bit_and_mask, bit_xor-lt}
use openfortivpn_rs.Common.Bytes.{Bytes, IsBytes, IsBytes-append}
use openfortivpn_rs.Common.Error.{ok}

abbrev checksum : Bytes → ℕ
checksum packet = bit_xor (frame_checksum_16bit address_control_checksum packet) 0xffff

-- The packet with its frame check sequence.
abbrev checked : Bytes → Bytes
checked packet = packet ++ (bit_and (checksum packet) 0x00ff ∷ checksum packet / 2 ^ 8 ∷ [])

-- What stands between the flags.
pub frame_of : Bytes → Bytes
frame_of packet = 0xff ∷ 0x7d ∷ 0x23 ∷ escaped_all (checked packet)

checksum-lt : (packet : Bytes) → checksum packet < 65536
checksum-lt packet =
    bit_xor-lt 16 (frame_checksum_16bit address_control_checksum packet) 0xffff
      (frame_checksum_16bit-lt address_control_checksum packet (omega arith)) (omega arith)

checked-IsBytes : (packet : Bytes) → IsBytes packet → IsBytes (checked packet)
checked-IsBytes packet h =
    IsBytes-append packet (bit_and (checksum packet) 0x00ff ∷ checksum packet / 2 ^ 8 ∷ []) h
      (omega (arith, bit_and_mask 8 (checksum packet)), (omega (arith, checksum-lt packet), tt))

push_two :
    (out : Bytes) (a b : ℕ) → push_escaped (push_escaped out a) b ≡ out ++ escaped_all (a ∷ b ∷ [])
unfolding push_escaped escaped_all
push_two out a b =
    append_assoc out (escaped a) (escaped b)
    ∙ ap (λ t. out ++ (escaped a ++ t)) (sym (append-nil (escaped b)))

pushed :
    (head packet : Bytes) (a b : ℕ)
    → push_escaped (push_escaped (push_all_escaped head packet) a) b
      ≡ head ++ escaped_all (packet ++ (a ∷ b ∷ []))
pushed head packet a b =
    push_two (push_all_escaped head packet) a b
    ∙ ap (λ t. t ++ escaped_all (a ∷ b ∷ [])) (push_all_escaped-append head packet)
    ∙ append_assoc head _ _
    ∙ ap (λ t. head ++ t) (sym (escaped_all-append packet (a ∷ b ∷ [])))

-- The flag before the first frame only, the frame, and the closing flag.
pub encode-frame_of :
    (codec : HdlcCodec) (packet : Bytes)
    → encode codec packet ≡ (
      (if codec.need_flag_sequence then 0x7e ∷ [] else []) ++ (frame_of packet ++ 0x7e ∷ []),
      record { need_flag_sequence = false },
    )
unfolding encode frame_of
encode-frame_of codec packet = rw pushed (simp append_assoc)

frame_of-NoFlag : (packet : Bytes) → IsBytes packet → NoFlag (frame_of packet)
unfolding frame_of
frame_of-NoFlag packet h =
    (refl, (refl, (refl, escaped_all-NoFlag (checked packet) (checked-IsBytes packet h))))

length-checked : (packet : Bytes) → length (checked packet) ≡ length packet + 2
length-checked packet =
    omega (
      arith,
      length-append packet (bit_and (checksum packet) 0x00ff ∷ checksum packet / 2 ^ 8 ∷ []),
    )

checked_residue :
    (packet : Bytes)
    → frame_checksum_16bit address_control_checksum (checked packet) ≡ good_final_fcs
checked_residue packet =
    frame_checksum_16bit-append address_control_checksum packet _
    ∙ frame_checksum_16bit_residue (frame_checksum_16bit address_control_checksum packet)
        (frame_checksum_16bit-lt address_control_checksum packet (omega arith))

-- The loop of `decode` on the body of an encoded frame.
unescape-checked :
    (packet : Bytes)
    → IsBytes packet
    → unescape false [] (escaped_all (checked packet)) ≡ ok (false, checked packet)
unfolding unescape
unescape-checked packet h =
    ap (unescape false []) (sym (append-nil (escaped_all (checked packet))))
    ∙ unescape-escaped_all [] (checked packet) [] (checked-IsBytes packet h)

decode_steps :
    (frame out : Bytes)
    → 5 ≤ length frame
    → has_address_control frame ≡ true
    → unescape false [] (drop 3 frame) ≡ ok (false, out)
    → 3 ≤ length out
    → frame_checksum_16bit address_control_checksum out ≡ good_final_fcs
    → decode frame ≡ ok (take (length out - 2) out)
unfolding decode
decode_steps frame out long head body enough sum =
    rw (le→ltb (length frame) 5 long, head, body, le→ltb (length out) 3 enough, sum)

frame_of-has_address_control : (packet : Bytes) → has_address_control (frame_of packet) ≡ true
unfolding has_address_control frame_of
frame_of-has_address_control packet = ground arith

-- `decode` reads back every packet of bytes that is not empty from its frame: the address and control
-- fields, then the packet and its checksum, escaped.
pub decode-frame_of :
    (packet : Bytes) → IsBytes packet → 0 < length packet → decode (frame_of packet) ≡ ok packet
unfolding frame_of
decode-frame_of packet h ne =
    decode_steps (frame_of packet) (checked packet)
      (omega (arith, length-escaped_all (checked packet), length-checked packet))
      (frame_of-has_address_control packet) (unescape-checked packet h)
      (omega (arith, length-checked packet)) (checked_residue packet)
    ∙ ap ok (
        ap (λ n. take n (checked packet)) (omega (arith, length-checked packet))
        ∙ take-length packet _)

-- The stream of `encode` over packets, with the codec's flag.
unfoldable pub encode_all : HdlcCodec → List Bytes → Bytes
encode_all codec [] = []
encode_all codec (packet ∷ packets) =
    let (frame, codec') = encode codec packet in frame ++ encode_all codec' packets

frame_of_first :
    (packet rest : Bytes)
    → IsBytes packet
    → scan (inside []) (frame_of packet ++ 0x7e ∷ rest)
      ≡ prepend (frame_of packet ∷ []) (scan (inside []) rest)
frame_of_first packet rest h =
    scan_body [] (frame_of packet) (0x7e ∷ rest) (frame_of-NoFlag packet h)
    ∙ unfold frame_of in refl

-- The codec after its first frame writes the frames of the packets, each behind the flag that
-- closed the one before.
pub scan-encode_all :
    (packets : List Bytes)
    → All IsBytes packets
    → scan (inside []) (encode_all (record { need_flag_sequence = false }) packets)
      ≡ (map frame_of packets, inside [])
unfolding encode_all
scan-encode_all [] h = refl
scan-encode_all (packet ∷ packets) h = rw encode-frame_of (
    ap (scan (inside [])) (append_assoc (frame_of packet) (0x7e ∷ []) _)
    ∙ frame_of_first packet _ h.0
    ∙ ap (prepend (frame_of packet ∷ [])) (scan-encode_all packets h.1))

-- A new codec opens the stream with a flag.
pub scan-encode_all-new :
    (packet : Bytes) (packets : List Bytes)
    → All IsBytes (packet ∷ packets)
    → scan hunting (encode_all new (packet ∷ packets))
      ≡ (map frame_of (packet ∷ packets), inside [])
unfolding encode_all
scan-encode_all-new packet packets h = rw encode-frame_of (
    ap (scan (inside [])) (append_assoc (frame_of packet) (0x7e ∷ []) _)
    ∙ frame_of_first packet _ h.0
    ∙ ap (prepend (frame_of packet ∷ [])) (scan-encode_all packets h.1))
