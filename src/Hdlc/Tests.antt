-- ===== src/Hdlc/Tests.antt =====
-- The packet of the unit tests of src/hdlc.rs, and the theorems at concrete buffers.
use openfortivpn_rs.Hdlc.{
  new, push_all_escaped, push_escaped, escaped, in_sending_accm, frame_checksum_16bit, fcs_step,
  unescape, in_receiving_accm, has_address_control, encode, find_frame, decode,
}
use openfortivpn_rs.Hdlc.RoundTrip.{frame_of, decode-frame_of}
use openfortivpn_rs.Hdlc.Frames.Found.{Finds, find_frame-Finds}
use openfortivpn_rs.Common.{arith, ◌+◌, [], ◌∷◌, ◌≡◌, refl}
use openfortivpn_rs.Common.Bytes.{Bytes, slice}
use openfortivpn_rs.Common.Error.{Result, ◌>>=◌, ok}

abbrev sample : Bytes
sample = 0x80 ∷ 0x21 ∷ 0x01 ∷ 0x7d ∷ 0x7e ∷ 0x00 ∷ 0x1f ∷ 0x20 ∷ 0xff ∷ []

-- `find_frame`, then `decode` of the slice.
abbrev first_packet : Bytes → Result Bytes
first_packet buffer = do
  (len, start) ← find_frame buffer 0
  decode (slice start (start + len) buffer)

round_trip : first_packet (encode new sample).0 ≡ ok sample
unfolding encode push_all_escaped push_escaped escaped in_sending_accm frame_checksum_16bit fcs_step
    decode unescape in_receiving_accm has_address_control find_frame
round_trip = refl

decode-frame_of_example : decode (frame_of sample) ≡ ok sample
decode-frame_of_example = decode-frame_of sample (ground arith) (omega arith)

-- Noise, two flags, a frame of two bytes and its end.
find_frame-Finds_example :
    Finds
      (0x00 ∷ 0x7e ∷ 0x7e ∷ 0x01 ∷ 0x02 ∷ 0x7e ∷ [])
      0
      (find_frame (0x00 ∷ 0x7e ∷ 0x7e ∷ 0x01 ∷ 0x02 ∷ 0x7e ∷ []) 0)
find_frame-Finds_example = find_frame-Finds (0x00 ∷ 0x7e ∷ 0x7e ∷ 0x01 ∷ 0x02 ∷ 0x7e ∷ []) 0
