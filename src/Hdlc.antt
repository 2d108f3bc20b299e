-- ===== src/Hdlc.antt =====
-- src/hdlc.rs: HDLC-like framing of PPP packets for the pppd pseudo terminal.
-- A codec is its one flag. `find_frame` walks the suffix of the buffer at the current index; the
-- `&mut start` argument is returned beside the length.
mod Table
mod Checksum
mod Escape
pub mod Frames
pub mod RoundTrip
mod Tests
use Table.{fcs_tab}
use openfortivpn_rs.Common.{
  ℕ, ◌+◌, ◌-◌, ◌/◌, ◌^◌, bit_and, bit_xor, Bool, true, false, ◌&&◌, ◌||◌, List, [], ◌∷◌, ◌++◌,
  Option, none, some, ltb, leb, ◌==◌, ◌!=◌, if◌then◌else◌, length, get_or, take, drop,
}
use openfortivpn_rs.Common.Bytes.{Bytes, at}
use openfortivpn_rs.Common.Error.{
  Result, ok, err, ◌>>=◌, ◌>>◌, ok_or, refuse_if, hdlc_no_frame_found, hdlc_invalid_frame,
  hdlc_bad_checksum,
}

abbrev address_control_checksum : ℕ
address_control_checksum = 0x3de3

abbrev good_final_fcs : ℕ
good_final_fcs = 0xf0b8

pub record HdlcCodec : Type 0 where
  pub need_flag_sequence : Bool

abbrev pub new : HdlcCodec
new = record { need_flag_sequence = true }

unfoldable pub fcs_step : ℕ → ℕ → ℕ
unfolding fcs_tab
fcs_step sum byte = bit_xor (sum / 2 ^ 8) (get_or fcs_tab (bit_and (bit_xor sum byte) 0xff) 0)

unfoldable pub frame_checksum_16bit : ℕ → Bytes → ℕ
frame_checksum_16bit sum [] = sum
frame_checksum_16bit sum (byte ∷ seq) = frame_checksum_16bit (fcs_step sum byte) seq

unfoldable pub in_sending_accm : ℕ → Bool
in_sending_accm byte = ltb byte 0x20 || bit_and byte 0x7f == 0x7d || bit_and byte 0x7f == 0x7e

unfoldable pub in_receiving_accm : ℕ → Bool
in_receiving_accm byte = ltb byte 0x20

-- What `push_escaped` appends to `out`.
unfoldable pub escaped : ℕ → Bytes
escaped byte = if in_sending_accm byte then 0x7d ∷ bit_xor byte 0x20 ∷ [] else byte ∷ []

unfoldable pub push_escaped : Bytes → ℕ → Bytes
push_escaped out byte = out ++ escaped byte

-- `for &byte in packet { push_escaped(&mut frame, byte); }`
unfoldable pub push_all_escaped : Bytes → Bytes → Bytes
push_all_escaped frame [] = frame
push_all_escaped frame (byte ∷ packet) = push_all_escaped (push_escaped frame byte) packet

unfoldable pub encode : HdlcCodec → Bytes → Bytes × HdlcCodec
encode codec packet =
    let flag : Bytes = if codec.need_flag_sequence then 0x7e ∷ [] else [] in
    let head = flag ++ (0xff ∷ 0x7d ∷ bit_xor 0x03 0x20 ∷ []) in
    let checksum = bit_xor (frame_checksum_16bit address_control_checksum packet) 0xffff in
    let body = push_all_escaped head packet in
    let low = push_escaped body (bit_and checksum 0x00ff) in
    let high = push_escaped low (checksum / 2 ^ 8) in
    (high ++ 0x7e ∷ [], record { need_flag_sequence = false })

-- The first index `i` or later that holds a flag, with the rest of the buffer at `i`.
pub first_flag : ℕ → Bytes → Option ℕ
first_flag i [] = none
first_flag i (byte ∷ rest) = if byte == 0x7e then some i else first_flag (i + 1) rest

-- `while s < buffer.len() && buffer[s] == 0x7e { s += 1; }`
pub skip_flags : ℕ → Bytes → ℕ
skip_flags s [] = s
skip_flags s (byte ∷ rest) = if byte == 0x7e then skip_flags (s + 1) rest else s

-- The length of the frame and the new `start`.
unfoldable pub find_frame : Bytes → ℕ → Result (ℕ × ℕ)
unfolding first_flag skip_flags
find_frame buffer start = do
  i ← ok_or (first_flag start (drop start buffer)) hdlc_no_frame_found
  let s = skip_flags (i + 1) (drop (i + 1) buffer)
  e ← ok_or (first_flag s (drop s buffer)) hdlc_no_frame_found
  ok (e - s, s)

-- The loop of `decode`: the flag `in_escape` and the packet so far.
unfoldable pub unescape : Bool → Bytes → Bytes → Result (Bool × Bytes)
unescape in_escape packet [] = ok (in_escape, packet)
unescape in_escape packet (byte ∷ rest) =
    let escape = unescape true packet rest in
    let push_toggled = unescape false (packet ++ bit_xor byte 0x20 ∷ []) rest in
    let skip = unescape in_escape packet rest in
    let push = unescape in_escape (packet ++ byte ∷ []) rest in
    if byte == 0x7d
    then (if in_escape then err hdlc_invalid_frame else escape)
    else if in_escape
    then push_toggled
    else if in_receiving_accm byte
    then skip
    else push

unfoldable pub has_address_control : Bytes → Bool
has_address_control frame =
    leb 3 (length frame)
    && at frame 0 == 0xff
    && at frame 1 == 0x7d
    && at frame 2 == bit_xor 0x03 0x20

unfoldable pub decode : Bytes → Result Bytes
decode frame = do
  refuse_if (ltb (length frame) 5) hdlc_invalid_frame
  let has_address_control_fields = has_address_control frame
  let start = if has_address_control_fields then 3 else 0
  (in_escape, packet) ← unescape false [] (drop start frame)
  refuse_if (in_escape || ltb (length packet) 3) hdlc_invalid_frame
  let initial = if has_address_control_fields then address_control_checksum else 0xffff
  refuse_if (frame_checksum_16bit initial packet != good_final_fcs) hdlc_bad_checksum
  ok (take (length packet - 2) packet)
