-- ===== src/Hdlc/Checksum.antt =====
-- The frame check sequence of src/hdlc.rs: sums stay in 16 bits, and a sum followed by its
-- complement leaves the residue that `decode` tests for.
use openfortivpn_rs.Hdlc.Table.{fcs_tab}
use openfortivpn_rs.Hdlc.{fcs_step, frame_checksum_16bit, good_final_fcs}
use openfortivpn_rs.Common.{
  ℕ, ◌-◌, ◌/◌, ◌%◌, ◌^◌, ◌<◌, bit_and, bit_xor, true, [], ◌∷◌, ◌++◌, ◌≡◌, refl, ap, ◌∙◌, arith, ltb,
  ltb→lt, ◌==◌, ==_iff, get_or,
}
use openfortivpn_rs.Common.Bits.{
  all_below, all_below_sound, bit_and_mask, bit_xor-lt, bit_xor_ones, bit_xor_bytes,
}
use openfortivpn_rs.Common.Bytes.{Bytes}

fcs_tab_range : all_below 256 (λ i. ltb (get_or fcs_tab i 0) 65536) ≡ true
unfolding all_below fcs_tab
fcs_tab_range = refl

fcs_tab-lt : (i : ℕ) → i < 256 → get_or fcs_tab i 0 < 65536
fcs_tab-lt i h = ltb→lt (get_or fcs_tab i 0) 65536 (all_below_sound 256 _ i fcs_tab_range h)

bit_and_low_byte : (a : ℕ) → bit_and a 0xff ≡ a % 256
bit_and_low_byte a = bit_and_mask 8 a

pub fcs_step-lt : (sum byte : ℕ) → sum < 65536 → fcs_step sum byte < 65536
unfolding fcs_step
fcs_step-lt sum byte h =
    bit_xor-lt 16 (sum / 256) (get_or fcs_tab (bit_and (bit_xor sum byte) 0xff) 0) (omega arith) (
      fcs_tab-lt (bit_and (bit_xor sum byte) 0xff)
        (omega (arith, bit_and_low_byte (bit_xor sum byte))))

-- A checksum of 16 bits stays one, whatever is summed.
pub frame_checksum_16bit-lt :
    (sum : ℕ) (seq : Bytes) → sum < 65536 → frame_checksum_16bit sum seq < 65536
unfolding frame_checksum_16bit
frame_checksum_16bit-lt sum [] h = h
frame_checksum_16bit-lt sum (byte ∷ seq) h =
    frame_checksum_16bit-lt (fcs_step sum byte) seq (fcs_step-lt sum byte h)

pub frame_checksum_16bit-append :
    (sum : ℕ) (xs ys : Bytes)
    → frame_checksum_16bit sum (xs ++ ys) ≡ frame_checksum_16bit (frame_checksum_16bit sum xs) ys
unfolding frame_checksum_16bit
frame_checksum_16bit-append sum [] ys = refl
frame_checksum_16bit-append sum (x ∷ xs) ys = frame_checksum_16bit-append (fcs_step sum x) xs ys

complement_byte : all_below 256 (λ x. bit_xor x (255 - x) == 255) ≡ true
unfolding all_below
complement_byte = refl

-- The high byte of the sum alone decides the second step.
second_step : all_below 256 (λ x. fcs_step (bit_xor x 0x0f78) (255 - x) == good_final_fcs) ≡ true
unfolding all_below fcs_step
second_step = refl

index_of_complement : (c : ℕ) → c < 65536 → bit_and (bit_xor c ((65535 - c) % 256)) 0xff ≡ 255
index_of_complement c h =
    bit_and_low_byte _
    ∙ omega (
      arith,
      bit_xor_bytes c ((65535 - c) % 256),
      bit_xor-lt 8 (c % 256) ((65535 - c) % 256 % 256) (omega arith) (omega arith),
      ap (bit_xor (c % 256)) complement,
      (==_iff _ _).0 (all_below_sound 256 _ (c % 256) complement_byte (omega arith)),
    )
  where
    complement : (65535 - c) % 256 % 256 ≡ 255 - c % 256
    complement = omega arith

first_step : (c : ℕ) → c < 65536 → fcs_step c ((65535 - c) % 256) ≡ bit_xor (c / 256) 0x0f78
unfolding fcs_step fcs_tab
first_step c h = ap (λ i. bit_xor (c / 256) (get_or fcs_tab i 0)) (index_of_complement c h)

high : (c : ℕ) → c < 65536 → (65535 - c) / 256 ≡ 255 - c / 256
high c h = omega arith

-- A sum followed by its complement, low byte first, sums to the residue.
pub frame_checksum_16bit_residue :
    (c : ℕ)
    → c < 65536
    → let k = bit_xor c 0xffff in
      frame_checksum_16bit c (bit_and k 0x00ff ∷ k / 2 ^ 8 ∷ []) ≡ good_final_fcs
unfolding frame_checksum_16bit
frame_checksum_16bit_residue c h =
    rw (bit_xor_ones 16 c h, bit_and_low_byte (65535 - c), first_step c h, high c h)
      ((==_iff _ _).0 (all_below_sound 256 _ (c / 256) second_step (omega arith)))
