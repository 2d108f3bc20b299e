-- ===== src/Tunnel/Io/Pty.antt =====
-- The decoder of src/tunnel/io.rs against the reader of the stream in Hdlc/Frames.
pub mod Chunks
use openfortivpn_rs.Hdlc
use openfortivpn_rs.Hdlc.Frames.{Mode, hunting, inside, scan, prepend, scan-append}
use openfortivpn_rs.Hdlc.Frames.Found.{IsFirstFrame, Finds, find_frame-Finds}
use openfortivpn_rs.Tunnel.Io.{
  PppdPtyDecoder, Round, stop, fail, found, decode_frame, round, Looped, out_of_fuel, failed, done,
  push_loop, drained, finish, push_bytes, max_pty_buffer,
}
use openfortivpn_rs.Tunnel.Packet.{PppPacket, new}
use openfortivpn_rs.Common.{
  ℕ, zero, suc, ◌+◌, ◌-◌, ◌≤◌, ◌<◌, List, [], ◌∷◌, ◌++◌, append_assoc, append-nil, ◌≡◌, refl, sym,
  ap, ap₂, ◌∙◌, subst, arith, ◌⊎◌, inl, inr, Option, none, some, true, false, ltb, le→ltb,
  Bool-cases, length, length-append, length-drop, drop,
}
use openfortivpn_rs.Common.Bytes.{Bytes, slice}
use openfortivpn_rs.Common.Error.{Result, ok, err, ◌>>=◌, OpenfortivpnError, hdlc_no_frame_found}

-- The frames of a stream decoded in order, up to the first that fails.
unfoldable pub decode_all : List Bytes → Result (List PppPacket)
decode_all [] = ok []
decode_all (frame ∷ frames) = do
  packet ← Hdlc.decode frame
  packets ← decode_all frames
  ok (new packet ∷ packets)

-- What one round of the loop does to the frames behind `consumed`.
abbrev RoundIs : Bytes → ℕ → Round → Type 0
RoundIs buffer consumed stop = (scan hunting (drop consumed buffer)).0 ≡ []
RoundIs buffer consumed (fail e) =
    (frame : Bytes) × (frames : List Bytes) × ((scan hunting (drop consumed buffer)).0
      ≡ frame ∷ frames)
    × (Hdlc.decode frame ≡ err e)
RoundIs buffer consumed (found packet end) =
    (frame : Bytes) × (Hdlc.decode frame ≡ ok packet.data')
    × (scan hunting (drop consumed buffer) ≡ prepend (frame ∷ []) (scan hunting (drop end buffer)))
    × (consumed < end)
    × (end < length buffer)

decode_frame-RoundIs :
    (buffer : Bytes) (consumed len s : ℕ)
    → IsFirstFrame buffer consumed len s
    → RoundIs buffer consumed (decode_frame buffer (len, s))
unfolding decode_frame
decode_frame-RoundIs buffer consumed len s f = go (Hdlc.decode (slice s (s + len) buffer)) refl
  where
    go :
        (r : Result Bytes)
        → Hdlc.decode (slice s (s + len) buffer) ≡ r
        → RoundIs buffer consumed
            (elim r [ ok packet ↦ found (new packet) (s + len) | err e ↦ fail e ])
    go (ok packet) e = (slice s (s + len) buffer, e, f.scanned, omega (arith, f.forward), f.within)
    go (err x) e = (
      slice s (s + len) buffer,
      (scan hunting (drop (s + len) buffer)).0,
      ap (λ t. t.0) f.scanned,
      e,
    )

round-RoundIs : (buffer : Bytes) (consumed : ℕ) → RoundIs buffer consumed (round buffer consumed)
unfolding round
round-RoundIs buffer consumed =
    go (Hdlc.find_frame buffer consumed) (find_frame-Finds buffer consumed)
  where
    go :
        (r : Result (ℕ × ℕ))
        → Finds buffer consumed r
        → RoundIs buffer consumed (elim r [
          | ok bounds ↦ decode_frame buffer bounds
          | err hdlc_no_frame_found ↦ stop
          | err e ↦ fail e
        ])
    go (ok (len, s)) f = decode_frame-RoundIs buffer consumed len s f
    go (err hdlc_no_frame_found) f = f.1
    go (err _) f = absurd (cc f.0)

-- What the loop returns, against the frames behind `consumed`.
abbrev LoopIs : Bytes → List PppPacket → ℕ → Looped → Type 0
LoopIs buffer packets consumed out_of_fuel = ⊥
LoopIs buffer packets consumed (failed e) =
    decode_all (scan hunting (drop consumed buffer)).0 ≡ err e
LoopIs buffer packets consumed (done all end) =
    (more : List PppPacket) × (all ≡ packets ++ more)
    × (decode_all (scan hunting (drop consumed buffer)).0 ≡ ok more)
    × (scan hunting (drop end buffer) ≡ ([], (scan hunting (drop consumed buffer)).1))

LoopIs-found :
    (buffer : Bytes) (packets : List PppPacket) (consumed end : ℕ) (packet : PppPacket)
    → RoundIs buffer consumed (found packet end)
    → (r : Looped) → LoopIs buffer (packets ++ packet ∷ []) end r
    → LoopIs buffer packets consumed r
unfolding decode_all
LoopIs-found buffer packets consumed end packet (frame, d, s, _, _) (failed e) h =
    rw (ap (λ t. t.0) s, d, h)
LoopIs-found buffer packets consumed end packet (frame, d, s, _, _) (done all last)
      (more, a, b, c) =
    (
      packet ∷ more,
      a ∙ append_assoc packets (packet ∷ []) more,
      rw (ap (λ t. t.0) s, d, b),
      c ∙ ap (λ t. ([], t)) (sym (ap (λ t. t.1) s)),
    )
LoopIs-found buffer packets consumed end packet f out_of_fuel h = h

push_loop-LoopIs :
    (fuel : ℕ) (buffer : Bytes) (packets : List PppPacket) (consumed : ℕ)
    → length buffer < fuel + consumed
    → consumed ≤ length buffer
    → LoopIs buffer packets consumed (push_loop fuel buffer packets consumed)
unfolding push_loop
push_loop-LoopIs zero buffer packets consumed f h = absurd (omega arith)
push_loop-LoopIs (suc fuel) buffer packets consumed f h =
    go (round buffer consumed) (round-RoundIs buffer consumed) λ packet end p q.
      push_loop-LoopIs fuel buffer (packets ++ packet ∷ []) end (omega arith) (omega arith)
  where
    go :
        (r : Round)
        → RoundIs buffer consumed r
        → ((packet : PppPacket) (end : ℕ)
            → consumed < end
            → end < length buffer
            → LoopIs buffer
                (packets ++ packet ∷ [])
                end
                (push_loop fuel buffer (packets ++ packet ∷ []) end))
        → LoopIs buffer packets consumed (elim r [
          | stop ↦ done packets consumed
          | fail e ↦ failed e
          | found packet end ↦ push_loop fuel buffer (packets ++ packet ∷ []) end
        ])
    go stop i later = (
      [],
      sym (append-nil packets),
      unfold decode_all in rw i,
      ap (λ t. (t, (scan hunting (drop consumed buffer)).1)) i,
    )
    go (fail e) (frame, frames, s, d) later = unfold decode_all in rw (s, d)
    go (found packet end) i later =
        LoopIs-found buffer packets consumed end packet i _ (later packet end i.3 i.4)

drained-drop : (buffer : Bytes) (end : ℕ) → drained buffer end ≡ drop end buffer
unfolding drained
drained-drop buffer zero = refl
drained-drop buffer (suc end) = ground arith

-- The decoder after a call: on success only the open frame is left, on failure all the bytes.
abbrev pub Leaves : Bytes → Mode → Result (List PppPacket) → PppdPtyDecoder → Type 0
Leaves buffer mode (ok packets) decoder =
    (scan hunting decoder.buffer ≡ ([], mode)) × (length decoder.buffer ≤ length buffer)
Leaves buffer mode (err e) decoder = decoder.buffer ≡ buffer

-- `result` returns the decoded frames of `read`, with such a decoder.
abbrev Returns :
    Bytes → List Bytes × Mode → Option (Result (List PppPacket) × PppdPtyDecoder) → Type 0
Returns buffer read result =
    (decoder : PppdPtyDecoder) × (result ≡ some (decode_all read.0, decoder))
    × Leaves buffer read.1 (decode_all read.0) decoder

finish-Returns :
    (buffer : Bytes) (r : Looped)
    → LoopIs buffer [] 0 r
    → Returns buffer (scan hunting buffer) (finish buffer r)
unfolding finish
finish-Returns buffer out_of_fuel h = absurd h
finish-Returns buffer (failed e) h =
    (record { buffer = buffer }, ap (λ t. some (t, record { buffer = buffer })) (sym h), rw h refl)
finish-Returns buffer (done packets end) (more, a, b, c) =
    let decoder : PppdPtyDecoder = record { buffer = drained buffer end } in
    (
      decoder,
      ap (λ t. some (t, decoder)) (ap ok a ∙ sym b),
      rw b (
        ap (scan hunting) (drained-drop buffer end) ∙ c,
        rw drained-drop (omega (arith, length-drop end buffer)),
      ),
    )

-- A decoder that holds no whole frame, in the middle of a stream read to `mode`, given bytes that fit
-- its buffer, returns the decoded frames that the bytes complete, or the error of the first that does
-- not decode. It always returns. On success it holds no whole frame again, and is where the stream
-- read on stands; on an error it keeps all the bytes.
pub push_bytes-scan :
    (decoder : PppdPtyDecoder) (mode : Mode) (bytes : Bytes)
    → scan hunting decoder.buffer ≡ ([], mode)
    → length decoder.buffer + length bytes ≤ max_pty_buffer
    → let buffer = decoder.buffer ++ bytes in
      let result = decode_all (scan mode bytes).0 in
      (decoder' : PppdPtyDecoder) × (push_bytes decoder bytes ≡ some (result, decoder'))
      × Leaves buffer (scan mode bytes).1 result decoder'
unfolding push_bytes
push_bytes-scan decoder mode bytes open_frame fits =
    let buffer = decoder.buffer ++ bytes in
    let read : scan hunting buffer ≡ scan mode bytes =
      scan-append hunting decoder.buffer bytes
      ∙ ap (λ (t : List Bytes × Mode). prepend t.0 (scan t.1 bytes)) open_frame in
    let looped : LoopIs buffer [] 0 (push_loop (suc (length buffer)) buffer [] 0) =
      push_loop-LoopIs (suc (length buffer)) buffer [] 0 (omega arith) (omega arith) in
    rw (le→ltb max_pty_buffer (length decoder.buffer + length bytes) fits) (
      subst (λ t. Returns buffer t (finish buffer (push_loop (suc (length buffer)) buffer [] 0)))
        read (finish-Returns buffer _ looped))

-- A call always returns.
pub push_bytes_total :
    (decoder : PppdPtyDecoder) (bytes : Bytes)
    → (result : Result (List PppPacket)) × (decoder' : PppdPtyDecoder) × (push_bytes decoder bytes
        ≡ some (result, decoder'))
unfolding push_bytes
push_bytes_total decoder bytes =
    elim (Bool-cases (ltb max_pty_buffer (length decoder.buffer + length bytes))) [
      | inl e ↦ rw e (_, _, refl)
      | inr e ↦
          let buffer = decoder.buffer ++ bytes in
          let (decoder', a, _) =
            finish-Returns buffer _
              (push_loop-LoopIs (suc (length buffer)) buffer [] 0 (omega arith) (omega arith)) in
          rw e (_, decoder', a)
    ]
