-- ===== src/Tunnel/Forward/Stream.antt =====
-- The decoder of the TLS stream in src/tunnel/forward.rs, on a stream that arrives in pieces.
use openfortivpn_rs.Common.{
  take_prefix, drop_prefix, ℕ, zero, suc, ◌≤◌, ◌<◌, none, some, List, [], ◌∷◌, ◌++◌, append_assoc,
  append-nil, length, drop, length-append, length-drop, ◌≡◌, refl, sym, ap, ◌∙◌, arith,
}
use openfortivpn_rs.Common.Bytes.{Bytes, from_be_u16}
use openfortivpn_rs.Common.Error.{Result, ok, err}
use openfortivpn_rs.Tunnel.Packet.{PppPacket}
use openfortivpn_rs.Tunnel.Io.{Round, stop, fail, found}
use openfortivpn_rs.Tunnel.Io.Pty.Chunks.{with_earlier}
use openfortivpn_rs.Tunnel.Forward.{
  TlsPacketStreamDecoder, tls_round, TlsPushed, tls_next, tls_loop, tls_push_bytes,
}

-- What a round decides is not changed by later bytes, but for `stop`.
abbrev pub Decides : Bytes → Bytes → Round → Type 0
Decides buffer more stop = Unit
Decides buffer more (fail e) = tls_round (buffer ++ more) ≡ fail e
Decides buffer more (found packet total) =
    (tls_round (buffer ++ more) ≡ found packet total) × (0 < total) × (total ≤ length buffer)

pub tls_round-Decides : (buffer more : Bytes) → Decides buffer more (tls_round buffer)
unfolding tls_round
tls_round-Decides [] more = tt
tls_round-Decides (a ∷ []) more = tt
tls_round-Decides (a ∷ b ∷ []) more = tt
tls_round-Decides (a ∷ b ∷ c ∷ []) more = tt
tls_round-Decides (a ∷ b ∷ c ∷ d ∷ []) more = tt
tls_round-Decides (a ∷ b ∷ c ∷ d ∷ x ∷ []) more = tt
tls_round-Decides (a ∷ b ∷ c ∷ d ∷ x ∷ y ∷ bytes) more = ground (
  arith,
  take_prefix (from_be_u16 a b) (a ∷ b ∷ c ∷ d ∷ x ∷ y ∷ bytes) more,
  length-append bytes more,
)

-- Two ways to go on that agree on shorter buffers.
tls_next_agree :
    (f g : Bytes → List PppPacket → TlsPushed) (buffer : Bytes) (packets : List PppPacket)
    (r : Round)
    → ((b : Bytes) (ps : List PppPacket) → length b < length buffer → f b ps ≡ g b ps)
    → Decides buffer [] r
    → tls_next f buffer packets r ≡ tls_next g buffer packets r
tls_next_agree f g buffer packets stop h d = refl
tls_next_agree f g buffer packets (fail e) h d = refl
tls_next_agree f g buffer packets (found packet total) h (_, p, q) =
    h (drop total buffer) (packets ++ packet ∷ []) (omega (arith, length-drop total buffer))

tls_loop_fuel :
    (f g : ℕ) (buffer : Bytes) (packets : List PppPacket)
    → length buffer < f
    → length buffer < g
    → tls_loop f buffer packets ≡ tls_loop g buffer packets
unfolding tls_loop
tls_loop_fuel zero g buffer packets h h' = absurd (omega arith)
tls_loop_fuel (suc f) zero buffer packets h h' = absurd (omega arith)
tls_loop_fuel (suc f) (suc g) buffer packets h h' =
    tls_next_agree (tls_loop f) (tls_loop g) buffer packets (tls_round buffer)
      (λ b ps short. tls_loop_fuel f g b ps (omega arith) (omega arith))
      (tls_round-Decides buffer [])

tls_next_earlier :
    (f : Bytes → List PppPacket → TlsPushed) (buffer : Bytes) (ps qs : List PppPacket) (r : Round)
    → ((b : Bytes) (rs : List PppPacket) → f b (ps ++ rs) ≡ with_earlier ps (f b rs))
    → tls_next f buffer (ps ++ qs) r ≡ with_earlier ps (tls_next f buffer qs r)
tls_next_earlier f buffer ps qs stop h = refl
tls_next_earlier f buffer ps qs (fail e) h = refl
tls_next_earlier f buffer ps qs (found packet total) h =
    ap (f (drop total buffer)) (append_assoc ps qs (packet ∷ []))
    ∙ h (drop total buffer) (qs ++ packet ∷ [])

tls_loop_earlier :
    (f : ℕ) (buffer : Bytes) (ps qs : List PppPacket)
    → tls_loop f buffer (ps ++ qs) ≡ with_earlier ps (tls_loop f buffer qs)
unfolding tls_loop
tls_loop_earlier zero buffer ps qs = refl
tls_loop_earlier (suc f) buffer ps qs =
    tls_next_earlier (tls_loop f) buffer ps qs (tls_round buffer)
      (λ b rs. tls_loop_earlier f b ps rs)

-- A call that goes on with the bytes that a call left; the bytes behind an error are kept.
abbrev pub continue : Bytes → TlsPushed → TlsPushed
continue more none = none
continue more (some (err e, decoder)) = some (err e, record { buffer = decoder.buffer ++ more })
continue more (some (ok packets, decoder)) = with_earlier packets (tls_push_bytes decoder more)

tls_push_bytes_from :
    (fuel : ℕ) (buffer more : Bytes) (packets : List PppPacket)
    → length (buffer ++ more) < fuel
    → tls_loop fuel (buffer ++ more) packets
      ≡ with_earlier packets (tls_push_bytes (record { buffer = buffer }) more)
unfolding tls_push_bytes
tls_push_bytes_from fuel buffer more packets h =
    tls_loop_fuel fuel (suc (length (buffer ++ more))) (buffer ++ more) packets h (omega arith)
    ∙ ap (tls_loop (suc (length (buffer ++ more))) (buffer ++ more)) (sym (append-nil packets))
    ∙ tls_loop_earlier (suc (length (buffer ++ more))) (buffer ++ more) packets []

tls_next_resume :
    (f : ℕ) (g : ℕ) (buffer more : Bytes) (packets : List PppPacket) (r : Round)
    → length (buffer ++ more) < suc g
    → ((b : Bytes) (ps : List PppPacket)
        → length b < length buffer
        → tls_loop g (b ++ more) ps ≡ continue more (tls_loop f b ps))
    → Decides buffer more r
    → tls_loop (suc g) (buffer ++ more) packets
      ≡ continue more (tls_next (tls_loop f) buffer packets r)
unfolding tls_loop
tls_next_resume f g buffer more packets stop h rest d =
    tls_push_bytes_from (suc g) buffer more packets h
tls_next_resume f g buffer more packets (fail e) h rest d = rw d
tls_next_resume f g buffer more packets (found packet total) h rest (e, p, q) = rw e (
    ap (λ t. tls_loop g t (packets ++ packet ∷ [])) (drop_prefix total buffer more q)
    ∙ rest (drop total buffer) (packets ++ packet ∷ []) (omega (arith, length-drop total buffer)))

tls_loop_resume :
    (f g : ℕ) (buffer more : Bytes) (packets : List PppPacket)
    → length buffer < f
    → length (buffer ++ more) < g
    → tls_loop g (buffer ++ more) packets ≡ continue more (tls_loop f buffer packets)
unfolding tls_loop
tls_loop_resume zero g buffer more packets h h' = absurd (omega arith)
tls_loop_resume (suc f) zero buffer more packets h h' = absurd (omega arith)
tls_loop_resume (suc f) (suc g) buffer more packets h h' =
    tls_next_resume f g buffer more packets (tls_round buffer) h'
      (λ b ps short.
        tls_loop_resume f g b more ps (omega arith)
          (omega (arith, length-append buffer more, length-append b more)))
      (tls_round-Decides buffer more)

pub tls_push_bytes-continue :
    (decoder : TlsPacketStreamDecoder) (first more : Bytes)
    → tls_push_bytes decoder (first ++ more) ≡ continue more (tls_push_bytes decoder first)
unfolding tls_push_bytes
tls_push_bytes-continue decoder first more =
    ap (λ t. tls_loop (suc (length t)) t []) (sym (append_assoc decoder.buffer first more))
    ∙ tls_loop_resume (suc (length (decoder.buffer ++ first)))
        (suc (length ((decoder.buffer ++ first) ++ more))) (decoder.buffer ++ first) more []
        (omega arith) (omega arith)

-- What a call is known to return.
abbrev pub Returned : TlsPushed → Type 0
Returned pushed =
    (result : Result (List PppPacket)) × (decoder : TlsPacketStreamDecoder) × (pushed
      ≡ some (result, decoder))

tls_next-Returned :
    (f : ℕ) (buffer : Bytes) (packets : List PppPacket) (r : Round)
    → ((b : Bytes) (ps : List PppPacket) → length b < length buffer → Returned (tls_loop f b ps))
    → Decides buffer [] r
    → Returned (tls_next (tls_loop f) buffer packets r)
tls_next-Returned f buffer packets stop h d = (_, _, refl)
tls_next-Returned f buffer packets (fail e) h d = (_, _, refl)
tls_next-Returned f buffer packets (found packet total) h (_, p, q) =
    h (drop total buffer) (packets ++ packet ∷ []) (omega (arith, length-drop total buffer))

tls_loop-Returned :
    (f : ℕ) (buffer : Bytes) (packets : List PppPacket)
    → length buffer < f
    → Returned (tls_loop f buffer packets)
unfolding tls_loop
tls_loop-Returned zero buffer packets h = absurd (omega arith)
tls_loop-Returned (suc f) buffer packets h =
    tls_next-Returned f buffer packets (tls_round buffer)
      (λ b ps short. tls_loop-Returned f b ps (omega arith)) (tls_round-Decides buffer [])

-- The loop over the packets of a buffer ends, whatever the bytes are.
pub tls_push_bytes-Returned :
    (decoder : TlsPacketStreamDecoder) (bytes : Bytes) → Returned (tls_push_bytes decoder bytes)
unfolding tls_push_bytes
tls_push_bytes-Returned decoder bytes =
    tls_loop-Returned (suc (length (decoder.buffer ++ bytes))) (decoder.buffer ++ bytes) []
      (omega arith)

-- What one call on two pieces returns, by what the second of two calls does behind `packets`.
abbrev pub AtOnce : List PppPacket → TlsPushed → TlsPushed → Type 0
AtOnce packets whole none = ⊥
AtOnce packets whole (some (ok others, decoder)) = whole ≡ some (ok (packets ++ others), decoder)
AtOnce packets whole (some (err e, decoder)) = whole ≡ some (err e, decoder)

-- The same, by what the first call does; behind an error there is no second.
abbrev pub InTurn : Bytes → TlsPushed → TlsPushed → Type 0
InTurn more whole none = ⊥
InTurn more whole (some (ok packets, decoder)) = AtOnce packets whole (tls_push_bytes decoder more)
InTurn more whole (some (err e, decoder)) =
    whole ≡ some (err e, record { buffer = decoder.buffer ++ more })

-- One call on two pieces of the stream, against a call on each. If both calls succeed, the one returns the
-- packets of the first and then those of the second, and keeps what the second keeps. If the first fails,
-- the one fails alike, and keeps the second piece too. If only the second fails, the one fails alike and
-- keeps the same bytes, and then the packets that the first call returned are not returned by it.
pub tls_push_bytes-append :
    (decoder : TlsPacketStreamDecoder) (first more : Bytes)
    → InTurn more (tls_push_bytes decoder (first ++ more)) (tls_push_bytes decoder first)
tls_push_bytes-append decoder first more =
    by_first (tls_push_bytes decoder first) (tls_push_bytes-Returned decoder first)
      (tls_push_bytes-continue decoder first more)
  where
    by_second :
        (packets : List PppPacket) (whole second : TlsPushed)
        → Returned second
        → whole ≡ with_earlier packets second
        → AtOnce packets whole second
    by_second packets whole none (result, left, returns) e = absurd (cc returns)
    by_second packets whole (some (ok others, left)) returns e = e
    by_second packets whole (some (err fault, left)) returns e = e

    by_first :
        (r : TlsPushed)
        → Returned r
        → tls_push_bytes decoder (first ++ more) ≡ continue more r
        → InTurn more (tls_push_bytes decoder (first ++ more)) r
    by_first none (result, left, returns) e = absurd (cc returns)
    by_first (some (err fault, left)) returns e = e
    by_first (some (ok packets, left)) returns e =
        by_second packets (tls_push_bytes decoder (first ++ more)) (tls_push_bytes left more)
          (tls_push_bytes-Returned left more) e
