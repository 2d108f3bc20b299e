-- ===== src/Tunnel/Forward/Whole.antt =====
-- The invariant of the state of src/tunnel/forward.rs: what is written is whole packets.
use openfortivpn_rs.Common.{
  ◌≡◌, refl, sym, ap, ap₂, subst, ◌∙◌, Option, none, some, List, [], ◌∷◌, ◌++◌, append_assoc,
}
use openfortivpn_rs.Common.Bytes.{Bytes}
use openfortivpn_rs.Common.Ipv4.{Ipv4Addr}
use openfortivpn_rs.Common.Error.{Result, ok, err, >>=-eq-ok}
use openfortivpn_rs.Hdlc
use openfortivpn_rs.Hdlc.RoundTrip.{encode_all}
use openfortivpn_rs.Tunnel.Packet.{PppPacket, encode_for_tls, ipcp_ipv4_address}
use openfortivpn_rs.Tunnel.Io.{PppdPtyDecoder, write_tls_packet, encode_packet_for_pty}
use openfortivpn_rs.Tunnel.Io.Pty.Chunks.{payloads}
use openfortivpn_rs.Tunnel.Io.Tls.{write_all}
use openfortivpn_rs.Tunnel.Forward.{
  Forward, Step, queue_for_tls, push, count, TlsPacketStreamDecoder, observed, queue_for_pty,
}
use openfortivpn_rs.Tunnel.Forward.Queue.{IsWriteQueue, pending, push_lem}
use openfortivpn_rs.Tunnel.Forward.ToPty.{passed, payloads-append}

-- What was written to the gateway, with what waits for it, is whole packets in the gateway's framing; on
-- the side of pppd it is whole packets encoded one after another by a new codec.
pub record IsForward (s : Forward) : Type 0 where
  pub tls_waits : IsWriteQueue s.tls_out
  pub pty_waits : IsWriteQueue s.pty_out
  pub sent : List PppPacket
  pub sent_whole : write_all [] sent ≡ ok (s.tls_written ++ pending s.tls_out)
  pub delivered : List PppPacket
  pub delivered_whole :
      (more : List Bytes)
      → s.pty_written ++ (pending s.pty_out ++ encode_all s.hdlc_encoder more)
        ≡ encode_all Hdlc.new (payloads delivered ++ more)

write_all_last :
    (packets : List PppPacket) (packet : PppPacket) (writer written frame : Bytes)
    → write_all writer packets ≡ ok written
    → encode_for_tls packet ≡ ok frame
    → write_all writer (packets ++ packet ∷ []) ≡ ok (written ++ frame)
unfolding write_all write_tls_packet
write_all_last [] packet writer written frame h e =
    let same : writer ≡ written = cc h in
    rw (write_all, write_tls_packet, e) (ap (λ t. ok (t ++ frame)) same)
write_all_last (p ∷ packets) packet writer written frame h e =
    let (first, a, b) = >>=-eq-ok (write_tls_packet writer p) (λ t. write_all t packets) h in
    rw (write_all, a) (write_all_last packets packet first written frame b e)

-- A step that always returns, and keeps that.
abbrev pub Stays : Step → Type 0
Stays none = ⊥
Stays (some (result, s)) = IsForward s

-- A frame queued for the gateway.
abbrev queued : Bytes → Forward → Forward
queued frame s = record s {
  tls_out = push frame (s.tls_out);
  stats = record (s.stats) { pty_to_tls_packets = count (s.stats.pty_to_tls_packets) };
}

queued-IsForward :
    (packet : PppPacket) (frame : Bytes) (s : Forward)
    → encode_for_tls packet ≡ ok frame
    → IsForward s
    → IsForward (queued frame s)
queued-IsForward packet frame s e h =
    let (waits, behind) = push_lem frame s.tls_out h.tls_waits in
    record {
      tls_waits = waits;
      pty_waits = h.pty_waits;
      sent = h.sent ++ packet ∷ [];
      sent_whole =
          write_all_last h.sent packet [] _ frame h.sent_whole e
          ∙ ap ok (
              append_assoc s.tls_written (pending s.tls_out) frame
              ∙ ap (s.tls_written ++◌) (sym behind));
      delivered = h.delivered;
      delivered_whole = h.delivered_whole;
    }

pub queue_for_tls-Stays :
    (packets : List PppPacket) (s : Forward) → IsForward s → IsForward (queue_for_tls packets s).1
unfolding queue_for_tls
queue_for_tls-Stays [] s h = h
queue_for_tls-Stays (packet ∷ packets) s h =
    go (encode_for_tls packet) refl
      λ frame e. queue_for_tls-Stays packets (queued frame s) (queued-IsForward packet frame s e h)
  where
    go :
        (r : Result Bytes)
        → encode_for_tls packet ≡ r
        → ((frame : Bytes)
            → encode_for_tls packet ≡ ok frame
            → IsForward (queue_for_tls packets (queued frame s)).1)
        → IsForward
            (elim r as (λ r. Result (Unit {0}) × Forward) [
              | err e ↦ (err e, s)
              | ok frame ↦ queue_for_tls packets (queued frame s)
            ]).1
    go (err x) e later = h
    go (ok frame) e later = later frame e

-- Only these parts of the state matter.
same_streams :
    (s s' : Forward)
    → s.tls_out ≡ s'.tls_out
    → s.pty_out ≡ s'.pty_out
    → s.tls_written ≡ s'.tls_written
    → s.pty_written ≡ s'.pty_written
    → s.hdlc_encoder ≡ s'.hdlc_encoder
    → IsForward s
    → IsForward s'
same_streams s s' a b c d e h = record {
  tls_waits = subst IsWriteQueue a h.tls_waits;
  pty_waits = subst IsWriteQueue b h.pty_waits;
  sent = h.sent;
  sent_whole = h.sent_whole ∙ ap₂ (λ w q. ok (w ++ pending q)) c a;
  delivered = h.delivered;
  delivered_whole = λ more. rw (sym d, sym b, sym e) (h.delivered_whole more);
}

observed-IsForward :
    (address : Option Ipv4Addr) (s : Forward) → IsForward s → IsForward (observed address s)
observed-IsForward none s h = h
observed-IsForward (some a) s h = same_streams s (observed (some a) s) refl refl refl refl refl h

passed-IsForward : (packet : PppPacket) (s : Forward) → IsForward s → IsForward (passed packet s)
passed-IsForward packet s h =
    let encoded = Hdlc.encode s.hdlc_encoder packet.data' in
    let (waits, behind) = push_lem encoded.0 s.pty_out h.pty_waits in
    record {
      tls_waits = h.tls_waits;
      pty_waits = unfold encode_packet_for_pty in waits;
      sent = h.sent;
      sent_whole = h.sent_whole;
      delivered = h.delivered ++ packet ∷ [];
      delivered_whole = λ more.
          unfold encode_packet_for_pty encode_all in
          (ap (λ t. s.pty_written ++ (t ++ encode_all encoded.1 more)) behind
            ∙ ap (s.pty_written ++◌)
                (append_assoc (pending s.pty_out) encoded.0 (encode_all encoded.1 more))
            ∙ h.delivered_whole (packet.data' ∷ more)
            ∙ ap (encode_all Hdlc.new) (
                sym (append_assoc (payloads h.delivered) (packet.data' ∷ []) more)
                ∙ ap (λ t. t ++ more) (sym (payloads-append h.delivered (packet ∷ [])))));
    }

pub queue_for_pty-Stays :
    (packets : List PppPacket) (s : Forward) → IsForward s → IsForward (queue_for_pty packets s)
unfolding queue_for_pty
queue_for_pty-Stays [] s h = h
queue_for_pty-Stays (packet ∷ packets) s h =
    let s' = observed (ipcp_ipv4_address packet) s in
    queue_for_pty-Stays packets (passed packet s')
      (passed-IsForward packet s' (observed-IsForward (ipcp_ipv4_address packet) s h))

-- A decoder that is replaced.
pub with_pty_decoder :
    (s : Forward) (d : PppdPtyDecoder) → IsForward s → IsForward (record s { pty_decoder = d })
with_pty_decoder s d = same_streams s (record s { pty_decoder = d }) refl refl refl refl refl

pub with_tls_decoder :
    (s : Forward) (d : TlsPacketStreamDecoder)
    → IsForward s
    → IsForward (record s { tls_decoder = d })
with_tls_decoder s d = same_streams s (record s { tls_decoder = d }) refl refl refl refl refl
