-- ===== src/Tunnel/Forward/Loop/Whole.antt =====
-- What src/tunnel/forward.rs writes to both sides, over any turns of its loop.
use openfortivpn_rs.Common.{
  refl, sym, ap, subst, ◌∙◌, Bool, true, false, not, ◌&&◌, Option, none, some, List, [], ◌∷◌, ◌++◌,
  append_assoc, if◌then◌else◌,
}
use openfortivpn_rs.Common.Error.{Result, ok, err, OpenfortivpnError}
use openfortivpn_rs.Common.Text.{is_empty}
use openfortivpn_rs.Hdlc.RoundTrip.{encode_all}
use openfortivpn_rs.Tunnel.Packet.{PppPacket}
use openfortivpn_rs.Tunnel.Io.{PppdPtyDecoder}
use openfortivpn_rs.Tunnel.Io.Pty.{push_bytes_total}
use openfortivpn_rs.Tunnel.Io.Tls.{write_all}
use openfortivpn_rs.Tunnel.Forward.{
  write_available, ReadAnswer, got, would_block, broken, WriteAnswer, Forward, new_forward, Step,
  after, read_from_pty, read_from_tls, queue_for_tls, read_pty_into_tls_queue,
  TlsPacketStreamDecoder, read_tls_into_pty_queue,
}
use openfortivpn_rs.Tunnel.Forward.Stream.{tls_push_bytes-Returned}
use openfortivpn_rs.Tunnel.Forward.Queue.{pending, write_available_keeps}
use openfortivpn_rs.Tunnel.Forward.Loop.{
  Turn, when, write_pty, write_tls, exchange, Forwarding, running, returned, stuck, ended,
  forward_with_callbacks,
}
use openfortivpn_rs.Tunnel.Forward.Whole.{
  IsForward, Stays, queue_for_tls-Stays, queue_for_pty-Stays, with_pty_decoder, with_tls_decoder,
}

-- A step whose rest keeps what it is given.
after-Stays :
    (step : Step) (next : Forward → Step)
    → Stays step
    → ((s : Forward) → IsForward s → Stays (next s))
    → Stays (after step next)
after-Stays none next h rest = h
after-Stays (some (err e, s)) next h rest = h
after-Stays (some (ok _, s)) next h rest = rest s h

read_from_pty-Stays :
    (result : Result (List PppPacket)) (decoder : PppdPtyDecoder) (next : Forward → Step)
    (s : Forward)
    → IsForward s
    → ((s : Forward) → IsForward s → Stays (next s))
    → Stays (read_from_pty (some (result, decoder)) next s)
read_from_pty-Stays (err e) decoder next s h rest = with_pty_decoder s decoder h
read_from_pty-Stays (ok packets) decoder next s h rest =
    let s' = record s { pty_decoder = decoder } in
    after-Stays (some (queue_for_tls packets s')) next
      (queue_for_tls-Stays packets s' (with_pty_decoder s decoder h)) rest

read_pty-Stays :
    (answers : List ReadAnswer) (s : Forward)
    → IsForward s
    → Stays (read_pty_into_tls_queue answers s)
unfolding read_pty_into_tls_queue
read_pty-Stays [] s h = h
read_pty-Stays (would_block ∷ answers) s h = h
read_pty-Stays (broken e ∷ answers) s h = h
read_pty-Stays (got [] ∷ answers) s h = h
read_pty-Stays (got (b ∷ bytes) ∷ answers) s h =
    let (result, decoder, e) = push_bytes_total s.pty_decoder (b ∷ bytes) in
    subst (λ t. Stays (read_from_pty t (read_pty_into_tls_queue answers) s)) (sym e)
      (read_from_pty-Stays result decoder (read_pty_into_tls_queue answers) s h
        (read_pty-Stays answers))

read_from_tls-Stays :
    (result : Result (List PppPacket)) (decoder : TlsPacketStreamDecoder) (next : Forward → Step)
    (s : Forward)
    → IsForward s
    → ((s : Forward) → IsForward s → Stays (next s))
    → Stays (read_from_tls (some (result, decoder)) next s)
read_from_tls-Stays (err e) decoder next s h rest = with_tls_decoder s decoder h
read_from_tls-Stays (ok packets) decoder next s h rest =
    rest _ (queue_for_pty-Stays packets _ (with_tls_decoder s decoder h))

read_tls-Stays :
    (answers : List ReadAnswer) (s : Forward)
    → IsForward s
    → Stays (read_tls_into_pty_queue answers s)
unfolding read_tls_into_pty_queue
read_tls-Stays [] s h = h
read_tls-Stays (would_block ∷ answers) s h = h
read_tls-Stays (broken e ∷ answers) s h = h
read_tls-Stays (got [] ∷ answers) s h = h
read_tls-Stays (got (b ∷ bytes) ∷ answers) s h =
    let (result, decoder, e) = tls_push_bytes-Returned s.tls_decoder (b ∷ bytes) in
    subst (λ t. Stays (read_from_tls t (read_tls_into_pty_queue answers) s)) (sym e)
      (read_from_tls-Stays result decoder (read_tls_into_pty_queue answers) s h
        (read_tls-Stays answers))

write_pty-Stays :
    (answers : List WriteAnswer) (s : Forward) → IsForward s → Stays (write_pty answers s)
unfolding write_pty
write_pty-Stays answers s h =
    let (waits, kept) = write_available_keeps answers s.pty_out s.pty_written h.pty_waits in
    let written = write_available answers s.pty_out s.pty_written in
    record {
      tls_waits = h.tls_waits;
      pty_waits = waits;
      sent = h.sent;
      sent_whole = h.sent_whole;
      delivered = h.delivered;
      delivered_whole = λ more.
          sym (append_assoc written.2 (pending written.1) (encode_all s.hdlc_encoder more))
          ∙ ap (λ t. t ++ encode_all s.hdlc_encoder more) kept
          ∙ append_assoc s.pty_written (pending s.pty_out) (encode_all s.hdlc_encoder more)
          ∙ h.delivered_whole more;
    }

write_tls-Stays :
    (answers : List WriteAnswer) (s : Forward) → IsForward s → Stays (write_tls answers s)
unfolding write_tls
write_tls-Stays answers s h =
    let (waits, kept) = write_available_keeps answers s.tls_out s.tls_written h.tls_waits in
    record {
      tls_waits = waits;
      pty_waits = h.pty_waits;
      sent = h.sent;
      sent_whole = h.sent_whole ∙ ap ok (sym kept);
      delivered = h.delivered;
      delivered_whole = h.delivered_whole;
    }

abbrev Keeps : (Forward → Step) → Type 0
Keeps step = (s : Forward) → IsForward s → Stays (step s)

when-Keeps : (test : Bool) (step : Forward → Step) → Keeps step → Keeps (when test step)
when-Keeps true step keeps s h = keeps s h
when-Keeps false step keeps s h = h

then-Keeps :
    (first next : Forward → Step) → Keeps first → Keeps next → Keeps (λ s. after (first s) next)
then-Keeps first next a b s h = after-Stays (first s) next (a s h) b

exchange-Stays : (turn : Turn) (s : Forward) → IsForward s → Stays (exchange turn s)
unfolding exchange
exchange-Stays turn s₀ =
    let read_pty = when turn.pty_events.pollin (read_pty_into_tls_queue turn.pty_reads) in
    let read_tls = when turn.tls_events.pollin (read_tls_into_pty_queue turn.tls_reads) in
    let pty_writable = not (is_empty s₀.pty_out.chunks) && turn.pty_events.pollout in
    let tls_writable = not (is_empty s₀.tls_out.chunks) && turn.tls_events.pollout in
    let to_pty = when pty_writable (write_pty turn.pty_writes) in
    let to_tls = when tls_writable (write_tls turn.tls_writes) in
    then-Keeps read_pty (λ s. after (read_tls s) λ s. after (to_pty s) to_tls)
      (when-Keeps _ _ (read_pty-Stays turn.pty_reads))
      (then-Keeps read_tls (λ s. after (to_pty s) to_tls)
        (when-Keeps _ _ (read_tls-Stays turn.tls_reads))
        (then-Keeps to_pty to_tls (when-Keeps pty_writable _ (write_pty-Stays turn.pty_writes))
          (when-Keeps tls_writable _ (write_tls-Stays turn.tls_writes))))
      s₀

-- The loop goes on or has returned, in such a state: its decoders always return.
abbrev pub AllWhole : Forwarding → Type 0
AllWhole (running s) = IsForward s
AllWhole (returned result s) = IsForward s
AllWhole stuck = ⊥

ended-AllWhole :
    (step : Step) (next : Forward → Forwarding)
    → Stays step
    → ((s : Forward) → IsForward s → AllWhole (next s))
    → AllWhole (ended step next)
ended-AllWhole none next h rest = h
ended-AllWhole (some (err e, s)) next h rest = h
ended-AllWhole (some (ok _, s)) next h rest = rest s h

choice-AllWhole :
    (test : Bool) (a b : Forwarding) → AllWhole a → AllWhole b → AllWhole (if test then a else b)
choice-AllWhole true a b h h' = h
choice-AllWhole false a b h h' = h'

polled-AllWhole :
    (answer : Option OpenfortivpnError) (s : Forward) (a : Forwarding)
    → IsForward s
    → AllWhole a
    → AllWhole (elim answer as (λ x. Forwarding) [ some e ↦ returned (err e) s | none ↦ a ])
polled-AllWhole none s a h h' = h'
polled-AllWhole (some e) s a h h' = h

loop-AllWhole :
    (turns : List Turn) (s : Forward) → IsForward s → AllWhole (forward_with_callbacks turns s)
unfolding forward_with_callbacks
loop-AllWhole [] s h = h
loop-AllWhole (turn ∷ turns) s h =
    let later =
      ended-AllWhole (exchange turn s) (forward_with_callbacks turns) (exchange-Stays turn s h)
        (loop-AllWhole turns) in
    choice-AllWhole turn.should_stop _ _ h (
      polled-AllWhole turn.poll_error s _ h (choice-AllWhole _ (returned (ok s.stats) s) _ h later))

-- Whatever the descriptors and the callback answer, in any number of turns, the loop goes on or
-- returns, and the bytes written to the gateway with those that wait for it are whole packets in the
-- gateway's framing, one after another; on the side of pppd they are whole packets as a new codec
-- encodes them one after another.
pub forward_with_callbacks-AllWhole :
    (turns : List Turn) → AllWhole (forward_with_callbacks turns new_forward)
forward_with_callbacks-AllWhole turns = loop-AllWhole turns new_forward (record {
  tls_waits = refl;
  pty_waits = refl;
  sent = [];
  sent_whole = unfold write_all in refl;
  delivered = [];
  delivered_whole = λ more. refl;
})
