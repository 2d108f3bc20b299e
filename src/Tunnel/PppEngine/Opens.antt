-- ===== src/Tunnel/PppEngine/Opens.antt =====
-- How the link of src/tunnel/ppp_engine.rs opens and closes, whatever packets come.
use openfortivpn_rs.Common.{
  ℕ, true, false, List, [], ◌∷◌, some, ◌≡◌, inl, inr, refl, arith, Bool-cases, ◌==◌, ==_iff, subst,
  drop, ◌∙◌, ap,
}
use openfortivpn_rs.Common.Bytes.{Bytes}
use openfortivpn_rs.Common.Error.{Result, ok, err, ◌>>=◌, >>=-eq-ok}
use openfortivpn_rs.Common.Ipv4.{Ipv4Addr, ◌==ip◌, unspecified, octets}
use openfortivpn_rs.Tunnel.Packet.{PppPacket}
use openfortivpn_rs.Tunnel.PppEngine.{
  PppEvent, up, opened, PppEngine, take_identifier, control_packet, queue_control,
  queue_protocol_reject, send_lcp_configure_request, send_ipcp_configure_request, is_expected,
  is_open, lcp_answer_request, lcp_acknowledged, protocol_lcp, protocol_ipcp, protocol_ipv4,
}
use openfortivpn_rs.Tunnel.PppEngine.Parse.{
  ControlPacket, parse_control_packet, parse_ipcp_ip_address, ppp_protocol, options_loop,
}
use openfortivpn_rs.Tunnel.PppEngine.Handle.{
  lcp_dispatch, handle_lcp, ipcp_acknowledged, ipcp_dispatch, handle_ipcp, by_protocol,
  handle_incoming, or_requested,
}
use openfortivpn_rs.Tunnel.PppEngine.Handshake.{handle_incoming-ipcp}

ipcp_dispatch_opens :
    (packet : ControlPacket) (payload : Bytes) (engine : PppEngine)
    → is_open engine ≡ false
    → is_open (ipcp_dispatch packet payload engine).1 ≡ true
    → (packet.code ≡ 2)
      × (is_expected packet.identifier engine.ipcp_identifier ≡ true)
      × (let ip = or_requested (parse_ipcp_ip_address packet.options) engine.requested_ip in
          ((ipcp_dispatch packet payload engine).0 ≡ up ip engine.peer_ip [] ∷ [])
          × ((ipcp_dispatch packet payload engine).1.local_ip ≡ some ip)
          × (ip ==ip unspecified ≡ false))
unfolding ipcp_dispatch ipcp_acknowledged send_ipcp_configure_request take_identifier queue_control
ipcp_dispatch_opens packet payload engine before after = ground arith

lcp_dispatch_opens :
    (packet : ControlPacket) (payload : Bytes) (engine : PppEngine)
    → is_open engine ≡ false
    → is_open (lcp_dispatch packet payload engine).1 ≡ false
unfolding lcp_dispatch lcp_answer_request lcp_acknowledged send_lcp_configure_request
    send_ipcp_configure_request take_identifier queue_control
lcp_dispatch_opens packet payload engine before = ground arith

-- The control packet is an IPCP Configure-Ack with the identifier of the last request, and the one
-- event is `Up` with the new local address.
pub record IsOpening (packet : PppPacket) (events : List PppEvent) (before after : PppEngine)
    : Type 0 where
  pub control : ControlPacket
  pub ip : Ipv4Addr
  pub is_ipcp : ppp_protocol packet.data' ≡ ok protocol_ipcp
  pub parsed : parse_control_packet (drop 2 packet.data') ≡ ok control
  pub is_ack : control.code ≡ 2
  pub expected : is_expected control.identifier before.ipcp_identifier ≡ true
  pub reported : events ≡ up ip before.peer_ip [] ∷ []
  pub local : after.local_ip ≡ some ip
  pub assigned : ip ==ip unspecified ≡ false

abbrev Opens : PppPacket → PppEngine → Result (List PppEvent × PppEngine) → Type 0
Opens packet before (ok (events, after)) =
    is_open after ≡ true → IsOpening packet events before after
Opens packet before (err e) = Unit

handle_lcp-Opens :
    (packet : PppPacket) (engine : PppEngine)
    → is_open engine ≡ false
    → Opens packet engine (handle_lcp (drop 2 packet.data') engine)
unfolding handle_lcp
handle_lcp-Opens packet engine before = go (parse_control_packet (drop 2 packet.data'))
  where
    go :
        (m : Result ControlPacket)
        → Opens packet engine (m >>= λ c. ok (lcp_dispatch c (drop 2 packet.data') engine))
    go (ok c) =
        λ after. absurd (cc (after, lcp_dispatch_opens c (drop 2 packet.data') engine before))
    go (err e) = tt

handle_ipcp-Opens :
    (packet : PppPacket) (engine : PppEngine)
    → is_open engine ≡ false
    → ppp_protocol packet.data' ≡ ok protocol_ipcp
    → Opens packet engine (handle_ipcp (drop 2 packet.data') engine)
unfolding handle_ipcp
handle_ipcp-Opens packet engine before p = go (parse_control_packet (drop 2 packet.data')) refl
  where
    go :
        (m : Result ControlPacket)
        → parse_control_packet (drop 2 packet.data') ≡ m
        → Opens packet engine (m >>= λ c. ok (ipcp_dispatch c (drop 2 packet.data') engine))
    go (ok c) e = λ after.
        let o = ipcp_dispatch_opens c (drop 2 packet.data') engine before after in
        record {
          control = c;
          ip = or_requested (parse_ipcp_ip_address c.options) engine.requested_ip;
          is_ipcp = p;
          parsed = e;
          is_ack = o.0;
          expected = o.1;
          reported = o.2.0;
          local = o.2.1;
          assigned = o.2.2;
        }
    go (err x) e = tt

queue_protocol_reject-is_open :
    (protocol : ℕ) (payload : Bytes) (engine : PppEngine)
    → is_open (queue_protocol_reject protocol payload engine) ≡ is_open engine
unfolding queue_protocol_reject take_identifier queue_control
queue_protocol_reject-is_open protocol payload engine = refl

by_protocol-Opens :
    (packet : PppPacket) (protocol : ℕ) (engine : PppEngine)
    → is_open engine ≡ false
    → ppp_protocol packet.data' ≡ ok protocol
    → Opens packet engine (by_protocol protocol (drop 2 packet.data') engine)
unfolding by_protocol
by_protocol-Opens packet protocol engine before p = elim (Bool-cases (protocol == protocol_ipv4)) [
  | inl ipv4 ↦ rw ipv4 (λ after. absurd (cc (after, before)))
  | inr other ↦ elim (Bool-cases (protocol == protocol_lcp)) [
    | inl lcp ↦ rw (other, lcp) (handle_lcp-Opens packet engine before)
    | inr other' ↦ elim (Bool-cases (protocol == protocol_ipcp)) [
      | inl ipcp ↦
          rw (other, other', ipcp)
            (handle_ipcp-Opens packet engine before
              (p ∙ ap ok ((==_iff protocol protocol_ipcp).0 ipcp)))
      | inr unknown ↦
          rw (other, other', unknown)
            (λ after. absurd (
              cc (
                after,
                before,
                queue_protocol_reject-is_open protocol (drop 2 packet.data') engine,
              )))
    ]
  ]
]

-- A packet that opens the link, when it was not open, is an IPCP Configure-Ack with the identifier of
-- the last request; it sets a local address other than 0.0.0.0, and the one event reports that address.
pub handle_incoming_opens :
    (packet : PppPacket) (engine engine' : PppEngine) (events : List PppEvent)
    → is_open engine ≡ false
    → handle_incoming packet engine ≡ ok (events, engine')
    → is_open engine' ≡ true
    → IsOpening packet events engine engine'
unfolding handle_incoming
handle_incoming_opens packet engine engine' events before h =
    let (protocol, a, b) =
      >>=-eq-ok (ppp_protocol packet.data') (λ p. by_protocol p (drop 2 packet.data') engine) h in
    subst (Opens packet engine) b (by_protocol-Opens packet protocol engine before a)

pub acknowledgement_opens :
    (identifier : ℕ) (ip : Ipv4Addr) (engine : PppEngine)
    → engine.ipcp_identifier ≡ some identifier
    → ip ==ip unspecified ≡ false
    → handle_incoming (control_packet protocol_ipcp 2 identifier (3 ∷ 6 ∷ octets ip)) engine
      ≡ ok (up ip engine.peer_ip [] ∷ [], record engine { local_ip = some ip; state = opened })
acknowledgement_opens identifier ip engine e real =
    (handle_incoming-ipcp 2 identifier (3 ∷ 6 ∷ octets ip) engine (omega arith)).1
    ∙ ap ok dispatched
  where
    dispatched :
        ipcp_dispatch
          (record { code = 2; identifier = identifier; options = 3 ∷ 6 ∷ octets ip })
          (handle_incoming-ipcp 2 identifier (3 ∷ 6 ∷ octets ip) engine (omega arith)).0
          engine
        ≡ (up ip engine.peer_ip [] ∷ [], record engine { local_ip = some ip; state = opened })
    dispatched =
        unfold ipcp_dispatch ipcp_acknowledged parse_ipcp_ip_address options_loop in ground arith
