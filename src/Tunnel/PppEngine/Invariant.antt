-- ===== src/Tunnel/PppEngine/Invariant.antt =====
-- The invariant of the engine of src/tunnel/ppp_engine.rs, kept by every operation.
use openfortivpn_rs.Common.{
  ℕ, ◌<◌, false, List, Option, none, some, ◌≡◌, inl, inr, arith, Bool-cases, ◌==◌, drop, subst,
}
use openfortivpn_rs.Common.Bytes.{Bytes}
use openfortivpn_rs.Common.Error.{Result, ok, err, ◌>>=◌, >>=-eq-ok}
use openfortivpn_rs.Common.Ipv4.{Ipv4Addr, ◌==ip◌, unspecified}
use openfortivpn_rs.Tunnel.Packet.{PppPacket}
use openfortivpn_rs.Tunnel.PppEngine.{
  PppEvent, LinkState, initial, lcp_request_sent, lcp_opened, ipcp_request_sent, opened, closed,
  PppEngine, new_engine, take_identifier, queue_control, queue_protocol_reject,
  send_lcp_configure_request, send_ipcp_configure_request, start, lcp_answer_request,
  lcp_acknowledged, protocol_ipv4, protocol_lcp, protocol_ipcp,
}
use openfortivpn_rs.Tunnel.PppEngine.Parse.{ControlPacket, parse_control_packet, ppp_protocol}
use openfortivpn_rs.Tunnel.PppEngine.Handle.{
  lcp_dispatch, handle_lcp, ipcp_acknowledged, ipcp_dispatch, handle_ipcp, by_protocol,
  handle_incoming, next_outgoing, drain_outgoing,
}

abbrev pub IsSome : {A : Type 0} → Option A → Type 0
IsSome none = ⊥
IsSome (some a) = Unit

-- An address that is not 0.0.0.0.
abbrev pub IsAssigned : Option Ipv4Addr → Type 0
IsAssigned none = ⊥
IsAssigned (some ip) = ip ==ip unspecified ≡ false

-- What each state knows of the identifiers and of the local address. No operation ends in `lcp_opened`.
abbrev pub StateInv : LinkState → Option ℕ → Option ℕ → Option Ipv4Addr → Type 0
StateInv initial lcp ipcp local = (lcp ≡ none) × (ipcp ≡ none) × (local ≡ none)
StateInv lcp_request_sent lcp ipcp local = IsSome lcp × (ipcp ≡ none) × (local ≡ none)
StateInv lcp_opened lcp ipcp local = ⊥
StateInv ipcp_request_sent lcp ipcp local = IsSome lcp × IsSome ipcp × (local ≡ none)
StateInv opened lcp ipcp local = IsSome ipcp × IsAssigned local
StateInv closed lcp ipcp local = Unit

pub record IsValid (engine : PppEngine) : Type 0 where
  pub identifier_pos : 0 < engine.next_identifier
  pub identifier_lt : engine.next_identifier < 256
  pub state_inv : StateInv engine.state engine.lcp_identifier engine.ipcp_identifier engine.local_ip

take_identifier_range :
    (engine : PppEngine)
    → (0 < (take_identifier engine).1.next_identifier)
      × ((take_identifier engine).1.next_identifier < 256)
unfolding take_identifier
take_identifier_range engine = ground arith

-- The engine of `new`, and of `start`.
pub start-IsValid : (engine : PppEngine) → IsValid engine → IsValid (start engine)
unfolding start send_lcp_configure_request take_identifier queue_control
start-IsValid engine v = ground arith

pub lcp_dispatch-IsValid :
    (packet : ControlPacket) (payload : Bytes) (engine : PppEngine)
    → IsValid engine
    → IsValid (lcp_dispatch packet payload engine).1
unfolding lcp_dispatch lcp_answer_request lcp_acknowledged send_lcp_configure_request
    send_ipcp_configure_request take_identifier queue_control
lcp_dispatch-IsValid packet payload engine v = ground arith

pub ipcp_dispatch-IsValid :
    (packet : ControlPacket) (payload : Bytes) (engine : PppEngine)
    → IsValid engine
    → IsValid (ipcp_dispatch packet payload engine).1
unfolding ipcp_dispatch ipcp_acknowledged send_ipcp_configure_request take_identifier queue_control
ipcp_dispatch-IsValid packet payload engine v = ground arith

queue_protocol_reject-IsValid :
    (protocol : ℕ) (payload : Bytes) (engine : PppEngine)
    → IsValid engine
    → IsValid (queue_protocol_reject protocol payload engine)
unfolding queue_protocol_reject take_identifier queue_control
queue_protocol_reject-IsValid protocol payload engine v = ground arith

abbrev pub Keeps : Result (List PppEvent × PppEngine) → Type 0
Keeps (ok (events, engine)) = IsValid engine
Keeps (err e) = Unit

parsed-Keeps :
    (m : Result ControlPacket) (f : ControlPacket → List PppEvent × PppEngine)
    → ((packet : ControlPacket) → IsValid (f packet).1)
    → Keeps (m >>= λ packet. ok (f packet))
parsed-Keeps (ok packet) f h = h packet
parsed-Keeps (err e) f h = tt

handle_lcp-Keeps :
    (payload : Bytes) (engine : PppEngine) → IsValid engine → Keeps (handle_lcp payload engine)
unfolding handle_lcp
handle_lcp-Keeps payload engine v =
    parsed-Keeps (parse_control_packet payload) (λ packet. lcp_dispatch packet payload engine)
      (λ packet. lcp_dispatch-IsValid packet payload engine v)

handle_ipcp-Keeps :
    (payload : Bytes) (engine : PppEngine) → IsValid engine → Keeps (handle_ipcp payload engine)
unfolding handle_ipcp
handle_ipcp-Keeps payload engine v =
    parsed-Keeps (parse_control_packet payload) (λ packet. ipcp_dispatch packet payload engine)
      (λ packet. ipcp_dispatch-IsValid packet payload engine v)

by_protocol-Keeps :
    (protocol : ℕ) (payload : Bytes) (engine : PppEngine)
    → IsValid engine
    → Keeps (by_protocol protocol payload engine)
unfolding by_protocol
by_protocol-Keeps protocol payload engine v = elim (Bool-cases (protocol == protocol_ipv4)) [
  | inl ipv4 ↦ rw ipv4 v
  | inr other ↦ elim (Bool-cases (protocol == protocol_lcp)) [
    | inl lcp ↦ rw (other, lcp) (handle_lcp-Keeps payload engine v)
    | inr other' ↦ elim (Bool-cases (protocol == protocol_ipcp)) [
      | inl ipcp ↦ rw (other, other', ipcp) (handle_ipcp-Keeps payload engine v)
      | inr unknown ↦
          rw (other, other', unknown) (queue_protocol_reject-IsValid protocol payload engine v)
    ]
  ]
]

-- A packet from the peer that is handled keeps the invariant.
pub handle_incoming-IsValid :
    (packet : PppPacket) (engine engine' : PppEngine) (events : List PppEvent)
    → IsValid engine
    → handle_incoming packet engine ≡ ok (events, engine')
    → IsValid engine'
unfolding handle_incoming
handle_incoming-IsValid packet engine engine' events v h =
    let (protocol, a, b) =
      >>=-eq-ok (ppp_protocol packet.data') (λ p. by_protocol p (drop 2 packet.data') engine) h in
    subst Keeps b (by_protocol-Keeps protocol (drop 2 packet.data') engine v)

-- What the program does with an engine.
pub data Step : PppEngine → PppEngine → Type 0 where
  starts : (engine : PppEngine) → Step engine (start engine)
  handles :
      (packet : PppPacket) (events : List PppEvent) (engine engine' : PppEngine)
      → handle_incoming packet engine ≡ ok (events, engine')
      → Step engine engine'
  sends : (engine : PppEngine) → Step engine (next_outgoing engine).1
  drains : (engine : PppEngine) → Step engine (drain_outgoing engine).1

pub data Reach : PppEngine → Type 0 where
  here : Reach new_engine
  step : {engine engine' : PppEngine} → Reach engine → Step engine engine' → Reach engine'

next_outgoing-IsValid : (engine : PppEngine) → IsValid engine → IsValid (next_outgoing engine).1
unfolding next_outgoing
next_outgoing-IsValid engine v = ground arith

drain_outgoing-IsValid : (engine : PppEngine) → IsValid engine → IsValid (drain_outgoing engine).1
unfolding drain_outgoing
drain_outgoing-IsValid engine v = ground arith

Step-IsValid : {engine engine' : PppEngine} → Step engine engine' → IsValid engine → IsValid engine'
Step-IsValid (starts engine) v = start-IsValid engine v
Step-IsValid (handles packet events engine engine' h) v =
    handle_incoming-IsValid packet engine engine' events v h
Step-IsValid (sends engine) v = next_outgoing-IsValid engine v
Step-IsValid (drains engine) v = drain_outgoing-IsValid engine v

-- In every state that the engine reaches, with whatever packets: the next identifier is between 1 and
-- 255; in the initial state there is neither identifier nor local address; while it waits for an LCP
-- or an IPCP acknowledgement the identifiers sent are known and there is no local address; it never
-- rests between the two; and an open link has an IPCP identifier and a local address other than 0.0.0.0.
pub Reach-IsValid : {engine : PppEngine} → Reach engine → IsValid engine
Reach-IsValid here = ground arith
Reach-IsValid (step r s) = Step-IsValid s (Reach-IsValid r)
