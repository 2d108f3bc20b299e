-- ===== src/Tunnel/PppEngine/Replies.antt =====
-- The answers of src/tunnel/ppp_engine.rs to the requests of the peer.
use openfortivpn_rs.Common.{
  ℕ, ◌≤◌, List, [], ◌∷◌, ◌++◌, append_assoc, append-nil, Bool-cases, inl, inr, ◌≡◌, refl, sym, ◌∙◌,
  length,
}
use openfortivpn_rs.Common.Bytes.{Bytes}
use openfortivpn_rs.Common.Error.{Result, ok}
use openfortivpn_rs.Tunnel.Packet.{PppPacket}
use openfortivpn_rs.Tunnel.PppEngine.{
  PppEvent, down, closed, PppEngine, control_packet, queue_control, take_identifier,
  send_lcp_configure_request, lcp_answer_request, protocol_lcp, protocol_ipcp, is_initial,
}
use openfortivpn_rs.Tunnel.PppEngine.Handle.{lcp_dispatch, ipcp_dispatch, handle_incoming}
use openfortivpn_rs.Tunnel.PppEngine.Handshake.{handle_incoming-lcp, handle_incoming-ipcp}

-- The packet is handled with these events, and `reply` is queued behind all that was queued before,
-- in front of what the engine itself asks.
abbrev pub Answers :
    PppEngine → List PppEvent → PppPacket → Result (List PppEvent × PppEngine) → Type 0
Answers engine events reply result =
    (after : PppEngine) × (more : List PppPacket) × (result ≡ ok (events, after))
    × (after.outgoing ≡ engine.outgoing ++ reply ∷ more)

module _ (identifier : ℕ) (options : Bytes) (engine : PppEngine)
    (fits : length options ≤ 65531) where
  answer_request_outgoing :
      (e : PppEngine)
      → (more : List PppPacket) × ((lcp_answer_request e).outgoing ≡ e.outgoing ++ more)
  unfolding lcp_answer_request send_lcp_configure_request take_identifier queue_control
  answer_request_outgoing e = elim (Bool-cases (is_initial e.state)) [
    | inl first ↦ rw first (_, refl)
    | inr later ↦ rw later ([], sym (append-nil e.outgoing))
  ]

  -- Configure requests of both protocols, with options of up to 65531 bytes, are acknowledged with
  -- their identifier and their options, behind all that was queued.
  pub configure_acknowledged :
      Answers engine []
        (control_packet protocol_lcp 2 identifier options)
        (handle_incoming (control_packet protocol_lcp 1 identifier options) engine)
      × Answers engine []
          (control_packet protocol_ipcp 2 identifier options)
          (handle_incoming (control_packet protocol_ipcp 1 identifier options) engine)
  unfolding lcp_dispatch ipcp_dispatch queue_control
  configure_acknowledged =
      let acked = queue_control protocol_lcp 2 identifier options engine in
      let (more, e) = answer_request_outgoing acked in
      (
        (
          lcp_answer_request acked,
          more,
          (handle_incoming-lcp 1 identifier options engine fits).1,
          e ∙ queued more,
        ),
        (_, [], (handle_incoming-ipcp 1 identifier options engine fits).1, refl),
      )
    where
      queued :
          (more : List PppPacket)
          → (queue_control protocol_lcp 2 identifier options engine).outgoing ++ more
            ≡ engine.outgoing ++ (control_packet protocol_lcp 2 identifier options ∷ more)
      queued more =
          append_assoc engine.outgoing (control_packet protocol_lcp 2 identifier options ∷ []) more

  -- A terminate request of either protocol closes the link, reports `Down` and is acknowledged.
  pub terminate_acknowledged :
      ((after : PppEngine) × (handle_incoming
            (control_packet protocol_lcp 5 identifier options)
            engine
          ≡ ok (down ∷ [], after))
        × (after.state ≡ closed)
        × (after.outgoing
            ≡ engine.outgoing ++ control_packet protocol_lcp 6 identifier options ∷ []))
      × ((after : PppEngine) × (handle_incoming
              (control_packet protocol_ipcp 5 identifier options)
              engine
            ≡ ok (down ∷ [], after))
          × (after.state ≡ closed)
          × (after.outgoing
              ≡ engine.outgoing ++ control_packet protocol_ipcp 6 identifier options ∷ []))
  unfolding lcp_dispatch ipcp_dispatch queue_control
  terminate_acknowledged = (
    (_, (handle_incoming-lcp 5 identifier options engine fits).1, refl, refl),
    (_, (handle_incoming-ipcp 5 identifier options engine fits).1, refl, refl),
  )
