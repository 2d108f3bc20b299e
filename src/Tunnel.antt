-- ===== src/Tunnel.antt =====
-- src/tunnel: the packets of the tunnel, their streams, and the PPP engine.
pub mod Packet
pub mod Io
pub mod PppEngine
pub mod Forward
mod Tests
