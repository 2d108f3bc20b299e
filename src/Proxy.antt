-- ===== src/Proxy.antt =====
-- src/proxy: the SOCKS5 proxy mode.
pub mod Dns
pub mod Socks5
pub mod RouteTable
mod Tests
