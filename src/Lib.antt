-- ===== src/Lib.antt =====
-- openfortivpn: a client for PPP tunnels over TLS.
--
-- The program logs in to a gateway, asks for the tunnel on the same TLS stream, and then moves PPP
-- packets: between that stream and a pppd process on a pseudo terminal, or, in proxy mode, between the
-- stream and a PPP engine of its own with a SOCKS5 server and a DNS client behind it. The modules
-- follow the files of src/.
--
-- - Common: helpers. Error is src/error.rs: `Result` with `?` as a bind, where a formatted message is
--   the list of its pieces. Bytes holds byte strings and big-endian words, Ipv4 `std::net::Ipv4Addr`,
--   Stream readers that end, Text the functions of `str` that are used.
-- - Hdlc: src/hdlc.rs. `HdlcCodec`, `encode`, `decode`, `find_frame`; Hdlc.Table is the checksum table.
--   `find_frame` returns its new `start` beside the length.
-- - Tunnel.Packet: src/tunnel/packet.rs, a packet and its frame on the TLS stream.
-- - Tunnel.Io: src/tunnel/io.rs, the stream of packets and `PppdPtyDecoder`.
-- - Tunnel.Forward: src/tunnel/forward.rs. `Forward` is the record of the locals of
--   `forward_with_callbacks`, with what was written to each side; `write_loop` is `write_available`,
--   `tls_push_bytes` the decoder of the TLS stream. Tunnel.Forward.Loop is the poll loop, over a list of
--   turns that hold what the system answers.
-- - Tunnel.PppEngine: src/tunnel/ppp_engine.rs. `PppEngine` is the record of its fields and operations
--   return the new record. Tunnel.PppEngine.Parse holds the parsers, Tunnel.PppEngine.Handle the
--   handlers; what a handler does after parsing is its `_dispatch`.
-- - Proxy.Dns: src/proxy/dns.rs; Proxy.Socks5: src/proxy/socks5.rs, with a connection as state.
-- - Config: src/config.rs, and the record of arguments of src/cli.rs. Config.File holds
--   `parse_config_file` and `apply_pair`, Config.CommandLine `apply_cli` and `from_sources`.
-- - Proxy.RouteTable: src/proxy/route_table.rs, with the two records of src/auth/portal.rs that it reads.
-- - NetPlan: src/net_plan.rs, the actions that set up routes and DNS.
-- - NetApply: src/net_apply.rs, which carries them out. `System` is what commands and files answer, and
--   a result comes with the calls made. NetApply.Plan holds `apply_network_plan` and `rollback`,
--   NetApply.Actions and NetApply.Servers what they call, NetApply.Parse and NetApply.Dns the texts.
-- - Http: src/http.rs. Http.Receive holds `http_receive`, over the list of what reads answer,
--   Http.Headers, Http.Cookies and Http.Encode the texts.
-- - Auth.Login: src/auth/login.rs. `authenticate` and `authenticate_with_saml_session` run over a list of
--   what each request comes to, and keep the requests. Auth.Login.Pages holds what is read from pages,
--   Auth.Login.Bodies the bodies of requests.
-- - Auth.Portal: src/auth/portal.rs, the requests, in the same way; Auth.Portal.Xml reads the
--   configuration, and its fuel is one more than the text is long.
-- - Auth.Saml: src/auth/saml.rs, over what the listener and its connections answer.
-- - Pinentry: src/pinentry.rs, the whole exchange with the program.
-- - Run: src/main.rs, the reconnect loop and the completion of the configuration.
-- - Strings: functions of `str` that these share.
--
-- A `Vec<u8>` is a list of numbers; that they are bytes is a hypothesis where it matters. A `String`
-- is the list of its bytes on the wire and in Pinentry, and of its characters elsewhere. A read out of
-- range is 0 and stands behind the length tests of the source. Words wrap around where the source casts, wraps or
-- counts; an `i32` is its bit pattern.
-- A reader is the bytes still to come, and ends; a writer is what was written, and takes every write.
--
-- Loops on fuel: `push_loop` has one round more than the buffer has bytes, since each round but the
-- last moves forward; `options_loop` has one more than the option bytes; the jumps of `skip_name` are
-- counted down from the 128 of the source. `push_bytes` would return `none` out of fuel.
-- `tls_loop` has one round more than the buffer has bytes, and `reconnect_loop` one more than reconnects
-- are allowed. The searches of Auth.Login.Pages have one round more than the text is long.
--
-- Parameters, as they are not part of the repository: `std::fs::read_to_string`, the parsers of
-- `SocketAddr` and of `Ipv4Addr`, the commands, files and UTF-8 conversions of `System`, `from_utf8` for
-- the headers of a response, the record `Env` of Auth.Login (UTF-8, and the prompt for
-- a secret), `from_utf8_lossy` of Auth.Saml, and the texts of the errors. What a theorem assumes of them
-- stands in it.
--
-- Not modelled: the argument parser clap, TLS (src/tls.rs), sockets and threads
-- (src/proxy/runtime.rs, src/proxy/netstack.rs), starting processes (src/tunnel/pppd.rs), terminal and
-- log output (src/logger.rs, src/user_input.rs), the order of calls in `run_tunnel` of src/main.rs.
mod Common
mod Strings
pub mod Hdlc
pub mod Tunnel
pub mod Proxy
pub mod Config
pub mod NetPlan
pub mod NetApply
pub mod Http
pub mod Pinentry
pub mod Auth
pub mod Run
