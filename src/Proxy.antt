-- ===== src/Proxy.antt =====
-- internal/proxy: the blocklist, the scanning transport, the connection loop and the front server.
pub mod HostPort
pub mod Blocklist
pub mod ScanTransport
pub mod Chunked
pub mod Framing
pub mod Tunnel
pub mod Sync
pub mod Server
pub mod Connect
